-- ===== src/Hooks/Requests.antt =====
-- The events that a client and a service hand on for the same request
-- (modality-ros-hook/src/hooks.rs).
use modality_ros.Prelude.{◌≡◌, Option, some, nat_eq}
use modality_ros.Events.{RosEvent}
use modality_ros.Memory.{Memory}
use modality_ros.Hooks.{Hooks, Context, send, send_found}

pub send_found-some :
    {A : Type 0} (cx : Context) (o : Option A) (f : A → RosEvent) (h : Hooks) (a : A)
    → o ≡ some a
    → send_found cx o f h ≡ send cx (f a) h
unfolding send_found
send_found-some cx o f h a e i = send_found cx (e i) f h
