-- ===== src/System/Handling.antt =====
-- What the spawned thread has handled (modality-ros-hook/src/hooks.rs,
-- modality-ros-hook/src/message_processor.rs).
use modality_ros.Prelude.{
  ℕ, String, ◌≡◌, refl, sym, ap, subst, ◌∙◌, Bool, true, false, Option, some, List, [], ◌∷◌, ◌++◌,
  map, arith,
}
use modality_ros.Prelude.Dict.{Value}
use modality_ros.Events.{RosEvent}
use modality_ros.Client.{Backend}
use modality_ros.Processor
use modality_ros.Processor.{MessageProcessor}
use modality_ros.Processor.Loop.{handle, message_loop}
use modality_ros.Hooks.{Context, Channel, try_send, receive}
use modality_ros.Hooks.Machine.{perform}
use modality_ros.Hooks.Channels.Runs.{perform-Keeps}
use modality_ros.System
use modality_ros.System.Moves.{after_call-Keeps, run-Keeps}
use modality_ros.System.{
  Worker, Process, Move, call, start, work, seen_by, after_call, connect, start_worker, work_on,
  advance, proceed, run,
}

pub receive-queue :
    (ch : Channel) (e : RosEvent) (queue : List RosEvent)
    → ch.queue ≡ e ∷ queue
    → receive ch ≡ record ch { received = ch.received ++ e ∷ []; queue = queue }
unfolding receive
receive-queue ch e queue h =
    ap
      (λ l. elim l as (λ _. Channel) [
        | [] ↦ ch
        | e' ∷ q ↦ record ch { received = ch.received ++ e' ∷ []; queue = q }
      ])
      h

-- Sending changes neither what was taken nor whether the thread runs.
pub try_send-received :
    (capacity : ℕ) (e : RosEvent) (ch : Channel)
    → ((try_send capacity e ch).received ≡ ch.received)
      × ((try_send capacity e ch).closed ≡ ch.closed)
unfolding try_send
try_send-received capacity e ch = ground arith

map-last :
    {A B : Type 0} (f : A → B) (l : List A) (a : A) → map f (l ++ a ∷ []) ≡ map f l ++ f a ∷ []
map-last f [] a = refl
map-last f (b ∷ l) a = λ i. f b ∷ map-last f l a i

module _ (backend : Backend) (run_id : String) where
  pub message_loop-last :
      (events : List (RosEvent × Option ℕ)) (e : RosEvent) (reading : Option ℕ)
      (p : MessageProcessor)
      → message_loop backend run_id (events ++ (e, reading) ∷ []) p
        ≡ (handle backend run_id e reading (message_loop backend run_id events p)).1
  unfolding message_loop
  message_loop-last [] e reading p = refl
  message_loop-last ((e', r') ∷ events) e reading p =
      message_loop-last events e reading (handle backend run_id e' r' p).1

  -- The processor is what `message_loop` makes of the events that were taken from the channel,
  -- with some readings of the clock.
  abbrev pub Handles : Worker → Channel → Type 0
  Handles Worker.starting ch = (ch.received ≡ []) × (ch.closed ≡ false)
  Handles Worker.ended ch = (ch.received ≡ []) × (ch.closed ≡ true)
  Handles (Worker.running p) ch =
      ((events : List (RosEvent × Option ℕ)) × (map (λ x. x.0) events ≡ ch.received)
        × (p ≡ message_loop backend run_id events Processor.new))
      × (ch.closed ≡ false)

  Handles-send :
      (w : Worker) (capacity : ℕ) (e : RosEvent) (ch : Channel)
      → Handles w ch
      → Handles w (try_send capacity e ch)
  Handles-send Worker.starting capacity e ch (r, c) =
      let (same, open_still) = try_send-received capacity e ch in (same ∙ r, open_still ∙ c)
  Handles-send Worker.ended capacity e ch (r, c) =
      let (same, open_still) = try_send-received capacity e ch in (same ∙ r, open_still ∙ c)
  Handles-send (Worker.running p) capacity e ch ((events, taken, at), c) =
      let (same, open_still) = try_send-received capacity e ch in
      ((events, taken ∙ sym same, at), open_still ∙ c)

  Handles-connect :
      (built connected : Bool) (s : Process)
      → Handles Worker.starting s.shared.channel
      → Handles (connect built connected s).worker (connect built connected s).shared.channel
  unfolding connect message_loop
  Handles-connect true true s (r, c) = (([], sym r, refl), c)
  Handles-connect true false s (r, c) = (r, refl)
  Handles-connect false connected s (r, c) = (r, refl)

  abbrev Handling : Process → Type 0
  Handling s = Handles s.worker s.shared.channel

  Handles-start_worker :
      (w : Worker) (built connected : Bool) (s : Process)
      → s.worker ≡ w
      → Handling s
      → Handling (start_worker w built connected s)
  unfolding start_worker
  Handles-start_worker Worker.starting built connected s e h =
      Handles-connect built connected s (subst (λ w. Handles w s.shared.channel) e h)
  Handles-start_worker (Worker.running p) built connected s e h = h
  Handles-start_worker Worker.ended built connected s e h = h

module _ (cx : Context) (backend : Backend) (run_id : String) where
  Handles-work_on :
      (w : Worker) (queue : List RosEvent) (reading : Option ℕ) (s : Process)
      → s.worker ≡ w
      → s.shared.channel.queue ≡ queue
      → Handling backend run_id s
      → Handling backend run_id (work_on cx backend run_id w queue reading s)
  unfolding work_on
  Handles-work_on Worker.starting queue reading s at_w at_q h = h
  Handles-work_on Worker.ended queue reading s at_w at_q h = h
  Handles-work_on (Worker.running p) [] reading s at_w at_q h = h
  Handles-work_on (Worker.running p) (e ∷ queue) reading s at_w at_q h =
      let ((events, taken, at), c) =
        subst (λ w. Handles backend run_id w s.shared.channel) at_w h in
      subst (Handles backend run_id (Worker.running (handle backend run_id e reading p).1))
        (sym (receive-queue s.shared.channel e queue at_q))
        (
          (
            events ++ (e, reading) ∷ [],
            map-last (λ x. x.0) events (e, reading) ∙ ap (λ l. l ++ e ∷ []) taken,
            ap (λ p'. (handle backend run_id e reading p').1) at
                ∙ sym (message_loop-last backend run_id events e reading Processor.new),
          ),
          c,
        )

  advance-Handles :
      (m : Move) (s : Process)
      → Handling backend run_id s
      → Value (Handling backend run_id) (advance cx backend run_id m s)
  unfolding advance
  advance-Handles (call t c) s h =
      after_call-Keeps (Handling backend run_id) t s (perform cx c (seen_by t s)) (
        perform-Keeps cx (Handles backend run_id s.worker)
          (Handles-send backend run_id s.worker cx.config.buffer_size) c (seen_by t s) h)
  advance-Handles (start built connected) s h =
      Handles-start_worker backend run_id s.worker built connected s refl h
  advance-Handles (work reading) s h =
      Handles-work_on s.worker s.shared.channel.queue reading s refl refl h

  -- However the calls of the threads and the steps of the spawned thread mix: the processor is
  -- what `message_loop` makes, from the new processor, of exactly the events that were taken from
  -- the channel, in their order; and nothing is taken before the client is connected or when it
  -- could not be. The channel is closed exactly when the spawned thread has ended.
  pub run-Handles :
      (moves : List Move) (s : Process)
      → run cx backend run_id moves System.unstarted ≡ some s
      → Handles backend run_id s.worker s.shared.channel
  run-Handles moves s e =
      run-Keeps cx backend run_id (Handling backend run_id) advance-Handles moves System.unstarted s
        (refl, refl) e
