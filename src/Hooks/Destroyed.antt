-- ===== src/Hooks/Destroyed.antt =====
-- What is left of an object that was destroyed (modality-ros-hook/src/hooks.rs).
use modality_ros.Prelude.{
  if-true, ℕ, ◌≡◌, refl, ◌∙◌, true, Option, none, some, ◌==◌, ◌||◌, nat_eq, if-either, arith,
}
use modality_ros.Prelude.Int.{ℤ}
use modality_ros.Prelude.Dict.{Dict, lookup, remove, lookup-remove}
use modality_ros.Events.{RosEvent}
use modality_ros.Memory.{Memory}
use modality_ros.Hooks.{Hooks, Context, send_found}
use modality_ros.Hooks.Registry.{after_destroy_publisher, after_destroy_subscription}
use modality_ros.Hooks.Services.{
  Client, RequestId, after_destroy_service, after_destroy_client, after_send_request,
  after_take_request, after_send_response, after_take_response,
}
use modality_ros.Hooks.Messages.{MessageInfo, before_publish, after_take_with_info}

==_same : (k : ℕ) → (k == k) ≡ true
unfolding nat_eq
==_same k = ground arith

lookup-remove_same : {V : Type 0} (k : ℕ) (d : Dict ℕ V) → lookup k (remove k d) ≡ none
lookup-remove_same k d = lookup-remove k k d ∙ if-true (k == k) none (lookup k d) (==_same k)

send_found-none :
    {A : Type 0} (cx : Context) (o : Option A) (f : A → RosEvent) (h : Hooks)
    → o ≡ none
    → send_found cx o f h ≡ h
unfolding send_found
send_found-none cx none f h e = refl
send_found-none cx (some a) f h e = cc

on_none :
    {A B : Type 0} (o : Option A) (b : B) (f : A → B)
    → o ≡ none
    → (elim o as (λ _. B) [ none ↦ b | some a ↦ f a ]) ≡ b
on_none none b f e = refl
on_none (some a) b f e = cc

module _ (cx : Context) where
  publish_unknown :
      (k : ℕ) (mem : Memory) (m : ℕ) (h : Hooks)
      → lookup k h.publishers ≡ none
      → before_publish cx k mem m h ≡ h
  unfolding before_publish
  publish_unknown k mem m h e =
      if-either (λ x. x ≡ h) (k == 0 || m == 0) h _ refl (on_none (lookup k h.publishers) h _ e)

  take_unknown :
      (k : ℕ) (mem : Memory) (m : ℕ) (info : MessageInfo) (h : Hooks)
      → lookup k h.subscriptions ≡ none
      → after_take_with_info cx k mem m info h ≡ h
  unfolding after_take_with_info
  take_unknown k mem m info h e = on_none (lookup k h.subscriptions) h _ e

  -- Once a publisher has been destroyed, whether it was known or not, a publication by its address
  -- changes nothing, and so does a reception by the address of a destroyed subscription.
  pub before_publish-destroyed :
      (k : ℕ) (clock : Option ℕ) (mem : Memory) (m : ℕ) (info : MessageInfo) (h : Hooks)
      → (before_publish cx k mem m (after_destroy_publisher cx k clock h)
          ≡ after_destroy_publisher cx k clock h)
        × (after_take_with_info cx k mem m info (after_destroy_subscription cx k clock h)
            ≡ after_destroy_subscription cx k clock h)
  unfolding after_destroy_publisher after_destroy_subscription
  before_publish-destroyed k clock mem m info h = (
    publish_unknown k mem m _ (lookup-remove_same k _),
    take_unknown k mem m info _ (lookup-remove_same k _),
  )

  -- Once a service has been destroyed, requests and responses by its address change nothing, and
  -- so it is for a client.
  pub after_send_response-destroyed :
      (k : ℕ) (client : Client) (id : RequestId) (n : ℤ) (mem : Memory) (m : ℕ)
      (clock later : Option ℕ) (h : Hooks)
      → let served = after_destroy_service cx k clock h in
        let left = after_destroy_client cx client.address clock h in
        (after_take_request cx k id mem m later served ≡ served)
        × (after_send_response cx k id mem m later served ≡ served)
        × (after_send_request cx client mem m n later left ≡ left)
        × (after_take_response cx client n mem m later left ≡ left)
  unfolding after_destroy_service after_destroy_client after_take_request after_send_response
      after_send_request after_take_response
  after_send_response-destroyed k client id n mem m clock later h = (
    send_found-none cx _ _ _ (lookup-remove_same k _),
    send_found-none cx _ _ _ (lookup-remove_same k _),
    send_found-none cx _ _ _ (lookup-remove_same client.address _),
    send_found-none cx _ _ _ (lookup-remove_same client.address _),
  )
