-- ===== src/Hooks/Announced/Runs.antt =====
-- The hooks of messages and of requests, every run of the hooks, and the timelines of their events
-- (modality-ros-hook/src/hooks.rs).
use modality_ros.Prelude.{
  ℕ, ◌≡◌, refl, sym, subst, Option, none, some, List, [], ◌∷◌, nat_eq, string_eq, All, map,
  if-either, ◌==◌, ◌||◌,
}
use modality_ros.Prelude.Dict.{lookup, Value}
use modality_ros.Api.{TimelineId, Kvs}
use modality_ros.Events.{RosEvent, CapturedMessage, CapturedMessageWithTime}
use modality_ros.Memory.{Memory}
use modality_ros.Schema.{flat_size}
use modality_ros.Hooks.{Hooks, Context, PublisherState, SubscriptionState, receive, initial}
use modality_ros.Hooks.Services.{bytes_at}
use modality_ros.Hooks.Messages.{
  MessageInfo, TimeSpec, publication, stamped, taken, send_all, before_publish, after_clock_gettime,
  after_take_with_info,
}
use modality_ros.Hooks.Machine
use modality_ros.Hooks.Machine.{Hook, Action, perform, step, continue, run}
use modality_ros.Hooks.Channels.{Intact, accepted, accepted-receive, Intact-receive}
use modality_ros.Hooks.Announced.{timeline_of, Known, InOrder, Waiting, Tables}
use modality_ros.Hooks.Announced.Tables.{
  lookup-publishers, lookup-subscriptions, lookup-services, lookup-clients,
  last_captured_message-Inv,
}
use modality_ros.Hooks.Announced.Steps.{
  create_node-Inv, destroy_node-Inv, create_publisher-Inv, destroy_publisher-Inv,
  create_subscription-Inv, destroy_subscription-Inv, create_service-Inv, destroy_service-Inv,
  create_client-Inv, destroy_client-Inv,
}
use modality_ros.Hooks.Announced.Rules.{Inv, send_found-Inv, send_all-Inv}

-- A captured message that is in a list for the clock keeps its timeline.
All-Known-map :
    {A : Type 0} (es : List RosEvent) (f : A → CapturedMessage) (t : TimelineId)
    (timeline : (a : A) → (f a).node_timeline_id ≡ t) (more : List A)
    → Known es t
    → All (λ (m : CapturedMessage). Known es m.node_timeline_id) (map f more)
All-Known-map es f t timeline [] known = tt
All-Known-map es f t timeline (a ∷ more) known =
    (subst (Known es) (sym (timeline a)) known, All-Known-map es f t timeline more known)

All-Known_sent :
    {A : Type 0} (es : List RosEvent) (f : A → CapturedMessageWithTime) (known_of : A → TimelineId)
    (timeline : (a : A) → (f a).msg.node_timeline_id ≡ known_of a) (more : List A)
    → All (λ a. Known es (known_of a)) more
    → All (λ (m : CapturedMessageWithTime). Known es m.msg.node_timeline_id) (map f more)
All-Known_sent es f known_of timeline [] known = tt
All-Known_sent es f known_of timeline (a ∷ more) known = (
  subst (Known es) (sym (timeline a)) known.0,
  All-Known_sent es f known_of timeline more known.1,
)

All-constant : {A : Type 0} (P : Type 0) (more : List A) → P → All (λ (a : A). P) more
All-constant P [] p = tt
All-constant P (a ∷ more) p = (p, All-constant P more p)

module _ (cx : Context) where
  publish_found-Inv :
      (o : Option PublisherState) (msgs : PublisherState → List Kvs) (h : Hooks)
      → Inv h
      → (Intact h.channel
          → Value (λ (x : PublisherState). Known (accepted h.channel) x.node_timeline_id) o)
      → Inv (elim o [
        | none ↦ h
        | some p ↦ record h { last_captured_message = some (map (publication p) (msgs p)) }
      ])
  publish_found-Inv none msgs h inv known = inv
  publish_found-Inv (some p) msgs h inv known =
      last_captured_message-Inv h inv (some (map (publication p) (msgs p))) λ intact.
        All-Known-map (accepted h.channel) (publication p) p.node_timeline_id (λ a. refl) (msgs p)
          (known intact)

  publish-Inv :
      (pub_ptr : ℕ) (mem : Memory) (message_ptr : ℕ) (h : Hooks)
      → Inv h
      → Inv (before_publish cx pub_ptr mem message_ptr h)
  unfolding before_publish
  publish-Inv pub_ptr mem message_ptr h inv =
      if-either Inv (pub_ptr == 0 || message_ptr == 0) h _ inv (
        publish_found-Inv (lookup pub_ptr h.publishers)
          (λ p.
            cx.interpreter.interpret_potentially_compound_message mem p.message_schema
              (bytes_at message_ptr (flat_size p.message_schema)))
          h inv (lookup-publishers h inv pub_ptr))

  send-Waiting-Inv :
      (o : Option (List CapturedMessage)) (t : TimeSpec) (h : Hooks)
      → Inv h
      → (Intact h.channel → Waiting (accepted h.channel) o)
      → Inv (elim o [
        | none ↦ h
        | some msgs ↦
            send_all cx (map (stamped cx t) msgs) (record h { last_captured_message = none })
      ])
  unfolding stamped
  send-Waiting-Inv none t h inv known = inv
  send-Waiting-Inv (some msgs) t h inv known =
      send_all-Inv cx (map (stamped cx t) msgs) (record h { last_captured_message = none })
        (last_captured_message-Inv h inv none λ intact. tt)
        λ intact.
          All-Known_sent (accepted h.channel) (stamped cx t) (λ m. m.node_timeline_id) (λ m. refl)
            msgs (known intact)

  clock_gettime-Inv :
      (clock_id : ℕ) (t : TimeSpec) (h : Hooks) → Inv h → Inv (after_clock_gettime cx clock_id t h)
  unfolding after_clock_gettime
  clock_gettime-Inv clock_id t h inv =
      if-either Inv (clock_id == 0) _ h
        (send-Waiting-Inv h.last_captured_message t h inv
          λ intact. let (_, _, _, _, _, w) = (inv intact).1 in w)
        inv

  take_found-Inv :
      (o : Option SubscriptionState) (msgs : SubscriptionState → List Kvs) (info : MessageInfo)
      (h : Hooks)
      → Inv h
      → (Intact h.channel
          → Value (λ (x : SubscriptionState). Known (accepted h.channel) x.node_timeline_id) o)
      → Inv (elim o [ none ↦ h | some s ↦ send_all cx (map (taken cx s info) (msgs s)) h ])
  unfolding taken
  take_found-Inv none msgs info h inv known = inv
  take_found-Inv (some s) msgs info h inv known =
      send_all-Inv cx (map (taken cx s info) (msgs s)) h inv λ intact.
        All-Known_sent (accepted h.channel) (taken cx s info) (λ kvs. s.node_timeline_id)
          (λ kvs. refl) (msgs s)
          (All-constant (Known (accepted h.channel) s.node_timeline_id) (msgs s) (known intact))

  take_with_info-Inv :
      (sub_ptr : ℕ) (mem : Memory) (message_ptr : ℕ) (info : MessageInfo) (h : Hooks)
      → Inv h
      → Inv (after_take_with_info cx sub_ptr mem message_ptr info h)
  unfolding after_take_with_info
  take_with_info-Inv sub_ptr mem message_ptr info h inv =
      take_found-Inv (lookup sub_ptr h.subscriptions)
        (λ s.
          cx.interpreter.interpret_potentially_compound_message mem s.message_schema
            (bytes_at message_ptr (flat_size s.message_schema)))
        info h inv (lookup-subscriptions h inv sub_ptr)

  channel-Inv : (h : Hooks) → Inv h → Inv (record h { channel = receive h.channel })
  channel-Inv h inv = λ intact.
      subst (λ es. InOrder [] es × Tables es h) (sym (accepted-receive h.channel))
        (inv (Intact-receive h.channel intact))

  pub perform-Inv : (c : Hook) (h : Hooks) → Inv h → Value Inv (perform cx c h)
  unfolding perform timeline_of
  perform-Inv (Machine.create_node name namespace p t clock) h inv =
      create_node-Inv cx name namespace p t clock h inv
  perform-Inv (Machine.destroy_node p clock) h inv = destroy_node-Inv cx p clock h inv
  perform-Inv (Machine.create_publisher n p ts topic gid clock) h inv =
      create_publisher-Inv cx n p ts topic gid clock h inv
  perform-Inv (Machine.destroy_publisher p clock) h inv = destroy_publisher-Inv cx p clock h inv
  perform-Inv (Machine.publish p mem m) h inv = publish-Inv p mem m h inv
  perform-Inv (Machine.clock_gettime id t) h inv = clock_gettime-Inv id t h inv
  perform-Inv (Machine.create_subscription n p ts topic clock) h inv =
      create_subscription-Inv cx n p ts topic clock h inv
  perform-Inv (Machine.destroy_subscription p clock) h inv =
      destroy_subscription-Inv cx p clock h inv
  perform-Inv (Machine.take_with_info p mem m info) h inv = take_with_info-Inv p mem m info h inv
  perform-Inv (Machine.create_service n p ts name clock) h inv =
      create_service-Inv cx n p ts name clock h inv
  perform-Inv (Machine.destroy_service p clock) h inv = destroy_service-Inv cx p clock h inv
  perform-Inv (Machine.create_client n p ts name clock) h inv =
      create_client-Inv cx n p ts name clock h inv
  perform-Inv (Machine.destroy_client p clock) h inv = destroy_client-Inv cx p clock h inv
  perform-Inv (Machine.send_request c mem m id clock) h inv =
      send_found-Inv cx (lookup c.address h.clients) _ h inv (lookup-clients h inv c.address)
  perform-Inv (Machine.take_request p id mem m clock) h inv =
      send_found-Inv cx (lookup p h.services) _ h inv (lookup-services h inv p)
  perform-Inv (Machine.send_response p id mem m clock) h inv =
      send_found-Inv cx (lookup p h.services) _ h inv (lookup-services h inv p)
  perform-Inv (Machine.take_response c n mem m clock) h inv =
      send_found-Inv cx (lookup c.address h.clients) _ h inv (lookup-clients h inv c.address)

  step-Inv : (a : Action) (h : Hooks) → Inv h → Value Inv (step cx a h)
  unfolding step
  step-Inv (Machine.hook c) h inv = perform-Inv c h inv
  step-Inv Machine.recv h inv = channel-Inv h inv
  step-Inv Machine.thread_ends h inv = λ intact. cc (intact.0)

  continue-Inv :
      (actions : List Action) (r : Option Hooks) → Value Inv r → Value Inv (continue cx actions r)
  unfolding continue
  continue-Inv [] r inv = inv
  continue-Inv (a ∷ actions) none inv = tt
  continue-Inv (a ∷ actions) (some h) inv = continue-Inv actions (step cx a h) (step-Inv a h inv)

  -- After any calls of the hooks, from the start, by an application that has not been stopped: as
  -- long as no event was lost (the processor's thread runs, and nothing was said of a full
  -- buffer), every event that went into the channel is on the timeline of a node whose creation
  -- went in before it, or is that creation, and so it is for every entry of the tables and every
  -- message that waits for the clock.
  pub run-InOrder :
      (actions : List Action) (h : Hooks)
      → run cx actions initial ≡ some h
      → Intact h.channel
      → InOrder [] (accepted h.channel) × Tables (accepted h.channel) h
  unfolding run
  run-InOrder actions h e =
      subst (Value Inv) e
        (continue-Inv actions (some initial) λ intact. (tt, (tt, tt, tt, tt, tt, tt)))
