-- ===== src/Hooks/Channels/Runs.antt =====
-- What every run of the hooks keeps of the channel (modality-ros-hook/src/hooks.rs).
use modality_ros.Prelude.{
  ◌≤◌, ◌≡◌, sym, subst, ap, ◌∙◌, true, Option, none, some, List, [], ◌∷◌, ◌++◌, nat_eq, string_eq,
  contains, map, if-either, ◌==◌, ◌||◌, append_assoc, append-nil, length, arith, inl, inr, ◌⊎◌,
}
use modality_ros.Prelude.Dict.{lookup, Value}
use modality_ros.Prelude.Text.{trim}
use modality_ros.Api.{Kvs}
use modality_ros.Events.{RosEvent, message, CapturedMessageWithTime, CapturedMessage}
use modality_ros.Schema.{FlatRosMessageSchema, flat_size}
use modality_ros.Schema.Convert.{Outcome, done, nothing, fault, from_message_type_support}
use modality_ros.Schema.Flatten.{flatten}
use modality_ros.Schema.Service.{from_service_type_support}
use modality_ros.Hooks.{
  Hooks, Context, Channel, NodeState, PublisherState, SubscriptionState, try_send, send, send_found,
  receive, initial,
}
use modality_ros.Hooks.Registry.{with_node, with_schema, with_flat, published, subscribed}
use modality_ros.Hooks.Services.{served, connected, bytes_at}
use modality_ros.Hooks.Messages.{TimeSpec, publication, stamped, taken, send_all}
use modality_ros.Hooks.Machine
use modality_ros.Hooks.Machine.{Hook, Action, perform, step, continue, run}
use modality_ros.Hooks.Channels.{
  accepted, try_send_bound, accepted-try_send, accepted-receive, receive_bound,
}

-- A condition on the channel that each of its operations keeps, the hooks keep.
module _ (cx : Context) (P : Channel → Type 0)
    (on_send : (e : RosEvent) (ch : Channel) → P ch → P (try_send cx.config.buffer_size e ch)) where
  Keeps : Hooks → Type 0
  Keeps h = P h.channel

  send_found-Keeps :
      {A : Type 0} (o : Option A) (f : A → RosEvent) (h : Hooks)
      → Keeps h
      → Keeps (send_found cx o f h)
  unfolding send_found Keeps
  send_found-Keeps none f h k = k
  send_found-Keeps (some a) f h k = on_send (f a) h.channel k

  send_all-Keeps :
      (msgs : List CapturedMessageWithTime) (h : Hooks) → Keeps h → Keeps (send_all cx msgs h)
  unfolding send_all Keeps
  send_all-Keeps [] h k = k
  send_all-Keeps (m ∷ msgs) h k =
      send_all-Keeps msgs (send cx (message m) h) (on_send (message m) h.channel k)

  with_node-Keeps :
      (o : Option NodeState) (f : NodeState → Option Hooks) (h : Hooks)
      → Keeps h
      → ((node : NodeState) → Value Keeps (f node))
      → Value Keeps (with_node o f h)
  with_node-Keeps none f h k g = k
  with_node-Keeps (some node) f h k g = g node

  with_schema-Keeps :
      {A : Type 0} (r : Outcome A) (f : A → Option Hooks) (h : Hooks)
      → Keeps h
      → ((a : A) → Value Keeps (f a))
      → Value Keeps (with_schema r f h)
  with_schema-Keeps (done a) f h k g = g a
  with_schema-Keeps nothing f h k g = k
  with_schema-Keeps fault f h k g = tt

  with_flat-Keeps :
      (o : Option FlatRosMessageSchema) (f : FlatRosMessageSchema → Option Hooks)
      → ((flat : FlatRosMessageSchema) → Value Keeps (f flat))
      → Value Keeps (with_flat o f)
  with_flat-Keeps none f g = tt
  with_flat-Keeps (some flat) f g = g flat

  publish_found-Keeps :
      (o : Option PublisherState) (msgs : PublisherState → List Kvs) (h : Hooks)
      → Keeps h
      → Keeps (elim o [
        | none ↦ h
        | some p ↦ record h { last_captured_message = some (map (publication p) (msgs p)) }
      ])
  unfolding Keeps
  publish_found-Keeps none msgs h k = k
  publish_found-Keeps (some p) msgs h k = k

  send_waiting-Keeps :
      (o : Option (List CapturedMessage)) (t : TimeSpec) (h : Hooks)
      → Keeps h
      → Keeps (elim o [
        | none ↦ h
        | some msgs ↦
            send_all cx (map (stamped cx t) msgs) (record h { last_captured_message = none })
      ])
  unfolding Keeps
  send_waiting-Keeps none t h k = k
  send_waiting-Keeps (some msgs) t h k =
      send_all-Keeps (map (stamped cx t) msgs) (record h { last_captured_message = none }) k

  take_found-Keeps :
      (o : Option SubscriptionState) (msgs : SubscriptionState → List CapturedMessageWithTime)
      (h : Hooks)
      → Keeps h
      → Keeps (elim o [ none ↦ h | some s ↦ send_all cx (msgs s) h ])
  take_found-Keeps none msgs h k = k
  take_found-Keeps (some s) msgs h k = send_all-Keeps (msgs s) h k

  pub perform-Keeps :
      (c : Hook) (h : Hooks) → P h.channel → Value (λ h. P h.channel) (perform cx c h)
  unfolding perform published subscribed served connected Keeps
  perform-Keeps (Machine.create_node name namespace p t clock) h k = on_send _ h.channel k
  perform-Keeps (Machine.destroy_node p clock) h k = send_found-Keeps (lookup p h.nodes) _ h k
  perform-Keeps (Machine.create_publisher n p ts topic gid clock) h k =
      with_node-Keeps (lookup n h.nodes) _ h k λ node.
        if-either (Value Keeps) (contains cx.config.ignored_topics (trim topic)) (some h) _ k (
          with_schema-Keeps (from_message_type_support cx.field_types ts) _ h k
            λ schema. with_flat-Keeps (flatten schema []) _ λ flat. on_send _ h.channel k)
  perform-Keeps (Machine.destroy_publisher p clock) h k =
      send_found-Keeps (lookup p h.publishers) _ h k
  perform-Keeps (Machine.publish p mem m) h k = if-either Keeps (p == 0 || m == 0) h _ k (
      publish_found-Keeps (lookup p h.publishers)
        (λ p'.
          cx.interpreter.interpret_potentially_compound_message mem p'.message_schema
            (bytes_at m (flat_size p'.message_schema)))
        h k)
  perform-Keeps (Machine.clock_gettime id t) h k =
      if-either Keeps (id == 0) _ h (send_waiting-Keeps h.last_captured_message t h k) k
  perform-Keeps (Machine.create_subscription n p ts topic clock) h k =
      with_node-Keeps (lookup n h.nodes) _ h k λ node.
        if-either (Value Keeps) (contains cx.config.ignored_topics (trim topic)) (some h) _ k (
          with_schema-Keeps (from_message_type_support cx.field_types ts) _ h k
            λ schema. with_flat-Keeps (flatten schema []) _ λ flat. on_send _ h.channel k)
  perform-Keeps (Machine.destroy_subscription p clock) h k =
      send_found-Keeps (lookup p h.subscriptions) _ h k
  perform-Keeps (Machine.take_with_info p mem m info) h k =
      take_found-Keeps (lookup p h.subscriptions)
        (λ s. map (taken cx s info) (
          cx.interpreter.interpret_potentially_compound_message mem s.message_schema
            (bytes_at m (flat_size s.message_schema))))
        h k
  perform-Keeps (Machine.create_service n p ts name clock) h k =
      with_node-Keeps (lookup n h.nodes) _ h k λ node.
        with_schema-Keeps (from_service_type_support cx.field_types ts) _ h k
          λ schema. on_send _ h.channel k
  perform-Keeps (Machine.destroy_service p clock) h k = send_found-Keeps (lookup p h.services) _ h k
  perform-Keeps (Machine.create_client n p ts name clock) h k =
      with_node-Keeps (lookup n h.nodes) _ h k λ node.
        with_schema-Keeps (from_service_type_support cx.field_types ts) _ h k
          λ schema. on_send _ h.channel k
  perform-Keeps (Machine.destroy_client p clock) h k = send_found-Keeps (lookup p h.clients) _ h k
  perform-Keeps (Machine.send_request c mem m id clock) h k =
      send_found-Keeps (lookup c.address h.clients) _ h k
  perform-Keeps (Machine.take_request p id mem m clock) h k =
      send_found-Keeps (lookup p h.services) _ h k
  perform-Keeps (Machine.send_response p id mem m clock) h k =
      send_found-Keeps (lookup p h.services) _ h k
  perform-Keeps (Machine.take_response c n mem m clock) h k =
      send_found-Keeps (lookup c.address h.clients) _ h k

module _ (cx : Context) (P : Channel → Type 0)
    (on_send : (e : RosEvent) (ch : Channel) → P ch → P (try_send cx.config.buffer_size e ch))
    (on_receive : (ch : Channel) → P ch → P (receive ch))
    (on_end : (ch : Channel) → P ch → P (record ch { closed = true })) where
  Kept : Hooks → Type 0
  Kept h = P h.channel

  step-Keeps : (a : Action) (h : Hooks) → Kept h → Value Kept (step cx a h)
  unfolding step Kept
  step-Keeps (Machine.hook c) h k = perform-Keeps cx P on_send c h k
  step-Keeps Machine.recv h k = on_receive h.channel k
  step-Keeps Machine.thread_ends h k = on_end h.channel k

  continue-Keeps :
      (actions : List Action) (r : Option Hooks) → Value Kept r → Value Kept (continue cx actions r)
  unfolding continue
  continue-Keeps [] r k = k
  continue-Keeps (a ∷ actions) none k = tt
  continue-Keeps (a ∷ actions) (some h) k = continue-Keeps actions (step cx a h) (step-Keeps a h k)

  run-Keeps :
      (actions : List Action) (h h' : Hooks)
      → P h.channel
      → run cx actions h ≡ some h'
      → P h'.channel
  unfolding run Kept
  run-Keeps actions h h' k e = subst (Value Kept) e (continue-Keeps actions (some h) k)

module _ (cx : Context) where
  -- In any run from the start, no more events wait in the channel than the buffer size.
  pub run_bound :
      (actions : List Action) (h : Hooks)
      → run cx actions initial ≡ some h
      → length h.channel.queue ≤ cx.config.buffer_size
  run_bound actions h e =
      run-Keeps cx (λ ch. length ch.queue ≤ cx.config.buffer_size)
        (try_send_bound cx.config.buffer_size) (receive_bound cx.config.buffer_size) (λ ch k. k)
        actions initial h (omega arith) e

  Extends : List RosEvent → Channel → Type 0
  Extends es ch = (new : List RosEvent) × (accepted ch ≡ es ++ new)

  -- In any run, the events that went into the channel before stay as they are, in their order;
  -- those that go in follow them.
  pub accepted-run :
      (actions : List Action) (h h' : Hooks)
      → run cx actions h ≡ some h'
      → (new : List RosEvent) × (accepted h'.channel ≡ accepted h.channel ++ new)
  unfolding Extends
  accepted-run actions h h' e =
      run-Keeps cx (Extends (accepted h.channel))
        (λ event ch k. sent event ch k (accepted-try_send cx.config.buffer_size event ch))
        (λ ch k. (k.0, accepted-receive ch ∙ k.1)) (λ ch k. k) actions h h'
        ([], sym (append-nil (accepted h.channel))) e
    where
      sent :
          (event : RosEvent) (ch : Channel)
          → Extends (accepted h.channel) ch
          → (accepted (try_send cx.config.buffer_size event ch) ≡ accepted ch)
            ⊎ (accepted (try_send cx.config.buffer_size event ch) ≡ accepted ch ++ event ∷ [])
          → Extends (accepted h.channel) (try_send cx.config.buffer_size event ch)
      sent event ch k (inl same) = (k.0, same ∙ k.1)
      sent event ch k (inr more) = (
        k.0 ++ event ∷ [],
        more ∙ ap (λ l. l ++ event ∷ []) k.1 ∙ append_assoc (accepted h.channel) k.0 (event ∷ []),
      )
