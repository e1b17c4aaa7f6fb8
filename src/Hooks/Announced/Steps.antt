-- ===== src/Hooks/Announced/Steps.antt =====
-- The hooks of the registry, and the timelines of their events
-- (modality-ros-hook/src/hooks.rs).
use modality_ros.Prelude.{
  ℕ, String, refl, Option, none, some, [], ◌∷◌, nat_eq, string_eq, contains, if-either,
}
use modality_ros.Prelude.Dict.{lookup, Value, Values-insert}
use modality_ros.Prelude.Text.{trim}
use modality_ros.Api.{TimelineId}
use modality_ros.Events.{rmw, PublisherGraphId, now}
use modality_ros.Events.Rmw
use modality_ros.Schema.{RosMessageSchema, FlatRosMessageSchema}
use modality_ros.Schema.Convert.{
  MessageTypeSupport, Outcome, done, nothing, fault, from_message_type_support,
}
use modality_ros.Schema.Flatten.{flatten}
use modality_ros.Schema.Service.{ServiceTypeSupport, from_service_type_support}
use modality_ros.Hooks.{
  Hooks, Context, NodeState, PublisherState, SubscriptionState, ServiceState, ClientState,
  send_found,
}
use modality_ros.Hooks.Registry.{
  with_node, with_schema, with_flat, published, subscribed, after_create_node, after_destroy_node,
  after_create_publisher, after_destroy_publisher, after_create_subscription,
  after_destroy_subscription,
}
use modality_ros.Hooks.Services.{
  served, connected, after_create_service, after_destroy_service, after_create_client,
  after_destroy_client,
}
use modality_ros.Hooks.Channels.{Intact, accepted}
use modality_ros.Hooks.Announced.{Known, Known-last, Tables-append}
use modality_ros.Hooks.Announced.Tables.{
  remove-nodes-Inv, lookup-nodes, remove-publishers-Inv, insert-publishers-Inv, lookup-publishers,
  remove-subscriptions-Inv, insert-subscriptions-Inv, lookup-subscriptions, remove-services-Inv,
  insert-services-Inv, lookup-services, remove-clients-Inv, insert-clients-Inv, lookup-clients,
}
use modality_ros.Hooks.Announced.Rules.{Inv, send-Inv_with, send-Inv, send_found-Inv}

with_node-Inv :
    (o : Option NodeState) (k : NodeState → Option Hooks) (h : Hooks)
    → Inv h
    → (Intact h.channel → Value (λ (n : NodeState). Known (accepted h.channel) n.timeline_id) o)
    → ((node : NodeState)
        → (Intact h.channel → Known (accepted h.channel) node.timeline_id)
        → Value Inv (k node))
    → Value Inv (with_node o k h)
with_node-Inv none k h inv known f = inv
with_node-Inv (some node) k h inv known f = f node known

with_schema-Inv :
    {A : Type 0} (r : Outcome A) (k : A → Option Hooks) (h : Hooks)
    → Inv h
    → ((a : A) → Value Inv (k a))
    → Value Inv (with_schema r k h)
with_schema-Inv (done a) k h inv f = f a
with_schema-Inv nothing k h inv f = inv
with_schema-Inv fault k h inv f = tt

with_flat-Inv :
    (o : Option FlatRosMessageSchema) (k : FlatRosMessageSchema → Option Hooks)
    → ((flat : FlatRosMessageSchema) → Value Inv (k flat))
    → Value Inv (with_flat o k)
with_flat-Inv none k f = tt
with_flat-Inv (some flat) k f = f flat

module _ (cx : Context) where
  pub create_node-Inv :
      (name namespace : String) (p : ℕ) (t : TimelineId) (clock : Option ℕ) (h : Hooks)
      → Inv h
      → Inv (after_create_node cx name namespace p t clock h)
  unfolding after_create_node Rmw.timeline_id
  create_node-Inv name namespace p t clock h inv = send-Inv_with cx _ _ λ intact.
      let e = rmw (Rmw.create_node namespace name t (now clock)) in
      let (n, p', s, v, c, w) = Tables-append (accepted h.channel) (e ∷ []) h (inv intact).1 in
      let known = Known-last (accepted h.channel) e t refl in
      ((inv intact).0, (Values-insert _ p _ h.nodes known n, p', s, v, c, w), known)

  pub destroy_node-Inv :
      (k : ℕ) (clock : Option ℕ) (h : Hooks) → Inv h → Inv (after_destroy_node cx k clock h)
  unfolding after_destroy_node Rmw.timeline_id
  destroy_node-Inv k clock h inv =
      let event = λ (x : NodeState). rmw (Rmw.destroy_node x.timeline_id (now clock)) in
      remove-nodes-Inv (send_found cx (lookup k h.nodes) event h)
        (send_found-Inv cx (lookup k h.nodes) event h inv (lookup-nodes h inv k)) k

  pub destroy_publisher-Inv :
      (k : ℕ) (clock : Option ℕ) (h : Hooks) → Inv h → Inv (after_destroy_publisher cx k clock h)
  unfolding after_destroy_publisher Rmw.timeline_id
  destroy_publisher-Inv k clock h inv =
      let event = λ (x : PublisherState).
        rmw (Rmw.destroy_publisher x.node_timeline_id (now clock) x.graph_id) in
      remove-publishers-Inv (send_found cx (lookup k h.publishers) event h)
        (send_found-Inv cx (lookup k h.publishers) event h inv (lookup-publishers h inv k)) k

  pub destroy_subscription-Inv :
      (k : ℕ) (clock : Option ℕ) (h : Hooks) → Inv h → Inv (after_destroy_subscription cx k clock h)
  unfolding after_destroy_subscription Rmw.timeline_id
  destroy_subscription-Inv k clock h inv =
      let event = λ (x : SubscriptionState).
        rmw (Rmw.destroy_subscription x.node_timeline_id (now clock) x.topic_name) in
      remove-subscriptions-Inv (send_found cx (lookup k h.subscriptions) event h)
        (send_found-Inv cx (lookup k h.subscriptions) event h inv (lookup-subscriptions h inv k)) k

  pub destroy_service-Inv :
      (k : ℕ) (clock : Option ℕ) (h : Hooks) → Inv h → Inv (after_destroy_service cx k clock h)
  unfolding after_destroy_service Rmw.timeline_id
  destroy_service-Inv k clock h inv =
      let event = λ (x : ServiceState).
        rmw (Rmw.destroy_service x.node_timeline_id (now clock) x.service_name) in
      remove-services-Inv (send_found cx (lookup k h.services) event h)
        (send_found-Inv cx (lookup k h.services) event h inv (lookup-services h inv k)) k

  pub destroy_client-Inv :
      (k : ℕ) (clock : Option ℕ) (h : Hooks) → Inv h → Inv (after_destroy_client cx k clock h)
  unfolding after_destroy_client Rmw.timeline_id
  destroy_client-Inv k clock h inv =
      let event = λ (x : ClientState).
        rmw (Rmw.destroy_client x.node_timeline_id (now clock) x.service_name) in
      remove-clients-Inv (send_found cx (lookup k h.clients) event h)
        (send_found-Inv cx (lookup k h.clients) event h inv (lookup-clients h inv k)) k

  published-Inv :
      (node : NodeState) (k : ℕ) (schema : RosMessageSchema) (flat : FlatRosMessageSchema)
      (graph_id : Option PublisherGraphId) (topic : String) (clock : Option ℕ) (h : Hooks)
      → Inv h
      → (Intact h.channel → Known (accepted h.channel) node.timeline_id)
      → Inv (published cx node k schema flat graph_id topic clock h)
  unfolding published Rmw.timeline_id
  published-Inv node k schema flat graph_id topic clock h inv known =
      send-Inv cx _ _ (insert-publishers-Inv h inv k _ known) known

  pub create_publisher-Inv :
      (node_ptr k : ℕ) (type_support : MessageTypeSupport) (topic_name : String)
      (graph_id : Option PublisherGraphId) (clock : Option ℕ) (h : Hooks)
      → Inv h
      → Value Inv (after_create_publisher cx node_ptr k type_support topic_name graph_id clock h)
  unfolding after_create_publisher
  create_publisher-Inv node_ptr k type_support topic_name graph_id clock h inv =
      with_node-Inv (lookup node_ptr h.nodes) _ h inv (lookup-nodes h inv node_ptr) λ node known.
        if-either (Value Inv) (contains cx.config.ignored_topics (trim topic_name)) (some h) _ inv (
          with_schema-Inv (from_message_type_support cx.field_types type_support) _ h inv λ schema.
            with_flat-Inv (flatten schema []) _
              λ flat. published-Inv node k schema flat graph_id (trim topic_name) clock h inv known)

  subscribed-Inv :
      (node : NodeState) (k : ℕ) (schema : RosMessageSchema) (flat : FlatRosMessageSchema)
      (topic : String) (clock : Option ℕ) (h : Hooks)
      → Inv h
      → (Intact h.channel → Known (accepted h.channel) node.timeline_id)
      → Inv (subscribed cx node k schema flat topic clock h)
  unfolding subscribed Rmw.timeline_id
  subscribed-Inv node k schema flat topic clock h inv known =
      send-Inv cx _ _ (insert-subscriptions-Inv h inv k _ known) known

  pub create_subscription-Inv :
      (node_ptr k : ℕ) (type_support : MessageTypeSupport) (topic_name : String) (clock : Option ℕ)
      (h : Hooks)
      → Inv h
      → Value Inv (after_create_subscription cx node_ptr k type_support topic_name clock h)
  unfolding after_create_subscription
  create_subscription-Inv node_ptr k type_support topic_name clock h inv =
      with_node-Inv (lookup node_ptr h.nodes) _ h inv (lookup-nodes h inv node_ptr) λ node known.
        if-either (Value Inv) (contains cx.config.ignored_topics (trim topic_name)) (some h) _ inv (
          with_schema-Inv (from_message_type_support cx.field_types type_support) _ h inv λ schema.
            with_flat-Inv (flatten schema []) _
              λ flat. subscribed-Inv node k schema flat (trim topic_name) clock h inv known)

  pub create_service-Inv :
      (node_ptr k : ℕ) (type_support : ServiceTypeSupport) (service_name : String)
      (clock : Option ℕ) (h : Hooks)
      → Inv h
      → Value Inv (after_create_service cx node_ptr k type_support service_name clock h)
  unfolding after_create_service served Rmw.timeline_id
  create_service-Inv node_ptr k type_support service_name clock h inv =
      with_node-Inv (lookup node_ptr h.nodes) _ h inv (lookup-nodes h inv node_ptr) λ node known.
        with_schema-Inv (from_service_type_support cx.field_types type_support) _ h inv
          λ schema. send-Inv cx _ _ (insert-services-Inv h inv k _ known) known

  pub create_client-Inv :
      (node_ptr k : ℕ) (type_support : ServiceTypeSupport) (service_name : String)
      (clock : Option ℕ) (h : Hooks)
      → Inv h
      → Value Inv (after_create_client cx node_ptr k type_support service_name clock h)
  unfolding after_create_client connected Rmw.timeline_id
  create_client-Inv node_ptr k type_support service_name clock h inv =
      with_node-Inv (lookup node_ptr h.nodes) _ h inv (lookup-nodes h inv node_ptr) λ node known.
        with_schema-Inv (from_service_type_support cx.field_types type_support) _ h inv
          λ schema. send-Inv cx _ _ (insert-clients-Inv h inv k _ known) known
