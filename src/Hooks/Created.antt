-- ===== src/Hooks/Created.antt =====
-- What the creation of a publisher and of a subscription leaves in the tables
-- (modality-ros-hook/src/hooks.rs).
pub mod Services
use modality_ros.Prelude.{
  ℕ, String, ◌≡◌, ap, ◌∙◌, Bool, false, Option, some, [], nat_eq, string_eq, contains, ◌==◌,
  if◌then◌else◌, if-false,
}
use modality_ros.Prelude.Dict.{lookup, lookup-insert}
use modality_ros.Prelude.Text.{trim}
use modality_ros.Events.{PublisherGraphId}
use modality_ros.Schema.{RosMessageSchema, FlatRosMessageSchema}
use modality_ros.Schema.Convert.{MessageTypeSupport, Outcome, done, from_message_type_support}
use modality_ros.Schema.Flatten.{flatten}
use modality_ros.Schema.Flatten.Converted.{from_message_type_support-flatten}
use modality_ros.Hooks.{Hooks, Context, NodeState}
use modality_ros.Hooks.Registry.{
  with_node, with_schema, with_flat, published, subscribed, after_create_publisher,
  after_create_subscription,
}

-- A creation goes through when each of its tests passes.
goes_through :
    (o : Option NodeState) (ignored : Bool) (r : Outcome RosMessageSchema)
    (create : NodeState → RosMessageSchema → FlatRosMessageSchema → Hooks) (h : Hooks)
    (node : NodeState) (schema : RosMessageSchema) (flat : FlatRosMessageSchema)
    → o ≡ some node
    → ignored ≡ false
    → r ≡ done schema
    → flatten schema [] ≡ some flat
    → with_node o
        (λ n.
          if ignored
          then some h
          else with_schema r (λ s. with_flat (flatten s []) λ f. some (create n s f)) h)
        h
      ≡ some (create node schema flat)
goes_through o ignored r create h node schema flat known wanted converts flattens =
    ap (λ o'. with_node o' (λ n. if ignored then some h else after_schema r n) h) known
    ∙ if-false ignored (some h) (after_schema r node) wanted
    ∙ ap (λ r'. after_schema r' node) converts
    ∙ ap (λ o'. with_flat o' λ f. some (create node schema f)) flattens
  where
    after_schema : Outcome RosMessageSchema → NodeState → Option Hooks
    after_schema r' n = with_schema r' (λ s. with_flat (flatten s []) λ f. some (create n s f)) h

module _ (cx : Context) where
  -- The creation of a publisher on a known node, for a topic that is not ignored and with a type
  -- support that is known, goes through: the publisher's address then gives its flat schema, its
  -- topic without white space around it, its node and its gid, and every other address what it
  -- gave before.
  pub lookup-after_create_publisher :
      (node_ptr pub_ptr : ℕ) (type_support : MessageTypeSupport) (topic_name : String)
      (graph_id : Option PublisherGraphId) (clock : Option ℕ) (h : Hooks) (node : NodeState)
      (schema : RosMessageSchema)
      → lookup node_ptr h.nodes ≡ some node
      → contains cx.config.ignored_topics (trim topic_name) ≡ false
      → from_message_type_support cx.field_types type_support ≡ done schema
      → (h' : Hooks) × (flat : FlatRosMessageSchema) × (after_create_publisher cx node_ptr pub_ptr
            type_support topic_name graph_id clock h
          ≡ some h')
        × (flatten schema [] ≡ some flat)
        × ((k : ℕ)
            → lookup k h'.publishers ≡ (
                if k == pub_ptr
                then some (record {
                  message_schema = flat;
                  topic_name = trim topic_name;
                  node_namespace = node.namespace;
                  node_name = node.name;
                  node_timeline_id = node.timeline_id;
                  graph_id = graph_id;
                })
                else lookup k h.publishers))
  unfolding after_create_publisher published
  lookup-after_create_publisher node_ptr pub_ptr type_support topic_name graph_id clock h node
        schema known wanted converts =
      let (flat, flattens) =
        from_message_type_support-flatten cx.field_types type_support schema [] converts in
      (
        published cx node pub_ptr schema flat graph_id (trim topic_name) clock h,
        flat,
        goes_through (lookup node_ptr h.nodes) (contains cx.config.ignored_topics (trim topic_name))
            (from_message_type_support cx.field_types type_support)
            (λ n s f. published cx n pub_ptr s f graph_id (trim topic_name) clock h) h node schema
            flat known wanted converts flattens,
        flattens,
        λ k. lookup-insert k pub_ptr _ h.publishers,
      )

  -- The creation of a subscription on a known node, for a topic that is not ignored and with a type
  -- support that is known, goes through, and leaves the same as that of a publisher, but the gid.
  pub lookup-after_create_subscription :
      (node_ptr sub_ptr : ℕ) (type_support : MessageTypeSupport) (topic_name : String)
      (clock : Option ℕ) (h : Hooks) (node : NodeState) (schema : RosMessageSchema)
      → lookup node_ptr h.nodes ≡ some node
      → contains cx.config.ignored_topics (trim topic_name) ≡ false
      → from_message_type_support cx.field_types type_support ≡ done schema
      → (h' : Hooks) × (flat : FlatRosMessageSchema) × (after_create_subscription cx node_ptr
            sub_ptr type_support topic_name clock h
          ≡ some h')
        × (flatten schema [] ≡ some flat)
        × ((k : ℕ)
            → lookup k h'.subscriptions ≡ (
                if k == sub_ptr
                then some (record {
                  message_schema = flat;
                  topic_name = trim topic_name;
                  node_namespace = node.namespace;
                  node_name = node.name;
                  node_timeline_id = node.timeline_id;
                })
                else lookup k h.subscriptions))
  unfolding after_create_subscription subscribed
  lookup-after_create_subscription node_ptr sub_ptr type_support topic_name clock h node schema
        known wanted converts =
      let (flat, flattens) =
        from_message_type_support-flatten cx.field_types type_support schema [] converts in
      (
        subscribed cx node sub_ptr schema flat (trim topic_name) clock h,
        flat,
        goes_through (lookup node_ptr h.nodes) (contains cx.config.ignored_topics (trim topic_name))
            (from_message_type_support cx.field_types type_support)
            (λ n s f. subscribed cx n sub_ptr s f (trim topic_name) clock h) h node schema flat
            known wanted converts flattens,
        flattens,
        λ k. lookup-insert k sub_ptr _ h.subscriptions,
      )
