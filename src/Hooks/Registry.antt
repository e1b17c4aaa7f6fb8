-- ===== src/Hooks/Registry.antt =====
-- The hooks that create and destroy nodes, publishers, subscriptions, services and clients
-- (modality-ros-hook/src/hooks.rs). A result `none` is a process that a null type support stops.
-- The answers of foreign code are arguments: the new timeline id, the gid, and the system clock.
-- A C string is given as the text that it decodes to.
use modality_ros.Prelude.{
  ℕ, ◌+◌, String, Option, none, some, [], nat_eq, string_eq, contains, length, if◌then◌else◌,
}
use modality_ros.Prelude.Dict.{lookup, insert, remove}
use modality_ros.Prelude.Text.{trim}
use modality_ros.Api.{TimelineId}
use modality_ros.Events.{PublisherGraphId, rmw, now}
use modality_ros.Events.Now
use modality_ros.Schema.{RosMessageSchema, ros_message_schema, FlatRosMessageSchema}
use modality_ros.Schema.Convert.{
  MessageTypeSupport, Outcome, done, nothing, fault, from_message_type_support,
}
use modality_ros.Schema.Flatten.{flatten}
use modality_ros.Hooks.{Hooks, Context, NodeState, send, send_found}

abbrev pub schema_namespace : RosMessageSchema → String
schema_namespace (ros_message_schema namespace _ _ _) = namespace

abbrev pub schema_name : RosMessageSchema → String
schema_name (ros_message_schema _ name _ _) = name

-- What follows the lookup of a node: nothing, if it is not known.
abbrev pub with_node : Option NodeState → (NodeState → Option Hooks) → Hooks → Option Hooks
with_node none k h = some h
with_node (some node) k h = k node

-- What follows a conversion: nothing, if there is no schema.
abbrev pub with_schema : {A : Type 0} → Outcome A → (A → Option Hooks) → Hooks → Option Hooks
with_schema (done a) k h = k a
with_schema nothing k h = some h
with_schema fault k h = none

abbrev pub with_flat :
    Option FlatRosMessageSchema → (FlatRosMessageSchema → Option Hooks) → Option Hooks
with_flat none k = none
with_flat (some flat) k = k flat

module _ (cx : Context) where
  -- `modality_after_rmw_create_node`
  unfoldable pub after_create_node : String → String → ℕ → TimelineId → Option ℕ → Hooks → Hooks
  unfolding send insert nat_eq now
  after_create_node name namespace node_address allocated clock h =
      send cx (rmw (Now.create_node namespace name allocated clock)) (record h {
        nodes =
            insert node_address
              (record { namespace = namespace; name = name; timeline_id = allocated }) h.nodes;
      })

  -- `modality_after_rmw_destroy_node`
  unfoldable pub after_destroy_node : ℕ → Option ℕ → Hooks → Hooks
  unfolding send_found lookup remove nat_eq now
  after_destroy_node node_ptr clock h =
      let sent =
        send_found cx (lookup node_ptr h.nodes)
          (λ node. (rmw (Now.destroy_node node.timeline_id clock))) h in
      record sent { nodes = remove node_ptr sent.nodes }

  unfoldable pub published :
      NodeState
      → ℕ
      → RosMessageSchema
      → FlatRosMessageSchema
      → Option PublisherGraphId
      → String
      → Option ℕ
      → Hooks
      → Hooks
  unfolding send insert nat_eq now
  published node pub_ptr schema flat graph_id topic clock h =
      send cx
        (rmw (
          Now.create_publisher node.timeline_id graph_id topic (schema_namespace schema)
            (schema_name schema) (length h.publishers + 1) clock))
        (record h {
          publishers =
              insert pub_ptr
                (record {
                  message_schema = flat;
                  topic_name = topic;
                  node_namespace = node.namespace;
                  node_name = node.name;
                  node_timeline_id = node.timeline_id;
                  graph_id = graph_id;
                })
                h.publishers;
        })

  -- `modality_after_rmw_create_publisher`
  unfoldable pub after_create_publisher :
      ℕ
      → ℕ
      → MessageTypeSupport
      → String
      → Option PublisherGraphId
      → Option ℕ
      → Hooks
      → Option Hooks
  unfolding published lookup nat_eq string_eq trim from_message_type_support flatten
  after_create_publisher node_ptr pub_ptr type_support topic_name graph_id clock h =
      let topic = trim topic_name in
      with_node (lookup node_ptr h.nodes)
        (λ node.
          if contains cx.config.ignored_topics topic
          then some h
          else with_schema (from_message_type_support cx.field_types type_support)
              (λ schema.
                with_flat (flatten schema [])
                  λ flat. some (published node pub_ptr schema flat graph_id topic clock h))
              h)
        h

  -- `modality_after_rmw_destroy_publisher`
  unfoldable pub after_destroy_publisher : ℕ → Option ℕ → Hooks → Hooks
  unfolding send_found lookup remove nat_eq now
  after_destroy_publisher pub_ptr clock h =
      let sent =
        send_found cx (lookup pub_ptr h.publishers)
          (λ p. (rmw (Now.destroy_publisher p.node_timeline_id p.graph_id clock))) h in
      record sent { publishers = remove pub_ptr sent.publishers }

  unfoldable pub subscribed :
      NodeState → ℕ → RosMessageSchema → FlatRosMessageSchema → String → Option ℕ → Hooks → Hooks
  unfolding send insert nat_eq now
  subscribed node sub_ptr schema flat topic clock h =
      send cx
        (rmw (
          Now.create_subscription node.timeline_id topic (schema_namespace schema)
            (schema_name schema) clock))
        (record h {
          subscriptions =
              insert sub_ptr
                (record {
                  message_schema = flat;
                  topic_name = topic;
                  node_namespace = node.namespace;
                  node_name = node.name;
                  node_timeline_id = node.timeline_id;
                })
                h.subscriptions;
        })

  -- `modality_after_rmw_create_subscription`
  unfoldable pub after_create_subscription :
      ℕ → ℕ → MessageTypeSupport → String → Option ℕ → Hooks → Option Hooks
  unfolding subscribed lookup nat_eq string_eq trim from_message_type_support flatten
  after_create_subscription node_ptr sub_ptr type_support topic_name clock h =
      let topic = trim topic_name in
      with_node (lookup node_ptr h.nodes)
        (λ node.
          if contains cx.config.ignored_topics topic
          then some h
          else with_schema (from_message_type_support cx.field_types type_support)
              (λ schema.
                with_flat (flatten schema [])
                  λ flat. some (subscribed node sub_ptr schema flat topic clock h))
              h)
        h

  -- `modality_after_rmw_destroy_subscription`
  unfoldable pub after_destroy_subscription : ℕ → Option ℕ → Hooks → Hooks
  unfolding send_found lookup remove nat_eq now
  after_destroy_subscription sub_ptr clock h =
      let sent =
        send_found cx (lookup sub_ptr h.subscriptions)
          (λ s. (rmw (Now.destroy_subscription s.node_timeline_id s.topic_name clock))) h in
      record sent { subscriptions = remove sub_ptr sent.subscriptions }
