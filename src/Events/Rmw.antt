-- ===== src/Events/Rmw.antt =====
-- `PublisherGraphId` and `RmwEvent` of modality-ros-hook/src/hooks.rs.
use modality_ros.Prelude.{ℕ, String, Option, List}
use modality_ros.Prelude.Text.{hex}
use modality_ros.Api.{TimelineId, Nanoseconds}

-- The 24 bytes of a gid; `to_string` is its hexadecimal.
abbrev pub PublisherGraphId : Type 0
PublisherGraphId = List ℕ

unfoldable pub gid_to_string : PublisherGraphId → String
unfolding hex
gid_to_string gid = hex gid

pub data RmwEvent : Type 0 where
  create_node :
      (node_namespace node_name : String) (node_timeline_id : TimelineId)
      (timestamp : Option Nanoseconds)
      → RmwEvent
  destroy_node : (node_timeline_id : TimelineId) (timestamp : Option Nanoseconds) → RmwEvent
  create_publisher :
      (node_timeline_id : TimelineId) (timestamp : Option Nanoseconds)
      (gid : Option PublisherGraphId) (topic schema_namespace schema_name : String) (pub_count : ℕ)
      → RmwEvent
  destroy_publisher :
      (node_timeline_id : TimelineId) (timestamp : Option Nanoseconds)
      (gid : Option PublisherGraphId)
      → RmwEvent
  create_subscription :
      (node_timeline_id : TimelineId) (timestamp : Option Nanoseconds)
      (topic schema_namespace schema_name : String)
      → RmwEvent
  destroy_subscription :
      (node_timeline_id : TimelineId) (timestamp : Option Nanoseconds) (topic : String) → RmwEvent
  create_service :
      (node_timeline_id : TimelineId) (timestamp : Option Nanoseconds)
      (service_name schema_namespace schema_name : String)
      → RmwEvent
  destroy_service :
      (node_timeline_id : TimelineId) (timestamp : Option Nanoseconds) (service_name : String)
      → RmwEvent
  create_client :
      (node_timeline_id : TimelineId) (timestamp : Option Nanoseconds)
      (service_name schema_namespace schema_name : String)
      → RmwEvent
  destroy_client :
      (node_timeline_id : TimelineId) (timestamp : Option Nanoseconds) (service_name : String)
      → RmwEvent

unfoldable pub timeline_id : RmwEvent → TimelineId
timeline_id (create_node _ _ id _) = id
timeline_id (destroy_node id _) = id
timeline_id (create_publisher id _ _ _ _ _ _) = id
timeline_id (destroy_publisher id _ _) = id
timeline_id (create_subscription id _ _ _ _) = id
timeline_id (destroy_subscription id _ _) = id
timeline_id (create_service id _ _ _ _) = id
timeline_id (destroy_service id _ _) = id
timeline_id (create_client id _ _ _ _) = id
timeline_id (destroy_client id _ _) = id

unfoldable pub timestamp : RmwEvent → Option Nanoseconds
timestamp (create_node _ _ _ t) = t
timestamp (destroy_node _ t) = t
timestamp (create_publisher _ t _ _ _ _ _) = t
timestamp (destroy_publisher _ t _) = t
timestamp (create_subscription _ t _ _ _) = t
timestamp (destroy_subscription _ t _) = t
timestamp (create_service _ t _ _ _) = t
timestamp (destroy_service _ t _) = t
timestamp (create_client _ t _ _ _) = t
timestamp (destroy_client _ t _) = t
