-- ===== src/Events/Now.antt =====
-- The functions of `RmwEvent` (modality-ros-hook/src/hooks.rs) that make an event with the time of
-- the system clock; what the clock answers is an argument.
use modality_ros.Prelude.{ℕ, String, Option}
use modality_ros.Api.{TimelineId}
use modality_ros.Events.Rmw
use modality_ros.Events.Rmw.{RmwEvent, PublisherGraphId}
use modality_ros.Events.Time.{now}

abbrev pub create_node : String → String → TimelineId → Option ℕ → RmwEvent
create_node node_namespace node_name node_timeline_id clock =
    Rmw.create_node node_namespace node_name node_timeline_id (now clock)

abbrev pub destroy_node : TimelineId → Option ℕ → RmwEvent
destroy_node node_timeline_id clock = Rmw.destroy_node node_timeline_id (now clock)

abbrev pub create_publisher :
    TimelineId → Option PublisherGraphId → String → String → String → ℕ → Option ℕ → RmwEvent
create_publisher node_timeline_id gid topic schema_namespace schema_name pub_count clock =
    Rmw.create_publisher node_timeline_id (now clock) gid topic schema_namespace schema_name
      pub_count

abbrev pub destroy_publisher : TimelineId → Option PublisherGraphId → Option ℕ → RmwEvent
destroy_publisher node_timeline_id gid clock =
    Rmw.destroy_publisher node_timeline_id (now clock) gid

abbrev pub create_subscription : TimelineId → String → String → String → Option ℕ → RmwEvent
create_subscription node_timeline_id topic schema_namespace schema_name clock =
    Rmw.create_subscription node_timeline_id (now clock) topic schema_namespace schema_name

abbrev pub destroy_subscription : TimelineId → String → Option ℕ → RmwEvent
destroy_subscription node_timeline_id topic clock =
    Rmw.destroy_subscription node_timeline_id (now clock) topic
