-- ===== src/Events.antt =====
-- The events that the hooks hand to the message processor (modality-ros-hook/src/hooks.rs).
pub mod Rmw
pub mod Time
pub mod Service
pub mod Now
unfoldable pub use Rmw.*
unfoldable pub use Time.*
unfoldable pub use Service.*
use modality_ros.Prelude.{String, Option}
use modality_ros.Api.{TimelineId, Kvs}

pub data MessageDirection : Type 0 where
  send : (local_publisher_graph_id : Option PublisherGraphId) → MessageDirection
  receive : (remote_publisher_graph_id : Option PublisherGraphId) → MessageDirection

pub record CapturedMessage : Type 0 where
  pub kvs : Kvs
  pub topic_name : String
  pub node_namespace : String
  pub node_name : String
  pub node_timeline_id : TimelineId
  pub direction : MessageDirection

pub record CapturedMessageWithTime : Type 0 where
  pub msg : CapturedMessage
  pub publish_time : CapturedTime
  pub receive_time : Option CapturedTime

pub data RosEvent : Type 0 where
  message : CapturedMessageWithTime → RosEvent
  service_event : ServiceEvent → RosEvent
  rmw : RmwEvent → RosEvent
