-- ===== src/Events/Service.antt =====
-- `ServiceEvent` and `ServiceEventType` of modality-ros-hook/src/hooks.rs.
use modality_ros.Prelude.{ℕ, String, Option, List}
use modality_ros.Prelude.Int.{ℤ}
use modality_ros.Api.{TimelineId, Nanoseconds, Kvs}

pub data ServiceEventType : Type 0 where
  send_request take_request send_response take_response : ServiceEventType

unfoldable pub opposite : ServiceEventType → ServiceEventType
opposite send_request = take_request
opposite take_request = send_request
opposite send_response = take_response
opposite take_response = send_response

unfoldable pub event_type_to_string : ServiceEventType → String
event_type_to_string send_request = "send_request"
event_type_to_string take_request = "recv_request"
event_type_to_string send_response = "send_response"
event_type_to_string take_response = "recv_response"

pub record ServiceEvent : Type 0 where
  pub timeline_id : TimelineId
  pub timestamp : Option Nanoseconds
  pub service_name : String
  pub event_type : ServiceEventType
  pub client_guid : List ℕ
  pub sequence_id : ℤ
  pub kvs : Kvs
