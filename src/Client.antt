-- ===== src/Client.antt =====
-- The client of Modality's ingest protocol (auxon_sdk::ingest_client), as the message processor
-- (modality-ros-hook/src/message_processor.rs) sees it: calls that are answered, in order.
-- The SDK and the daemon behind it are the parameter `Backend`.
pub mod Trace
use modality_ros.Prelude.{ℕ, String, Bool, Option, List}
use modality_ros.Api.{TimelineId, InternedAttrKey, AttrVal}

abbrev pub Attrs : Type 0
Attrs = List (InternedAttrKey × AttrVal)

-- A call with its answer; `none` and `false` are errors.
pub data Call : Type 0 where
  declare_attr_key : String → Option InternedAttrKey → Call
  open_timeline : TimelineId → Bool → Call
  timeline_metadata : Attrs → Bool → Call
  event : ℕ → Attrs → Bool → Call

-- The answers to the next call, given the calls so far, newest first: any client is such a value.
pub record Backend : Type 0 where
  pub declare_attr_key : List Call → String → Option InternedAttrKey
  pub open_timeline : List Call → TimelineId → Bool
  pub timeline_metadata : List Call → Attrs → Bool
  pub event : List Call → ℕ → Attrs → Bool
