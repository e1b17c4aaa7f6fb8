-- ===== src/Hooks.antt =====
-- The state behind the hooks (modality-ros-hook/src/hooks.rs): the tables of what the application
-- has created, the messages that wait for the clock, and the channel to the message processor.
-- It is the state as one thread sees it: the thread local LAST_CAPTURED_MESSAGE is a field.
pub mod Registry
pub mod Services
pub mod Messages
pub mod Machine
pub mod Channels
pub mod Announced
pub mod Alike
pub mod Publications
pub mod Created
pub mod Requests
pub mod Truncated
pub mod Destroyed
pub mod Interpretation
use modality_ros.Prelude.{
  ℕ, String, Bool, true, false, Option, none, some, List, [], ◌∷◌, ◌++◌, ltb, length, if◌then◌else◌,
}
use modality_ros.Prelude.Dict.{Dict}
use modality_ros.Api.{TimelineId, Kvs}
use modality_ros.Config.{ModalityRosHookConfig}
use modality_ros.Events.{PublisherGraphId, CapturedMessage, RosEvent}
use modality_ros.Memory.{Memory, Slice, FieldTypes}
use modality_ros.Schema.{FlatRosMessageSchema}
use modality_ros.Schema.Service.{RosServiceSchema}

pub record NodeState : Type 0 where
  pub namespace : String
  pub name : String
  pub timeline_id : TimelineId

pub record PublisherState : Type 0 where
  pub message_schema : FlatRosMessageSchema
  pub topic_name : String
  pub node_namespace : String
  pub node_name : String
  pub node_timeline_id : TimelineId
  pub graph_id : Option PublisherGraphId

pub record SubscriptionState : Type 0 where
  pub message_schema : FlatRosMessageSchema
  pub topic_name : String
  pub node_namespace : String
  pub node_name : String
  pub node_timeline_id : TimelineId

pub record ServiceState : Type 0 where
  pub schema : RosServiceSchema
  pub node_timeline_id : TimelineId
  pub service_name : String

pub record ClientState : Type 0 where
  pub schema : RosServiceSchema
  pub node_timeline_id : TimelineId
  pub service_name : String

-- The channel: `received` is what the processor has taken, `queue` what waits; `closed` says that
-- the processor's thread has ended.
pub record Channel : Type 0 where
  pub received : List RosEvent
  pub queue : List RosEvent
  pub closed : Bool
  pub printed_error : Bool

pub record Hooks : Type 0 where
  pub nodes : Dict ℕ NodeState
  pub publishers : Dict ℕ PublisherState
  pub subscriptions : Dict ℕ SubscriptionState
  pub services : Dict ℕ ServiceState
  pub clients : Dict ℕ ClientState
  pub last_captured_message : Option (List CapturedMessage)
  pub channel : Channel

abbrev pub initial : Hooks
initial = record {
  nodes = [];
  publishers = [];
  subscriptions = [];
  services = [];
  clients = [];
  last_captured_message = none;
  channel = record { received = []; queue = []; closed = false; printed_error = false };
}

-- How the bytes of a message become pairs of names and values.
pub record Interpreter : Type 0 where
  pub interpret_single_message : Memory → FlatRosMessageSchema → Slice → Kvs
  pub interpret_potentially_compound_message : Memory → FlatRosMessageSchema → Slice → List Kvs

pub record Context : Type 0 where
  pub config : ModalityRosHookConfig
  pub field_types : FieldTypes
  pub interpreter : Interpreter

-- `self.tx.try_send(event)`, with its errors
unfoldable pub try_send : ℕ → RosEvent → Channel → Channel
try_send capacity event ch =
    if ch.closed
    then ch
    else if ltb (length ch.queue) capacity
    then record ch { queue = ch.queue ++ event ∷ [] }
    else record ch { printed_error = true }

-- `Sender::send`, on SEND_CH
unfoldable pub send : Context → RosEvent → Hooks → Hooks
unfolding try_send
send cx event h = record h { channel = try_send cx.config.buffer_size event h.channel }

-- Sends the event of an entry, if there is one.
unfoldable pub send_found : {A : Type 0} → Context → Option A → (A → RosEvent) → Hooks → Hooks
unfolding send
send_found cx none event h = h
send_found cx (some a) event h = send cx (event a) h

-- `rx.recv()` in the processor's loop
unfoldable pub receive : Channel → Channel
receive ch = elim ch.queue [
  | [] ↦ ch
  | event ∷ queue ↦ record ch { received = ch.received ++ event ∷ []; queue = queue }
]
