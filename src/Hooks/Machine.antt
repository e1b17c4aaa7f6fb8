-- ===== src/Hooks/Machine.antt =====
-- The hooks as the actions of one machine (modality-ros-hook/src/hooks.rs): any sequence of calls
-- by the application, with the processor's thread taking events, or ending, in between.
use modality_ros.Prelude.{ℕ, String, true, Option, none, some, List, [], ◌∷◌}
use modality_ros.Prelude.Int.{ℤ}
use modality_ros.Api.{TimelineId}
use modality_ros.Events.{PublisherGraphId}
use modality_ros.Memory.{Memory}
use modality_ros.Schema.Convert.{MessageTypeSupport}
use modality_ros.Schema.Service.{ServiceTypeSupport}
use modality_ros.Hooks.{Hooks, Context, receive}
use modality_ros.Hooks.Registry.{
  after_create_node, after_destroy_node, after_create_publisher, after_destroy_publisher,
  after_create_subscription, after_destroy_subscription,
}
use modality_ros.Hooks.Services.{
  Client, RequestId, after_create_service, after_destroy_service, after_create_client,
  after_destroy_client, after_send_request, after_take_request, after_send_response,
  after_take_response,
}
use modality_ros.Hooks.Messages.{
  MessageInfo, TimeSpec, before_publish, after_clock_gettime, after_take_with_info,
}

-- The exported functions, with what each reads from outside.
pub data Hook : Type 0 where
  create_node :
      (name namespace : String) (node_address : ℕ) (allocated : TimelineId) (clock : Option ℕ)
      → Hook
  destroy_node : (node_ptr : ℕ) (clock : Option ℕ) → Hook
  create_publisher :
      (node_ptr pub_ptr : ℕ) (type_support : MessageTypeSupport) (topic_name : String)
      (graph_id : Option PublisherGraphId) (clock : Option ℕ)
      → Hook
  destroy_publisher : (pub_ptr : ℕ) (clock : Option ℕ) → Hook
  publish : (pub_ptr : ℕ) (mem : Memory) (message_ptr : ℕ) → Hook
  clock_gettime : (clock_id : ℕ) (timespec : TimeSpec) → Hook
  create_subscription :
      (node_ptr sub_ptr : ℕ) (type_support : MessageTypeSupport) (topic_name : String)
      (clock : Option ℕ)
      → Hook
  destroy_subscription : (sub_ptr : ℕ) (clock : Option ℕ) → Hook
  take_with_info : (sub_ptr : ℕ) (mem : Memory) (message_ptr : ℕ) (info : MessageInfo) → Hook
  create_service :
      (node_ptr service : ℕ) (type_support : ServiceTypeSupport) (service_name : String)
      (clock : Option ℕ)
      → Hook
  destroy_service : (service : ℕ) (clock : Option ℕ) → Hook
  create_client :
      (node_ptr client : ℕ) (type_support : ServiceTypeSupport) (service_name : String)
      (clock : Option ℕ)
      → Hook
  destroy_client : (client : ℕ) (clock : Option ℕ) → Hook
  send_request :
      (client : Client) (mem : Memory) (ros_request : ℕ) (sequence_id : ℤ) (clock : Option ℕ) → Hook
  take_request :
      (service : ℕ) (request_id : RequestId) (mem : Memory) (ros_request : ℕ) (clock : Option ℕ)
      → Hook
  send_response :
      (service : ℕ) (request_id : RequestId) (mem : Memory) (ros_response : ℕ) (clock : Option ℕ)
      → Hook
  take_response :
      (client : Client) (sequence_number : ℤ) (mem : Memory) (ros_response : ℕ) (clock : Option ℕ)
      → Hook

-- What happens next: a call, or the processor's thread takes an event, or ends.
pub data Action : Type 0 where
  hook : Hook → Action
  recv : Action
  thread_ends : Action

module _ (cx : Context) where
  -- `none` is a process that has stopped.
  unfoldable pub perform : Hook → Hooks → Option Hooks
  unfolding after_create_node after_destroy_node after_create_publisher after_destroy_publisher
      after_create_subscription after_destroy_subscription after_create_service
      after_destroy_service after_create_client after_destroy_client after_send_request
      after_take_request after_send_response after_take_response before_publish after_clock_gettime
      after_take_with_info
  perform (create_node name namespace p t clock) h =
      some (after_create_node cx name namespace p t clock h)
  perform (destroy_node p clock) h = some (after_destroy_node cx p clock h)
  perform (create_publisher n p ts topic gid clock) h =
      after_create_publisher cx n p ts topic gid clock h
  perform (destroy_publisher p clock) h = some (after_destroy_publisher cx p clock h)
  perform (publish p mem m) h = some (before_publish cx p mem m h)
  perform (clock_gettime id t) h = some (after_clock_gettime cx id t h)
  perform (create_subscription n p ts topic clock) h =
      after_create_subscription cx n p ts topic clock h
  perform (destroy_subscription p clock) h = some (after_destroy_subscription cx p clock h)
  perform (take_with_info p mem m info) h = some (after_take_with_info cx p mem m info h)
  perform (create_service n p ts name clock) h = after_create_service cx n p ts name clock h
  perform (destroy_service p clock) h = some (after_destroy_service cx p clock h)
  perform (create_client n p ts name clock) h = after_create_client cx n p ts name clock h
  perform (destroy_client p clock) h = some (after_destroy_client cx p clock h)
  perform (send_request c mem m id clock) h = some (after_send_request cx c mem m id clock h)
  perform (take_request p id mem m clock) h = some (after_take_request cx p id mem m clock h)
  perform (send_response p id mem m clock) h = some (after_send_response cx p id mem m clock h)
  perform (take_response c n mem m clock) h = some (after_take_response cx c n mem m clock h)

  unfoldable pub step : Action → Hooks → Option Hooks
  unfolding perform receive
  step (hook c) h = perform c h
  step recv h = some (record h { channel = receive h.channel })
  step thread_ends h = some (record h { channel = record h.channel { closed = true } })

  unfoldable pub continue : List Action → Option Hooks → Option Hooks
  continue [] r = r
  continue (a ∷ actions) none = none
  continue (a ∷ actions) (some h) = continue actions (step a h)

  unfoldable pub run : List Action → Hooks → Option Hooks
  unfolding continue
  run actions h = continue actions (some h)
