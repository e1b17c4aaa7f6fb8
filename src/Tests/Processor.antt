-- ===== src/Tests/Processor.antt =====
use modality_ros.Prelude.{
  Option, map, ◌==◌, if◌then◌else◌, String, ◌<>◌, ◌≡◌, refl, ◌↔◌, true, none, some, [], ◌∷◌, arith,
  string_eq, nat_eq,
}
use modality_ros.Prelude.Dict.{lookup, insert}
use modality_ros.Api.{AttrVal}
use modality_ros.Events.{message, opposite, to_epoch_nanos, now}
use modality_ros.Events.Rmw
use modality_ros.Processor.{
  new, ◌>>=◌, interned_attr_key, push_attrs, send_metadata, open_timeline, send_event,
}
use modality_ros.Processor.Timeline.{
  publisher_eq, publisher_attrs, send_timeline_metadata, send_publisher_metadata,
  open_timeline_and_send_metadata,
}
use modality_ros.Processor.Message.{handle_message, receive_attrs, publish_attrs}
use modality_ros.Processor.Service.{handle_service_event, service_event_attrs}
use modality_ros.Processor.Rmw.{handle_rmw_event}
use modality_ros.Processor.Loop.{handle, message_loop}
use modality_ros.Processor.Triple.{Post}
use modality_ros.Processor.Protocol.{Mirrors, Idle, Sent}
use modality_ros.Processor.Protocol.Handlers.{kvs_of}
use modality_ros.Processor.Protocol.Runs.{handle-Sent, new-Idle, message_loop-Mirrors, numbers}
use modality_ros.Processor.Interaction.{Has, Share, remote_event-Share}
use modality_ros.Processor.Interaction.Topic.{receive_attrs-publisher_attrs, remote_timestamp-Share}
use modality_ros.Api.{InternedAttrKey}
use modality_ros.Client.{Backend}
use modality_ros.Processor.Delivery.{delivered}
use modality_ros.Processor.Uncached.{told, uncached, told-message_loop}
use modality_ros.Tests.Data.{willing, gid, sent, received, request, taken, events}

handle-Sent_example :
    Post
      (λ _. Sent 7 0 (kvs_of (message sent) none))
      (Idle 0)
      (handle willing "run" (message sent) none new)
handle-Sent_example = handle-Sent willing "run" (message sent) none 0 new new-Idle

message_loop-Mirrors_example : Mirrors (message_loop willing "run" events new)
message_loop-Mirrors_example = message_loop-Mirrors willing "run" events

abbrev key_of : String → Option InternedAttrKey
key_of name = if name == "event.name" then some 1 else some 2

-- A client that knows two keys.
abbrev two_keys : Backend
two_keys = record willing { declare_attr_key = λ cs name. key_of name }

told-message_loop_example :
    told (message_loop two_keys "run" events new).calls
    ≡ map (uncached key_of) (delivered two_keys "run" events new [])
told-message_loop_example = told-message_loop two_keys key_of (λ cs name. refl) "run" events

remote_event-Share_example :
    Share
      (service_event_attrs taken)
      "event.interaction.remote_event.ros.service.event"
      (service_event_attrs request)
      "event.ros.service.event"
unfolding opposite
remote_event-Share_example =
    (remote_event-Share taken request
      (record { at_server = tt; other_end = refl; same_client = refl; same_request = refl })).0

receive_attrs-publisher_attrs_example :
    ((x : String) × Has
        ("event.interaction.remote_timeline." <> x)
        (AttrVal.bool true)
        (receive_attrs (some gid) received none)
      × Has ("timeline." <> x) (AttrVal.bool true) (publisher_attrs gid))
    ↔ (gid ≡ gid)
receive_attrs-publisher_attrs_example =
    receive_attrs-publisher_attrs gid gid received none (omega arith) (omega arith)

remote_timestamp-Share_example :
    Share
      (publish_attrs sent.publish_time)
      "event.timestamp"
      (receive_attrs (some gid) received none)
      "event.interaction.remote_timestamp"
remote_timestamp-Share_example =
    remote_timestamp-Share 2 3 (some gid) received none (omega arith) refl

run_numbers : numbers (message_loop willing "run" events new).calls ≡ 5 ∷ 4 ∷ 3 ∷ 2 ∷ 1 ∷ 0 ∷ []
unfolding message_loop handle_message handle_rmw_event handle_service_event ◌>>=◌ interned_attr_key
    push_attrs send_metadata open_timeline send_event send_timeline_metadata send_publisher_metadata
    nat_eq string_eq lookup insert publisher_eq to_epoch_nanos now open_timeline_and_send_metadata
    Rmw.timestamp Rmw.timeline_id
run_numbers = refl
