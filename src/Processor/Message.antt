-- ===== src/Processor/Message.antt =====
-- `handle_message` (modality-ros-hook/src/message_processor.rs).
use modality_ros.Prelude.{
  ℕ, zero, suc, String, ◌<>◌, Bool, true, false, ◌&&◌, ◌||◌, Option, none, some, [], ◌∷◌, ◌++◌,
}
use modality_ros.Prelude.{◌==◌, string_eq, nat_eq, if◌then◌else◌}
use modality_ros.Prelude.Text.{strip_slash}
use modality_ros.Api.{Nanoseconds, AttrVal, Kvs, is_non_empty_string}
use modality_ros.Events.{
  PublisherGraphId, gid_to_string, CapturedTime, compound, signed_epoch_nanos, to_epoch_nanos, now,
  MessageDirection, send, receive, CapturedMessage, CapturedMessageWithTime,
}
use modality_ros.Client.{Attrs, Backend}
use modality_ros.Processor.{M, ◌>>=◌, ◌>>◌, push_attrs, send_event}
use modality_ros.Processor.Timeline.{send_publisher_metadata, open_timeline_and_send_metadata}
use modality_ros.Processor.Rmw.{stamp}
use text.Mathlib.Text.{starts_with}

-- `(k == "event.name" || k == "name") && is_non_empty_string(v)`, of any pair
unfoldable pub has_event_name : Kvs → Bool
unfolding is_non_empty_string
has_event_name [] = false
has_event_name ((k, v) ∷ kvs) =
    ((k == "event.name" || k == "name") && is_non_empty_string v) || has_event_name kvs

unfoldable pub topic_attrs : CapturedMessage → Kvs
topic_attrs m = ("event.ros.topic", AttrVal.string m.topic_name) ∷ []

-- Without a name of its own, an event is named after its topic.
unfoldable pub name_attrs : CapturedMessage → Kvs
unfolding has_event_name strip_slash
name_attrs m =
    if has_event_name m.kvs
    then []
    else ("event.name", AttrVal.string (strip_slash m.topic_name)) ∷ []

dds_time : CapturedTime → Kvs
dds_time (compound sec nsec) =
    ("event.dds_time.sec", AttrVal.integer sec)
    ∷ ("event.dds_time.nanosec", AttrVal.integer nsec)
    ∷ []
dds_time (signed_epoch_nanos nsec) = ("event.dds_time.nanosec", AttrVal.integer nsec) ∷ []

-- A publication's attributes, but for `event.ros.publish`.
unfoldable pub publish_attrs : CapturedTime → Kvs
unfolding dds_time stamp
publish_attrs t = stamp (to_epoch_nanos t) ++ dds_time t

unfoldable pub remote_time : Option Nanoseconds → Kvs
remote_time none = []
remote_time (some t) = ("event.interaction.remote_timestamp", AttrVal.timestamp t) ∷ []

unfoldable pub remote_gid : Option PublisherGraphId → Kvs
unfolding gid_to_string
remote_gid none = []
remote_gid (some gid) =
    ("event.interaction.remote_timeline.ros.publisher_gid." <> gid_to_string gid, AttrVal.bool true)
    ∷ []

unfoldable pub captured : Option CapturedTime → Option Nanoseconds
captured none = none
captured (some ct) = to_epoch_nanos ct

-- A time of 0 counts as none (cyclonedds always sets it), and the clock is read instead.
unfoldable pub receive_time_or_now : Option Nanoseconds → Option ℕ → Option Nanoseconds
receive_time_or_now none reading = now reading
receive_time_or_now (some zero) reading = now reading
receive_time_or_now (some (suc t)) reading = some (suc t)

unfoldable pub receive_attrs : Option PublisherGraphId → CapturedMessageWithTime → Option ℕ → Kvs
unfolding remote_time remote_gid captured receive_time_or_now stamp
receive_attrs gid m reading =
    ("event.ros.receive", AttrVal.bool true) ∷ remote_time (to_epoch_nanos m.publish_time)
    ++ remote_gid gid
    ++ stamp (receive_time_or_now (captured m.receive_time) reading)

-- `if !k.starts_with("event.") { k = format!("event.{k}"); }`
unfoldable pub event_key : String → String
event_key k = if starts_with k "event." then k else "event." <> k

unfoldable pub event_kvs : Kvs → Kvs
unfolding event_key
event_kvs [] = []
event_kvs ((k, v) ∷ kvs) = (event_key k, v) ∷ event_kvs kvs

module _ (backend : Backend) (run_id : String) where
  unfoldable pub direction_attrs :
      CapturedMessageWithTime → Option ℕ → MessageDirection → Attrs → M Attrs
  unfolding publish_attrs receive_attrs
  direction_attrs m reading (send gid) attrs = do
    attrs' ← push_attrs backend attrs (("event.ros.publish", AttrVal.bool true) ∷ [])
    send_publisher_metadata backend m.msg.node_timeline_id gid
    push_attrs backend attrs' (publish_attrs m.publish_time)
  direction_attrs m reading (receive gid) attrs =
      push_attrs backend attrs (receive_attrs gid m reading)

  -- `reading` is what the system clock answers, should it be asked.
  unfoldable pub handle_message : CapturedMessageWithTime → Option ℕ → M (Unit {0})
  unfolding direction_attrs topic_attrs name_attrs event_kvs
  handle_message m reading = do
    open_timeline_and_send_metadata backend run_id m.msg.node_timeline_id m.msg.node_namespace
        m.msg.node_name
    attrs ← push_attrs backend [] (topic_attrs m.msg)
    attrs' ← push_attrs backend attrs (name_attrs m.msg)
    attrs'' ← direction_attrs m reading m.msg.direction attrs'
    attrs''' ← push_attrs backend attrs'' (event_kvs m.msg.kvs)
    send_event backend attrs'''
