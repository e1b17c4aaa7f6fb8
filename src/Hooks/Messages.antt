-- ===== src/Hooks/Messages.antt =====
-- The hooks of messages (modality-ros-hook/src/hooks.rs): what is published waits for the clock
-- reading that the middleware stamps it with, what is taken has its times.
use modality_ros.Prelude.{ℕ, ◌||◌, none, some, List, [], ◌∷◌, map, ◌==◌, nat_eq, if◌then◌else◌}
use modality_ros.Prelude.Int.{ℤ}
use modality_ros.Prelude.Dict.{lookup}
use modality_ros.Api.{Kvs}
use modality_ros.Events.{
  PublisherGraphId, CapturedMessage, CapturedMessageWithTime, CapturedTime, compound,
  signed_epoch_nanos, message,
}
use modality_ros.Events
use modality_ros.Memory.{Memory}
use modality_ros.Schema.{flat_size}
use modality_ros.Hooks.{Hooks, Context, PublisherState, SubscriptionState, send}
use modality_ros.Hooks.Services.{bytes_at}

-- `message_info`
pub record MessageInfo : Type 0 where
  pub source_timestamp : ℤ
  pub received_timestamp : ℤ
  pub publisher_gid : PublisherGraphId

-- `TimeSpec`
pub record TimeSpec : Type 0 where
  pub tv_sec : ℤ
  pub tv_nsec : ℤ

abbrev pub publication : PublisherState → Kvs → CapturedMessage
publication p kvs = record {
  kvs = kvs;
  topic_name = p.topic_name;
  node_namespace = p.node_namespace;
  node_name = p.node_name;
  node_timeline_id = p.node_timeline_id;
  direction = Events.send p.graph_id;
}

abbrev pub reception : SubscriptionState → MessageInfo → Kvs → CapturedMessage
reception s info kvs = record {
  kvs = kvs;
  topic_name = s.topic_name;
  node_namespace = s.node_namespace;
  node_name = s.node_name;
  node_timeline_id = s.node_timeline_id;
  direction = Events.receive (some info.publisher_gid);
}

module _ (cx : Context) where
  -- `modality_before_rmw_publish`
  unfoldable pub before_publish : ℕ → Memory → ℕ → Hooks → Hooks
  unfolding lookup nat_eq
  before_publish pub_ptr mem message_ptr h =
      if pub_ptr == 0 || message_ptr == 0 then h else elim (lookup pub_ptr h.publishers) [
        | none ↦ h
        | some p ↦ record h {
          last_captured_message = some (
              map (publication p) (
                cx.interpreter.interpret_potentially_compound_message mem p.message_schema
                  (bytes_at message_ptr (flat_size p.message_schema))));
        }
      ]

  unfoldable pub stamped : TimeSpec → CapturedMessage → CapturedMessageWithTime
  stamped t msg = record {
    msg = msg;
    publish_time = compound t.tv_sec t.tv_nsec;
    receive_time = none;
  }

  -- the messages, sent one after the other
  unfoldable pub send_all : List CapturedMessageWithTime → Hooks → Hooks
  unfolding send
  send_all [] h = h
  send_all (m ∷ msgs) h = send_all msgs (send cx (message m) h)

  -- `modality_after_clock_gettime`
  unfoldable pub after_clock_gettime : ℕ → TimeSpec → Hooks → Hooks
  unfolding send_all stamped nat_eq
  after_clock_gettime clock_id t h =
      if clock_id == 0
      then elim h.last_captured_message [
        | none ↦ h
        | some msgs ↦ send_all (map (stamped t) msgs) (record h { last_captured_message = none })
      ]
      else h

  unfoldable pub taken : SubscriptionState → MessageInfo → Kvs → CapturedMessageWithTime
  taken s info kvs = record {
    msg = reception s info kvs;
    publish_time = signed_epoch_nanos info.source_timestamp;
    receive_time = some (signed_epoch_nanos info.received_timestamp);
  }

  -- `modality_after_rmw_take_with_info`
  unfoldable pub after_take_with_info : ℕ → Memory → ℕ → MessageInfo → Hooks → Hooks
  unfolding lookup nat_eq send_all taken
  after_take_with_info sub_ptr mem message_ptr info h = elim (lookup sub_ptr h.subscriptions) [
    | none ↦ h
    | some s ↦
        send_all
          (map (taken s info) (
            cx.interpreter.interpret_potentially_compound_message mem s.message_schema
              (bytes_at message_ptr (flat_size s.message_schema))))
          h
  ]
