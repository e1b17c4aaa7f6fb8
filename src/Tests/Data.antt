-- ===== src/Tests/Data.antt =====
-- A client, nodes, messages and events to run the processor on.
use modality_ros.Prelude.{ℕ, true, false, Option, none, some, List, [], ◌∷◌, length}
use modality_ros.Prelude.Int.{pos}
use modality_ros.Api.{AttrVal}
use modality_ros.Events.{
  PublisherGraphId, RmwEvent, create_node, destroy_node, compound, signed_epoch_nanos, ServiceEvent,
  send_request, take_request, send, receive, CapturedMessage, CapturedMessageWithTime, RosEvent,
  message, service_event, rmw,
}
use modality_ros.Client.{Backend}

-- A client that takes everything, and numbers the keys by its calls.
abbrev pub willing : Backend
willing = record {
  declare_attr_key = λ cs name. some (length cs);
  open_timeline = λ cs t. true;
  timeline_metadata = λ cs attrs. true;
  event = λ cs o attrs. true;
}

-- A client that takes no event.
abbrev pub eventless : Backend
eventless = record willing { event = λ cs o attrs. false }

abbrev pub gid : PublisherGraphId
gid = 1 ∷ 15 ∷ 255 ∷ []

abbrev pub talker : RmwEvent
talker = create_node "/" "talker" 7 (some 5)

abbrev pub chatter : CapturedMessage
chatter = record {
  kvs = ("data", AttrVal.string "hello") ∷ [];
  topic_name = "/chatter";
  node_namespace = "/";
  node_name = "talker";
  node_timeline_id = 7;
  direction = send (some gid);
}

abbrev pub sent : CapturedMessageWithTime
sent = record { msg = chatter; publish_time = compound (pos 2) (pos 3); receive_time = none }

abbrev pub received : CapturedMessageWithTime
received = record {
  msg = record chatter {
    direction = receive (some gid);
    node_timeline_id = 8;
    node_name = "listener";
  };
  publish_time = signed_epoch_nanos (pos 2_000_000_003);
  receive_time = some (signed_epoch_nanos (pos 0));
}

abbrev pub request : ServiceEvent
request = record {
  timeline_id = 7;
  timestamp = some 9;
  service_name = "/waypoint/create";
  event_type = send_request;
  client_guid = 171 ∷ 205 ∷ [];
  sequence_id = pos 4;
  kvs = [];
}

abbrev pub taken : ServiceEvent
taken = record request { timeline_id = 8; event_type = take_request }

abbrev pub events : List (RosEvent × Option ℕ)
events =
    (rmw talker, none)
    ∷ (message sent, none)
    ∷ (message received, some 11)
    ∷ (service_event request, none)
    ∷ (service_event taken, none)
    ∷ (rmw (destroy_node 7 none), none)
    ∷ []
