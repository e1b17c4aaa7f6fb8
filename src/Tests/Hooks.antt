-- ===== src/Tests/Hooks.antt =====
-- The hooks run on a node that publishes messages with a header, and serves requests.
use modality_ros.Tests.Schema.{field_types, pose, config, bindings, big, texts}
use modality_ros.Prelude.{
  map, ◌≡◌, refl, false, Option, none, some, List, [], ◌∷◌, ◌++◌, map, length, nat_eq,
}
use modality_ros.Prelude.Int.{pos}
use modality_ros.Prelude.Dict.{lookup}
use modality_ros.Api.{AttrVal}
use modality_ros.Memory.{Memory}
use modality_ros.Schema.{flat_schema, flat_end, flat_cons, flat_scalar}
use modality_ros.Schema.Convert.{
  message_members, c_end, c_cons, no_support, c_identifier, array_member,
}
use modality_ros.Schema.Flatten.{from_nested_members}
use modality_ros.Schema.Service.{ServiceHandle, ServiceTypeSupport, service_handle}
use modality_ros.Hooks.{Hooks, Context, PublisherState, initial}
use modality_ros.Hooks.Services.{
  Client, RequestId, after_destroy_service, after_destroy_client, after_send_request,
  after_take_request, after_send_response, after_take_response,
}
use modality_ros.Hooks.Registry.{after_destroy_publisher, after_destroy_subscription}
use modality_ros.Hooks.Messages.{MessageInfo, TimeSpec, before_publish, after_take_with_info}
use modality_ros.Hooks.Machine
use modality_ros.Hooks.Machine.{Action, run, step}
use modality_ros.Hooks.Channels.{accepted}
use modality_ros.Hooks.Publications.{publications}
use modality_ros.Hooks.Interpretation.{context_of}
use modality_ros.Hooks.Destroyed.{before_publish-destroyed, after_send_response-destroyed}

-- A context that reads one value from every message.
abbrev pub context : Context
context = record {
  config = config;
  field_types = field_types;
  interpreter = record {
    interpret_single_message = λ mem schema s. ("x", AttrVal.integer (pos (mem s.ptr))) ∷ [];
    interpret_potentially_compound_message =
        λ mem schema s. (("x", AttrVal.integer (pos (mem s.ptr))) ∷ []) ∷ [];
  };
}

abbrev pub nothing_there : Memory
nothing_there p = 7

abbrev pub wall : TimeSpec
wall = record { tv_sec = pos 3; tv_nsec = pos 5 }

abbrev pub add_two_ints : ServiceTypeSupport
add_two_ints = record {
  c =
      service_handle c_identifier "example_interfaces__srv" "AddTwoInts"
        (message_members "example_interfaces__srv" "AddTwoInts_Request" 16
          (c_cons "a" 15 0 false 0 false none none no_support c_end))
        (message_members "example_interfaces__srv" "AddTwoInts_Response" 8
          (c_cons "sum" 15 0 false 0 false none none no_support c_end));
  cpp = ServiceHandle.null;
}

abbrev call : RequestId
call = record { writer_guid = pos 1 ∷ pos 2 ∷ []; sequence_number = pos 9 }

abbrev caller : Client
caller = record { address = 600; guid_prefix = 1 ∷ []; entity_id = 2 ∷ [] }

abbrev beginning : List Action
beginning =
    Machine.hook (Machine.create_node "talker" "/" 100 7 (some 50))
    ∷ Machine.hook (Machine.create_publisher 100 200 pose "/pose " (some (1 ∷ [])) (some 51))
    ∷ Machine.recv
    ∷ Machine.hook (Machine.create_service 100 300 add_two_ints "/add" (some 52))
    ∷ Machine.recv
    ∷ []

abbrev ending : List Action
ending =
    Machine.hook (Machine.publish 200 nothing_there 4000)
    ∷ Machine.hook (Machine.clock_gettime 0 wall)
    ∷ Machine.recv
    ∷ Machine.hook (Machine.take_request 300 call nothing_there 5000 (some 53))
    ∷ []

abbrev hooks_or : Option Hooks → Hooks
hooks_or none = initial
hooks_or (some h) = h

abbrev after_beginning : Hooks
unfolding run
after_beginning = hooks_or (run context beginning initial)

abbrev after_ending : Hooks
unfolding run
after_ending = hooks_or (run context ending after_beginning)

abbrev everything : List Action
everything = beginning ++ ending

accepted_number : length (accepted after_ending.channel) ≡ 5
unfolding run after_ending step array_member from_nested_members
accepted_number = refl

abbrev pub publisher_or : Option PublisherState → PublisherState
publisher_or none = record {
  message_schema = flat_schema "" "" 0 flat_end;
  topic_name = "";
  node_namespace = "";
  node_name = "";
  node_timeline_id = 0;
  graph_id = none;
}
publisher_or (some p) = p

abbrev publisher : PublisherState
unfolding after_beginning lookup nat_eq
publisher = publisher_or (lookup 200 after_beginning.publishers)

abbrev info : MessageInfo
info = record { source_timestamp = pos 1; received_timestamp = pos 2; publisher_gid = 1 ∷ [] }

before_publish-destroyed_example :
    (before_publish context 200 nothing_there 4000
        (after_destroy_publisher context 200 none after_beginning)
      ≡ after_destroy_publisher context 200 none after_beginning)
    × (after_take_with_info context 200 nothing_there 4000 info
          (after_destroy_subscription context 200 none after_beginning)
        ≡ after_destroy_subscription context 200 none after_beginning)
before_publish-destroyed_example =
    before_publish-destroyed context 200 none nothing_there 4000 info after_beginning

abbrev served : Hooks
unfolding after_destroy_service after_beginning
served = after_destroy_service context 300 none after_beginning

abbrev left : Hooks
unfolding after_destroy_client after_beginning
left = after_destroy_client context 600 none after_beginning

after_send_response-destroyed_example :
    (after_take_request context 300 call nothing_there 5000 none served ≡ served)
    × (after_send_response context 300 call nothing_there 5000 none served ≡ served)
    × (after_send_request context caller nothing_there 5000 (pos 4) none left ≡ left)
    × (after_take_response context caller (pos 4) nothing_there 5000 none left ≡ left)
unfolding served left
after_send_response-destroyed_example =
    after_send_response-destroyed context 300 caller call (pos 4) nothing_there 5000 none none
      after_beginning

abbrev thermometer : PublisherState
thermometer = record {
  message_schema =
      flat_schema "sensor_msgs__msg" "Temperature" 8
        (flat_cons (flat_scalar (record { key = "t"; type_id = 14; offset = 0 })) flat_end);
  topic_name = "/temperature";
  node_namespace = "/";
  node_name = "thermometer";
  node_timeline_id = 7;
  graph_id = none;
}

captured_kvs :
    map
      (λ m. m.msg.kvs)
      (publications (context_of config bindings big texts) thermometer nothing_there 4000 wall)
    ≡ (("event.ros.schema.namespace", AttrVal.string "sensor_msgs__msg")
        ∷ ("event.ros.schema.name", AttrVal.string "Temperature")
        ∷ ("t", AttrVal.big_int (pos 506381209866536711))
        ∷ [])
      ∷ []
unfolding context_of
captured_kvs = refl
