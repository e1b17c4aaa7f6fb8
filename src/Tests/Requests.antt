-- ===== src/Tests/Requests.antt =====
-- A request and its response, between the process of a client and that of a service.
use modality_ros.Prelude.{◌≡◌, refl, none, [], ◌∷◌, nat_eq}
use modality_ros.Prelude.Int.{pos, negsuc}
use modality_ros.Prelude.Dict.{lookup}
use modality_ros.Events.{service_event, now, send_response}
use modality_ros.Memory.{Memory}
use modality_ros.Schema.{flat_schema, flat_end, flat_cons, flat_scalar, FlatRosMessageMemberSchema}
use modality_ros.Schema.Service.{RosServiceSchema}
use modality_ros.Hooks.{Hooks, ServiceState, ClientState, initial, send}
use modality_ros.Hooks.Services.{Client, RequestId, guid_bytes, after_send_response, bytes_at}
use modality_ros.Hooks.Interpretation.{context_of, reader_of}
use modality_ros.Hooks.Truncated.{after_send_response-within}
use modality_ros.Interpret.Messages.{interpret_single_message}
use modality_ros.Interpret.Messages.Within.{within}
use modality_ros.Tests.Schema.{config, bindings, big, texts}

abbrev caller : Client
caller = record { address = 600; guid_prefix = 1 ∷ 255 ∷ []; entity_id = 2 ∷ [] }

abbrev id : RequestId
id = record { writer_guid = pos 1 ∷ negsuc 0 ∷ pos 2 ∷ []; sequence_number = pos 9 }

abbrev schema : RosServiceSchema
schema = record {
  namespace = "example_interfaces__srv";
  name = "AddTwoInts";
  request_members = flat_schema "example_interfaces__srv" "AddTwoInts" 16 flat_end;
  response_members = flat_schema "example_interfaces__srv" "AddTwoInts" 8 flat_end;
}

abbrev client_state : ClientState
client_state = record { schema = schema; node_timeline_id = 7; service_name = "/add" }

abbrev service_state : ServiceState
service_state = record { schema = schema; node_timeline_id = 8; service_name = "/add" }

abbrev at_client : Hooks
at_client = record initial { clients = (600, client_state) ∷ [] }

abbrev at_service : Hooks
at_service = record initial { services = (300, service_state) ∷ [] }

abbrev zeros : Memory
zeros p = 0

-- A response that is longer than its request
abbrev sum : FlatRosMessageMemberSchema
sum = flat_scalar (record { key = "sum"; type_id = 15; offset = 0 })

abbrev carry : FlatRosMessageMemberSchema
carry = flat_scalar (record { key = "carry"; type_id = 15; offset = 24 })

abbrev longer : ServiceState
longer = record {
  schema = record {
    namespace = "example_interfaces__srv";
    name = "AddTwoInts";
    request_members = flat_schema "example_interfaces__srv" "AddTwoInts" 16 flat_end;
    response_members =
        flat_schema "example_interfaces__srv" "AddTwoInts" 32
          (flat_cons sum (flat_cons carry flat_end));
  };
  node_timeline_id = 8;
  service_name = "/add";
}

abbrev at_longer : Hooks
at_longer = record initial { services = (300, longer) ∷ [] }

after_send_response-within_example :
    after_send_response (context_of config bindings big texts) 300 id zeros 50 none at_longer
    ≡ send
        (context_of config bindings big texts)
        (service_event (record {
          timeline_id = 8;
          timestamp = now none;
          service_name = "/add";
          event_type = send_response;
          client_guid = guid_bytes id.writer_guid;
          sequence_id = pos 9;
          kvs =
              interpret_single_message
                (reader_of config bindings big)
                texts
                zeros
                (flat_schema "example_interfaces__srv" "AddTwoInts" 32 (flat_cons sum flat_end))
                (bytes_at 50 16);
        }))
        at_longer
unfolding lookup nat_eq within
after_send_response-within_example =
    after_send_response-within config bindings big texts 300 longer id zeros 50 none at_longer refl
