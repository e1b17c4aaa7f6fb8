-- ===== src/Tests/Registry.antt =====
-- The creation of a publisher and of a subscription on a node.
use modality_ros.Prelude.{
  ℕ, ◌≡◌, refl, none, some, List, [], ◌∷◌, ◌==◌, nat_eq, string_eq, if◌then◌else◌, ◌-◌,
}
use modality_ros.Prelude.Dict.{lookup}
use modality_ros.Prelude.Text.{trim}
use modality_ros.Memory.{Memory, c_string}
use modality_ros.Schema.{FlatRosMessageSchema, flat_schema, flat_cons, flat_scalar, flat_end}
use modality_ros.Schema.Convert.{from_message_type_support, array_member}
use modality_ros.Schema.Flatten.{flatten}
use modality_ros.Hooks.{Hooks, NodeState, PublisherState, initial}
use modality_ros.Hooks.Registry.{after_create_publisher}
use modality_ros.Hooks.Interpretation.{context_of}
use modality_ros.Hooks.Created.{lookup-after_create_publisher}
use modality_ros.Processor.Rmw.{rmw_attrs}
use modality_ros.Events.{RmwEvent, rmw}
use modality_ros.Schema.Service.{RosServiceSchema, from_service_type_support}
use modality_ros.Hooks.{try_send}
use modality_ros.Hooks.Services.{after_create_service, after_create_client}
use modality_ros.Hooks.Created.Services.{swapped, lookup-after_create_service}
use modality_ros.Tests.Hooks.{context, add_two_ints}
use modality_ros.Schema.Convert.{convert_c_message_members_to_schemas}
use modality_ros.Schema.Flatten.{from_nested_members, key_of}
use modality_ros.Schema.{push}
use modality_ros.Tests.Schema.{pose, pose_schema, config, bindings, big, texts}

abbrev talker : NodeState
talker = record { namespace = "/"; name = "talker"; timeline_id = 7 }

abbrev one_node : Hooks
one_node = record initial { nodes = (100, talker) ∷ [] }

abbrev with_topic : FlatRosMessageSchema → PublisherState
with_topic flat = record {
  message_schema = flat;
  topic_name = trim "/pose ";
  node_namespace = "/";
  node_name = "talker";
  node_timeline_id = 7;
  graph_id = none;
}

lookup-after_create_publisher_example :
    (h' : Hooks) × (flat : FlatRosMessageSchema) × (after_create_publisher
        (context_of config bindings big texts)
        100
        200
        pose
        "/pose "
        none
        none
        one_node
      ≡ some h')
    × (flatten pose_schema [] ≡ some flat)
    × ((k : ℕ)
        → lookup k h'.publishers
          ≡ (if k == 200 then some (with_topic flat) else lookup k one_node.publishers))
unfolding context_of from_message_type_support array_member lookup nat_eq string_eq trim
lookup-after_create_publisher_example =
    lookup-after_create_publisher (context_of config bindings big texts) 100 200 pose "/pose " none
      none one_node talker pose_schema refl refl refl

-- "hi" at the start, and zeros
abbrev text_at : List ℕ → Memory
text_at [] p = 0
text_at (b ∷ bs) p = if p == 0 then b else text_at bs (p - 1)

hi : c_string (text_at (104 ∷ 105 ∷ [])) 0 ≡ "hi"
unfolding c_string nat_eq
hi = refl

abbrev service_schema : RosServiceSchema
service_schema = record {
  namespace = "example_interfaces__srv";
  name = "AddTwoInts";
  request_members =
      flat_schema "example_interfaces__srv" "AddTwoInts" 16
        (flat_cons (flat_scalar (record { key = "a"; type_id = 15; offset = 0 })) flat_end);
  response_members =
      flat_schema "example_interfaces__srv" "AddTwoInts" 8
        (flat_cons (flat_scalar (record { key = "sum"; type_id = 15; offset = 0 })) flat_end);
}

lookup-after_create_service_example :
    ((h' : Hooks) × (event : RmwEvent) × (after_create_service context 100 300 add_two_ints " /add"
          none one_node
        ≡ some h')
      × (h'.channel ≡ try_send 2 (rmw event) one_node.channel)
      × (rmw_attrs event ≡ swapped "rmw.create_service" "/add" service_schema)
      × ((k : ℕ)
          → lookup k h'.services ≡ (
              if k == 300
              then some
                  (record { schema = service_schema; node_timeline_id = 7; service_name = "/add" })
              else none)))
    × ((h' : Hooks) × (event : RmwEvent) × (after_create_client context 100 300 add_two_ints " /add"
            none one_node
          ≡ some h')
        × (h'.channel ≡ try_send 2 (rmw event) one_node.channel)
        × (rmw_attrs event ≡ swapped "rmw.create_client" "/add" service_schema)
        × ((k : ℕ)
            → lookup k h'.clients ≡ (
                if k == 300
                then some (record {
                  schema = service_schema;
                  node_timeline_id = 7;
                  service_name = "/add";
                })
                else none)))
unfolding from_service_type_support array_member lookup nat_eq string_eq trim
    convert_c_message_members_to_schemas from_nested_members push key_of
lookup-after_create_service_example =
    lookup-after_create_service context 100 300 add_two_ints " /add" none one_node talker
      service_schema refl refl
