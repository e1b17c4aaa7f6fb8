-- ===== src/Tests/Interpret.antt =====
-- The interpretation of arrays, of sequences of messages and of diagnostics.
use modality_ros.Prelude.{
  arith, nat_eq, ◌==◌, if◌then◌else◌, ◌+◌, ◌≤◌, String, ◌≡◌, refl, false, none, some, [], ◌∷◌,
  length, string_eq,
}
use modality_ros.Prelude.Int.{pos, negsuc}
use modality_ros.Api.{AttrVal, Kvs}
use modality_ros.Memory.{Memory, Slice}
use modality_ros.Schema.{
  FlatRosMessageSchema, flat_schema, FlatRosMessageMemberSchema, flat_scalar, scalar_array,
  message_sequence, flat_end, flat_cons, ScalarArrayMemberSchema,
}
use modality_ros.Interpret.Members.{Reader, interpret_message, interpret_array}
use modality_ros.Interpret.Members.Names.{Adds, Under}
use modality_ros.Interpret.Members.Prefix.{interpret_message-Under}
use modality_ros.Interpret.Members.Limit.{interpret_array_bound}
use modality_ros.Interpret.Messages.{
  MessageSequenceMemberSchema, status_kvs, interpret_as_diagnostic_array,
  interpret_potentially_compound_message, interpret_single_message, is_log, find_value,
}
use modality_ros.Interpret.Messages.Log.{name_of, name_of-interpret_single_message}
use modality_ros.Interpret.Messages.Events.{
  Begins, interpret_potentially_compound_message-Begins, interpret_as_diagnostic_array_count,
}
use modality_ros.Interpret.Values.{ros_to_attr_val}
use modality_ros.Interpret.Values.Integers
use modality_ros.Interpret.Values.Integers.{ros_to_attr_val-Written}
use modality_ros.Tests.Schema.{bindings, big, texts}

abbrev reader : Reader
reader = record { max_array_len = 3; bindings = bindings; new_attr_val = big }

abbrev mem : Memory
mem p = 7

abbrev message : Slice
message = record { ptr = 4000; len = 64 }

abbrev numbers : ScalarArrayMemberSchema
numbers = record {
  key = "numbers";
  type_id = 8;
  offset_in_item_slice = 16;
  array_size = 2;
  is_upper_bound = false;
  size_function = none;
  get_function = some (λ m p i. p + i);
}

abbrev status : MessageSequenceMemberSchema
status = record {
  key = "status";
  offset = 8;
  message_schema =
      flat_schema "diagnostic_msgs__msg" "DiagnosticStatus" 1
        (flat_cons (flat_scalar (record { key = "level"; type_id = 8; offset = 0 })) flat_end);
  array_size = 0;
  is_upper_bound = false;
  size_function = some (λ m p. 2);
  get_function = some (λ m p i. p + i);
}

abbrev status_member : FlatRosMessageMemberSchema
status_member =
    message_sequence "status" 8 status.message_schema 0 false (some (λ m p. 2))
      (some (λ m p i. p + i))

abbrev diagnostics : FlatRosMessageSchema
diagnostics =
    flat_schema "diagnostic_msgs__msg" "DiagnosticArray" 64
      (flat_cons (scalar_array numbers) (flat_cons status_member flat_end))

interpret_message-Under_example :
    Adds (Under "robot") [] (interpret_message reader mem status_member (some "robot") message []).1
interpret_message-Under_example =
    interpret_message-Under reader mem status_member "robot" message []

status_attrs :
    (interpret_message reader mem status_member (some "robot") message []).1
    ≡ ("robot.status.0.level", AttrVal.integer (pos 7))
      ∷ ("robot.status.1.level", AttrVal.integer (pos 7))
      ∷ []
unfolding interpret_message
status_attrs = refl

interpret_array_bound_example :
    length (interpret_array reader mem numbers none message []).1
    ≤ length {A = String × AttrVal} [] + 3
interpret_array_bound_example = interpret_array_bound reader mem numbers none message []

abbrev log : FlatRosMessageSchema
log =
    flat_schema "rcl_interfaces__msg" "Log" 8
      (flat_cons (flat_scalar (record { key = "msg"; type_id = 8; offset = 0 })) flat_end)

interpret_potentially_compound_message-Begins_example :
    (kvs : Kvs) × (interpret_potentially_compound_message reader texts mem log message ≡ kvs ∷ [])
    × Begins log kvs
unfolding string_eq
interpret_potentially_compound_message-Begins_example =
    interpret_potentially_compound_message-Begins reader texts mem log message refl

log_event :
    interpret_potentially_compound_message reader texts mem log message
    ≡ (("event.ros.schema.namespace", AttrVal.string "rcl_interfaces__msg")
        ∷ ("event.ros.schema.name", AttrVal.string "Log")
        ∷ ("msg", AttrVal.integer (pos 7))
        ∷ ("event.name", AttrVal.integer (pos 7))
        ∷ [])
      ∷ []
unfolding interpret_potentially_compound_message
log_event = refl

interpret_as_diagnostic_array_count_example :
    length (interpret_as_diagnostic_array reader texts mem diagnostics message) ≡ 2
unfolding interpret_as_diagnostic_array status_kvs
interpret_as_diagnostic_array_count_example =
    interpret_as_diagnostic_array_count reader texts mem diagnostics message status
      (record { ptr = 4008; len = 56 }) (λ m p. 2) (λ m p i. p + i) refl refl refl refl
      (λ i kvs. refl)

name_of-interpret_single_message_example :
    name_of (interpret_single_message reader texts mem log message) ≡ some (AttrVal.integer (pos 7))
unfolding interpret_single_message is_log find_value string_eq
name_of-interpret_single_message_example =
    name_of-interpret_single_message reader texts mem log message (AttrVal.integer (pos 7)) refl
      refl

-- The two bytes of -2 at address 40.
abbrev minus_two : Memory
minus_two p = if p == 40 then 254 else 255

ros_to_attr_val-Written_example :
    ros_to_attr_val bindings big minus_two 11 40 ≡ some (AttrVal.integer (negsuc 1))
unfolding nat_eq
ros_to_attr_val-Written_example =
    ros_to_attr_val-Written bindings big minus_two 40 Integers.int16 (negsuc 1) refl (omega arith)
      (refl, (refl, tt))
