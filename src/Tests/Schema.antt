-- ===== src/Tests/Schema.antt =====
-- Type supports, schemas, a runtime, and the flattening of a message with a header.
use modality_ros.Prelude.{
  ℕ, map, ◌≡◌, refl, true, false, Option, none, some, [], ◌∷◌, map, nat_eq, string_eq,
}
use modality_ros.Prelude.Int.{pos}
use modality_ros.Api.{AttrVal}
use modality_ros.Config.{ModalityRosHookConfig}
use modality_ros.Memory.{FieldTypes, Bindings}
use modality_ros.Schema.{
  RosMessageSchema, ros_message_schema, scalar, array, nested_message, ros_end, ros_cons,
  FlatRosMessageSchema, flat_schema, flat_members, flat_end,
}
use modality_ros.Schema.Convert.{
  MessageTypeSupport, message_type_support, null, handle, message_members, c_end, c_cons,
  no_support, member_support, c_identifier, cpp_identifier, from_message_type_support, array_member,
}
use modality_ros.Schema.Flatten.{flatten}
use modality_ros.Schema.Flatten.Spec.{place, placed, leaves}
use modality_ros.Schema.Flatten.Leaves.{flatten-leaves}
use modality_ros.Schema.Flatten.Converted
use modality_ros.Interpret.Messages.{Texts}

abbrev pub field_types : FieldTypes
field_types = record {
  float = 1;
  double = 2;
  long_double = 3;
  char = 4;
  wchar = 5;
  boolean = 6;
  octet = 7;
  uint8 = 8;
  uint16 = 10;
  int16 = 11;
  uint32 = 12;
  int32 = 13;
  uint64 = 14;
  int64 = 15;
  string = 16;
  wstring = 17;
  message = 18;
}

-- A header with a stamp and three numbers, whose offset is in front of nothing else.
abbrev header : MessageTypeSupport
header =
    message_type_support
      (handle c_identifier (
        message_members "std_msgs__msg" "Header" 16 (
          c_cons "stamp" 14 0 false 0 false none none no_support
            (c_cons "covariance" 13 8 true 2 false none none no_support c_end))))
      null

abbrev pub pose : MessageTypeSupport
pose = message_type_support null (
    handle cpp_identifier (
      message_members "geometry_msgs__msg" "Pose" 24 (
        c_cons "x" 2 0 false 0 false none none no_support
          (c_cons "header" 18 8 false 0 false none none (member_support header) c_end))))

abbrev pub pose_schema : RosMessageSchema
pose_schema = ros_message_schema "geometry_msgs__msg" "Pose" 24 (
    ros_cons (scalar "x" 2 0) (
      ros_cons
        (nested_message "header" 8 (
          ros_message_schema "std_msgs__msg" "Header" 16 (
            ros_cons (scalar "stamp" 14 0)
              (ros_cons (array 8 (scalar "covariance" 13 8) 2 false none none) ros_end))))
        ros_end))

from_message_type_support-flatten_example :
    (flat : FlatRosMessageSchema) × (flatten pose_schema ("in" ∷ []) ≡ some flat)
unfolding from_message_type_support string_eq nat_eq array_member
from_message_type_support-flatten_example =
    Converted.from_message_type_support-flatten field_types pose pose_schema ("in" ∷ []) refl

abbrev flat_or : Option FlatRosMessageSchema → FlatRosMessageSchema
flat_or none = flat_schema "" "" 0 flat_end
flat_or (some flat) = flat

flatten-leaves_example :
    placed (flat_members (flat_or (flatten pose_schema []))) ≡ map (place [] 0) (leaves pose_schema)
unfolding flatten
flatten-leaves_example = flatten-leaves pose_schema [] (flat_or (flatten pose_schema [])) refl

abbrev pub config : ModalityRosHookConfig
config = record {
  connect_timeout = 20;
  ignored_topics = "/parameter_events" ∷ [];
  max_array_len = 12;
  run_id = "run";
  buffer_size = 2;
}

-- A runtime whose sequences have two items.
abbrev pub bindings : Bindings
bindings = record {
  field_types = field_types;
  string_data = λ mem p. p;
  sequence_size = λ mem p. 2;
  u16_string = λ mem p. none;
}

abbrev pub big : ℕ → AttrVal
big n = AttrVal.big_int (pos n)

abbrev pub texts : Texts
texts = record { is_alphanumeric = λ c. true; to_lowercase = λ s. s; to_string = λ v. "value" }
