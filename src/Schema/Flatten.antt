-- ===== src/Schema/Flatten.antt =====
-- `flatten` and `from_nested_members` (modality-ros-hook/src/lib.rs). `none` is the `unreachable!()`
-- of an array of arrays.
pub mod Spec
pub mod Leaves
pub mod Total
pub mod Converted
use modality_ros.Prelude.{ℕ, ◌+◌, String, Bool, Option, none, some, List, [], ◌∷◌, ◌++◌}
use modality_ros.Prelude.Text.{join}
use modality_ros.Memory.{SizeFunction, GetFunction}
use modality_ros.Schema.{
  RosMessageSchema, ros_message_schema, RosMessageMemberSchema, scalar, array, nested_message,
  RosMembers, ros_end, ros_cons, ScalarMemberSchema, ScalarArrayMemberSchema, FlatRosMessageSchema,
  flat_schema, FlatRosMessageMemberSchema, flat_scalar, scalar_array, message_sequence, FlatMembers,
  flat_end, push,
}

-- `name_segs.join(".")`, of the prefix and the name
unfoldable pub key_of : List String → String → String
unfolding join
key_of prefix name = join "." (prefix ++ name ∷ [])

-- the flat schema of a message whose members have been flattened
abbrev flattened : String → String → ℕ → Option FlatMembers → Option FlatRosMessageSchema
flattened namespace name size none = none
flattened namespace name size (some members) = some (flat_schema namespace name size members)

abbrev and_then {ℓ κ} : {A : Type ℓ} {B : Type κ} → Option A → (A → Option B) → Option B
and_then none f = none
and_then (some a) f = f a

unfoldable mutual
  -- `RosMessageMemberSchema::flatten`
  pub flatten_member : RosMessageMemberSchema → List String → ℕ → FlatMembers → Option FlatMembers
  flatten_member (scalar name type_id offset) prefix initial_offset target = some (
      push target (
        flat_scalar (record {
          key = key_of prefix name;
          type_id = type_id;
          offset = initial_offset + offset;
        })))
  flatten_member (array offset item_schema array_size bound size get) prefix initial_offset target =
      flatten_array item_schema offset array_size bound size get prefix initial_offset target
  flatten_member (nested_message name offset schema) prefix initial_offset target =
      flatten_nested schema (prefix ++ name ∷ []) (initial_offset + offset) target

  flatten_array :
      RosMessageMemberSchema
      → ℕ
      → ℕ
      → Bool
      → Option SizeFunction
      → Option GetFunction
      → List String
      → ℕ
      → FlatMembers
      → Option FlatMembers
  flatten_array (scalar name type_id scalar_offset) offset array_size bound size get prefix
        initial_offset target =
      some (
        push target (
          scalar_array (record {
            key = key_of prefix name;
            type_id = type_id;
            offset_in_item_slice = scalar_offset;
            array_size = array_size;
            is_upper_bound = bound;
            size_function = size;
            get_function = get;
          })))
  flatten_array (nested_message name _ schema) offset array_size bound size get prefix
        initial_offset target =
      and_then (flatten schema []) λ message_schema. some (
        push target (
          message_sequence (key_of prefix name) (initial_offset + offset) message_schema array_size
            bound size get))
  flatten_array (array _ _ _ _ _ _) offset array_size bound size get prefix initial_offset target =
      none

  -- the members of a nested message, one after the other
  flatten_nested : RosMessageSchema → List String → ℕ → FlatMembers → Option FlatMembers
  flatten_nested (ros_message_schema _ _ _ members) prefix offset target =
      flatten_members members prefix offset target

  pub flatten_members : RosMembers → List String → ℕ → FlatMembers → Option FlatMembers
  flatten_members ros_end prefix offset target = some target
  flatten_members (ros_cons member members) prefix offset target =
      and_then (flatten_member member prefix offset target) (flatten_members members prefix offset)

  -- `RosMessageSchema::flatten`
  pub flatten : RosMessageSchema → List String → Option FlatRosMessageSchema
  flatten (ros_message_schema namespace name size members) prefix =
      flattened namespace name size (flatten_members members prefix 0 flat_end)

-- `FlatRosMessageSchema::from_nested_members`
unfoldable pub from_nested_members :
    String → String → ℕ → RosMembers → List String → Option FlatRosMessageSchema
unfolding flatten
from_nested_members namespace name size members prefix =
    flattened namespace name size (flatten_members members prefix 0 flat_end)
