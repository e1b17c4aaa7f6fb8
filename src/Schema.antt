-- ===== src/Schema.antt =====
-- The schemas of messages (modality-ros-hook/src/lib.rs): as the type support nests them, and
-- flattened. The lists of members are types of their own, since they hold what they stand in.
pub mod Convert
pub mod Flatten
pub mod Service
use modality_ros.Prelude.{ℕ, String, Bool, Option, List, [], ◌∷◌}
use modality_ros.Memory.{SizeFunction, GetFunction}

mutual
  pub data RosMessageSchema : Type 0 where
    ros_message_schema :
        (namespace name : String) (size : ℕ) (members : RosMembers) → RosMessageSchema

  pub data RosMessageMemberSchema : Type 0 where
    scalar : (name : String) (type_id offset : ℕ) → RosMessageMemberSchema
    array :
        (offset : ℕ) (item_schema : RosMessageMemberSchema) (array_size : ℕ) (is_upper_bound : Bool)
        (size_function : Option SizeFunction) (get_function : Option GetFunction)
        → RosMessageMemberSchema
    nested_message :
        (name : String) (offset : ℕ) (schema : RosMessageSchema) → RosMessageMemberSchema

  pub data RosMembers : Type 0 where
    ros_end : RosMembers
    ros_cons : RosMessageMemberSchema → RosMembers → RosMembers

pub record ScalarMemberSchema : Type 0 where
  pub key : String
  pub type_id : ℕ
  pub offset : ℕ

pub record ScalarArrayMemberSchema : Type 0 where
  pub key : String
  pub type_id : ℕ
  pub offset_in_item_slice : ℕ
  pub array_size : ℕ
  pub is_upper_bound : Bool
  pub size_function : Option SizeFunction
  pub get_function : Option GetFunction

mutual
  pub data FlatRosMessageSchema : Type 0 where
    flat_schema :
        (namespace name : String) (size : ℕ) (members : FlatMembers) → FlatRosMessageSchema

  pub data FlatRosMessageMemberSchema : Type 0 where
    flat_scalar : ScalarMemberSchema → FlatRosMessageMemberSchema
    scalar_array : ScalarArrayMemberSchema → FlatRosMessageMemberSchema
    message_sequence :
        (key : String) (offset : ℕ) (message_schema : FlatRosMessageSchema) (array_size : ℕ)
        (is_upper_bound : Bool) (size_function : Option SizeFunction)
        (get_function : Option GetFunction)
        → FlatRosMessageMemberSchema

  pub data FlatMembers : Type 0 where
    flat_end : FlatMembers
    flat_cons : FlatRosMessageMemberSchema → FlatMembers → FlatMembers

-- `target.push(member)`
unfoldable pub push : FlatMembers → FlatRosMessageMemberSchema → FlatMembers
push flat_end member = flat_cons member flat_end
push (flat_cons m target) member = flat_cons m (push target member)

abbrev pub flat_members : FlatRosMessageSchema → FlatMembers
flat_members (flat_schema _ _ _ members) = members

abbrev pub flat_namespace : FlatRosMessageSchema → String
flat_namespace (flat_schema namespace _ _ _) = namespace

abbrev pub flat_name : FlatRosMessageSchema → String
flat_name (flat_schema _ name _ _) = name

abbrev pub flat_size : FlatRosMessageSchema → ℕ
flat_size (flat_schema _ _ size _) = size
