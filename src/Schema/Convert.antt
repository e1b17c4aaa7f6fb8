-- ===== src/Schema/Convert.antt =====
-- From the introspection structures of the C type support to schemas
-- (`RosMessageSchema::from_message_type_support`, `convert_c_message_members_to_schemas` and
-- `RosServiceSchema` of modality-ros-hook/src/lib.rs, `get_typesupport` of
-- modality-ros-hook/src/ros.rs). The structures behind the pointers are given as data.
use modality_ros.Prelude.{
  ℕ, String, ◌≡◌, refl, Bool, true, false, Option, ◌==◌, string_eq, nat_eq, if◌then◌else◌,
}
use modality_ros.Memory.{SizeFunction, GetFunction, FieldTypes}
use modality_ros.Schema.{
  RosMessageSchema, ros_message_schema, RosMessageMemberSchema, scalar, array, nested_message,
  RosMembers, ros_end, ros_cons,
}

-- A type support is known by the handles that `get_message_typesupport_handle` answers for the
-- identifiers of C and of C++. A member that is no message has no type support of its own.
mutual
  pub data MessageTypeSupport : Type 0 where
    message_type_support : (c cpp : Handle) → MessageTypeSupport

  pub data Handle : Type 0 where
    null : Handle
    handle : (typesupport_identifier : String) (c_schema : MessageMembers) → Handle

  pub data MessageMembers : Type 0 where
    message_members :
        (message_namespace message_name : String) (size_of : ℕ) (members : Members) → MessageMembers

  pub data Members : Type 0 where
    c_end : Members
    c_cons :
        (name : String) (type_id offset : ℕ) (is_array : Bool) (array_size : ℕ)
        (is_upper_bound : Bool) (size_function : Option SizeFunction)
        (get_const_function : Option GetFunction) (type_support : MemberSupport) (rest : Members)
        → Members

  pub data MemberSupport : Type 0 where
    no_support : MemberSupport
    member_support : MessageTypeSupport → MemberSupport

abbrev pub c_identifier : String
c_identifier = "rosidl_typesupport_introspection_c"

abbrev pub cpp_identifier : String
cpp_identifier = "rosidl_typesupport_introspection_cpp"

-- The outcome of code that may return `None`, or read through a null pointer.
pub data Outcome (A : Type 0) : Type 0 where
  done : A → Outcome A
  nothing : Outcome A
  fault : Outcome A

infixl 5 ◌>>=◌
abbrev pub ◌>>=◌ : {A B : Type 0} → Outcome A → (A → Outcome B) → Outcome B
done a >>= f = f a
nothing >>= f = nothing
fault >>= f = fault

abbrev pub is_known : String → Bool
is_known id = if id == c_identifier then true else id == cpp_identifier

abbrev pub if_known : {A : Type 0} → String → Outcome A → Outcome A
if_known id r = if is_known id then r else nothing

-- An array of the item, if the member is one.
unfoldable pub array_member :
    Bool
    → RosMessageMemberSchema
    → ℕ
    → ℕ
    → Bool
    → Option SizeFunction
    → Option GetFunction
    → RosMessageMemberSchema
array_member false item offset array_size bound size get = item
array_member true item offset array_size bound size get =
    array offset item array_size bound size get

module _ (ft : FieldTypes) where
  unfoldable mutual
    -- the handle of C if there is one, else that of C++, which may be null too
    pub from_message_type_support : MessageTypeSupport → Outcome RosMessageSchema
    from_message_type_support (message_type_support null cpp) = from_handle cpp
    from_message_type_support (message_type_support (handle id s) cpp) = from_handle (handle id s)

    pub from_handle : Handle → Outcome RosMessageSchema
    from_handle null = fault
    from_handle (handle id s) = if_known id (from_members s)

    pub from_members : MessageMembers → Outcome RosMessageSchema
    from_members (message_members namespace name size members) =
        convert_c_message_members_to_schemas members >>= λ ms.
        done (ros_message_schema namespace name size ms)

    pub convert_c_message_members_to_schemas : Members → Outcome RosMembers
    convert_c_message_members_to_schemas c_end = done ros_end
    convert_c_message_members_to_schemas
          (c_cons name type_id offset is_array array_size bound size get support rest) =
        let nested =
          from_member_support support >>= λ schema. done (nested_message name offset schema) in
        (if type_id == ft.message then nested else done (scalar name type_id offset)) >>= λ item.
        convert_c_message_members_to_schemas rest >>= λ members.
        done (ros_cons (array_member is_array item offset array_size bound size get) members)

    pub from_member_support : MemberSupport → Outcome RosMessageSchema
    from_member_support no_support = fault
    from_member_support (member_support ts) = from_message_type_support ts

-- `get_typesupport`
abbrev pub get_typesupport : MessageTypeSupport → Handle
get_typesupport (message_type_support null cpp) = cpp
get_typesupport (message_type_support (handle id s) cpp) = handle id s

-- A message's schema is that of the handle which `get_typesupport` finds.
pub from_message_type_support-get_typesupport :
    (ft : FieldTypes) (ts : MessageTypeSupport)
    → from_message_type_support ft ts ≡ from_handle ft (get_typesupport ts)
unfolding from_message_type_support from_handle
from_message_type_support-get_typesupport ft (message_type_support null cpp) = refl
from_message_type_support-get_typesupport ft (message_type_support (handle id s) cpp) = refl
