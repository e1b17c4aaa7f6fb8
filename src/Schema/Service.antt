-- ===== src/Schema/Service.antt =====
-- `RosServiceSchema` (modality-ros-hook/src/lib.rs) and `get_service_typesupport`
-- (modality-ros-hook/src/ros.rs).
use modality_ros.Prelude.{ℕ, String, Option, none, some, []}
use modality_ros.Memory.{FieldTypes}
use modality_ros.Schema.{RosMembers, FlatRosMessageSchema}
use modality_ros.Schema.Convert.{
  MessageMembers, message_members, Outcome, done, fault, ◌>>=◌, if_known,
  convert_c_message_members_to_schemas,
}
use modality_ros.Schema.Flatten.{from_nested_members}

pub data ServiceHandle : Type 0 where
  null : ServiceHandle
  service_handle :
      (typesupport_identifier service_namespace service_name : String)
      (request_members response_members : MessageMembers)
      → ServiceHandle

-- The answers of `get_service_typesupport_handle` for the identifiers of C and of C++.
pub record ServiceTypeSupport : Type 0 where
  pub c : ServiceHandle
  pub cpp : ServiceHandle

pub record RosServiceSchema : Type 0 where
  pub namespace : String
  pub name : String
  pub request_members : FlatRosMessageSchema
  pub response_members : FlatRosMessageSchema

-- `get_service_typesupport`
abbrev pub get_service_typesupport : ServiceHandle → ServiceHandle → ServiceHandle
get_service_typesupport null cpp = cpp
get_service_typesupport (service_handle id ns name req res) cpp = service_handle id ns name req res

-- A panic stops the process, as a fault does.
abbrev pub or_panic : {A : Type 0} → Option A → Outcome A
or_panic none = fault
or_panic (some a) = done a

module _ (ft : FieldTypes) where
  -- the members of a request or a response, converted and flattened, each in its turn
  converted : MessageMembers → Outcome (ℕ × RosMembers)
  converted (message_members _ _ size members) =
      convert_c_message_members_to_schemas ft members >>= λ ms. done (size, ms)

  unfoldable pub from_service_handle : ServiceHandle → Outcome RosServiceSchema
  unfolding converted
  from_service_handle null = fault
  from_service_handle (service_handle id namespace name request response) = if_known id (
      converted request >>= λ req. converted response >>= λ res.
      or_panic (from_nested_members namespace name req.0 req.1 []) >>= λ request_members.
      or_panic (from_nested_members namespace name res.0 res.1 []) >>= λ response_members.
      done (record {
        namespace = namespace;
        name = name;
        request_members = request_members;
        response_members = response_members;
      }))

  unfoldable pub from_service_type_support : ServiceTypeSupport → Outcome RosServiceSchema
  unfolding from_service_handle
  from_service_type_support ts = from_service_handle (get_service_typesupport ts.c ts.cpp)
