-- ===== src/Schema/Flatten/Converted.antt =====
-- The schemas that are made from a type support, and their flattening
-- (modality-ros-hook/src/lib.rs).
use modality_ros.Prelude.{
  ℕ, String, ◌≡◌, Bool, true, false, Option, some, List, arith, nat_eq, ◌==◌, if◌then◌else◌,
}
use modality_ros.Memory.{FieldTypes, SizeFunction, GetFunction}
use modality_ros.Schema.{
  RosMessageSchema, RosMessageMemberSchema, scalar, array, nested_message, FlatRosMessageSchema,
}
use modality_ros.Schema.Convert.{
  MessageTypeSupport, message_type_support, Handle, null, handle, MessageMembers, message_members,
  Members, c_end, c_cons, MemberSupport, no_support, member_support, Outcome, done, nothing, fault,
  ◌>>=◌, is_known, array_member, from_message_type_support, from_handle, from_members,
  convert_c_message_members_to_schemas, from_member_support,
}
use modality_ros.Schema.Flatten.{flatten}
use modality_ros.Schema.Flatten.Total.{HasFlatItems, AllFlat, IsFlat, IsItem, flatten-Succeeds}

-- The value, if there is one, has the property.
abbrev Gives : {A : Type 0} → (A → Type 0) → Outcome A → Type 0
Gives P (done a) = P a
Gives P nothing = Unit
Gives P fault = Unit

Gives-bind :
    {A B : Type 0} (P : A → Type 0) (Q : B → Type 0) (r : Outcome A) (f : A → Outcome B)
    → Gives P r
    → ((a : A) → P a → Gives Q (f a))
    → Gives Q (r >>= f)
Gives-bind P Q (done a) f h k = k a h
Gives-bind P Q nothing f h k = tt
Gives-bind P Q fault f h k = tt

Gives-if :
    {A : Type 0} (P : A → Type 0) (b : Bool) (r r' : Outcome A)
    → Gives P r
    → Gives P r'
    → Gives P (if b then r else r')
Gives-if P true r r' h h' = h
Gives-if P false r r' h h' = h'

IsItem-IsFlat : (m : RosMessageMemberSchema) → IsItem m → IsFlat m
IsItem-IsFlat (scalar _ _ _) h = h
IsItem-IsFlat (array _ _ _ _ _ _) h = absurd h
IsItem-IsFlat (nested_message _ _ _) h = h

array_member-IsFlat :
    (is_array : Bool) (item : RosMessageMemberSchema) (o n : ℕ) (bound : Bool)
    (size : Option SizeFunction) (get : Option GetFunction)
    → IsItem item
    → IsFlat (array_member is_array item o n bound size get)
unfolding array_member
array_member-IsFlat true item o n bound size get h = h
array_member-IsFlat false item o n bound size get h = IsItem-IsFlat item h

module _ (ft : FieldTypes) where
  mutual
    unfolding from_message_type_support

    from_support-HasFlatItems :
        (ts : MessageTypeSupport) → Gives HasFlatItems (from_message_type_support ft ts)
    from_support-HasFlatItems (message_type_support null cpp) = from_handle-HasFlatItems cpp
    from_support-HasFlatItems (message_type_support (handle id s) cpp) =
        Gives-if HasFlatItems (is_known id) _ nothing (from_members-HasFlatItems s) tt

    from_handle-HasFlatItems : (h : Handle) → Gives HasFlatItems (from_handle ft h)
    from_handle-HasFlatItems null = tt
    from_handle-HasFlatItems (handle id s) =
        Gives-if HasFlatItems (is_known id) _ nothing (from_members-HasFlatItems s) tt

    from_members-HasFlatItems : (s : MessageMembers) → Gives HasFlatItems (from_members ft s)
    from_members-HasFlatItems (message_members namespace name size members) =
        Gives-bind AllFlat HasFlatItems (convert_c_message_members_to_schemas ft members) _
          (convert-AllFlat members) λ ms h. h

    convert-AllFlat : (ms : Members) → Gives AllFlat (convert_c_message_members_to_schemas ft ms)
    convert-AllFlat c_end = tt
    convert-AllFlat (c_cons name type_id offset is_array n bound size get support rest) =
        Gives-bind IsItem AllFlat _ _
          (Gives-if IsItem (type_id == ft.message) _ (done (scalar name type_id offset))
            (Gives-bind HasFlatItems IsItem (from_member_support ft support) _
              (from_member-HasFlatItems support) λ schema h. h)
            tt)
          λ item h.
            Gives-bind AllFlat AllFlat (convert_c_message_members_to_schemas ft rest) _
              (convert-AllFlat rest)
              λ members k. (array_member-IsFlat is_array item offset n bound size get h, k)

    from_member-HasFlatItems :
        (support : MemberSupport) → Gives HasFlatItems (from_member_support ft support)
    from_member-HasFlatItems no_support = tt
    from_member-HasFlatItems (member_support ts) = from_support-HasFlatItems ts

  Gives-done :
      (r : Outcome RosMessageSchema) (schema : RosMessageSchema)
      → Gives HasFlatItems r
      → r ≡ done schema
      → HasFlatItems schema
  Gives-done (done s) schema h e = ground arith
  Gives-done nothing schema h e = cc
  Gives-done fault schema h e = cc

  -- Every schema that is made from a type support is flattened without a panic, under any prefix.
  pub from_message_type_support-flatten :
      (ts : MessageTypeSupport) (schema : RosMessageSchema) (prefix : List String)
      → from_message_type_support ft ts ≡ done schema
      → (flat : FlatRosMessageSchema) × (flatten schema prefix ≡ some flat)
  from_message_type_support-flatten ts schema prefix e =
      flatten-Succeeds schema prefix
        (Gives-done (from_message_type_support ft ts) schema (from_support-HasFlatItems ts) e)
