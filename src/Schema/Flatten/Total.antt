-- ===== src/Schema/Flatten/Total.antt =====
-- The schemas that `flatten` takes without a panic (modality-ros-hook/src/lib.rs).
use modality_ros.Prelude.{
  ℕ, ◌+◌, String, ◌≡◌, refl, Bool, Option, none, some, List, [], ◌∷◌, ◌++◌, nat_eq,
}
use modality_ros.Memory.{SizeFunction, GetFunction}
use modality_ros.Schema.{
  RosMessageSchema, ros_message_schema, RosMessageMemberSchema, scalar, array, nested_message,
  RosMembers, ros_end, ros_cons, flat_schema, FlatMembers, flat_end,
}
use modality_ros.Schema.Flatten.{
  flattened, and_then, flatten_member, flatten_array, flatten_nested, flatten_members, flatten,
}

-- No item of an array is an array, at any depth.
abbrev mutual
  pub HasFlatItems : RosMessageSchema → Type 0
  HasFlatItems (ros_message_schema _ _ _ members) = AllFlat members

  pub AllFlat : RosMembers → Type 0
  AllFlat ros_end = Unit
  AllFlat (ros_cons member members) = IsFlat member × AllFlat members

  pub IsFlat : RosMessageMemberSchema → Type 0
  IsFlat (scalar _ _ _) = Unit
  IsFlat (array _ item _ _ _ _) = IsItem item
  IsFlat (nested_message _ _ schema) = HasFlatItems schema

  pub IsItem : RosMessageMemberSchema → Type 0
  IsItem (scalar _ _ _) = Unit
  IsItem (array _ _ _ _ _ _) = ⊥
  IsItem (nested_message _ _ schema) = HasFlatItems schema

abbrev pub Succeeds {ℓ} : {A : Type ℓ} → Option A → Type ℓ
Succeeds {A} o = (a : A) × (o ≡ some a)

Succeeds-and_then {ℓ κ} :
    {A : Type ℓ} {B : Type κ} (o : Option A) (f : A → Option B)
    → Succeeds o
    → ((a : A) → Succeeds (f a))
    → Succeeds (and_then o f)
Succeeds-and_then (some a) f h k = k a
Succeeds-and_then none f h k = cc (h.1)

pub Succeeds-flattened :
    (namespace name : String) (size : ℕ) (o : Option FlatMembers)
    → Succeeds o
    → Succeeds (flattened namespace name size o)
Succeeds-flattened namespace name size (some members) h =
    (flat_schema namespace name size members, refl)
Succeeds-flattened namespace name size none h = cc (h.1)

mutual
  unfolding flatten

  flatten_member-Succeeds :
      (m : RosMessageMemberSchema) (prefix : List String) (offset : ℕ) (target : FlatMembers)
      → IsFlat m
      → Succeeds (flatten_member m prefix offset target)
  flatten_member-Succeeds (scalar name type_id o) prefix offset target h = (_, refl)
  flatten_member-Succeeds (array o item n bound size get) prefix offset target h =
      flatten_array-Succeeds item o n bound size get prefix offset target h
  flatten_member-Succeeds (nested_message name o schema) prefix offset target h =
      flatten_nested-Succeeds schema (prefix ++ name ∷ []) (offset + o) target h

  flatten_array-Succeeds :
      (item : RosMessageMemberSchema) (o n : ℕ) (bound : Bool) (size : Option SizeFunction)
      (get : Option GetFunction) (prefix : List String) (offset : ℕ) (target : FlatMembers)
      → IsItem item
      → Succeeds (flatten_array item o n bound size get prefix offset target)
  flatten_array-Succeeds (scalar name type_id so) o n bound size get prefix offset target h =
      (_, refl)
  flatten_array-Succeeds (array _ _ _ _ _ _) o n bound size get prefix offset target h = absurd h
  flatten_array-Succeeds (nested_message name _ schema) o n bound size get prefix offset target h =
      Succeeds-and_then (flatten schema []) _ (flatten-Succeeds_onto schema [] h) λ f. (_, refl)

  flatten_nested-Succeeds :
      (schema : RosMessageSchema) (prefix : List String) (offset : ℕ) (target : FlatMembers)
      → HasFlatItems schema
      → Succeeds (flatten_nested schema prefix offset target)
  flatten_nested-Succeeds (ros_message_schema _ _ _ members) prefix offset target h =
      flatten_members-Succeeds members prefix offset target h

  pub flatten_members-Succeeds :
      (members : RosMembers) (prefix : List String) (offset : ℕ) (target : FlatMembers)
      → AllFlat members
      → Succeeds (flatten_members members prefix offset target)
  flatten_members-Succeeds ros_end prefix offset target h = (target, refl)
  flatten_members-Succeeds (ros_cons member members) prefix offset target h =
      Succeeds-and_then (flatten_member member prefix offset target)
        (flatten_members members prefix offset)
        (flatten_member-Succeeds member prefix offset target h.0)
        (λ target'. flatten_members-Succeeds members prefix offset target' h.1)

  flatten-Succeeds_onto :
      (schema : RosMessageSchema) (prefix : List String)
      → HasFlatItems schema
      → Succeeds (flatten schema prefix)
  flatten-Succeeds_onto (ros_message_schema namespace name size members) prefix h =
      Succeeds-flattened namespace name size (flatten_members members prefix 0 flat_end)
        (flatten_members-Succeeds members prefix 0 flat_end h)

pub flatten-Succeeds :
    (schema : RosMessageSchema) (prefix : List String)
    → HasFlatItems schema
    → Succeeds (flatten schema prefix)
flatten-Succeeds schema prefix h = flatten-Succeeds_onto schema prefix h
