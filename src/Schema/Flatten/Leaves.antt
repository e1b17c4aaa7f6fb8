-- ===== src/Schema/Flatten/Leaves.antt =====
-- What `flatten` makes of the scalars and the arrays of scalars (modality-ros-hook/src/lib.rs).
use modality_ros.Prelude.{
  ℕ, ◌+◌, String, ◌≡◌, refl, sym, subst, Bool, Option, none, some, List, [], ◌∷◌, ◌++◌, map,
  append-nil,
}
use mathlib.Core.Option.{some-injective}
use modality_ros.Memory.{SizeFunction, GetFunction}
use modality_ros.Schema.{
  RosMessageSchema, ros_message_schema, RosMessageMemberSchema, scalar, array, nested_message,
  RosMembers, ros_end, ros_cons, FlatRosMessageSchema, flat_schema, message_sequence, FlatMembers,
  flat_end, push, flat_members,
}
use modality_ros.Schema.Flatten.{
  key_of, flattened, and_then, flatten_member, flatten_array, flatten_nested, flatten_members,
  flatten,
}
use modality_ros.Schema.Flatten.Spec.{
  Leaf, leaves, member_leaves, leaves_of, item_leaves, place, placed, Adds, Adds-push,
  Adds-and_then, Adds-nested, zero_offset,
}

mutual
  unfolding flatten leaves key_of

  flatten_member-Adds :
      (m : RosMessageMemberSchema) (prefix : List String) (initial : ℕ) (target : FlatMembers)
      → Adds prefix initial target (leaves_of m) (flatten_member m prefix initial target)
  flatten_member-Adds (scalar name type_id o) prefix initial target =
      Adds-push prefix initial target (leaves_of (scalar name type_id o)) _
        (zero_offset prefix name type_id initial o)
  flatten_member-Adds (array o item n bound size get) prefix initial target =
      flatten_array-Adds item o n bound size get prefix initial target
  flatten_member-Adds (nested_message name o schema) prefix initial target =
      Adds-nested prefix initial name o target (leaves schema) _
        (flatten_nested-Adds schema (prefix ++ name ∷ []) (initial + o) target)

  flatten_array-Adds :
      (item : RosMessageMemberSchema) (o n : ℕ) (bound : Bool) (size : Option SizeFunction)
      (get : Option GetFunction) (prefix : List String) (initial : ℕ) (target : FlatMembers)
      → Adds prefix initial target
          (item_leaves item)
          (flatten_array item o n bound size get prefix initial target)
  flatten_array-Adds (scalar name type_id so) o n bound size get prefix initial target =
      Adds-push prefix initial target (item_leaves (scalar name type_id so)) _ refl
  flatten_array-Adds (array _ _ _ _ _ _) o n bound size get prefix initial target = tt
  flatten_array-Adds (nested_message name _ schema) o n bound size get prefix initial target =
      sequence (flatten schema [])
    where
      sequence :
          (f : Option FlatRosMessageSchema)
          → Adds prefix initial target [] (
              and_then f λ s. some (
                push target
                  (message_sequence (key_of prefix name) (initial + o) s n bound size get)))
      sequence none = tt
      sequence (some s) = Adds-push prefix initial target [] _ refl

  flatten_nested-Adds :
      (schema : RosMessageSchema) (prefix : List String) (initial : ℕ) (target : FlatMembers)
      → Adds prefix initial target (leaves schema) (flatten_nested schema prefix initial target)
  flatten_nested-Adds (ros_message_schema _ _ _ members) prefix initial target =
      flatten_members-Adds members prefix initial target

  flatten_members-Adds :
      (members : RosMembers) (prefix : List String) (initial : ℕ) (target : FlatMembers)
      → Adds prefix initial target
          (member_leaves members)
          (flatten_members members prefix initial target)
  flatten_members-Adds ros_end prefix initial target = sym (append-nil (placed target))
  flatten_members-Adds (ros_cons m members) prefix initial target =
      Adds-and_then prefix initial target (leaves_of m) (member_leaves members)
        (flatten_member m prefix initial target) (flatten_members members prefix initial)
        (flatten_member-Adds m prefix initial target)
        (λ target'. flatten_members-Adds members prefix initial target')

flattened-placed :
    (namespace name : String) (size : ℕ) (o : Option FlatMembers) (prefix : List String)
    (ls : List Leaf) (flat : FlatRosMessageSchema)
    → Adds prefix 0 flat_end ls o
    → flattened namespace name size o ≡ some flat
    → placed (flat_members flat) ≡ map (place prefix 0) ls
unfolding placed
flattened-placed namespace name size none prefix ls flat h e = cc
flattened-placed namespace name size (some members) prefix ls (flat_schema n' m' s' members') h e =
    subst (λ f. placed (flat_members f) ≡ map (place prefix 0) ls) (some-injective _ _ e) h

-- When a schema is flattened, the scalars and the arrays of scalars of the result, in its order,
-- are those of the schema: the key of each is the names that lead to it, after the prefix, joined
-- with dots. The offset of a scalar is the sum of those on the way to it; the offset of an array
-- is its own alone, whatever the offset of the nested message that holds it.
pub flatten-leaves :
    (schema : RosMessageSchema) (prefix : List String) (flat : FlatRosMessageSchema)
    → flatten schema prefix ≡ some flat
    → placed (flat_members flat) ≡ map (place prefix 0) (leaves schema)
unfolding flatten leaves
flatten-leaves (ros_message_schema namespace name size members) prefix flat e =
    flattened-placed namespace name size (flatten_members members prefix 0 flat_end) prefix
      (member_leaves members) flat (flatten_members-Adds members prefix 0 flat_end) e
