-- ===== src/Schema/Flatten/Spec.antt =====
-- The scalars and the arrays of scalars of a nested schema, described bottom up, and what the
-- accumulators of `flatten` make of them (modality-ros-hook/src/lib.rs).
use modality_ros.Prelude.{
  ℕ, ◌+◌, String, ◌≡◌, refl, sym, ap, ◌∙◌, Bool, true, false, Option, none, some, List, [], ◌∷◌,
  ◌++◌, map, append-nil, append_assoc, map-append, arith,
}
use modality_ros.Prelude.Text.{join}
use modality_ros.Schema.{
  RosMessageSchema, ros_message_schema, RosMessageMemberSchema, scalar, array, nested_message,
  RosMembers, ros_end, ros_cons, FlatRosMessageMemberSchema, flat_scalar, scalar_array,
  message_sequence, FlatMembers, flat_end, flat_cons, push,
}
use modality_ros.Schema.Flatten.{key_of, and_then}

-- A scalar, or an array of scalars, of a message: the names that lead to it, the offset in the
-- message of the nested message that declares it, and its own offset in that one.
pub record Leaf : Type 0 where
  pub path : List String
  pub base : ℕ
  pub own : ℕ
  pub type_id : ℕ
  pub is_array : Bool

abbrev within : String → ℕ → Leaf → Leaf
within name offset l = record {
  path = name ∷ l.path;
  base = offset + l.base;
  own = l.own;
  type_id = l.type_id;
  is_array = l.is_array;
}

abbrev leaf : String → ℕ → ℕ → Bool → Leaf
leaf name own type_id is_array = record {
  path = name ∷ [];
  base = 0;
  own = own;
  type_id = type_id;
  is_array = is_array;
}

unfoldable mutual
  pub leaves : RosMessageSchema → List Leaf
  leaves (ros_message_schema _ _ _ members) = member_leaves members

  pub member_leaves : RosMembers → List Leaf
  member_leaves ros_end = []
  member_leaves (ros_cons m members) = leaves_of m ++ member_leaves members

  pub leaves_of : RosMessageMemberSchema → List Leaf
  leaves_of (scalar name type_id offset) = leaf name offset type_id false ∷ []
  leaves_of (array _ item _ _ _ _) = item_leaves item
  leaves_of (nested_message name offset schema) = map (within name offset) (leaves schema)

  pub item_leaves : RosMessageMemberSchema → List Leaf
  item_leaves (scalar name type_id offset) = leaf name offset type_id true ∷ []
  item_leaves (array _ _ _ _ _ _) = []
  item_leaves (nested_message _ _ _) = []

-- What a flat member says of a leaf: its key, its type, its offset and whether it is an array.
pub record Placed : Type 0 where
  pub key : String
  pub type_id : ℕ
  pub offset : ℕ
  pub is_array : Bool

-- The offset of an array is its own, that of a scalar counts from the start of the whole message.
abbrev offset_of : ℕ → Bool → ℕ → ℕ → ℕ
offset_of initial false base own = initial + base + own
offset_of initial true base own = own

abbrev pub place : List String → ℕ → Leaf → Placed
unfolding join
place prefix initial l = record {
  key = join "." (prefix ++ l.path);
  type_id = l.type_id;
  offset = offset_of initial l.is_array l.base l.own;
  is_array = l.is_array;
}

abbrev placed_of : FlatRosMessageMemberSchema → List Placed
placed_of (flat_scalar s) =
    record { key = s.key; type_id = s.type_id; offset = s.offset; is_array = false } ∷ []
placed_of (scalar_array s) =
    record { key = s.key; type_id = s.type_id; offset = s.offset_in_item_slice; is_array = true }
    ∷ []
placed_of (message_sequence _ _ _ _ _ _ _) = []

-- The scalars and the arrays of scalars of a flat schema, in its order.
unfoldable pub placed : FlatMembers → List Placed
placed flat_end = []
placed (flat_cons m members) = placed_of m ++ placed members

placed-push :
    (target : FlatMembers) (m : FlatRosMessageMemberSchema)
    → placed (push target m) ≡ placed target ++ placed_of m
unfolding placed push
placed-push flat_end m = append-nil (placed_of m)
placed-push (flat_cons m' target) m =
    ap (λ l. placed_of m' ++ l) (placed-push target m)
    ∙ sym (append_assoc (placed_of m') (placed target) (placed_of m))

offset_of_within :
    (initial offset : ℕ) (b : Bool) (base own : ℕ)
    → offset_of initial b (offset + base) own ≡ offset_of (initial + offset) b base own
offset_of_within initial offset false base own = omega arith
offset_of_within initial offset true base own = refl

place-within :
    (prefix : List String) (initial : ℕ) (name : String) (offset : ℕ) (l : Leaf)
    → place prefix initial (within name offset l) ≡ place (prefix ++ name ∷ []) (initial + offset) l
unfolding place
place-within prefix initial name offset l i = record {
  key = join "." (sym (append_assoc prefix (name ∷ []) l.path) i);
  type_id = l.type_id;
  offset = offset_of_within initial offset l.is_array l.base l.own i;
  is_array = l.is_array;
}

map-place-within :
    (prefix : List String) (initial : ℕ) (name : String) (offset : ℕ) (ls : List Leaf)
    → map (place (prefix ++ name ∷ []) (initial + offset)) ls
      ≡ map (place prefix initial) (map (within name offset) ls)
map-place-within prefix initial name offset [] = refl
map-place-within prefix initial name offset (l ∷ ls) = λ i.
    sym (place-within prefix initial name offset l) i
    ∷ map-place-within prefix initial name offset ls i

-- The result holds what the target did, and then the leaves.
abbrev pub Adds : List String → ℕ → FlatMembers → List Leaf → Option FlatMembers → Type 0
Adds prefix initial target ls none = Unit
Adds prefix initial target ls (some flat) =
    placed flat ≡ placed target ++ map (place prefix initial) ls

pub Adds-push :
    (prefix : List String) (initial : ℕ) (target : FlatMembers) (ls : List Leaf)
    (m : FlatRosMessageMemberSchema)
    → placed_of m ≡ map (place prefix initial) ls
    → Adds prefix initial target ls (some (push target m))
Adds-push prefix initial target ls m e = placed-push target m ∙ ap (λ l. placed target ++ l) e

pub Adds-and_then :
    (prefix : List String) (initial : ℕ) (target : FlatMembers) (ls ls' : List Leaf)
    (o : Option FlatMembers) (f : FlatMembers → Option FlatMembers)
    → Adds prefix initial target ls o
    → ((target' : FlatMembers) → Adds prefix initial target' ls' (f target'))
    → Adds prefix initial target (ls ++ ls') (and_then o f)
Adds-and_then prefix initial target ls ls' none f h k = tt
Adds-and_then prefix initial target ls ls' (some target') f h k = onto (f target') (k target')
  where
    onto :
        (o : Option FlatMembers)
        → Adds prefix initial target' ls' o
        → Adds prefix initial target (ls ++ ls') o
    onto none e = tt
    onto (some flat) e =
        e
        ∙ ap (λ l. l ++ map (place prefix initial) ls') h
        ∙ append_assoc (placed target) (map (place prefix initial) ls)
            (map (place prefix initial) ls')
        ∙ ap (λ l. placed target ++ l) (sym (map-append (place prefix initial) ls ls'))

pub Adds-nested :
    (prefix : List String) (initial : ℕ) (name : String) (offset : ℕ) (target : FlatMembers)
    (ls : List Leaf) (o : Option FlatMembers)
    → Adds (prefix ++ name ∷ []) (initial + offset) target ls o
    → Adds prefix initial target (map (within name offset) ls) o
Adds-nested prefix initial name offset target ls none h = tt
Adds-nested prefix initial name offset target ls (some flat) h =
    h ∙ ap (λ l. placed target ++ l) (map-place-within prefix initial name offset ls)

pub zero_offset :
    (prefix : List String) (name : String) (type_id initial own : ℕ)
    → placed_of (
        flat_scalar
          (record { key = key_of prefix name; type_id = type_id; offset = initial + own }))
      ≡ map (place prefix initial) (leaf name own type_id false ∷ [])
unfolding key_of
zero_offset prefix name type_id initial own i =
    record { key = key_of prefix name; type_id = type_id; offset = add_zero i; is_array = false }
    ∷ []
  where
    add_zero : initial + own ≡ initial + 0 + own
    add_zero = omega arith
