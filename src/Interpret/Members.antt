-- ===== src/Interpret/Members.antt =====
-- `interpret_message` of the three kinds of members (modality-ros-hook/src/lib.rs).
pub mod Names
pub mod Limit
pub mod Prefix
use modality_ros.Prelude.{
  ℕ, ◌+◌, String, ◌<>◌, Bool, true, false, Option, none, some, ltb, ◌==◌, nat_eq, if◌then◌else◌,
}
use modality_ros.Prelude.Text.{decimal}
use modality_ros.Api.{AttrVal, Kvs}
use modality_ros.Memory.{Memory, Bindings, Slice, get_from, SizeFunction, GetFunction}
use modality_ros.Schema.{
  FlatRosMessageSchema, flat_schema, FlatRosMessageMemberSchema, flat_scalar, scalar_array,
  message_sequence, FlatMembers, flat_end, flat_cons, ScalarMemberSchema, ScalarArrayMemberSchema,
  flat_size,
}
use modality_ros.Interpret.{Step, onward, for_each, push_value}
use modality_ros.Interpret.Values.{ros_to_attr_val}

-- What an interpretation relies on: the longest array to take, and the runtime.
pub record Reader : Type 0 where
  pub max_array_len : ℕ
  pub bindings : Bindings
  pub new_attr_val : ℕ → AttrVal

-- `format!("{p}.{key}")`, if there is a prefix
abbrev pub prefixed : Option String → String → String
prefixed none key = key
prefixed (some p) key = p <> "." <> key

-- the key of an item
unfoldable pub indexed : String → ℕ → String
unfolding decimal
indexed key i = key <> "." <> decimal i

module _ (r : Reader) (mem : Memory) where
  value_at : ℕ → ℕ → Option AttrVal
  unfolding ros_to_attr_val
  value_at type_id ptr = ros_to_attr_val r.bindings r.new_attr_val mem type_id ptr

  -- `ScalarMemberSchema::interpret_message`
  unfoldable pub interpret_scalar : ScalarMemberSchema → Option String → Slice → Step Kvs
  unfolding get_from value_at
  interpret_scalar s prefix message kvs = elim (get_from message s.offset) [
    | none ↦ (true, kvs)
    | some slice ↦ push_value (prefixed prefix s.key) (value_at s.type_id slice.ptr) kvs
  ]

  -- The length of an array is its declared size, bound or not, else that of the sequence.
  unfoldable pub array_len : ScalarArrayMemberSchema → ℕ → ℕ
  unfolding nat_eq
  array_len s ptr = if s.array_size == 0 then r.bindings.sequence_size mem ptr else s.array_size

  array_items : ScalarArrayMemberSchema → Option GetFunction → String → ℕ → Step Kvs
  unfolding for_each indexed value_at array_len
  array_items s none key ptr kvs = (false, kvs)
  array_items s (some get) key ptr kvs =
      for_each (array_len s ptr) 0
        (λ i. push_value (indexed key i) (value_at s.type_id (get mem ptr i))) kvs

  -- `ScalarArrayMemberSchema::interpret_message`
  unfoldable pub interpret_array : ScalarArrayMemberSchema → Option String → Slice → Step Kvs
  unfolding get_from array_items array_len
  interpret_array s prefix message kvs = elim (get_from message s.offset_in_item_slice) [
    | none ↦ (true, kvs)
    | some slice ↦
        if ltb r.max_array_len (array_len s slice.ptr)
        then (true, kvs)
        else array_items s s.get_function (prefixed prefix s.key) slice.ptr kvs
  ]

  unfoldable pub items :
      {S : Type 0}
      → Option SizeFunction
      → Option GetFunction
      → ℕ
      → Slice
      → (ℕ → Slice → Step S)
      → Step S
  unfolding for_each
  items none get size slice f s = (false, s)
  items (some count) none size slice f s = (false, s)
  items (some count) (some get) size slice f s =
      for_each (count mem slice.ptr) 0 (λ i. f i (record { ptr = get mem slice.ptr i; len = size }))
        s

  -- `MessageSequenceMemberSchema::for_each_item`
  unfoldable pub for_each_item :
      {S : Type 0}
      → ℕ
      → ℕ
      → Option SizeFunction
      → Option GetFunction
      → Slice
      → (ℕ → Slice → Step S)
      → Step S
  unfolding get_from items
  for_each_item offset size count get message f s = elim (get_from message offset) [
    | none ↦ (true, s)
    | some slice ↦ items count get size slice f s
  ]

  unfoldable mutual
    unfolding for_each_item interpret_scalar interpret_array indexed

    -- `FlatRosMessageMemberSchema::interpret_message`
    pub interpret_message : FlatRosMessageMemberSchema → Option String → Slice → Step Kvs
    interpret_message (flat_scalar s) prefix message = interpret_scalar s prefix message
    interpret_message (scalar_array s) prefix message = interpret_array s prefix message
    interpret_message (message_sequence key offset schema _ _ count get) prefix message =
        for_each_item offset (flat_size schema) count get message
          λ i slice. interpret_item schema (indexed (prefixed prefix key) i) slice

    pub interpret_item : FlatRosMessageSchema → String → Slice → Step Kvs
    interpret_item (flat_schema _ _ _ members) key slice = interpret_fields members key slice

    -- the members of an item, up to the first that fails
    pub interpret_fields : FlatMembers → String → Slice → Step Kvs
    interpret_fields flat_end key slice kvs = (true, kvs)
    interpret_fields (flat_cons m members) key slice kvs =
        onward (interpret_message m (some key) slice kvs) (interpret_fields members key slice)

  -- `interpret_message_internal`: failures of a member are ignored
  unfoldable pub interpret_message_internal : FlatMembers → Option String → Slice → Kvs → Kvs
  unfolding interpret_message
  interpret_message_internal flat_end prefix message kvs = kvs
  interpret_message_internal (flat_cons m members) prefix message kvs =
      interpret_message_internal members prefix message (interpret_message m prefix message kvs).1
