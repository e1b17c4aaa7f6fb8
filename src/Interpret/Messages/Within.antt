-- ===== src/Interpret/Messages/Within.antt =====
-- A message whose slice is shorter than its schema says (modality-ros-hook/src/lib.rs): which
-- members are read.
use modality_ros.Prelude.{
  ℕ, String, true, false, ◌≡◌, refl, ap, ◌∙◌, Option, none, leb, if◌then◌else◌, if-false,
  Bool-cases, inl, inr,
}
use modality_ros.Api.{Kvs}
use modality_ros.Memory.{Memory, Slice, get_from, SizeFunction, GetFunction}
use modality_ros.Interpret.{Step}
use modality_ros.Schema.{
  FlatRosMessageSchema, flat_schema, FlatRosMessageMemberSchema, flat_scalar, scalar_array,
  message_sequence, FlatMembers, flat_end, flat_cons, flat_size, ScalarMemberSchema,
  ScalarArrayMemberSchema,
}
use modality_ros.Interpret.Members.{
  Reader, interpret_scalar, interpret_array, for_each_item, interpret_message,
  interpret_message_internal,
}
use modality_ros.Interpret.Messages.{
  Texts, interpret_single_message, extract_log_message, with_log_name, is_log,
}

-- Where a member begins.
abbrev pub member_offset : FlatRosMessageMemberSchema → ℕ
member_offset (flat_scalar s) = s.offset
member_offset (scalar_array s) = s.offset_in_item_slice
member_offset (message_sequence _ offset _ _ _ _ _) = offset

-- The members that begin in the first `n` bytes, or right behind them.
unfoldable pub within : ℕ → FlatMembers → FlatMembers
within n flat_end = flat_end
within n (flat_cons m members) =
    let rest = within n members in if leb (member_offset m) n then flat_cons m rest else rest

-- The schema with these members only.
abbrev pub schema_within : ℕ → FlatRosMessageSchema → FlatRosMessageSchema
schema_within n (flat_schema namespace name size members) =
    flat_schema namespace name size (within n members)

get_from-beyond : (s : Slice) (o : ℕ) → leb o s.len ≡ false → get_from s o ≡ none
unfolding get_from
get_from-beyond s o h = if-false (leb o s.len) _ none h

module _ (r : Reader) (mem : Memory) where
  interpret_scalar-beyond :
      (m : ScalarMemberSchema) (prefix : Option String) (s : Slice) (kvs : Kvs)
      → leb m.offset s.len ≡ false
      → interpret_scalar r mem m prefix s kvs ≡ (true, kvs)
  unfolding interpret_scalar
  interpret_scalar-beyond m prefix s kvs h =
      rw (interpret_scalar, get_from-beyond s m.offset h) refl

  interpret_array-beyond :
      (m : ScalarArrayMemberSchema) (prefix : Option String) (s : Slice) (kvs : Kvs)
      → leb m.offset_in_item_slice s.len ≡ false
      → interpret_array r mem m prefix s kvs ≡ (true, kvs)
  unfolding interpret_array
  interpret_array-beyond m prefix s kvs h =
      rw (interpret_array, get_from-beyond s m.offset_in_item_slice h) refl

  for_each_item-beyond :
      (offset size : ℕ) (count : Option SizeFunction) (get : Option GetFunction) (s : Slice)
      (f : ℕ → Slice → Step Kvs) (kvs : Kvs)
      → leb offset s.len ≡ false
      → for_each_item r mem offset size count get s f kvs ≡ (true, kvs)
  unfolding for_each_item
  for_each_item-beyond offset size count get s f kvs h =
      rw (for_each_item, get_from-beyond s offset h) refl

  interpret_message-beyond :
      (m : FlatRosMessageMemberSchema) (prefix : Option String) (s : Slice) (kvs : Kvs)
      → leb (member_offset m) s.len ≡ false
      → interpret_message r mem m prefix s kvs ≡ (true, kvs)
  unfolding interpret_message
  interpret_message-beyond (flat_scalar m) prefix s kvs h = interpret_scalar-beyond m prefix s kvs h
  interpret_message-beyond (scalar_array m) prefix s kvs h = interpret_array-beyond m prefix s kvs h
  interpret_message-beyond (message_sequence _ offset schema _ _ count get) prefix s kvs h =
      for_each_item-beyond offset (flat_size schema) count get s _ kvs h

  interpret_message_internal-within :
      (members : FlatMembers) (prefix : Option String) (s : Slice) (kvs : Kvs)
      → interpret_message_internal r mem members prefix s kvs
        ≡ interpret_message_internal r mem (within s.len members) prefix s kvs
  unfolding interpret_message_internal within
  interpret_message_internal-within flat_end prefix s kvs = refl
  interpret_message_internal-within (flat_cons m members) prefix s kvs =
      elim (Bool-cases (leb (member_offset m) s.len)) [
        | inl inside ↦ rw inside (interpret_message_internal-within members prefix s _)
        | inr beyond ↦ rw beyond (
            ap (λ o. interpret_message_internal r mem members prefix s o.1)
              (interpret_message-beyond m prefix s kvs beyond)
            ∙ interpret_message_internal-within members prefix s kvs)
      ]

  -- A message in a slice is interpreted as if its schema had the members only that begin in it.
  pub interpret_single_message-within :
      (tx : Texts) (schema : FlatRosMessageSchema) (s : Slice)
      → interpret_single_message r tx mem schema s
        ≡ interpret_single_message r tx mem (schema_within s.len schema) s
  unfolding interpret_single_message extract_log_message is_log
  interpret_single_message-within tx (flat_schema namespace name size members) s =
      ap
        (λ kvs.
          with_log_name (extract_log_message (flat_schema namespace name size members) kvs) kvs)
        (interpret_message_internal-within members none s _)
