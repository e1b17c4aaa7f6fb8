-- ===== src/Interpret/Members/Prefix.antt =====
-- The names that a prefix gives to the members of a message (modality-ros-hook/src/lib.rs).
use text.Mathlib.TextLemmas.{append_assoc as string_assoc}
use modality_ros.Prelude.{ℕ, String, ◌<>◌, refl, sym, subst, ◌∙◌, ap, Option, none, some}
use modality_ros.Prelude.Text.{decimal}
use modality_ros.Api.{Kvs}
use modality_ros.Memory.{Memory, Slice}
use modality_ros.Schema.{
  FlatRosMessageSchema, flat_schema, FlatRosMessageMemberSchema, flat_scalar, scalar_array,
  message_sequence, FlatMembers, flat_end, flat_cons, flat_size,
}
use modality_ros.Interpret.Members.{
  Reader, prefixed, indexed, interpret_message, interpret_item, interpret_fields,
  interpret_message_internal,
}
use modality_ros.Interpret.Members.Names.{
  Under, Adds, Adds-none, Adds-both, Adds-onward, scalar-Adds, array-Adds, for_each_item-Adds,
}

-- P holds of all names under a prefix.
abbrev pub Below : (String → Type 0) → Option String → Type 0
Below P none = (name : String) → P name
Below P (some q) = (rest : String) → P (q <> "." <> rest)

Below_key :
    (P : String → Type 0) (prefix : Option String) (key : String)
    → Below P prefix
    → P (prefixed prefix key)
Below_key P none key h = h key
Below_key P (some q) key h = h key

Below-prefixed :
    (P : String → Type 0) (prefix : Option String) (key : String)
    → Below P prefix
    → Below P (some (prefixed prefix key))
Below-prefixed P none key h = λ rest. h (key <> "." <> rest)
Below-prefixed P (some q) key h = λ rest.
    subst P
      (sym (
        string_assoc q ("." <> key) ("." <> rest)
        ∙ ap (λ s. q <> s) (string_assoc "." key ("." <> rest))))
      (h (key <> ("." <> rest)))

-- An item under a prefix is one more.
Below-indexed :
    (P : String → Type 0) (key : String) (i : ℕ)
    → Below P (some key)
    → P (indexed key i) × Below P (some (indexed key i))
unfolding indexed
Below-indexed P key i h = (h (decimal i), Below-prefixed P (some key) (decimal i) h)

module _ (r : Reader) (mem : Memory) (P : String → Type 0) where
  mutual
    unfolding interpret_message

    pub message-Adds :
        (m : FlatRosMessageMemberSchema) (prefix : Option String) (message : Slice) (kvs : Kvs)
        → Below P prefix
        → Adds P kvs (interpret_message r mem m prefix message kvs).1
    message-Adds (flat_scalar s) prefix message kvs h =
        scalar-Adds r mem P s prefix message kvs (Below_key P prefix s.key h)
    message-Adds (scalar_array s) prefix message kvs h =
        array-Adds r mem P s prefix message kvs
          λ i. (Below-indexed P (prefixed prefix s.key) i (Below-prefixed P prefix s.key h)).0
    message-Adds (message_sequence key offset schema _ _ count get) prefix message kvs h =
        for_each_item-Adds r mem P offset (flat_size schema) count get message
          (λ i slice. interpret_item r mem schema (indexed (prefixed prefix key) i) slice) kvs
          λ i slice kvs'.
            item-Adds schema (indexed (prefixed prefix key) i) slice kvs'
              (Below-indexed P (prefixed prefix key) i (Below-prefixed P prefix key h)).1

    item-Adds :
        (schema : FlatRosMessageSchema) (key : String) (slice : Slice) (kvs : Kvs)
        → Below P (some key)
        → Adds P kvs (interpret_item r mem schema key slice kvs).1
    item-Adds (flat_schema _ _ _ members) key slice kvs h = fields-Adds members key slice kvs h

    fields-Adds :
        (members : FlatMembers) (key : String) (slice : Slice) (kvs : Kvs)
        → Below P (some key)
        → Adds P kvs (interpret_fields r mem members key slice kvs).1
    fields-Adds flat_end key slice kvs h = Adds-none P kvs
    fields-Adds (flat_cons m members) key slice kvs h =
        Adds-onward P kvs (interpret_message r mem m (some key) slice kvs) _
          (message-Adds m (some key) slice kvs h) λ kvs'. fields-Adds members key slice kvs' h

  pub internal-Adds :
      (members : FlatMembers) (prefix : Option String) (message : Slice) (kvs : Kvs)
      → Below P prefix
      → Adds P kvs (interpret_message_internal r mem members prefix message kvs)
  unfolding interpret_message_internal
  internal-Adds flat_end prefix message kvs h = Adds-none P kvs
  internal-Adds (flat_cons m members) prefix message kvs h =
      Adds-both P kvs (interpret_message r mem m prefix message kvs).1 _
        (message-Adds m prefix message kvs h)
        (internal-Adds members prefix message (interpret_message r mem m prefix message kvs).1 h)

-- The interpretation of a member under a prefix keeps the pairs there were and adds some at the
-- end, whether it fails or not; the names of all that it adds start with the prefix and a dot.
pub interpret_message-Under :
    (r : Reader) (mem : Memory) (m : FlatRosMessageMemberSchema) (p : String) (message : Slice)
    (kvs : Kvs)
    → Adds (Under p) kvs (interpret_message r mem m (some p) message kvs).1
interpret_message-Under r mem m p message kvs =
    message-Adds r mem (Under p) m (some p) message kvs λ rest. (rest, refl)
