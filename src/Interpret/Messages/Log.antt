-- ===== src/Interpret/Messages/Log.antt =====
-- The name of the event of a log message (modality-ros-hook/src/lib.rs).
use modality_ros.Prelude.{
  String, ◌≡◌, refl, sym, subst, ap, ◌∙◌, Bool, true, false, ◌||◌, Option, none, some, [], ◌∷◌,
  ◌==◌, string_eq, ==-sound, if◌then◌else◌, if-true, if-false, inl, inr, ◌⊎◌,
}
use modality_ros.Api.{AttrVal, Kvs}
use modality_ros.Memory.{Memory, Slice}
use modality_ros.Schema.{FlatRosMessageSchema, flat_members}
use modality_ros.Interpret.Members.{Reader, interpret_message_internal}
use modality_ros.Interpret.Messages.{
  Texts, is_log, find_value, name_event, with_log_name, schema_attrs, interpret_single_message,
}

is_name : String → Bool
unfolding string_eq
is_name k = k == "name" || k == "event.name"

-- The value of the first pair that is named `name` or `event.name`.
unfoldable pub name_of : Kvs → Option AttrVal
unfolding is_name
name_of [] = none
name_of ((k, v) ∷ kvs) = if is_name k then some v else name_of kvs

or_cases : (a b : Bool) → (a || b) ≡ true → (a ≡ true) ⊎ (b ≡ true)
or_cases true b h = inl refl
or_cases false b h = inr h

other_than_msg : (k s : String) → (k == s) ≡ true → (s == "msg") ≡ false → (k == "msg") ≡ false
other_than_msg k s e h = subst (λ x. (x == "msg") ≡ false) (sym (==-sound k s e)) h

not_msg : (k : String) → is_name k ≡ true → (k == "msg") ≡ false
unfolding is_name string_eq
not_msg k h = elim (or_cases (k == "name") (k == "event.name") h) as (λ _. (k == "msg") ≡ false) [
  | inl e ↦ other_than_msg k "name" e refl
  | inr e ↦ other_than_msg k "event.name" e refl
]

name_of-replaced :
    (b : Bool) (k : String) (v msg : AttrVal) (kvs rest : Kvs)
    → is_name k ≡ b
    → name_of rest ≡ some msg
    → name_of (if b then (k, msg) ∷ kvs else (k, v) ∷ rest) ≡ some msg
unfolding name_of
name_of-replaced true k v msg kvs rest e h = if-true (is_name k) (some msg) (name_of kvs) e
name_of-replaced false k v msg kvs rest e h = if-false (is_name k) (some v) (name_of rest) e ∙ h

name_of-name_event : (msg : AttrVal) (kvs : Kvs) → name_of (name_event msg kvs) ≡ some msg
unfolding name_of name_event is_name
name_of-name_event msg [] = refl
name_of-name_event msg ((k, v) ∷ kvs) =
    name_of-replaced (is_name k) k v msg kvs (name_event msg kvs) refl (name_of-name_event msg kvs)

find_value-replaced :
    (b : Bool) (k : String) (v msg : AttrVal) (kvs rest : Kvs)
    → is_name k ≡ b
    → find_value "msg" rest ≡ find_value "msg" kvs
    → find_value "msg" (if b then (k, msg) ∷ kvs else (k, v) ∷ rest)
      ≡ find_value "msg" ((k, v) ∷ kvs)
unfolding find_value
find_value-replaced true k v msg kvs rest e h =
    if-false (k == "msg") (some msg) (find_value "msg" kvs) (not_msg k e)
    ∙ sym (if-false (k == "msg") (some v) (find_value "msg" kvs) (not_msg k e))
find_value-replaced false k v msg kvs rest e h = ap (λ o. if k == "msg" then some v else o) h

find_value-name_event :
    (msg : AttrVal) (kvs : Kvs) → find_value "msg" (name_event msg kvs) ≡ find_value "msg" kvs
unfolding find_value name_event is_name
find_value-name_event msg [] = refl
find_value-name_event msg ((k, v) ∷ kvs) =
    find_value-replaced (is_name k) k v msg kvs (name_event msg kvs) refl
      (find_value-name_event msg kvs)

-- What names a log after a message that it may have.
named :
    (o : Option AttrVal) (kvs : Kvs) (msg : AttrVal)
    → find_value "msg" kvs ≡ o
    → find_value "msg" (with_log_name o kvs) ≡ some msg
    → name_of (with_log_name o kvs) ≡ some msg
unfolding with_log_name
named none kvs msg e h = cc (sym e ∙ h)
named (some v) kvs msg e h =
    name_of-name_event v kvs ∙ sym e ∙ sym (find_value-name_event v kvs) ∙ h

module _ (r : Reader) (tx : Texts) (mem : Memory) where
  -- If the event of a log message has a message, its name is that message: the first of its pairs
  -- that are called `name` or `event.name` has the message's value.
  pub name_of-interpret_single_message :
      (s : FlatRosMessageSchema) (message : Slice) (msg : AttrVal)
      → is_log s ≡ true
      → find_value "msg" (interpret_single_message r tx mem s message) ≡ some msg
      → name_of (interpret_single_message r tx mem s message) ≡ some msg
  unfolding interpret_single_message
  name_of-interpret_single_message s message msg log h =
      subst
        (λ o.
          find_value "msg" (with_log_name o kvs) ≡ some msg
          → name_of (with_log_name o kvs) ≡ some msg)
        (sym (if-true (is_log s) (find_value "msg" kvs) none log))
        (named (find_value "msg" kvs) kvs msg refl) h
    where
      kvs : Kvs
      kvs = interpret_message_internal r mem (flat_members s) none message (schema_attrs r tx mem s)
