-- ===== src/Interpret/Messages/Events.antt =====
-- How many events a message gives, and how they begin (modality-ros-hook/src/lib.rs).
use modality_ros.Prelude.{
  ℕ, zero, suc, ◌+◌, ◌≡◌, refl, ap, ◌∙◌, Bool, true, false, ◌&&◌, Option, none, some, List, [], ◌∷◌,
  ◌==◌, string_eq, length, length-append, arith, if◌then◌else◌,
}
use modality_ros.Api.{AttrVal, Kvs}
use modality_ros.Memory.{Memory, Slice, get_from, SizeFunction, GetFunction}
use modality_ros.Schema.{FlatRosMessageSchema, flat_members, flat_namespace, flat_name, flat_size}
use modality_ros.Interpret.{Step, onward, for_each}
use modality_ros.Interpret.Members.{Reader, items, for_each_item, interpret_message_internal}
use modality_ros.Interpret.Members.Prefix.{internal-Adds}
use modality_ros.Interpret.Messages.{
  Texts, MessageSequenceMemberSchema, is_diagnostic, schema_attrs, name_event, with_log_name,
  extract_log_message, find_status, common_kvs, status_kvs, status_event, diagnostic_events,
  interpret_single_message, interpret_as_diagnostic_array, interpret_potentially_compound_message,
}

-- The pairs that every event begins with.
abbrev pub Begins : FlatRosMessageSchema → Kvs → Type 0
Begins s kvs =
    (rest : Kvs) × (kvs
      ≡ ("event.ros.schema.namespace", AttrVal.string (flat_namespace s))
        ∷ ("event.ros.schema.name", AttrVal.string (flat_name s))
        ∷ rest)

name_event-Begins :
    (s : FlatRosMessageSchema) (msg : AttrVal) (kvs : Kvs)
    → Begins s kvs
    → Begins s (name_event msg kvs)
unfolding name_event
name_event-Begins s msg kvs (rest, e) = (name_event msg rest, ap (name_event msg) e)

with_log_name-Begins :
    (s : FlatRosMessageSchema) (o : Option AttrVal) (kvs : Kvs)
    → Begins s kvs
    → Begins s (with_log_name o kvs)
unfolding with_log_name
with_log_name-Begins s none kvs h = h
with_log_name-Begins s (some msg) kvs h = name_event-Begins s msg kvs h

module _ (r : Reader) (tx : Texts) (mem : Memory) where
  pub interpret_single_message-Begins :
      (s : FlatRosMessageSchema) (message : Slice)
      → Begins s (interpret_single_message r tx mem s message)
  unfolding interpret_single_message schema_attrs
  interpret_single_message-Begins s message =
      let kvs =
        interpret_message_internal r mem (flat_members s) none message (schema_attrs r tx mem s) in
      let (new, e, _) =
        internal-Adds r mem (λ _. Unit) (flat_members s) none message (schema_attrs r tx mem s)
          (λ _. tt) in
      with_log_name-Begins s (extract_log_message s kvs) kvs (new, e)

  -- A message whose schema is not called DiagnosticArray gives exactly one event, which begins
  -- with the namespace and the name of its schema, also if a log message names it.
  pub interpret_potentially_compound_message-Begins :
      (s : FlatRosMessageSchema) (message : Slice)
      → (flat_name s == "DiagnosticArray") ≡ false
      → (kvs : Kvs) × (interpret_potentially_compound_message r tx mem s message ≡ kvs ∷ [])
        × Begins s kvs
  unfolding interpret_potentially_compound_message
  interpret_potentially_compound_message-Begins s message h = (
    interpret_single_message r tx mem s message,
    other (is_diagnostic (flat_namespace s)) (flat_name s == "DiagnosticArray") h,
    interpret_single_message-Begins s message,
  )
    where
      other :
          (a b : Bool)
          → b ≡ false
          → (if a && b
              then interpret_as_diagnostic_array r tx mem s message
              else interpret_single_message r tx mem s message ∷ [])
            ≡ interpret_single_message r tx mem s message ∷ []
      other true true e = cc
      other true false e = refl
      other false b e = refl

  onward_count :
      (x : Bool × List Kvs) (next : Step (List Kvs)) (k n : ℕ)
      → x.0 ≡ true
      → length x.1 ≡ k + 1
      → ((l : List Kvs) → length (next l).1 ≡ length l + n)
      → length (onward x next).1 ≡ k + suc n
  onward_count (true, l) next k n ok h g = omega (arith, h, g l)
  onward_count (false, l) next k n ok h g = cc

  for_each_count :
      (n i : ℕ) (f : ℕ → Step (List Kvs)) (l : List Kvs)
      → ((j : ℕ) (l' : List Kvs) → ((f j l').0 ≡ true) × (length (f j l').1 ≡ length l' + 1))
      → length (for_each n i f l).1 ≡ length l + n
  unfolding for_each
  for_each_count zero i f l h = omega arith
  for_each_count (suc n) i f l h =
      onward_count (f i l) (for_each n (i + 1) f) (length l) n (h i l).0 (h i l).1
        λ l'. for_each_count n (i + 1) f l' h

  status_event_count :
      (x : Bool × Kvs) (l : List Kvs)
      → x.0 ≡ true
      → ((status_event r tx mem x l).0 ≡ true)
        × (length (status_event r tx mem x l).1 ≡ length l + 1)
  unfolding status_event
  status_event_count (true, kvs) l ok = (refl, length-append l (kvs ∷ []))
  status_event_count (false, kvs) l ok = cc

  events_of :
      (status : MessageSequenceMemberSchema) (common : Kvs) (message slice : Slice)
      (count : SizeFunction) (get : GetFunction)
      → get_from message status.offset ≡ some slice
      → status.size_function ≡ some count
      → status.get_function ≡ some get
      → diagnostic_events r tx mem (some status) common message
        ≡ (for_each
            (count mem slice.ptr)
            0
            (λ i. status_event r tx mem (
              status_kvs r tx mem
                (flat_members status.message_schema)
                (record { ptr = get mem slice.ptr i; len = flat_size status.message_schema })
                common))
            []).1
  unfolding diagnostic_events for_each_item items
  events_of status common message slice count get in_range counted got i =
      (elim (in_range i) as (λ _. Bool × List Kvs) [
        | none ↦ (true, [])
        | some sl ↦
            items r mem (counted i) (got i) (flat_size status.message_schema) sl
              (λ j item.
                status_event r tx mem
                  (status_kvs r tx mem (flat_members status.message_schema) item common))
              []
      ]).1

  -- An array of diagnostics gives one event for each status in it, if its status field is in
  -- range, the type support counts and finds the statuses, and no member of a status fails.
  pub interpret_as_diagnostic_array_count :
      (s : FlatRosMessageSchema) (message : Slice) (status : MessageSequenceMemberSchema)
      (slice : Slice) (count : SizeFunction) (get : GetFunction)
      → find_status (flat_members s) ≡ some status
      → get_from message status.offset ≡ some slice
      → status.size_function ≡ some count
      → status.get_function ≡ some get
      → ((i : ℕ) (kvs : Kvs)
          → (status_kvs r tx mem
              (flat_members status.message_schema)
              (record { ptr = get mem slice.ptr i; len = flat_size status.message_schema })
              kvs).0
            ≡ true)
      → length (interpret_as_diagnostic_array r tx mem s message) ≡ count mem slice.ptr
  unfolding interpret_as_diagnostic_array
  interpret_as_diagnostic_array_count s message status slice count get found in_range counted got
        fine =
      let common = common_kvs r tx mem (flat_members s) message (schema_attrs r tx mem s) in
      ap (λ o. length (diagnostic_events r tx mem o common message)) found
      ∙ ap length (events_of status common message slice count get in_range counted got)
      ∙ for_each_count (count mem slice.ptr) 0
          (λ i. status_event r tx mem (
            status_kvs r tx mem (flat_members status.message_schema)
              (record { ptr = get mem slice.ptr i; len = flat_size status.message_schema }) common))
          [] (λ j l. status_event_count _ l (fine j common))
      ∙ no_more (count mem slice.ptr)
    where
      no_more : (n : ℕ) → 0 + n ≡ n
      no_more n = omega arith
