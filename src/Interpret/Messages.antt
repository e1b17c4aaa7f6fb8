-- ===== src/Interpret/Messages.antt =====
-- The interpretation of whole messages (modality-ros-hook/src/lib.rs): of a single one, and of one
-- that may be an array of diagnostics, which gives an event for each status in it.
pub mod Events
pub mod Log
pub mod Diagnostics
pub mod Within
use Prim.Native.Char.{Char}
use modality_ros.Prelude.{
  ℕ, String, ◌<>◌, Bool, true, false, not, ◌&&◌, ◌||◌, Option, none, some, List, [], ◌∷◌, ◌++◌,
  ◌==◌, string_eq, if◌then◌else◌,
}
use modality_ros.Prelude.Text.{split, join}
use modality_ros.Api.{AttrVal, Kvs}
use modality_ros.Memory.{Memory, Slice, SizeFunction, GetFunction}
use modality_ros.Schema.{
  FlatRosMessageSchema, flat_schema, FlatRosMessageMemberSchema, flat_scalar, scalar_array,
  message_sequence, FlatMembers, flat_end, flat_cons, flat_members, flat_namespace, flat_name,
  flat_size,
}
use modality_ros.Interpret.{Step, onward, for_each}
use modality_ros.Interpret.Members.{
  Reader, for_each_item, interpret_message, interpret_message_internal,
}

-- `kvs.iter().find(|(k, _)| k == key)`
unfoldable pub find_value : String → Kvs → Option AttrVal
unfolding string_eq
find_value key [] = none
find_value key ((k, v) ∷ kvs) = if k == key then some v else find_value key kvs

-- the value of the first pair named `name` or `event.name` is replaced; there is one
unfoldable pub name_event : AttrVal → Kvs → Kvs
unfolding string_eq
name_event msg [] = ("event.name", msg) ∷ []
name_event msg ((k, v) ∷ kvs) =
    let rest = (k, v) ∷ name_event msg kvs in
    if k == "name" || k == "event.name" then (k, msg) ∷ kvs else rest

unfoldable pub is_log : FlatRosMessageSchema → Bool
unfolding string_eq
is_log s =
    (flat_namespace s == "rcl_interfaces__msg" || flat_namespace s == "rcl_interfaces::msg")
    && flat_name s == "Log"

-- `extract_log_message`
unfoldable pub extract_log_message : FlatRosMessageSchema → Kvs → Option AttrVal
unfolding is_log find_value
extract_log_message s kvs = if is_log s then find_value "msg" kvs else none

abbrev pub with_log_name : Option AttrVal → Kvs → Kvs
unfolding name_event
with_log_name none kvs = kvs
with_log_name (some msg) kvs = name_event msg kvs

is_diagnostic : String → Bool
unfolding string_eq
is_diagnostic namespace = namespace == "diagnostic_msgs::msg" || namespace == "diagnostic_msgs__msg"

-- A sequence of messages, as the code holds it.
pub record MessageSequenceMemberSchema : Type 0 where
  pub key : String
  pub offset : ℕ
  pub message_schema : FlatRosMessageSchema
  pub array_size : ℕ
  pub is_upper_bound : Bool
  pub size_function : Option SizeFunction
  pub get_function : Option GetFunction

-- a sequence of messages of diagnostics, under this key and of this type
sequence_named : String → String → FlatRosMessageMemberSchema → Option MessageSequenceMemberSchema
unfolding is_diagnostic string_eq
sequence_named k n (flat_scalar _) = none
sequence_named k n (scalar_array _) = none
sequence_named k n (message_sequence key offset schema array_size bound size get) =
    if key == k && is_diagnostic (flat_namespace schema) && flat_name schema == n
    then some (record {
      key = key;
      offset = offset;
      message_schema = schema;
      array_size = array_size;
      is_upper_bound = bound;
      size_function = size;
      get_function = get;
    })
    else none

unfoldable pub as_status_field : FlatRosMessageMemberSchema → Option MessageSequenceMemberSchema
unfolding sequence_named
as_status_field m = sequence_named "status" "DiagnosticStatus" m

unfoldable pub as_values_field : FlatRosMessageMemberSchema → Option MessageSequenceMemberSchema
unfolding sequence_named
as_values_field m = sequence_named "values" "KeyValue" m

-- `self.members.iter().find_map(as_status_field)`
or_else : {A : Type 0} → Option A → Option A → Option A
or_else none o = o
or_else (some a) o = some a

unfoldable pub find_status : FlatMembers → Option MessageSequenceMemberSchema
unfolding as_status_field or_else
find_status flat_end = none
find_status (flat_cons m members) = or_else (as_status_field m) (find_status members)

-- The tables of Unicode, and the text of a value of the SDK.
pub record Texts : Type 0 where
  pub is_alphanumeric : Char → Bool
  pub to_lowercase : String → String
  pub to_string : AttrVal → String

unfoldable pub normalize_string_for_attr_key : Texts → String → String
unfolding split join
normalize_string_for_attr_key tx s =
    tx.to_lowercase (join "_" (split (λ c. not (tx.is_alphanumeric c)) s))

module _ (r : Reader) (tx : Texts) (mem : Memory) where
  schema_attrs : FlatRosMessageSchema → Kvs
  schema_attrs s =
      ("event.ros.schema.namespace", AttrVal.string (flat_namespace s))
      ∷ ("event.ros.schema.name", AttrVal.string (flat_name s))
      ∷ []

  unfoldable pub interpret_single_message : FlatRosMessageSchema → Slice → Kvs
  unfolding schema_attrs interpret_message_internal extract_log_message with_log_name
  interpret_single_message s message =
      let kvs = interpret_message_internal r mem (flat_members s) none message (schema_attrs s) in
      with_log_name (extract_log_message s kvs) kvs

  -- the members of the array itself, for each of its events
  common_kvs : FlatMembers → Slice → Kvs → Kvs
  unfolding interpret_message as_status_field
  common_kvs flat_end message kvs = kvs
  common_kvs (flat_cons m members) message kvs =
      common_kvs members message (elim (as_status_field m) [
        | none ↦ (interpret_message r mem m none message kvs).1
        | some _ ↦ kvs
      ])

  -- a key and a value, under a name made from the key
  key_value : Option AttrVal → Option AttrVal → Kvs → Kvs
  unfolding normalize_string_for_attr_key
  key_value none v kvs = kvs
  key_value (some k) none kvs = kvs
  key_value (some k) (some v) kvs =
      let ks = normalize_string_for_attr_key tx (tx.to_string k) in
      kvs ++ (ks, v) ∷ (ks <> ".key", AttrVal.string (tx.to_string k)) ∷ []

  values : MessageSequenceMemberSchema → Slice → Kvs → Kvs
  unfolding for_each_item interpret_message_internal find_value key_value
  values seq slice kvs =
      (for_each_item r mem seq.offset (flat_size seq.message_schema) seq.size_function
        seq.get_function slice
        (λ i item kvs'.
          let local =
            interpret_message_internal r mem (flat_members seq.message_schema) none item [] in
          (true, key_value (find_value "key" local) (find_value "value" local) kvs'))
        kvs).1

  -- the members of a status, up to the first that fails
  unfoldable pub status_kvs : FlatMembers → Slice → Step Kvs
  unfolding as_values_field values interpret_message
  status_kvs flat_end slice kvs = (true, kvs)
  status_kvs (flat_cons m members) slice kvs =
      onward
        (elim (as_values_field m) [
          | none ↦ interpret_message r mem m none slice kvs
          | some seq ↦ (true, values seq slice kvs)
        ])
        (status_kvs members slice)

  -- an event of its own, unless a member of the status failed
  status_event : Bool × Kvs → Step (List Kvs)
  status_event (true, kvs) events = (true, events ++ kvs ∷ [])
  status_event (false, kvs) events = (false, events)

  diagnostic_events : Option MessageSequenceMemberSchema → Kvs → Slice → List Kvs
  unfolding for_each_item status_kvs status_event
  diagnostic_events none common message = common ∷ []
  diagnostic_events (some status) common message =
      (for_each_item r mem status.offset (flat_size status.message_schema) status.size_function
        status.get_function message
        (λ i slice. status_event (status_kvs (flat_members status.message_schema) slice common))
        []).1

  unfoldable pub interpret_as_diagnostic_array : FlatRosMessageSchema → Slice → List Kvs
  unfolding common_kvs schema_attrs find_status diagnostic_events
  interpret_as_diagnostic_array s message =
      diagnostic_events (find_status (flat_members s))
        (common_kvs (flat_members s) message (schema_attrs s)) message

  unfoldable pub interpret_potentially_compound_message : FlatRosMessageSchema → Slice → List Kvs
  unfolding is_diagnostic string_eq interpret_as_diagnostic_array interpret_single_message
  interpret_potentially_compound_message s message =
      if is_diagnostic (flat_namespace s) && flat_name s == "DiagnosticArray"
      then interpret_as_diagnostic_array s message
      else interpret_single_message s message ∷ []
