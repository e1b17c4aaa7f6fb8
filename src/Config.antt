-- ===== src/Config.antt =====
-- `ModalityRosHookConfig` (modality-ros-hook/src/config.rs). The environment answers each name;
-- the run id of a configuration without one is an argument.
pub mod Numbers
pub mod Topics
use Prim.Native.Char.{Char, code}
use modality_ros.Prelude.{
  ℕ, ◌+◌, ◌-◌, ◌*◌, ◌^◌, String, Bool, Option, none, some, List, [], ◌∷◌, ◌++◌, ltb, ◌==◌, nat_eq,
  string_eq, contains, if◌then◌else◌,
}
use modality_ros.Prelude.Text.{split, trim}

-- What `std::env::var` answers.
pub data Var : Type 0 where
  ok : String → Var
  not_present : Var
  not_unicode : Var

abbrev pub Env : Type 0
Env = String → Var

-- `connect_timeout` is in seconds.
pub record ModalityRosHookConfig : Type 0 where
  pub connect_timeout : ℕ
  pub ignored_topics : List String
  pub max_array_len : ℕ
  pub run_id : String
  pub buffer_size : ℕ

-- The digits of a number after those read, below a bound: `none` is an error.
unfoldable pub digits : ℕ → ℕ → String → Option ℕ
unfolding nat_eq
digits bound n String.[] = some n
digits bound n (String.◌∷◌ c s) =
    let n' = n * 10 + (code c - b'0') in
    let rest = digits bound n' s in
    if ltb (code c) b'0'
    then none
    else if ltb b'9' (code c)
    then none
    else if ltb n' bound
    then rest
    else none

after_sign : ℕ → String → Option ℕ
unfolding digits
after_sign bound String.[] = none
after_sign bound s = digits bound 0 s

-- `s.parse::<u64>()`, and `usize` on a 64-bit machine
unfoldable pub parse : String → Option ℕ
unfolding after_sign nat_eq
parse String.[] = none
parse (String.◌∷◌ c s) =
    if code c == b'+' then after_sign (2 ^ 64) s else digits (2 ^ 64) 0 (String.◌∷◌ c s)

unfoldable pub string_env_var : Var → Option String
string_env_var (ok s) = some s
string_env_var not_present = none
string_env_var not_unicode = none

parsed : Option String → Option ℕ
unfolding parse trim
parsed none = none
parsed (some s) = parse (trim s)

-- `u64_env_var` and `usize_env_var`
unfoldable pub u64_env_var : Var → Option ℕ
unfolding parsed string_env_var
u64_env_var v = parsed (string_env_var v)

abbrev pub or_default : {A : Type 0} → Option A → A → A
or_default none a = a
or_default (some a) _ = a

-- `ignored_topics.insert(topic)`
insert_topic : List String → String → List String
unfolding string_eq
insert_topic topics topic = if contains topics topic then topics else topics ++ topic ∷ []

insert_topics : List String → List String → List String
unfolding insert_topic trim
insert_topics topics [] = topics
insert_topics topics (s ∷ pieces) = insert_topics (insert_topic topics (trim s)) pieces

unfoldable pub is_comma : Char → Bool
unfolding nat_eq
is_comma c = code c == b','

unfoldable pub ignored_topics_of : Option String → List String
unfolding insert_topics is_comma split
ignored_topics_of none = "/parameter_events" ∷ []
ignored_topics_of (some s) = insert_topics [] (split is_comma s)

unfoldable pub from_env : Env → String → ModalityRosHookConfig
unfolding u64_env_var ignored_topics_of string_env_var
from_env env new_run_id = record {
  connect_timeout = or_default (u64_env_var (env "MODALITY_ROS_CONNECT_TIMEOUT")) 20;
  ignored_topics = ignored_topics_of (string_env_var (env "MODALITY_ROS_IGNORED_TOPICS"));
  max_array_len = or_default (u64_env_var (env "MODALITY_ROS_MAX_ARRAY_LEN")) 12;
  run_id = or_default (string_env_var (env "MODALITY_RUN_ID")) new_run_id;
  buffer_size = or_default (u64_env_var (env "MODALITY_ROS_BUFFER_SIZE")) 1024;
}
