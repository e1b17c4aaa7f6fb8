-- ===== src/Interpret.antt =====
-- The interpretation of the bytes of a message (modality-ros-hook/src/lib.rs): what the steps of it
-- share. A step adds to the pairs that it is given, and may fail; what it has added stays.
pub mod Values
pub mod Members
pub mod Messages
use modality_ros.Prelude.{ℕ, zero, suc, ◌+◌, String, Bool, true, false, Option, none, some}
use modality_ros.Prelude.{List, [], ◌∷◌, ◌++◌}
use modality_ros.Api.{AttrVal, Kvs}

-- `false` is `None`.
abbrev pub Step : Type 0 → Type 0
Step S = S → Bool × S

-- `?`: the next step, unless the one before failed.
abbrev pub onward : {S : Type 0} → Bool × S → Step S → Bool × S
onward (true, s) next = next s
onward (false, s) next = (false, s)

-- `for i in i..i + n`
unfoldable pub for_each : {S : Type 0} → ℕ → ℕ → (ℕ → Step S) → Step S
for_each zero i f s = (true, s)
for_each (suc n) i f s = onward (f i s) (for_each n (i + 1) f)

-- `kvs.push((key, val?))`
abbrev pub push_value : String → Option AttrVal → Step Kvs
push_value key none kvs = (false, kvs)
push_value key (some v) kvs = (true, kvs ++ (key, v) ∷ [])
