-- ===== src/Api.antt =====
-- The types of auxon_sdk::api that the program passes around, as far as it looks into them.
use modality_ros.Prelude.{ℕ, String, List, Bool, false}
use modality_ros.Prelude.Int.{ℤ}
use modality_ros.Prelude.Text.{is_non_empty}

-- Identifiers are only copied, compared and used as keys.
abbrev pub TimelineId : Type 0
TimelineId = ℕ

abbrev pub InternedAttrKey : Type 0
InternedAttrKey = ℕ

-- Nanoseconds since the epoch, a `u64`.
abbrev pub Nanoseconds : Type 0
Nanoseconds = ℕ

-- A float is its 64 bits.
pub data AttrVal : Type 0 where
  string : String → AttrVal
  integer : ℤ → AttrVal
  big_int : ℤ → AttrVal
  float : ℕ → AttrVal
  bool : Bool → AttrVal
  timestamp : Nanoseconds → AttrVal

-- A name and a value, as the hooks collect them.
abbrev pub Kvs : Type 0
Kvs = List (String × AttrVal)

unfoldable pub is_non_empty_string : AttrVal → Bool
is_non_empty_string (string s) = is_non_empty s
is_non_empty_string _ = false
