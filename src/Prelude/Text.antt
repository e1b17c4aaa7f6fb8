-- ===== src/Prelude/Text.antt =====
-- What the program asks of Rust's `String`, `format!` and the `hex` crate.
pub mod Hex
pub mod Digits
pub mod Pieces
use Prim.Native.Nat.{ℕ, suc, zero, ◌+◌, ◌/◌, ◌%◌, ◌<◌}
use Prim.Native.Char.{Char, code, char}
use Prim.Native.String.{String, ◌++◌ as ◌<>◌}
use Prim.Native.String
use mathlib.Core.Path.{◌≡◌, refl}
use mathlib.Core.Bool.{Bool, true, false, not, ◌&&◌, ◌||◌}
use mathlib.Core.List.{List, [], ◌∷◌}
use native.Mathlib.Omega.{arith}
use modality_ros.Prelude.Tests.{ltb, contains, ◌==◌, nat_eq, if◌then◌else◌}

-- `c == '/'`
abbrev pub is_slash : Char → Bool
unfolding nat_eq
is_slash c = code c == b'/'

-- `if s.starts_with('/') { s.remove(0); }`
unfoldable pub strip_slash : String → String
strip_slash String.[] = ""
strip_slash (String.◌∷◌ c s) = if is_slash c then s else String.◌∷◌ c s

-- `while s.starts_with('/') { s.remove(0); }`
unfoldable pub strip_slashes : String → String
strip_slashes String.[] = ""
strip_slashes (String.◌∷◌ c s) =
    let rest = strip_slashes s in if is_slash c then rest else String.◌∷◌ c s

-- `s.replace('/', ".")`
unfoldable pub slashes_to_dots : String → String
slashes_to_dots String.[] = ""
slashes_to_dots (String.◌∷◌ c s) = String.◌∷◌ (if is_slash c then "." else c) (slashes_to_dots s)

-- `!s.is_empty()`
abbrev pub is_non_empty : String → Bool
is_non_empty String.[] = false
is_non_empty (String.◌∷◌ _ _) = true

-- `s.chars().nth(i)`, within range
char_of : ℕ → String → Char
char_of i String.[] = "0"
char_of zero (String.◌∷◌ c s) = c
char_of (suc i) (String.◌∷◌ c s) = char_of i s

-- The digit of a number below 16.
pub hex_digit : ℕ → Char
unfolding char_of
hex_digit d = char_of d "0123456789abcdef"

-- The bytes in lower case hexadecimal, two digits each: `hex::encode`, and `{b:02x}` in a loop.
unfoldable pub hex : List ℕ → String
unfolding hex_digit
hex [] = ""
hex (b ∷ bs) = String.◌∷◌ (hex_digit (b / 16)) (String.◌∷◌ (hex_digit (b % 16)) (hex bs))

-- The text of a number: the digits from the last one on, in front of those done. The fuel is more
-- than the number of digits.
decimal_onto : ℕ → ℕ → String → String
unfolding char_of
decimal_onto zero n done = done
decimal_onto (suc fuel) n done =
    let shown = String.◌∷◌ (char_of (n % 10) "0123456789") done in
    let rest = decimal_onto fuel (n / 10) shown in if ltb n 10 then shown else rest

-- `n.to_string()`, of an unsigned integer
unfoldable pub decimal : ℕ → String
unfolding decimal_onto
decimal n = decimal_onto (suc n) n ""

split_onto : Bool → Char → List String → List String
split_onto true c pieces = "" ∷ pieces
split_onto false c [] = String.◌∷◌ c "" ∷ []
split_onto false c (piece ∷ pieces) = String.◌∷◌ c piece ∷ pieces

-- `s.split(p)`: the pieces between the characters that pass the test, one more than those.
unfoldable pub split : (Char → Bool) → String → List String
unfolding split_onto
split p String.[] = "" ∷ []
split p (String.◌∷◌ c s) = split_onto (p c) c (split p s)

-- `pieces.join(sep)`
unfoldable pub join : String → List String → String
join sep [] = ""
join sep (s ∷ []) = s
join sep (s ∷ t ∷ more) = s <> sep <> join sep (t ∷ more)

is_between : ℕ → ℕ → ℕ → Bool
is_between low high n = if ltb n low then false else ltb n (suc high)

-- `char::is_whitespace`
pub is_whitespace : Char → Bool
unfolding is_between nat_eq
is_whitespace c =
    is_between 0x9 0xd (code c) || contains white (code c) || is_between 0x2000 0x200a (code c)
  where
    white : List ℕ
    white = 0x20 ∷ 0x85 ∷ 0xa0 ∷ 0x1680 ∷ 0x2028 ∷ 0x2029 ∷ 0x202f ∷ 0x205f ∷ 0x3000 ∷ []

trim_start : String → String
unfolding is_whitespace
trim_start String.[] = ""
trim_start (String.◌∷◌ c s) =
    let rest = trim_start s in if is_whitespace c then rest else String.◌∷◌ c s

trim_end : String → String
unfolding is_whitespace
trim_end String.[] = ""
trim_end (String.◌∷◌ c s) =
    let rest = trim_end s in
    if is_whitespace c && not (is_non_empty rest) then "" else String.◌∷◌ c rest

-- `s.trim()`
unfoldable pub trim : String → String
unfolding trim_start trim_end
trim s = trim_end (trim_start s)

trim_test : trim " \t/chatter x \n" ≡ "/chatter x"
unfolding trim
trim_test = refl
