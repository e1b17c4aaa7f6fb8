-- ===== src/Prelude/Unicode.antt =====
-- Characters from numbers, and the decoding of byte strings: `String::from_utf8_lossy` and
-- `String::from_utf16_lossy` of one unit, from Rust's standard library.
use Prim.Native.Nat.{ℕ, ◌+◌, ◌*◌, ◌-◌, compare, Ordering}
use Prim.Native.Char.{Char, char, IsLt}
use Prim.Native.String.{String}
use mathlib.Core.Path.{◌≡◌, refl}
use mathlib.Core.Bool.{Bool, ◌&&◌, ◌||◌}
use mathlib.Core.Option.{Option, none, some}
use mathlib.Core.List.{List, [], ◌∷◌}
use modality_ros.Prelude.Tests.{ltb, leb, ◌==◌, nat_eq, if◌then◌else◌}

-- These have the clauses of what `IsScalar` is made of.
abbrev BothLess : Ordering → Ordering → Type 0
BothLess Ordering.lt o = IsLt o
BothLess Ordering.eq _ = ⊥
BothLess Ordering.gt _ = ⊥

abbrev Scalar : Ordering → Ordering → Ordering → Type 0
Scalar Ordering.lt _ _ = Unit
Scalar Ordering.eq o p = BothLess o p
Scalar Ordering.gt o p = BothLess o p

less? : (o : Ordering) → Option (IsLt o)
less? Ordering.lt = some tt
less? Ordering.eq = none
less? Ordering.gt = none

both_less? : (o p : Ordering) → Option (BothLess o p)
unfolding less?
both_less? Ordering.lt p = less? p
both_less? Ordering.eq p = none
both_less? Ordering.gt p = none

scalar? : (o p q : Ordering) → Option (Scalar o p q)
unfolding both_less?
scalar? Ordering.lt p q = some tt
scalar? Ordering.eq p q = both_less? p q
scalar? Ordering.gt p q = both_less? p q

abbrev replacement : Char
replacement = char 65533 tt

-- The character of this number, and U+FFFD where there is none.
unfoldable pub to_char : ℕ → Char
unfolding scalar?
to_char n = elim (scalar? (compare n 55296) (compare 57343 n) (compare n 1114112)) [
  | some p ↦ char n p
  | none ↦ replacement
]

abbrev between : ℕ → ℕ → ℕ → Bool
between lo hi b = leb lo b && leb b hi

-- 10xxxxxx
abbrev is_continuation : ℕ → Bool
is_continuation b = between 128 191 b

-- Which second bytes may follow a first byte of a sequence of three.
second_of_three : ℕ → ℕ → Bool
unfolding nat_eq
second_of_three b c =
    if b == 0xe0
    then between 0xa0 0xbf c
    else if b == 0xed
    then between 0x80 0x9f c
    else is_continuation c

-- Which second bytes may follow a first byte of a sequence of four.
second_of_four : ℕ → ℕ → Bool
unfolding nat_eq
second_of_four b c =
    if b == 0xf0
    then between 0x90 0xbf c
    else if b == 0xf4
    then between 0x80 0x8f c
    else is_continuation c

abbrev two : ℕ → ℕ → Char
two b c = to_char ((b - 0xc0) * 64 + (c - 128))

abbrev three : ℕ → ℕ → ℕ → Char
three b c d = to_char ((b - 0xe0) * 4096 + (c - 128) * 64 + (d - 128))

abbrev four : ℕ → ℕ → ℕ → ℕ → Char
four b c d e = to_char ((b - 0xf0) * 262144 + (c - 128) * 4096 + (d - 128) * 64 + (e - 128))

-- How a byte may begin.
abbrev is_lead_two : ℕ → Bool
is_lead_two b = between 0xc2 0xdf b

abbrev is_lead_three : ℕ → Bool
is_lead_three b = between 0xe0 0xef b

abbrev is_lead_four : ℕ → Bool
is_lead_four b = between 0xf0 0xf4 b

-- Each maximal part of a sequence that is not valid UTF-8 gives one U+FFFD.
unfoldable pub from_utf8_lossy : List ℕ → String
unfolding second_of_three second_of_four to_char
from_utf8_lossy [] = ""
from_utf8_lossy (b ∷ []) = String.◌∷◌ (if ltb b 128 then to_char b else replacement) ""
from_utf8_lossy (b ∷ c ∷ []) =
    let bad = String.◌∷◌ replacement (from_utf8_lossy (c ∷ [])) in
    let cut = String.◌∷◌ replacement "" in
    if ltb b 128
    then String.◌∷◌ (to_char b) (from_utf8_lossy (c ∷ []))
    else if is_lead_two b && is_continuation c
    then String.◌∷◌ (two b c) ""
    else if (is_lead_three b && second_of_three b c) || (is_lead_four b && second_of_four b c)
    then cut
    else bad
from_utf8_lossy (b ∷ c ∷ d ∷ []) =
    let plain = String.◌∷◌ (to_char b) (from_utf8_lossy (c ∷ d ∷ [])) in
    let bad = String.◌∷◌ replacement (from_utf8_lossy (c ∷ d ∷ [])) in
    let pair = String.◌∷◌ (two b c) (from_utf8_lossy (d ∷ [])) in
    let bad_pair = String.◌∷◌ replacement (from_utf8_lossy (d ∷ [])) in
    if ltb b 128
    then plain
    else if is_lead_two b && is_continuation c
    then pair
    else if is_lead_three b && second_of_three b c
    then if is_continuation d then String.◌∷◌ (three b c d) "" else bad_pair
    else if is_lead_four b && second_of_four b c
    then if is_continuation d then String.◌∷◌ replacement "" else bad_pair
    else bad
from_utf8_lossy (b ∷ c ∷ d ∷ e ∷ bs) =
    let plain = String.◌∷◌ (to_char b) (from_utf8_lossy (c ∷ d ∷ e ∷ bs)) in
    let bad = String.◌∷◌ replacement (from_utf8_lossy (c ∷ d ∷ e ∷ bs)) in
    let pair = String.◌∷◌ (two b c) (from_utf8_lossy (d ∷ e ∷ bs)) in
    let bad_pair = String.◌∷◌ replacement (from_utf8_lossy (d ∷ e ∷ bs)) in
    let triple = String.◌∷◌ (three b c d) (from_utf8_lossy (e ∷ bs)) in
    let bad_triple = String.◌∷◌ replacement (from_utf8_lossy (e ∷ bs)) in
    let quadruple = String.◌∷◌ (four b c d e) (from_utf8_lossy bs) in
    if ltb b 128
    then plain
    else if is_lead_two b && is_continuation c
    then pair
    else if is_lead_three b && second_of_three b c
    then if is_continuation d then triple else bad_pair
    else if is_lead_four b && second_of_four b c
    then if is_continuation d then if is_continuation e then quadruple else bad_triple else bad_pair
    else bad

ascii : from_utf8_lossy (104 ∷ 105 ∷ []) ≡ "hi"
unfolding from_utf8_lossy
ascii = refl

umlaut : from_utf8_lossy (0xc3 ∷ 0xbc ∷ 0x21 ∷ 0xff ∷ 0xe2 ∷ 0x82 ∷ []) ≡ "ü!��"
unfolding from_utf8_lossy
umlaut = refl
