-- ===== src/Prelude/Text/Hex.antt =====
-- Hexadecimal determines the bytes.
use Prim.Native.Nat.{ℕ, zero, suc, ◌-◌, ◌/◌, ◌%◌, ◌<◌}
use Prim.Native.Char.{Char, code}
use mathlib.Core.Path.{◌≡◌, refl, ap, ap₂, sym, ◌∙◌}
use mathlib.Core.Bool.{Bool, true, ◌&&◌}
use mathlib.Core.List.{List, [], ◌∷◌}
use native.Mathlib.Omega.{arith}
use text.Mathlib.TextLemmas.{nil≢cons, cons≢nil, head-eq_of_cons-eq, tail-eq_of_cons-eq}
use modality_ros.Prelude.Tests.{ltb, ◌==◌, nat_eq, if◌then◌else◌}
use modality_ros.Prelude.Lists.{All}
use modality_ros.Prelude.Text.{hex_digit, hex}

-- The number of a hexadecimal digit.
hex_value : Char → ℕ
hex_value c = if ltb (code c) b'a' then code c - 48 else code c - 87

-- The test passes at every number below `n`.
unfoldable pub all_below : ℕ → (ℕ → Bool) → Bool
all_below zero p = true
all_below (suc n) p = p n && all_below n p

pub all_below-lt : (n : ℕ) (p : ℕ → Bool) (x : ℕ) → all_below n p ≡ true → x < n → p x ≡ true
unfolding all_below
all_below-lt zero p x h lt = absurd (omega arith)
all_below-lt (suc n) p x h lt = ground (arith, all_below-lt n p x)

same_value : ℕ → Bool
same_value d = hex_value (hex_digit d) == d

same_values : all_below 16 same_value ≡ true
unfolding all_below same_value hex_value hex_digit nat_eq
same_values = refl

same_value-eq : (d : ℕ) → same_value d ≡ true → hex_value (hex_digit d) ≡ d
unfolding same_value
same_value-eq d h = ground arith

hex_value-hex_digit : (d : ℕ) → d < 16 → hex_value (hex_digit d) ≡ d
hex_value-hex_digit d h = same_value-eq d (all_below-lt 16 same_value d same_values h)

hex_digit_inj : (d e : ℕ) → d < 16 → e < 16 → hex_digit d ≡ hex_digit e → d ≡ e
hex_digit_inj d e hd he p =
    sym (hex_value-hex_digit d hd) ∙ ap hex_value p ∙ hex_value-hex_digit e he

abbrev pub IsByte : ℕ → Type 0
IsByte b = b < 256

-- Two byte strings with the same hexadecimal are the same.
pub hex_inj : (a b : List ℕ) → All IsByte a → All IsByte b → hex a ≡ hex b → a ≡ b
unfolding hex
hex_inj [] [] ha hb p = refl
hex_inj [] (y ∷ b) ha hb p = absurd (nil≢cons p)
hex_inj (x ∷ a) [] ha hb p = absurd (cons≢nil p)
hex_inj (x ∷ a) (y ∷ b) ha hb p =
    let hi : x / 16 ≡ y / 16 =
      hex_digit_inj (x / 16) (y / 16) (omega arith) (omega arith) (head-eq_of_cons-eq p) in
    let lo : x % 16 ≡ y % 16 =
      hex_digit_inj (x % 16) (y % 16) (omega arith) (omega arith)
        (head-eq_of_cons-eq (tail-eq_of_cons-eq p)) in
    ap₂ ◌∷◌ (omega arith) (hex_inj a b ha.1 hb.1 (tail-eq_of_cons-eq (tail-eq_of_cons-eq p)))
