-- ===== src/Prelude/Text/Digits.antt =====
-- The digits of a number's text, and that nothing of it is white.
use Prim.Native.Nat.{ℕ, zero, suc, ◌+◌, ◌*◌, ◌/◌, ◌%◌, ◌<◌, ◌≤◌}
use Prim.Native.Char.{Char, code}
use Prim.Native.String.{String}
use mathlib.Core.Path.{◌≡◌, refl, ap, ◌∙◌}
use mathlib.Core.Bool.{Bool, true, false, not, ◌&&◌}
use native.Mathlib.Omega.{arith}
use modality_ros.Prelude.Tests.{ltb, ◌==◌, nat_eq, if◌then◌else◌, if-false}
use modality_ros.Prelude.Text.{
  char_of, decimal_onto, decimal, is_whitespace, is_non_empty, trim_start, trim_end, trim,
}
use modality_ros.Prelude.Text.Hex.{all_below, all_below-lt}

pub digit : ℕ → Char
unfolding char_of
digit d = char_of d "0123456789"

is_plain : ℕ → Bool
is_plain d = not (is_whitespace (digit d)) && (code (digit d) == 48 + d)

are_plain : all_below 10 is_plain ≡ true
unfolding all_below is_plain digit is_whitespace nat_eq
are_plain = refl

plain-code :
    (d : ℕ) → is_plain d ≡ true → (is_whitespace (digit d) ≡ false) × (code (digit d) ≡ 48 + d)
unfolding is_plain nat_eq
plain-code d h = (ground arith, ground arith)

-- The digit is not white, and its code is its number after that of 0.
pub code-digit : (d : ℕ) → d < 10 → (is_whitespace (digit d) ≡ false) × (code (digit d) ≡ 48 + d)
code-digit d h = plain-code d (all_below-lt 10 is_plain d are_plain h)

-- What reads a number digit by digit, each of them as ten times what is read and the digit, reads
-- the number from its text.
module _ {ℓ} {X : Type ℓ} (F : ℕ → String → X) (bound : ℕ)
    (step : (m d : ℕ) (s : String)
      → d < 10
      → m * 10 + d ≤ bound
      → F m (String.◌∷◌ (digit d) s) ≡ F (m * 10 + d) s) where
  read_last : (n : ℕ) (s : String) → n ≤ bound → F (n / 10) (String.◌∷◌ (digit (n % 10)) s) ≡ F n s
  read_last n s h = step (n / 10) (n % 10) s (omega arith) (omega arith) ∙ ap (λ k. F k s) whole
    where
      whole : n / 10 * 10 + n % 10 ≡ n
      whole = omega arith

  last_digit :
      (n : ℕ) (s : String) (rest : X) (b : Bool)
      → ltb n 10 ≡ b
      → n ≤ bound
      → (ltb n 10 ≡ false → rest ≡ F (n / 10) (String.◌∷◌ (digit (n % 10)) s))
      → (if b then F 0 (String.◌∷◌ (digit (n % 10)) s) else rest) ≡ F n s
  last_digit n s rest true e k h =
      ap (λ m. F m (String.◌∷◌ (digit (n % 10)) s)) none_before ∙ read_last n s k
    where
      none_before : 0 ≡ n / 10
      none_before = ground arith
  last_digit n s rest false e k h = h e ∙ read_last n s k

  F-if : (b : Bool) (s s' : String) → F 0 (if b then s else s') ≡ (if b then F 0 s else F 0 s')
  F-if true s s' = refl
  F-if false s s' = refl

  read_onto : (fuel n : ℕ) (s : String) → n < fuel → n ≤ bound → F 0 (decimal_onto fuel n s) ≡ F n s
  unfolding decimal_onto digit
  read_onto zero n s h k = absurd (omega arith)
  read_onto (suc fuel) n s h k =
      F-if (ltb n 10) _ _
      ∙ last_digit n s _ (ltb n 10) refl k
          λ e. read_onto fuel (n / 10) (String.◌∷◌ (digit (n % 10)) s) (smaller e) (omega arith)
    where
      smaller : ltb n 10 ≡ false → n / 10 < fuel
      smaller e = ground arith

  pub read-decimal : (n : ℕ) → n ≤ bound → F 0 (decimal n) ≡ F n ""
  unfolding decimal
  read-decimal n k = read_onto (suc n) n "" (omega arith) k

-- The text is the digits of numbers below ten.
abbrev pub IsDigits : String → Type 0
IsDigits String.[] = Unit
IsDigits (String.◌∷◌ c s) = ((d : ℕ) × (d < 10) × (c ≡ digit d)) × IsDigits s

IsDigits-if : (b : Bool) (s s' : String) → IsDigits s → IsDigits s' → IsDigits (if b then s else s')
IsDigits-if true s s' h k = h
IsDigits-if false s s' h k = k

decimal_onto-IsDigits : (fuel n : ℕ) (s : String) → IsDigits s → IsDigits (decimal_onto fuel n s)
unfolding decimal_onto digit
decimal_onto-IsDigits zero n s h = h
decimal_onto-IsDigits (suc fuel) n s h =
    let shown : IsDigits (String.◌∷◌ (digit (n % 10)) s) = ((n % 10, omega arith, refl), h) in
    IsDigits-if (ltb n 10) _ _ shown (decimal_onto-IsDigits fuel (n / 10) _ shown)

pub decimal-IsDigits : (n : ℕ) → IsDigits (decimal n)
unfolding decimal
decimal-IsDigits n = decimal_onto-IsDigits (suc n) n "" tt

not_white : (c : Char) → (d : ℕ) × (d < 10) × (c ≡ digit d) → is_whitespace c ≡ false
not_white c (d, h, e) = ap is_whitespace e ∙ (code-digit d h).0

trim_start-IsDigits : (s : String) → IsDigits s → trim_start s ≡ s
unfolding trim_start
trim_start-IsDigits String.[] h = refl
trim_start-IsDigits (String.◌∷◌ c s) h = if-false (is_whitespace c) _ _ (not_white c h.0)

trim_end-IsDigits : (s : String) → IsDigits s → trim_end s ≡ s
unfolding trim_end
trim_end-IsDigits String.[] h = refl
trim_end-IsDigits (String.◌∷◌ c s) h =
    if-false (is_whitespace c && not (is_non_empty (trim_end s))) _ _
      (ap (λ b. b && not (is_non_empty (trim_end s))) (not_white c h.0))
    ∙ ap (λ s'. String.◌∷◌ c s') (trim_end-IsDigits s h.1)

pub trim-IsDigits : (s : String) → IsDigits s → trim s ≡ s
unfolding trim
trim-IsDigits s h = ap trim_end (trim_start-IsDigits s h) ∙ trim_end-IsDigits s h

-- The text is not empty.
abbrev pub IsSome : String → Type 0
IsSome String.[] = ⊥
IsSome (String.◌∷◌ _ _) = Unit

IsSome-if : (b : Bool) (s s' : String) → IsSome s → IsSome s' → IsSome (if b then s else s')
IsSome-if true s s' h k = h
IsSome-if false s s' h k = k

decimal_onto-IsSome : (fuel n : ℕ) (s : String) → IsSome s → IsSome (decimal_onto fuel n s)
unfolding decimal_onto
decimal_onto-IsSome zero n s h = h
decimal_onto-IsSome (suc fuel) n s h =
    IsSome-if (ltb n 10) _ _ tt (decimal_onto-IsSome fuel (n / 10) (String.◌∷◌ _ s) tt)

pub decimal-IsSome : (n : ℕ) → IsSome (decimal n)
unfolding decimal decimal_onto
decimal-IsSome n = IsSome-if (ltb n 10) _ _ tt (decimal_onto-IsSome n (n / 10) (String.◌∷◌ _ "") tt)
