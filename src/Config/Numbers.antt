-- ===== src/Config/Numbers.antt =====
-- The numbers of a configuration (modality-ros-hook/src/config.rs).
use Prim.Native.Char.{code}
use modality_ros.Prelude.{
  ℕ, ◌+◌, ◌-◌, ◌*◌, ◌^◌, ◌<◌, String, ◌≡◌, refl, ap, ◌∙◌, false, Option, none, some, ltb, ◌==◌,
  nat_eq, if◌then◌else◌, if-false, arith,
}
use modality_ros.Prelude.Text.{decimal}
use modality_ros.Prelude.Text.Digits.{
  digit, code-digit, IsDigits, IsSome, decimal-IsDigits, decimal-IsSome, trim-IsDigits,
  read-decimal,
}
use modality_ros.Config.{
  Env, ok, digits, after_sign, parse, parsed, u64_env_var, or_default, from_env,
}

reading :
    (bound n d c : ℕ) (rest : Option ℕ)
    → c ≡ 48 + d
    → d < 10
    → n * 10 + d < bound
    → (if ltb c 48
        then none
        else if ltb 57 c
        then none
        else if ltb (n * 10 + (c - 48)) bound
        then rest
        else none)
      ≡ rest
reading bound n d c rest e h k = ground arith

-- A digit is read as ten times what was read, and the digit.
digits-digit :
    (bound m d : ℕ) (s : String)
    → d < 10
    → m * 10 + d < bound
    → digits bound m (String.◌∷◌ (digit d) s) ≡ digits bound (m * 10 + d) s
unfolding digits
digits-digit bound m d s h k =
    reading bound m d (code (digit d)) _ (code-digit d h).1 h k
    ∙ ap (λ c. digits bound (m * 10 + c) s) (same (code-digit d h).1)
  where
    same : code (digit d) ≡ 48 + d → code (digit d) - 48 ≡ d
    same e = omega arith

parse-IsDigits : (s : String) → IsDigits s → IsSome s → parse s ≡ digits (2 ^ 64) 0 s
unfolding parse
parse-IsDigits String.[] h k = absurd k
parse-IsDigits (String.◌∷◌ c s) ((d, lt, e), h) k =
    if-false (code c == 43) (after_sign (2 ^ 64) s) (digits (2 ^ 64) 0 (String.◌∷◌ c s))
      (no_sign (ap code e ∙ (code-digit d lt).1))
  where
    no_sign : code c ≡ 48 + d → (code c == 43) ≡ false
    no_sign at = ground arith

-- A variable that holds the text of a number that fits 64 bits is read as that number.
u64_env_var-decimal : (n : ℕ) → n < 2 ^ 64 → u64_env_var (ok (decimal n)) ≡ some n
unfolding u64_env_var parsed
u64_env_var-decimal n h =
    ap parse (trim-IsDigits (decimal n) (decimal-IsDigits n))
    ∙ parse-IsDigits (decimal n) (decimal-IsDigits n) (decimal-IsSome n)
    ∙ read-decimal (digits (2 ^ 64)) n
        (λ m d s lt fits. digits-digit (2 ^ 64) m d s lt (omega (arith, fits, h))) n (omega arith)
    ∙ read_all
  where
    read_all : digits (2 ^ 64) n "" ≡ some n
    read_all = refl

-- If the three variables for numbers hold the texts of numbers that fit 64 bits, the configuration
-- has these numbers, whatever the other variables are.
pub from_env-decimal :
    (env : Env) (run_id : String) (t l b : ℕ)
    → t < 2 ^ 64
    → l < 2 ^ 64
    → b < 2 ^ 64
    → env "MODALITY_ROS_CONNECT_TIMEOUT" ≡ ok (decimal t)
    → env "MODALITY_ROS_MAX_ARRAY_LEN" ≡ ok (decimal l)
    → env "MODALITY_ROS_BUFFER_SIZE" ≡ ok (decimal b)
    → ((from_env env run_id).connect_timeout ≡ t)
      × ((from_env env run_id).max_array_len ≡ l)
      × ((from_env env run_id).buffer_size ≡ b)
unfolding from_env
from_env-decimal env run_id t l b ht hl hb et el eb = (
  ap (λ v. or_default (u64_env_var v) 20) et ∙ ap (λ o. or_default o 20) (u64_env_var-decimal t ht),
  ap (λ v. or_default (u64_env_var v) 12) el ∙ ap (λ o. or_default o 12) (u64_env_var-decimal l hl),
  ap (λ v. or_default (u64_env_var v) 1024) eb
      ∙ ap (λ o. or_default o 1024) (u64_env_var-decimal b hb),
)
