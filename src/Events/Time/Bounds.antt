-- ===== src/Events/Time/Bounds.antt =====
-- When a captured time becomes a timestamp, and which one (`CapturedTime::to_epoch_nanos` of
-- modality-ros-hook/src/hooks.rs).
use modality_ros.Prelude.{
  ℕ, ◌+◌, ◌*◌, ◌-◌, ◌^◌, ◌≤◌, ◌<◌, ◌≡◌, refl, ◌↔◌, ◌⊎◌, true, none, some, arith,
}
use modality_ros.Prelude.Int.{pos, is_negative, IsI64}
use modality_ros.Events.Time.{
  CapturedTime, compound, signed_epoch_nanos, nanos_per_sec, to_epoch_nanos,
}

pub to_epoch_nanos-compound :
    (sec nsec : ℕ)
    → sec * nanos_per_sec + nsec < 2 ^ 64
    → to_epoch_nanos (compound (pos sec) (pos nsec)) ≡ some (sec * nanos_per_sec + nsec)
unfolding to_epoch_nanos
to_epoch_nanos-compound sec nsec h = ground arith

pub to_epoch_nanos-signed : (ns : ℕ) → to_epoch_nanos (signed_epoch_nanos (pos ns)) ≡ some ns
unfolding to_epoch_nanos
to_epoch_nanos-signed ns = refl

-- A non-negative time, of seconds and less than a second of nanoseconds, becomes its exact total
-- precisely if that fits a `u64`.
pub to_epoch_nanos_exact :
    (sec nsec total : ℕ)
    → nsec < nanos_per_sec
    → total ≡ sec * nanos_per_sec + nsec
    → (to_epoch_nanos (compound (pos sec) (pos nsec)) ≡ some total) ↔ (total < 2 ^ 64)
unfolding to_epoch_nanos
to_epoch_nanos_exact sec nsec total h e = (λ p. ground arith, λ p. ground arith)

abbrev pub IsTime : CapturedTime → Type 0
IsTime (compound sec nsec) = IsI64 sec × IsI64 nsec
IsTime (signed_epoch_nanos ns) = IsI64 ns

abbrev pub HasNegative : CapturedTime → Type 0
HasNegative (compound sec nsec) = (is_negative sec ≡ true) ⊎ (is_negative nsec ≡ true)
HasNegative (signed_epoch_nanos ns) = is_negative ns ≡ true

-- A time of `i64` parts with a negative part gives no timestamp, and any other that does gives a
-- `u64`.
pub to_epoch_nanos_range :
    (t : CapturedTime)
    → IsTime t
    → (HasNegative t → to_epoch_nanos t ≡ none)
      × ((ns : ℕ) → to_epoch_nanos t ≡ some ns → ns < 2 ^ 64)
unfolding to_epoch_nanos
to_epoch_nanos_range (compound sec nsec) h = (λ n. ground arith, λ ns e. ground arith)
to_epoch_nanos_range (signed_epoch_nanos ns) h = (λ n. ground arith, λ m e. ground arith)

-- The product is checked and the sum is not: once the whole seconds fit a `u64` and the total does
-- not, the timestamp is 2 ^ 64 too low, and not absent.
pub to_epoch_nanos_wraps :
    (sec nsec : ℕ)
    → sec * nanos_per_sec < 2 ^ 64
    → nsec < 2 ^ 63
    → 2 ^ 64 ≤ sec * nanos_per_sec + nsec
    → to_epoch_nanos (compound (pos sec) (pos nsec)) ≡ some (sec * nanos_per_sec + nsec - 2 ^ 64)
unfolding to_epoch_nanos
to_epoch_nanos_wraps sec nsec fits small over = ground arith
