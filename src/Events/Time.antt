-- ===== src/Events/Time.antt =====
-- `CapturedTime` and `now` of modality-ros-hook/src/hooks.rs.
pub mod Bounds
use modality_ros.Prelude.{ℕ, ◌+◌, ◌*◌, ◌%◌, ◌^◌, Bool, ◌||◌, Option, none, some, ltb, if◌then◌else◌}
use modality_ros.Prelude.Int.{ℤ, is_negative, as_u64}
use modality_ros.Api.{Nanoseconds}

pub data CapturedTime : Type 0 where
  compound : (sec nsec : ℤ) → CapturedTime
  signed_epoch_nanos : ℤ → CapturedTime

abbrev pub nanos_per_sec : ℕ
nanos_per_sec = 1_000_000_000

-- `u64::checked_mul`
unfoldable pub checked_mul : ℕ → ℕ → Option ℕ
checked_mul a b = if ltb (a * b) (2 ^ 64) then some (a * b) else none

-- The sum of a release build wraps.
add_nanos : Option ℕ → ℕ → Option Nanoseconds
add_nanos none nsec = none
add_nanos (some whole) nsec = some ((whole + nsec) % 2 ^ 64)

unfoldable pub to_epoch_nanos : CapturedTime → Option Nanoseconds
unfolding checked_mul add_nanos
to_epoch_nanos (compound sec nsec) =
    if is_negative sec || is_negative nsec
    then none
    else add_nanos (checked_mul (as_u64 sec) nanos_per_sec) (as_u64 nsec)
to_epoch_nanos (signed_epoch_nanos ns) = if is_negative ns then none else some (as_u64 ns)

-- `now`, given what `SystemTime::now().duration_since(UNIX_EPOCH)` answers: nothing before the
-- epoch, else a number of nanoseconds, which must fit a `u64`.
unfoldable pub now : Option ℕ → Option Nanoseconds
now none = none
now (some d) = if ltb d (2 ^ 64) then some d else none
