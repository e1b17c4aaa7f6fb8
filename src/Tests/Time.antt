-- ===== src/Tests/Time.antt =====
use modality_ros.Prelude.{◌^◌, ◌<◌, ◌≡◌, ◌↔◌, refl, inl, none, some, arith}
use modality_ros.Prelude.Int.{pos, negsuc}
use modality_ros.Events.{compound, to_epoch_nanos}
use modality_ros.Events.Time.Bounds.{
  to_epoch_nanos_exact, to_epoch_nanos_range, to_epoch_nanos_wraps,
}

to_epoch_nanos_exact_example :
    (to_epoch_nanos (compound (pos 2) (pos 3)) ≡ some 2_000_000_003) ↔ (2_000_000_003 < 2 ^ 64)
to_epoch_nanos_exact_example = to_epoch_nanos_exact 2 3 2_000_000_003 (omega arith) refl

to_epoch_nanos_range_example : to_epoch_nanos (compound (negsuc 0) (pos 3)) ≡ none
to_epoch_nanos_range_example =
    (to_epoch_nanos_range (compound (negsuc 0) (pos 3)) (omega arith)).0 (inl refl)

-- The first second whose nanoseconds pass 2 ^ 64.
to_epoch_nanos_wraps_example :
    to_epoch_nanos (compound (pos 18_446_744_073) (pos 709_551_616)) ≡ some 0
to_epoch_nanos_wraps_example =
    to_epoch_nanos_wraps 18_446_744_073 709_551_616 (omega arith) (omega arith) (omega arith)
