-- ===== src/Memory/Strings.antt =====
-- The end of C strings (`CStr::from_ptr` in modality-ros-hook/src/ros.rs, lib.rs and hooks.rs).
use modality_ros.Prelude.{ℕ, zero, suc, ◌+◌, List, [], ◌∷◌, nat_eq}
use modality_ros.Memory.{Memory}

-- The bytes at so many addresses.
abbrev pub bytes : Memory → ℕ → ℕ → List ℕ
bytes mem p zero = []
bytes mem p (suc n) = mem p ∷ bytes mem (p + 1) n
