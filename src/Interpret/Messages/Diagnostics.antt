-- ===== src/Interpret/Messages/Diagnostics.antt =====
-- What the events of one message have in common (modality-ros-hook/src/lib.rs).
use modality_ros.Prelude.{String, ◌≡◌, ◌++◌, string_eq}
use modality_ros.Api.{Kvs}
use modality_ros.Memory.{Memory}

abbrev Any : String → Type 0
Any name = Unit

-- The pairs are those in common, and more.
abbrev pub Extends : Kvs → Kvs → Type 0
Extends common kvs = (more : Kvs) × (kvs ≡ common ++ more)
