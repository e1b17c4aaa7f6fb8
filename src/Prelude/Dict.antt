-- ===== src/Prelude/Dict.antt =====
-- Finite maps: `FxHashMap` and `HashTrieMap`, as association lists whose keys do not repeat.
pub mod Same
use Prim.Native.Nat.{suc}
use mathlib.Core.Path.{◌≡◌}
use mathlib.Core.Option.{Option, none, some}
use mathlib.Core.List.{List, [], ◌∷◌}
use native.Mathlib.Omega.{arith}
use modality_ros.Prelude.Tests.{Eq, ◌==◌, if◌then◌else◌, if-either}
use modality_ros.Prelude.Lists.{length}

abbrev pub Dict {ℓ κ} : Type ℓ → Type κ → Type (ℓ ⊔ κ)
Dict K V = List (K × V)

module _ {ℓ κ} {K : Type ℓ} {V : Type κ} ⦃e : Eq K⦄ where
  unfoldable pub lookup : K → Dict K V → Option V
  lookup k [] = none
  lookup k ((j, v) ∷ d) = if k == j then some v else lookup k d

  unfoldable pub insert : K → V → Dict K V → Dict K V
  insert k v [] = (k, v) ∷ []
  insert k v ((j, w) ∷ d) = if k == j then (k, v) ∷ d else (j, w) ∷ insert k v d

  unfoldable pub remove : K → Dict K V → Dict K V
  remove k [] = []
  remove k ((j, w) ∷ d) = let rest = remove k d in if k == j then rest else (j, w) ∷ rest

  pub lookup-insert :
      (j k : K) (v : V) (d : Dict K V)
      → lookup j (insert k v d) ≡ (if j == k then some v else lookup j d)
  unfolding insert lookup
  lookup-insert j k v [] = ground arith
  lookup-insert j k v (_ ∷ d) = ground (arith, lookup-insert j k v d)

  pub lookup-remove :
      (j k : K) (d : Dict K V) → lookup j (remove k d) ≡ (if j == k then none else lookup j d)
  unfolding remove lookup
  lookup-remove j k [] = ground arith
  lookup-remove j k (_ ∷ d) = ground (arith, lookup-remove j k d)

  -- A new key makes the map one larger, and a known key leaves its size.
  pub length-insert :
      (k : K) (v : V) (d : Dict K V)
      → length (insert k v d) ≡ (elim (lookup k d) [ none ↦ suc (length d) | some _ ↦ length d ])
  unfolding insert lookup
  length-insert k v [] = ground arith
  length-insert k v (_ ∷ d) = ground (arith, length-insert k v d)

-- `P` holds of every value.
abbrev pub Values {ℓ κ ι} : {K : Type ℓ} {V : Type κ} → (V → Type ι) → Dict K V → Type ι
Values P [] = Unit
Values P ((_, v) ∷ d) = P v × Values P d

-- `P` holds of the value, if there is one.
abbrev pub Value {κ ι} : {V : Type κ} → (V → Type ι) → Option V → Type ι
Value P none = Unit
Value P (some v) = P v

module _ {ℓ κ ι} {K : Type ℓ} {V : Type κ} ⦃e : Eq K⦄ (P : V → Type ι) where
  pub Values-insert : (k : K) (v : V) (d : Dict K V) → P v → Values P d → Values P (insert k v d)
  unfolding insert
  Values-insert k v [] p h = (p, tt)
  Values-insert k v ((j, w) ∷ d) p h =
      if-either (Values P) (k == j) ((k, v) ∷ d) ((j, w) ∷ insert k v d) (p, h.1)
        (h.0, Values-insert k v d p h.1)

  pub Values-remove : (k : K) (d : Dict K V) → Values P d → Values P (remove k d)
  unfolding remove
  Values-remove k [] h = tt
  Values-remove k ((j, w) ∷ d) h =
      if-either (Values P) (k == j) (remove k d) ((j, w) ∷ remove k d) (Values-remove k d h.1)
        (h.0, Values-remove k d h.1)

  pub Value-lookup : (k : K) (d : Dict K V) → Values P d → Value P (lookup k d)
  unfolding lookup
  Value-lookup k [] h = tt
  Value-lookup k ((j, w) ∷ d) h =
      if-either (Value P) (k == j) (some w) (lookup k d) h.0 (Value-lookup k d h.1)

pub Values-mono {ℓ κ ι} :
    {K : Type ℓ} {V : Type κ} (P Q : V → Type ι) (d : Dict K V)
    → ((v : V) → P v → Q v)
    → Values P d
    → Values Q d
Values-mono P Q [] f h = tt
Values-mono P Q ((_, v) ∷ d) f h = (f v h.0, Values-mono P Q d f h.1)
