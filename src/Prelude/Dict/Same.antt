-- ===== src/Prelude/Dict/Same.antt =====
-- Finite maps that agree at every key, whatever the order of their entries.
use Prim.Native.Nat.{ℕ, suc, ◌+◌}
use mathlib.Core.Path.{◌≡◌, refl, sym, ap, subst, ◌∙◌}
use mathlib.Core.Logic.{inl, inr}
use mathlib.Core.Bool.{Bool, true, false}
use mathlib.Core.Option.{Option, none, some}
use mathlib.Core.List.{[], ◌∷◌}
use native.Mathlib.Omega.{arith}
use modality_ros.Prelude.Tests.{
  Eq, ◌==◌, if◌then◌else◌, Bool-cases, if-true, if-false, if-either, ==-sound, ==-same,
}
use modality_ros.Prelude.Lists.{length}
use modality_ros.Prelude.Dict.{
  Dict, lookup, insert, remove, lookup-insert, lookup-remove, length-insert,
}

if_none {κ} : {V : Type κ} → (b : Bool) (o : Option V) → o ≡ none → (if b then none else o) ≡ none
if_none true o h = refl
if_none false o h = h

differs {ℓ} : {K : Type ℓ} → ⦃e : Eq K⦄ → (j k : K) → (k == j) ≡ false → (j == k) ≡ false
differs j k h = elim (Bool-cases (j == k)) [
  | inl same ↦
      absurd (let clash : false ≡ true = sym h ∙ ==-same k j (sym (==-sound j k same)) in cc)
  | inr other ↦ other
]

-- 1 if there is a value
abbrev count {κ} : {V : Type κ} → Option V → ℕ
count none = 0
count (some _) = 1

module _ {ℓ κ} {K : Type ℓ} {V : Type κ} ⦃e : Eq K⦄ where
  abbrev pub Same : Dict K V → Dict K V → Type (ℓ ⊔ κ)
  Same d d' = (k : K) → lookup k d ≡ lookup k d'

  pub Same-insert :
      (k : K) (v : V) (d d' : Dict K V) → Same d d' → Same (insert k v d) (insert k v d')
  Same-insert k v d d' h j =
      lookup-insert j k v d
      ∙ ap (λ o. if j == k then some v else o) (h j)
      ∙ sym (lookup-insert j k v d')

  pub Same-remove : (k : K) (d d' : Dict K V) → Same d d' → Same (remove k d) (remove k d')
  Same-remove k d d' h j =
      lookup-remove j k d ∙ ap (λ o. if j == k then none else o) (h j) ∙ sym (lookup-remove j k d')

  -- No key stands twice.
  abbrev pub Distinct : Dict K V → Type κ
  Distinct [] = Unit
  Distinct ((k, v) ∷ d) = (lookup k d ≡ none) × Distinct d

  pub Distinct-insert : (k : K) (v : V) (d : Dict K V) → Distinct d → Distinct (insert k v d)
  unfolding insert lookup
  Distinct-insert k v [] h = (refl, tt)
  Distinct-insert k v ((j, w) ∷ d) h = elim (Bool-cases (k == j)) [
    | inl same ↦
        subst Distinct (sym (if-true (k == j) ((k, v) ∷ d) ((j, w) ∷ insert k v d) same))
          (ap (λ i. lookup i d) (==-sound k j same) ∙ h.0, h.1)
    | inr other ↦
        subst Distinct (sym (if-false (k == j) ((k, v) ∷ d) ((j, w) ∷ insert k v d) other)) (
          lookup-insert j k v d ∙ if-false (j == k) (some v) (lookup j d) (differs j k other) ∙ h.0,
          Distinct-insert k v d h.1,
        )
  ]

  pub Distinct-remove : (k : K) (d : Dict K V) → Distinct d → Distinct (remove k d)
  unfolding remove
  Distinct-remove k [] h = tt
  Distinct-remove k ((j, w) ∷ d) h =
      if-either Distinct (k == j) (remove k d) ((j, w) ∷ remove k d) (Distinct-remove k d h.1)
        (lookup-remove j k d ∙ if_none (j == k) (lookup j d) h.0, Distinct-remove k d h.1)

  length-remove :
      (k : K) (d : Dict K V) → Distinct d → length (remove k d) + count (lookup k d) ≡ length d
  unfolding remove lookup
  length-remove k [] h = omega arith
  length-remove k ((j, w) ∷ d) h = elim (Bool-cases (k == j)) [
    | inl same ↦
        let gone : lookup k d ≡ none = ap (λ i. lookup i d) (==-sound k j same) ∙ h.0 in
        rw same (omega (arith, length-remove k d h.1, ap count gone))
    | inr other ↦ rw other (omega (arith, length-remove k d h.1))
  ]

  pub length-remove_same :
      (k : K) (d d' : Dict K V)
      → Same d d'
      → Distinct d
      → Distinct d'
      → length d ≡ length d'
      → length (remove k d) ≡ length (remove k d')
  length-remove_same k d d' h u u' l =
      omega (arith, l, length-remove k d u, length-remove k d' u', ap count (h k))

  pub length-insert_same :
      (k : K) (v : V) (d d' : Dict K V)
      → Same d d'
      → length d ≡ length d'
      → length (insert k v d) ≡ length (insert k v d')
  length-insert_same k v d d' h l =
      length-insert k v d
      ∙ (λ i. elim (h k i) as (λ _. ℕ) [ none ↦ suc (l i) | some _ ↦ l i ])
      ∙ sym (length-insert k v d')
