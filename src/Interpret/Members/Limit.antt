-- ===== src/Interpret/Members/Limit.antt =====
-- The limit on the length of arrays (modality-ros-hook/src/lib.rs).
use modality_ros.Prelude.{
  ℕ, zero, suc, ◌+◌, ◌≤◌, String, ◌≡◌, refl, Bool, true, false, Option, none, some, [], ◌∷◌, length,
  length-append, arith, ltb, if◌then◌else◌,
}
use modality_ros.Api.{AttrVal, Kvs}
use modality_ros.Memory.{Memory, Slice, get_from, GetFunction}
use modality_ros.Schema.{ScalarArrayMemberSchema}
use modality_ros.Interpret.{Step, onward, for_each, push_value}
use modality_ros.Interpret.Members.{
  Reader, prefixed, indexed, value_at, array_len, array_items, interpret_array,
}

push_value_bound :
    (key : String) (v : Option AttrVal) (kvs : Kvs)
    → length (push_value key v kvs).1 ≤ length kvs + 1
push_value_bound key none kvs = omega arith
push_value_bound key (some v) kvs = omega (arith, length-append kvs ((key, v) ∷ []))

onward_bound :
    (r : Bool × Kvs) (next : Step Kvs) (k n : ℕ)
    → length r.1 ≤ k + 1
    → ((kvs : Kvs) → length (next kvs).1 ≤ length kvs + n)
    → length (onward r next).1 ≤ k + suc n
onward_bound (true, kvs) next k n h g = omega (arith, h, g kvs)
onward_bound (false, kvs) next k n h g = omega (arith, h)

for_each_bound :
    (n i : ℕ) (f : ℕ → Step Kvs) (kvs : Kvs)
    → ((j : ℕ) (kvs' : Kvs) → length (f j kvs').1 ≤ length kvs' + 1)
    → length (for_each n i f kvs).1 ≤ length kvs + n
unfolding for_each
for_each_bound zero i f kvs h = omega arith
for_each_bound (suc n) i f kvs h =
    onward_bound (f i kvs) (for_each n (i + 1) f) (length kvs) n (h i kvs)
      λ kvs'. for_each_bound n (i + 1) f kvs' h

module _ (r : Reader) (mem : Memory) where
  array_items_bound :
      (s : ScalarArrayMemberSchema) (get : Option GetFunction) (key : String) (ptr : ℕ) (kvs : Kvs)
      → length (array_items r mem s get key ptr kvs).1 ≤ length kvs + array_len r mem s ptr
  unfolding array_items
  array_items_bound s none key ptr kvs = omega arith
  array_items_bound s (some get) key ptr kvs =
      for_each_bound (array_len r mem s ptr) 0
        (λ i. push_value (indexed key i) (value_at r mem s.type_id (get mem ptr i))) kvs
        λ j kvs'. push_value_bound (indexed key j) (value_at r mem s.type_id (get mem ptr j)) kvs'

  within_limit :
      (s : ScalarArrayMemberSchema) (key : String) (ptr : ℕ) (kvs : Kvs) (b : Bool)
      → ltb r.max_array_len (array_len r mem s ptr) ≡ b
      → length (if b then (true, kvs) else array_items r mem s s.get_function key ptr kvs).1
        ≤ length kvs + r.max_array_len
  within_limit s key ptr kvs true e = omega arith
  within_limit s key ptr kvs false e =
      ground (arith, e, array_items_bound s s.get_function key ptr kvs)

  -- An array of scalars adds no more pairs than the longest array that is to be taken.
  pub interpret_array_bound :
      (s : ScalarArrayMemberSchema) (prefix : Option String) (message : Slice) (kvs : Kvs)
      → length (interpret_array r mem s prefix message kvs).1 ≤ length kvs + r.max_array_len
  unfolding interpret_array
  interpret_array_bound s prefix message kvs = found (get_from message s.offset_in_item_slice)
    where
      found :
          (o : Option Slice)
          → length
              (elim o as (λ _. Bool × Kvs) [
                | none ↦ (true, kvs)
                | some slice ↦
                    if ltb r.max_array_len (array_len r mem s slice.ptr)
                    then (true, kvs)
                    else array_items r mem s s.get_function (prefixed prefix s.key) slice.ptr kvs
              ]).1
            ≤ length kvs + r.max_array_len
      found none = omega arith
      found (some slice) =
          within_limit s (prefixed prefix s.key) slice.ptr kvs
            (ltb r.max_array_len (array_len r mem s slice.ptr)) refl
