-- ===== src/Interpret/Members/Names.antt =====
-- What the interpretation of a member adds, and under which names (modality-ros-hook/src/lib.rs).
use modality_ros.Prelude.{
  ℕ, zero, suc, ◌+◌, String, ◌<>◌, ◌≡◌, refl, sym, ap, ◌∙◌, Bool, true, false, Option, none, some,
  [], ◌∷◌, ◌++◌, append-nil, append_assoc, All, All-append, ltb, nat_eq, if◌then◌else◌, if-either,
}
use modality_ros.Api.{AttrVal, Kvs}
use modality_ros.Memory.{Memory, Slice, get_from, SizeFunction, GetFunction}
use modality_ros.Schema.{ScalarMemberSchema, ScalarArrayMemberSchema}
use modality_ros.Interpret.{Step, onward, for_each, push_value}
use modality_ros.Interpret.Members.{
  Reader, prefixed, indexed, value_at, interpret_scalar, array_len, array_items, interpret_array,
  items, for_each_item,
}

-- The name is the key, or continues it after a dot.
abbrev pub Under : String → String → Type 0
Under p name = (rest : String) × (name ≡ p <> "." <> rest)

module _ (P : String → Type 0) where
  -- The second pairs are the first, followed by pairs whose names satisfy P.
  abbrev pub Adds : Kvs → Kvs → Type 0
  Adds kvs kvs' = (new : Kvs) × (kvs' ≡ kvs ++ new) × All (λ (kv : String × AttrVal). P kv.0) new

  pub Adds-none : (kvs : Kvs) → Adds kvs kvs
  Adds-none kvs = ([], sym (append-nil kvs), tt)

  pub Adds-both : (a b c : Kvs) → Adds a b → Adds b c → Adds a c
  Adds-both a b c (new, e, h) (new', e', h') = (
    new ++ new',
    e' ∙ ap (λ l. l ++ new') e ∙ append_assoc a new new',
    All-append _ new new' h h',
  )

  pub Adds-push_value :
      (key : String) (v : Option AttrVal) (kvs : Kvs) → P key → Adds kvs (push_value key v kvs).1
  Adds-push_value key none kvs p = Adds-none kvs
  Adds-push_value key (some v) kvs p = ((key, v) ∷ [], refl, (p, tt))

  pub Adds-onward :
      (kvs : Kvs) (r : Bool × Kvs) (next : Step Kvs)
      → Adds kvs r.1
      → ((kvs' : Kvs) → Adds kvs' (next kvs').1)
      → Adds kvs (onward r next).1
  Adds-onward kvs (true, kvs') next h k = Adds-both kvs kvs' (next kvs').1 h (k kvs')
  Adds-onward kvs (false, kvs') next h k = h

  pub Adds-for_each :
      (n i : ℕ) (f : ℕ → Step Kvs) (kvs : Kvs)
      → ((j : ℕ) (kvs' : Kvs) → Adds kvs' (f j kvs').1)
      → Adds kvs (for_each n i f kvs).1
  unfolding for_each
  Adds-for_each zero i f kvs h = Adds-none kvs
  Adds-for_each (suc n) i f kvs h =
      Adds-onward kvs (f i kvs) (for_each n (i + 1) f) (h i kvs)
        λ kvs'. Adds-for_each n (i + 1) f kvs' h

module _ (r : Reader) (mem : Memory) (P : String → Type 0) where
  pub scalar-Adds :
      (s : ScalarMemberSchema) (prefix : Option String) (message : Slice) (kvs : Kvs)
      → P (prefixed prefix s.key)
      → Adds P kvs (interpret_scalar r mem s prefix message kvs).1
  unfolding interpret_scalar
  scalar-Adds s prefix message kvs p = found (get_from message s.offset)
    where
      found :
          (o : Option Slice)
          → Adds P kvs
              (elim o as (λ _. Bool × Kvs) [
                | none ↦ (true, kvs)
                | some slice ↦
                    push_value (prefixed prefix s.key) (value_at r mem s.type_id slice.ptr) kvs
              ]).1
      found none = Adds-none P kvs
      found (some slice) = Adds-push_value P _ _ kvs p

  array_items-Adds :
      (s : ScalarArrayMemberSchema) (get : Option GetFunction) (key : String) (ptr : ℕ) (kvs : Kvs)
      → ((i : ℕ) → P (indexed key i))
      → Adds P kvs (array_items r mem s get key ptr kvs).1
  unfolding array_items
  array_items-Adds s none key ptr kvs p = Adds-none P kvs
  array_items-Adds s (some get) key ptr kvs p =
      Adds-for_each P (array_len r mem s ptr) 0
        (λ i. push_value (indexed key i) (value_at r mem s.type_id (get mem ptr i))) kvs
        λ j kvs'.
          Adds-push_value P (indexed key j) (value_at r mem s.type_id (get mem ptr j)) kvs' (p j)

  pub array-Adds :
      (s : ScalarArrayMemberSchema) (prefix : Option String) (message : Slice) (kvs : Kvs)
      → ((i : ℕ) → P (indexed (prefixed prefix s.key) i))
      → Adds P kvs (interpret_array r mem s prefix message kvs).1
  unfolding interpret_array
  array-Adds s prefix message kvs p = found (get_from message s.offset_in_item_slice)
    where
      found :
          (o : Option Slice)
          → Adds P kvs
              (elim o as (λ _. Bool × Kvs) [
                | none ↦ (true, kvs)
                | some slice ↦
                    if ltb r.max_array_len (array_len r mem s slice.ptr)
                    then (true, kvs)
                    else array_items r mem s s.get_function (prefixed prefix s.key) slice.ptr kvs
              ]).1
      found none = Adds-none P kvs
      found (some slice) =
          if-either (λ (x : Bool × Kvs). Adds P kvs x.1)
            (ltb r.max_array_len (array_len r mem s slice.ptr)) _ _ (Adds-none P kvs)
            (array_items-Adds s s.get_function (prefixed prefix s.key) slice.ptr kvs p)

  items-Adds :
      (count : Option SizeFunction) (get : Option GetFunction) (size : ℕ) (slice : Slice)
      (f : ℕ → Slice → Step Kvs) (kvs : Kvs)
      → ((i : ℕ) (item : Slice) (kvs' : Kvs) → Adds P kvs' (f i item kvs').1)
      → Adds P kvs (items r mem count get size slice f kvs).1
  unfolding items
  items-Adds none get size slice f kvs h = Adds-none P kvs
  items-Adds (some count) none size slice f kvs h = Adds-none P kvs
  items-Adds (some count) (some get) size slice f kvs h =
      Adds-for_each P (count mem slice.ptr) 0
        (λ i. f i (record { ptr = get mem slice.ptr i; len = size })) kvs
        λ j kvs'. h j (record { ptr = get mem slice.ptr j; len = size }) kvs'

  pub for_each_item-Adds :
      (offset size : ℕ) (count : Option SizeFunction) (get : Option GetFunction) (message : Slice)
      (f : ℕ → Slice → Step Kvs) (kvs : Kvs)
      → ((i : ℕ) (item : Slice) (kvs' : Kvs) → Adds P kvs' (f i item kvs').1)
      → Adds P kvs (for_each_item r mem offset size count get message f kvs).1
  unfolding for_each_item
  for_each_item-Adds offset size count get message f kvs h = found (get_from message offset)
    where
      found :
          (o : Option Slice)
          → Adds P kvs
              (elim o as (λ _. Bool × Kvs) [
                | none ↦ (true, kvs)
                | some slice ↦ items r mem count get size slice f kvs
              ]).1
      found none = Adds-none P kvs
      found (some slice) = items-Adds count get size slice f kvs h
