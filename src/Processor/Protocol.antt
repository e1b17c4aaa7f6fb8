-- ===== src/Processor/Protocol.antt =====
-- The protocol that the message processor keeps towards the ingest client: which calls it makes
-- after which, and how its own state mirrors them.
mod Steps
mod Sending
mod Metadata
pub mod Handlers
pub mod Runs
use modality_ros.Prelude.{
  ℕ, suc, ◌%◌, ◌^◌, String, ◌≡◌, refl, ◌≢◌, true, false, Option, none, some, List, [], ◌∷◌, ◌++◌,
  All, arith,
}
use modality_ros.Prelude.Dict.{lookup}
use modality_ros.Prelude.{string_eq}
use modality_ros.Api.{TimelineId, InternedAttrKey, AttrVal, Kvs}
use modality_ros.Client.{Attrs, Call}
use modality_ros.Client.Trace.{declared, opened, accepted}
use modality_ros.Processor.{MessageProcessor}

-- The key has been declared, under some name.
abbrev pub IsDeclared : List Call → InternedAttrKey → Type 0
IsDeclared cs k = (n : String) × (declared n cs ≡ some k)

abbrev pub HasOpen : List Call → Type 0
HasOpen cs = (t : TimelineId) × (opened cs ≡ some t)

abbrev pub Declares : List Call → Attrs → Type 0
Declares cs = All λ a. IsDeclared cs a.0

-- What each call supposes of those before it: no name is declared that has a key, no timeline is
-- opened that is open, and metadata and events have an open timeline and declared keys. An event's
-- number is how many were accepted before it, as a `u128`.
abbrev pub Lawful : List Call → Type 0
Lawful [] = Unit
Lawful (Call.declare_attr_key n r ∷ cs) = (declared n cs ≡ none) × Lawful cs
Lawful (Call.open_timeline t ok ∷ cs) = (opened cs ≢ some t) × Lawful cs
Lawful (Call.timeline_metadata attrs ok ∷ cs) = HasOpen cs × Declares cs attrs × Lawful cs
Lawful (Call.event o attrs ok ∷ cs) =
    (o ≡ accepted cs % 2 ^ 128) × HasOpen cs × Declares cs attrs × Lawful cs

-- The processor's state is what its calls amount to.
pub record Mirrors (s : MessageProcessor) : Type 0 where
  pub cached : (n : String) → lookup n s.attr_key_cache ≡ declared n s.calls
  pub current : s.currently_open_timeline ≡ opened s.calls
  pub counted : s.ordering ≡ accepted s.calls % 2 ^ 128
  pub lawful : Lawful s.calls

-- The attributes are the named ones, under the keys that the names were declared with.
abbrev pub Resolves : List Call → Attrs → Kvs → Type 0
Resolves cs [] [] = Unit
Resolves cs ((k, v) ∷ attrs) ((n, w) ∷ kvs) =
    (declared n cs ≡ some k) × (v ≡ w) × Resolves cs attrs kvs
Resolves cs [] ((n, w) ∷ kvs) = ⊥
Resolves cs ((k, v) ∷ attrs) [] = ⊥

-- In the middle of a handler: on timeline `t`, after `n` accepted events, with `kvs` collected
-- under their keys in `attrs`, and `kvs'` in `attrs'` put aside.
pub record Ready (t : TimelineId) (n : ℕ) (attrs' : Attrs) (kvs' : Kvs) (attrs : Attrs) (kvs : Kvs)
    (s : MessageProcessor) : Type 0 where
  pub mirrors : Mirrors s
  pub on : opened s.calls ≡ some t
  pub count : accepted s.calls ≡ n
  pub aside : Resolves s.calls attrs' kvs'
  pub resolved : Resolves s.calls attrs kvs

-- Before a handler, and after one that failed: `n` events have been accepted.
pub record Idle (n : ℕ) (s : MessageProcessor) : Type 0 where
  pub mirrors : Mirrors s
  pub count : accepted s.calls ≡ n

-- After a handler that succeeded: its one event was accepted last, as number `n` modulo 2 ^ 128, on
-- timeline `t`, with the attributes `kvs`.
pub record Sent (t : TimelineId) (n : ℕ) (kvs : Kvs) (s : MessageProcessor) : Type 0 where
  pub mirrors : Mirrors s
  pub count : accepted s.calls ≡ suc n
  pub before : List Call
  pub attrs : Attrs
  pub last : s.calls ≡ Call.event (n % 2 ^ 128) attrs true ∷ before
  pub on : opened before ≡ some t
  pub resolved : Resolves before attrs kvs

pub Resolves-Declares :
    (cs : List Call) (attrs : Attrs) (kvs : Kvs) → Resolves cs attrs kvs → Declares cs attrs
Resolves-Declares cs [] [] h = tt
Resolves-Declares cs ((k, v) ∷ attrs) ((n, w) ∷ kvs) h =
    ((n, h.0), Resolves-Declares cs attrs kvs h.2)
Resolves-Declares cs [] (_ ∷ kvs) h = absurd h
Resolves-Declares cs (_ ∷ attrs) [] h = absurd h

pub Resolves-push :
    (cs : List Call) (attrs : Attrs) (kvs : Kvs) (k : InternedAttrKey) (n : String) (v : AttrVal)
    → Resolves cs attrs kvs
    → declared n cs ≡ some k
    → Resolves cs (attrs ++ (k, v) ∷ []) (kvs ++ (n, v) ∷ [])
Resolves-push cs [] [] k n v h e = (e, refl, tt)
Resolves-push cs ((_, _) ∷ attrs) ((_, _) ∷ kvs) k n v h e =
    (h.0, h.1, Resolves-push cs attrs kvs k n v h.2 e)
Resolves-push cs [] (_ ∷ kvs) k n v h e = absurd h
Resolves-push cs (_ ∷ attrs) [] k n v h e = absurd h

-- A lawful call takes no key from a name.
pub declared-cons :
    (c : Call) (cs : List Call) (n : String) (k : InternedAttrKey)
    → Lawful (c ∷ cs)
    → declared n cs ≡ some k
    → declared n (c ∷ cs) ≡ some k
declared-cons (Call.declare_attr_key m (some j)) cs n k h e = ground arith
declared-cons (Call.declare_attr_key m none) cs n k h e = e
declared-cons (Call.open_timeline t ok) cs n k h e = e
declared-cons (Call.timeline_metadata attrs ok) cs n k h e = e
declared-cons (Call.event o attrs ok) cs n k h e = e

pub Resolves-cons :
    (c : Call) (cs : List Call) (attrs : Attrs) (kvs : Kvs)
    → Lawful (c ∷ cs)
    → Resolves cs attrs kvs
    → Resolves (c ∷ cs) attrs kvs
Resolves-cons c cs [] [] h r = tt
Resolves-cons c cs ((k, v) ∷ attrs) ((n, w) ∷ kvs) h r =
    (declared-cons c cs n k h r.0, r.1, Resolves-cons c cs attrs kvs h r.2)
Resolves-cons c cs [] (_ ∷ kvs) h r = absurd r
Resolves-cons c cs (_ ∷ attrs) [] h r = absurd r
