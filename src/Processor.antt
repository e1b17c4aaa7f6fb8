-- ===== src/Processor.antt =====
-- `MessageProcessor` (modality-ros-hook/src/message_processor.rs): its state, and the operations
-- that its handlers are made of. A method is an action on the state that returns a value or fails;
-- what it changed before it failed stays changed.
pub mod Timeline
pub mod Rmw
pub mod Message
pub mod Service
pub mod Loop
pub mod Triple
pub mod Protocol
pub mod Once
pub mod Rule
pub mod Delivery
pub mod Uncached
pub mod Interaction
use modality_ros.Prelude.{
  ℕ, ◌+◌, ◌%◌, ◌^◌, String, ◌<>◌, Bool, true, false, not, Option, none, some, List, [], ◌∷◌, ◌++◌,
}
use modality_ros.Prelude.{◌==◌, Eq, nat_eq, string_eq, contains, if◌then◌else◌, ℕ_discrete}
use modality_ros.Prelude.Dict.{Dict, lookup, insert}
use modality_ros.Prelude.Text.{strip_slashes}
use modality_ros.Api.{TimelineId, InternedAttrKey, AttrVal, Kvs}
use modality_ros.Events.{PublisherGraphId}
use modality_ros.Client.{Attrs, Call, Backend}

-- `calls` is the history of `client`, newest first.
pub record MessageProcessor : Type 0 where
  pub calls : List Call
  pub attr_key_cache : Dict String InternedAttrKey
  pub created_timelines : List TimelineId
  pub sent_timeline_publisher_metadata : List (TimelineId × PublisherGraphId)
  pub currently_open_timeline : Option TimelineId
  pub ordering : ℕ

-- `MessageProcessor::new`, on a connection that was made.
abbrev pub new : MessageProcessor
new = record {
  calls = [];
  attr_key_cache = [];
  created_timelines = [];
  sent_timeline_publisher_metadata = [];
  currently_open_timeline = none;
  ordering = 0;
}

abbrev pub M : Type 0 → Type 0
M A = MessageProcessor → Option A × MessageProcessor

abbrev pub pure : {A : Type 0} → A → M A
pure a s = (some a, s)

abbrev pub after : {A B : Type 0} → (A → M B) → Option A → M B
after f none s = (none, s)
after f (some a) s = f a s

infixl 5 ◌>>=◌ ◌>>◌
unfoldable pub ◌>>=◌ : {A B : Type 0} → M A → (A → M B) → M B
◌>>=◌ m f s = let (r, s') = m s in after f r s'

abbrev pub ◌>>◌ : {A B : Type 0} → M A → M B → M B
m >> k = m >>= λ _. k

-- A call that the client refuses fails.
abbrev pub check : Bool → Option (Unit {0})
check true = some tt
check false = none

-- `self.currently_open_timeline.as_ref() == Some(t)`
abbrev is_open : Option TimelineId → TimelineId → Bool
is_open none t = false
is_open (some u) t = u == t

module _ (backend : Backend) where
  remember : String → Option InternedAttrKey → M InternedAttrKey
  remember name none s = (none, record s { calls = Call.declare_attr_key name none ∷ s.calls })
  remember name (some k) s = (
    some k,
    record s {
      calls = Call.declare_attr_key name (some k) ∷ s.calls;
      attr_key_cache = insert name k s.attr_key_cache;
    },
  )

  unfoldable pub interned_attr_key : String → M InternedAttrKey
  unfolding remember
  interned_attr_key name s = elim (lookup name s.attr_key_cache) [
    | some ik ↦ (some ik, s)
    | none ↦ remember name (backend.declare_attr_key s.calls name) s
  ]

  -- `kvs.push((self.interned_attr_key(name).await?, v))`, for each pair in turn.
  unfoldable pub push_attrs : Attrs → Kvs → M Attrs
  push_attrs kvs [] = pure kvs
  push_attrs kvs ((name, v) ∷ more) =
      interned_attr_key name >>= λ k. push_attrs (kvs ++ (k, v) ∷ []) more

  unfoldable pub send_metadata : Attrs → M (Unit {0})
  send_metadata attrs s =
      let ok = backend.timeline_metadata s.calls attrs in
      (check ok, record s { calls = Call.timeline_metadata attrs ok ∷ s.calls })

  opening : TimelineId → Bool → M (Unit {0})
  opening t true s = (
    some tt,
    record s { calls = Call.open_timeline t true ∷ s.calls; currently_open_timeline = some t },
  )
  opening t false s = (none, record s { calls = Call.open_timeline t false ∷ s.calls })

  unfoldable pub open_timeline : TimelineId → M (Unit {0})
  unfolding opening
  open_timeline t s =
      if is_open s.currently_open_timeline t
      then (some tt, s)
      else opening t (backend.open_timeline s.calls t) s

  sending : Attrs → Bool → M (Unit {0})
  sending attrs true s = (
    some tt,
    record s {
      calls = Call.event s.ordering attrs true ∷ s.calls;
      ordering = (s.ordering + 1) % 2 ^ 128;
    },
  )
  sending attrs false s = (none, record s { calls = Call.event s.ordering attrs false ∷ s.calls })

  -- `self.client.event(self.ordering, attrs).await?; self.ordering += 1`
  unfoldable pub send_event : Attrs → M (Unit {0})
  unfolding sending
  send_event attrs s = sending attrs (backend.event s.calls s.ordering attrs) s
