-- ===== src/Processor/Uncached.antt =====
-- The cache of attribute keys, against a processor that asks for every key anew
-- (`interned_attr_key` of modality-ros-hook/src/message_processor.rs).
use modality_ros.Prelude.{
  ℕ, String, ◌≡◌, refl, sym, ap, ◌∙◌, Bool, true, false, Option, none, some, List, [], ◌∷◌, map,
  inl, inr, Bool-cases, Option-cases, nat_eq, string_eq, ==-sound, ◌==◌, if-true, if-false,
}
use modality_ros.Prelude.Dict.{lookup}
use modality_ros.Api.{TimelineId, InternedAttrKey, AttrVal, Kvs}
use modality_ros.Events.{RosEvent}
use modality_ros.Client.{Attrs, Call, Backend}
use modality_ros.Client.Trace.{declared, opened}
use modality_ros.Processor.{
  MessageProcessor, new, remember, interned_attr_key, send_metadata, opening, open_timeline,
  sending, send_event, is_open, check,
}
use modality_ros.Processor.Timeline.{note_created, note_publisher}
use modality_ros.Processor.Loop.{handle, message_loop}
use modality_ros.Processor.Triple.{Post}
use modality_ros.Processor.Rule.{Kept, handle-Kept}
use modality_ros.Processor.Protocol.{Resolves}
use modality_ros.Processor.Protocol.Handlers.{timeline_of, kvs_of}
use modality_ros.Processor.Delivery.{Delivered, delivered, message_loop-Delivered}

abbrev pub Keyed : Type 0
Keyed = List (Option InternedAttrKey × AttrVal)

-- What the client is told with the accepted events, newest first.
abbrev pub told : List Call → List (Option TimelineId × Keyed)
told [] = []
told (Call.event o attrs true ∷ cs) = (opened cs, map (λ a. (some a.0, a.1)) attrs) ∷ told cs
told (Call.event o attrs false ∷ cs) = told cs
told (Call.declare_attr_key n r ∷ cs) = told cs
told (Call.open_timeline t ok ∷ cs) = told cs
told (Call.timeline_metadata attrs ok ∷ cs) = told cs

-- What it would be told of an event if every name were looked up when it is used.
abbrev pub uncached :
    (String → Option InternedAttrKey) → RosEvent × Option ℕ → Option TimelineId × Keyed
uncached key (e, reading) = (some (timeline_of e), map (λ a. (key a.0, a.1)) (kvs_of e reading))

-- Every key that was given is the key of its name.
abbrev Answered : (String → Option InternedAttrKey) → List Call → Type 0
Answered key [] = Unit
Answered key (Call.declare_attr_key n (some k) ∷ cs) = (key n ≡ some k) × Answered key cs
Answered key (Call.declare_attr_key n none ∷ cs) = Answered key cs
Answered key (Call.open_timeline t ok ∷ cs) = Answered key cs
Answered key (Call.timeline_metadata attrs ok ∷ cs) = Answered key cs
Answered key (Call.event o attrs ok ∷ cs) = Answered key cs

module _ (key : String → Option InternedAttrKey) where
  key-declared :
      (n : String) (k : InternedAttrKey) (cs : List Call)
      → Answered key cs
      → declared n cs ≡ some k
      → key n ≡ some k
  key-declared n k [] a h = cc
  key-declared n k (Call.declare_attr_key m (some j) ∷ cs) a h = elim (Bool-cases (n == m)) [
    | inl same ↦
        ap key (==-sound n m same) ∙ a.0 ∙ sym (if-true (n == m) (some j) (declared n cs) same) ∙ h
    | inr differ ↦
        key-declared n k cs a.1 (sym (if-false (n == m) (some j) (declared n cs) differ) ∙ h)
  ]
  key-declared n k (Call.declare_attr_key m none ∷ cs) a h = key-declared n k cs a h
  key-declared n k (Call.open_timeline t ok ∷ cs) a h = key-declared n k cs a h
  key-declared n k (Call.timeline_metadata attrs ok ∷ cs) a h = key-declared n k cs a h
  key-declared n k (Call.event o attrs ok ∷ cs) a h = key-declared n k cs a h

  keyed-Resolves :
      (cs : List Call) (attrs : Attrs) (kvs : Kvs)
      → Answered key cs
      → Resolves cs attrs kvs
      → ◌≡◌ {A = Keyed} (map (λ a. (some a.0, a.1)) attrs) (map (λ a. (key a.0, a.1)) kvs)
  keyed-Resolves cs [] [] a r = refl
  keyed-Resolves cs ((k, v) ∷ attrs) ((n, w) ∷ kvs) a r =
      λ i. (sym (key-declared n k cs a r.0) i, r.1 i) ∷ keyed-Resolves cs attrs kvs a r.2 i
  keyed-Resolves cs [] (_ ∷ kvs) a r = absurd r
  keyed-Resolves cs (_ ∷ attrs) [] a r = absurd r

  told-Delivered :
      (cs : List Call) (events : List (RosEvent × Option ℕ))
      → Answered key cs
      → Delivered cs events
      → told cs ≡ map (uncached key) events
  told-Delivered [] [] a d = refl
  told-Delivered [] (_ ∷ events) a d = absurd d
  told-Delivered (Call.declare_attr_key n none ∷ cs) events a d = told-Delivered cs events a d
  told-Delivered (Call.declare_attr_key n (some k) ∷ cs) events a d = told-Delivered cs events a.1 d
  told-Delivered (Call.open_timeline t ok ∷ cs) events a d = told-Delivered cs events a d
  told-Delivered (Call.timeline_metadata attrs ok ∷ cs) events a d = told-Delivered cs events a d
  told-Delivered (Call.event o attrs false ∷ cs) events a d = told-Delivered cs events a d
  told-Delivered (Call.event o attrs true ∷ cs) [] a d = absurd d
  told-Delivered (Call.event o attrs true ∷ cs) ((e, reading) ∷ events) a d =
      let (_, on, resolved, before) = d in
      λ i.
        (on i, keyed-Resolves cs attrs (kvs_of e reading) a resolved i)
        ∷ told-Delivered cs events a before i

-- The client gives each name one key, whenever it is asked.
abbrev pub ByName : Backend → (String → Option InternedAttrKey) → Type 0
ByName backend key = (cs : List Call) (name : String) → backend.declare_attr_key cs name ≡ key name

module _ (backend : Backend) (key : String → Option InternedAttrKey)
    (by_name : ByName backend key) where
  Faithful : MessageProcessor → Type 0
  Faithful s = Answered key s.calls

  remember-Faithful :
      (name : String) (r : Option InternedAttrKey) (s : MessageProcessor)
      → key name ≡ r
      → Faithful s
      → Post (λ _. Faithful) Faithful (remember backend name r s)
  unfolding remember Faithful
  remember-Faithful name none s e h = h
  remember-Faithful name (some k) s e h = (e, h)

  metadata-Faithful :
      (attrs : Attrs) (ok : Bool) (s : MessageProcessor)
      → Faithful s
      → Post
          (λ _. Faithful)
          Faithful
          (check ok, record s { calls = Call.timeline_metadata attrs ok ∷ s.calls })
  unfolding Faithful
  metadata-Faithful attrs true s h = h
  metadata-Faithful attrs false s h = h

  opening-Faithful :
      (t : TimelineId) (ok : Bool) (s : MessageProcessor)
      → Faithful s
      → Post (λ _. Faithful) Faithful (opening backend t ok s)
  unfolding opening Faithful
  opening-Faithful t true s h = h
  opening-Faithful t false s h = h

  sending-Faithful :
      (attrs : Attrs) (ok : Bool) (s : MessageProcessor)
      → Faithful s
      → Post (λ _. Faithful) Faithful (sending backend attrs ok s)
  unfolding sending Faithful
  sending-Faithful attrs true s h = h
  sending-Faithful attrs false s h = h

  Kept-Faithful : Kept backend Faithful Faithful Faithful
  unfolding interned_attr_key send_metadata open_timeline send_event note_created note_publisher
      Faithful
  Kept-Faithful = record {
    declaring = λ name. record {
      at = λ s h. elim (Option-cases (lookup name s.attr_key_cache)) [
        | inl e ↦
            rw (e, interned_attr_key) (remember-Faithful name _ s (sym (by_name s.calls name)) h)
        | inr (k, e) ↦ rw (e, interned_attr_key) h
      ];
    };
    describing = λ attrs. record { at = λ s h. metadata-Faithful attrs _ s h };
    opening = λ t. record {
      at = λ s h. elim (Bool-cases (is_open s.currently_open_timeline t)) [
        | inl e ↦ rw (e, open_timeline) h
        | inr e ↦ rw (e, open_timeline) (opening-Faithful t _ s h)
      ];
    };
    noting = λ t. record { at = λ s h. h };
    noting_publisher = λ p. record { at = λ s h. h };
    sending = λ attrs. record { at = λ s h. sending-Faithful attrs _ s h };
  }

  Post-Faithful :
      (r : Option (Unit {0}) × MessageProcessor) → Post (λ _. Faithful) Faithful r → Faithful r.1
  Post-Faithful (none, s) h = h
  Post-Faithful (some _, s) h = h

  message_loop-Faithful :
      (run_id : String) (events : List (RosEvent × Option ℕ)) (s : MessageProcessor)
      → Faithful s
      → Faithful (message_loop backend run_id events s)
  unfolding message_loop
  message_loop-Faithful run_id [] s h = h
  message_loop-Faithful run_id ((e, reading) ∷ events) s h =
      message_loop-Faithful run_id events (handle backend run_id e reading s).1 (
        Post-Faithful (handle backend run_id e reading s)
          ((handle-Kept backend run_id Faithful Faithful Faithful Kept-Faithful e reading).at s h))

  -- With a client that gives each name one key, the cache shows in no event: what the client is
  -- told with the accepted events, their timelines and their attributes in order, is what it would
  -- be told if each name were looked up anew for the events that were handled without an error.
  pub told-message_loop :
      (run_id : String) (events : List (RosEvent × Option ℕ))
      → told (message_loop backend run_id events new).calls
        ≡ map (uncached key) (delivered backend run_id events new [])
  unfolding Faithful
  told-message_loop run_id events =
      told-Delivered key (message_loop backend run_id events new).calls
        (delivered backend run_id events new []) (message_loop-Faithful run_id events new tt)
        (message_loop-Delivered backend run_id events)
