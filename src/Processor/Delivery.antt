-- ===== src/Processor/Delivery.antt =====
-- Which events reach the client, and what it is told of each (`message_loop` of
-- modality-ros-hook/src/message_processor.rs).
pub mod Quiet
pub mod Success
use modality_ros.Prelude.{
  ℕ, ◌+◌, ◌%◌, ◌^◌, String, ◌≡◌, refl, sym, ap, subst, ◌∙◌, true, false, ◌++◌, arith, Option, none,
  some, List, [], ◌∷◌, length,
}
use modality_ros.Api.{Kvs}
use modality_ros.Events.{RosEvent}
use modality_ros.Client.{Attrs, Call, Backend}
use modality_ros.Client.Trace.{opened, accepted}
use modality_ros.Processor.{MessageProcessor, new}
use modality_ros.Processor.Loop.{handle, message_loop}
use modality_ros.Processor.Triple.{Post}
use modality_ros.Processor.Protocol.{Idle, Sent, Resolves}
use modality_ros.Processor.Protocol.Handlers.{timeline_of, kvs_of}
use modality_ros.Processor.Protocol.Runs.{handle-Sent, new-Idle}
use modality_ros.Processor.Delivery.Quiet.{Silent, Spoke, handle-Quiet}
use modality_ros.Processor.Delivery.Success.{Willing, Always, Never, handle-Always}

-- Of the calls, newest first, those of accepted events are these events, newest first: each on its
-- timeline, with its place as its number, and with its attributes under the keys of their names.
abbrev pub Delivered : List Call → List (RosEvent × Option ℕ) → Type 0
Delivered [] [] = Unit
Delivered [] (_ ∷ events) = ⊥
Delivered (Call.declare_attr_key n r ∷ cs) events = Delivered cs events
Delivered (Call.open_timeline t ok ∷ cs) events = Delivered cs events
Delivered (Call.timeline_metadata attrs ok ∷ cs) events = Delivered cs events
Delivered (Call.event o attrs false ∷ cs) events = Delivered cs events
Delivered (Call.event o attrs true ∷ cs) [] = ⊥
Delivered (Call.event o attrs true ∷ cs) ((e, reading) ∷ events) =
    (o ≡ length events % 2 ^ 128)
    × (opened cs ≡ some (timeline_of e))
    × Resolves cs attrs (kvs_of e reading)
    × Delivered cs events

Delivered-silent :
    (more cs : List Call) (events : List (RosEvent × Option ℕ))
    → accepted more ≡ 0
    → Delivered cs events
    → Delivered (more ++ cs) events
Delivered-silent [] cs events h d = d
Delivered-silent (Call.declare_attr_key n r ∷ more) cs events h d =
    Delivered-silent more cs events h d
Delivered-silent (Call.open_timeline t ok ∷ more) cs events h d =
    Delivered-silent more cs events h d
Delivered-silent (Call.timeline_metadata attrs ok ∷ more) cs events h d =
    Delivered-silent more cs events h d
Delivered-silent (Call.event o attrs false ∷ more) cs events h d =
    Delivered-silent more cs events h d
Delivered-silent (Call.event o attrs true ∷ more) cs events h d = absurd (omega (arith, h))

abbrev tail : List Call → List Call
tail [] = []
tail (c ∷ cs) = cs

-- An event joins those that were handled when it was handled without an error.
abbrev pub noted :
    Option (Unit {0})
    → RosEvent × Option ℕ
    → List (RosEvent × Option ℕ)
    → List (RosEvent × Option ℕ)
noted none e done = done
noted (some _) e done = e ∷ done

-- The events that were handled without an error, newest first, after those that were before.
pub delivered :
    Backend
    → String
    → List (RosEvent × Option ℕ)
    → MessageProcessor
    → List (RosEvent × Option ℕ)
    → List (RosEvent × Option ℕ)
unfolding handle
delivered backend run_id [] s done = done
delivered backend run_id ((e, reading) ∷ events) s done =
    let (r, s') = handle backend run_id e reading s in
    delivered backend run_id events s' (noted r (e, reading) done)

-- So many events were accepted, and they are these.
pub record Told (done : List (RosEvent × Option ℕ)) (s : MessageProcessor) : Type 0 where
  pub idle : Idle (length done) s
  pub delivered : Delivered s.calls done

Told-noted :
    (e : RosEvent) (reading : Option ℕ) (done : List (RosEvent × Option ℕ)) (cs : List Call)
    (r : Option (Unit {0}) × MessageProcessor)
    → Delivered cs done
    → Post (λ _. Sent (timeline_of e) (length done) (kvs_of e reading)) (Idle (length done)) r
    → Post (λ _ s'. Spoke cs s'.calls) (λ s'. Silent cs s'.calls) r
    → Told (noted r.0 (e, reading) done) r.1
Told-noted e reading done cs (none, s) d idle (more, whole, none_in) = record {
  idle = idle;
  delivered = subst (λ l. Delivered l done) (sym whole) (Delivered-silent more cs done none_in d);
}
Told-noted e reading done cs (some _, s) d sent (o, attrs, before, last, (more, whole, none_in)) =
    let same : sent.before ≡ before = ap tail (sym sent.last ∙ last) in
    record {
      idle = record { mirrors = sent.mirrors; count = sent.count };
      delivered =
          subst (λ l. Delivered l ((e, reading) ∷ done)) (sym sent.last)
            (
              refl,
              sent.on,
              sent.resolved,
              subst (λ l. Delivered l done) (sym (same ∙ whole))
                  (Delivered-silent more cs done none_in d),
            );
    }

module _ (backend : Backend) (run_id : String) where
  message_loop-Told :
      (events done : List (RosEvent × Option ℕ)) (s : MessageProcessor)
      → Told done s
      → Told (delivered backend run_id events s done) (message_loop backend run_id events s)
  unfolding message_loop delivered
  message_loop-Told [] done s h = h
  message_loop-Told ((e, reading) ∷ events) done s h =
      let (r, s') = handle backend run_id e reading s in
      message_loop-Told events (noted r (e, reading) done) s' (
        Told-noted e reading done s.calls (handle backend run_id e reading s) h.delivered
          (handle-Sent backend run_id e reading (length done) s h.idle)
          (handle-Quiet backend run_id e reading s))

  -- Whatever the client answers: in its history, the accepted events are exactly those that were
  -- handled without an error, in their order, each once: on its own timeline, numbered by its
  -- place among them (as a `u128`), and with its own attributes, each under the key that the
  -- attribute's name was declared with.
  pub message_loop-Delivered :
      (events : List (RosEvent × Option ℕ))
      → Delivered
          (message_loop backend run_id events new).calls
          (delivered backend run_id events new [])
  message_loop-Delivered events =
      (message_loop-Told events [] new (record { idle = new-Idle; delivered = tt })).delivered

-- The events, the last first, before others.
abbrev pub reverse_append {ℓ} : {A : Type ℓ} → List A → List A → List A
reverse_append [] done = done
reverse_append (e ∷ events) done = reverse_append events (e ∷ done)

noted-Always :
    (r : Option (Unit {0}) × MessageProcessor) (e : RosEvent × Option ℕ)
    (done : List (RosEvent × Option ℕ))
    → Post (λ _. Always) Never r
    → noted r.0 e done ≡ e ∷ done
noted-Always (none, s) e done h = absurd h
noted-Always (some _, s) e done h = refl

module _ (backend : Backend) (run_id : String) (w : Willing backend) where
  delivered-Willing :
      (events : List (RosEvent × Option ℕ)) (s : MessageProcessor)
      (done : List (RosEvent × Option ℕ))
      → delivered backend run_id events s done ≡ reverse_append events done
  unfolding delivered
  delivered-Willing [] s done = refl
  delivered-Willing ((e, reading) ∷ events) s done =
      delivered-Willing events (handle backend run_id e reading s).1 _
      ∙ ap (reverse_append events) (
          noted-Always (handle backend run_id e reading s) (e, reading) done
            (handle-Always backend run_id w e reading s))

  -- A client that takes everything is told of every event, in order.
  pub message_loop-Delivered_all :
      (events : List (RosEvent × Option ℕ))
      → Delivered (message_loop backend run_id events new).calls (reverse_append events [])
  message_loop-Delivered_all events =
      subst (Delivered (message_loop backend run_id events new).calls)
        (delivered-Willing events new []) (message_loop-Delivered backend run_id events)
