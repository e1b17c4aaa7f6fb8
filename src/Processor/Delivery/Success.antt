-- ===== src/Processor/Delivery/Success.antt =====
-- A client that takes everything (modality-ros-hook/src/message_processor.rs).
use modality_ros.Prelude.{
  ℕ, String, ◌≡◌, true, Option, some, List, inl, inr, Bool-cases, Option-cases, string_eq, nat_eq,
}
use modality_ros.Prelude.Dict.{lookup}
use modality_ros.Api.{TimelineId, InternedAttrKey}
use modality_ros.Events.{RosEvent}
use modality_ros.Client.{Attrs, Call, Backend}
use modality_ros.Processor.{
  MessageProcessor, remember, interned_attr_key, send_metadata, opening, open_timeline, sending,
  send_event, is_open,
}
use modality_ros.Processor.Timeline.{note_created, note_publisher}
use modality_ros.Processor.Loop.{handle}
use modality_ros.Processor.Triple.{Post}
use modality_ros.Processor.Rule.{Kept, handle-Kept}

-- No call is ever refused.
pub record Willing (backend : Backend) : Type 0 where
  pub declares :
      (cs : List Call) (name : String)
      → (k : InternedAttrKey) × (backend.declare_attr_key cs name ≡ some k)
  pub opens : (cs : List Call) (t : TimelineId) → backend.open_timeline cs t ≡ true
  pub describes : (cs : List Call) (attrs : Attrs) → backend.timeline_metadata cs attrs ≡ true
  pub accepts : (cs : List Call) (o : ℕ) (attrs : Attrs) → backend.event cs o attrs ≡ true

abbrev pub Always : MessageProcessor → Type 0
Always s = Unit

abbrev pub Never : MessageProcessor → Type 0
Never s = ⊥

Kept-Always : (backend : Backend) → Willing backend → Kept backend Always Always Never
unfolding interned_attr_key remember send_metadata open_timeline opening send_event sending
    note_created note_publisher
Kept-Always backend w = record {
  declaring = λ name. record {
    at = λ s h. elim (Option-cases (lookup name s.attr_key_cache)) [
      | inl e ↦ rw (e, interned_attr_key, (w.declares s.calls name).1, remember) tt
      | inr (key, e) ↦ rw (e, interned_attr_key) tt
    ];
  };
  describing = λ attrs. record { at = λ s h. rw (w.describes s.calls attrs) tt };
  opening = λ t. record {
    at = λ s h. elim (Bool-cases (is_open s.currently_open_timeline t)) [
      | inl e ↦ rw (e, open_timeline) tt
      | inr e ↦ rw (e, open_timeline, w.opens s.calls t, opening) tt
    ];
  };
  noting = λ t. record { at = λ s h. tt };
  noting_publisher = λ p. record { at = λ s h. tt };
  sending = λ attrs. record { at = λ s h. rw (w.accepts s.calls s.ordering attrs) tt };
}

pub handle-Always :
    (backend : Backend) (run_id : String)
    → Willing backend
    → (e : RosEvent) (reading : Option ℕ) (s : MessageProcessor)
    → Post (λ _. Always) Never (handle backend run_id e reading s)
handle-Always backend run_id w e reading s =
    (handle-Kept backend run_id Always Always Never (Kept-Always backend w) e reading).at s tt
