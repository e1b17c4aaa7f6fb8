-- ===== src/Processor/Delivery/Quiet.antt =====
-- A handler adds calls, of which at most the last is an accepted event
-- (modality-ros-hook/src/message_processor.rs).
use modality_ros.Prelude.{
  ℕ, String, ◌≡◌, refl, ap, ◌∙◌, Bool, true, false, Option, none, some, List, [], ◌∷◌, ◌++◌, inl,
  inr, Bool-cases, Option-cases, string_eq, nat_eq,
}
use modality_ros.Prelude.Dict.{lookup}
use modality_ros.Api.{TimelineId, InternedAttrKey}
use modality_ros.Events.{RosEvent}
use modality_ros.Client.{Attrs, Call, Backend}
use modality_ros.Client.Trace.{accepted}
use modality_ros.Processor.{
  MessageProcessor, remember, interned_attr_key, send_metadata, opening, open_timeline, sending,
  send_event, is_open, check,
}
use modality_ros.Processor.Timeline.{note_created, note_publisher}
use modality_ros.Processor.Loop.{handle}
use modality_ros.Processor.Triple.{Post}
use modality_ros.Processor.Rule.{Kept, handle-Kept}

-- Calls were added, none of them an accepted event.
abbrev pub Silent : List Call → List Call → Type 0
Silent cs cs' = (more : List Call) × (cs' ≡ more ++ cs) × (accepted more ≡ 0)

-- The last call is an accepted event, and none of those before it.
abbrev pub Spoke : List Call → List Call → Type 0
Spoke cs cs' =
    (o : ℕ) × (attrs : Attrs) × (before : List Call) × (cs' ≡ Call.event o attrs true ∷ before)
    × Silent cs before

module _ (backend : Backend) (cs : List Call) where
  Quiet : MessageProcessor → Type 0
  Quiet s = Silent cs s.calls

  Loud : MessageProcessor → Type 0
  Loud s = Spoke cs s.calls

  -- A call that is no accepted event leaves it at that.
  quieter :
      (c : Call) (cs' : List Call)
      → ((l : List Call) → accepted (c ∷ l) ≡ accepted l)
      → Silent cs cs'
      → Silent cs (c ∷ cs')
  quieter c cs' same (more, whole, none_in) = (c ∷ more, ap (λ l. c ∷ l) whole, same more ∙ none_in)

  remember-Quiet :
      (name : String) (r : Option InternedAttrKey) (s : MessageProcessor)
      → Quiet s
      → Post (λ _. Quiet) Quiet (remember backend name r s)
  unfolding remember Quiet
  remember-Quiet name none s h = quieter _ s.calls (λ l. refl) h
  remember-Quiet name (some key) s h = quieter _ s.calls (λ l. refl) h

  opening-Quiet :
      (t : TimelineId) (ok : Bool) (s : MessageProcessor)
      → Quiet s
      → Post (λ _. Quiet) Quiet (opening backend t ok s)
  unfolding opening Quiet
  opening-Quiet t true s h = quieter _ s.calls (λ l. refl) h
  opening-Quiet t false s h = quieter _ s.calls (λ l. refl) h

  sending-Loud :
      (attrs : Attrs) (ok : Bool) (s : MessageProcessor)
      → Quiet s
      → Post (λ _. Loud) Quiet (sending backend attrs ok s)
  unfolding sending Quiet Loud
  sending-Loud attrs true s h = (s.ordering, attrs, s.calls, refl, h)
  sending-Loud attrs false s h = quieter _ s.calls (λ l. refl) h

  metadata-Quiet :
      (attrs : Attrs) (ok : Bool) (s : MessageProcessor)
      → Quiet s
      → Post
          (λ _. Quiet)
          Quiet
          (check ok, record s { calls = Call.timeline_metadata attrs ok ∷ s.calls })
  unfolding Quiet
  metadata-Quiet attrs true s h = quieter _ s.calls (λ l. refl) h
  metadata-Quiet attrs false s h = quieter _ s.calls (λ l. refl) h

  Kept-Quiet : Kept backend Quiet Loud Quiet
  unfolding interned_attr_key send_metadata open_timeline send_event note_created note_publisher
      Quiet
  Kept-Quiet = record {
    declaring = λ name. record {
      at = λ s h. elim (Option-cases (lookup name s.attr_key_cache)) [
        | inl e ↦ rw (e, interned_attr_key) (remember-Quiet name _ s h)
        | inr (key, e) ↦ rw (e, interned_attr_key) h
      ];
    };
    describing = λ attrs. record { at = λ s h. metadata-Quiet attrs _ s h };
    opening = λ t. record {
      at = λ s h. elim (Bool-cases (is_open s.currently_open_timeline t)) [
        | inl e ↦ rw (e, open_timeline) h
        | inr e ↦ rw (e, open_timeline) (opening-Quiet t _ s h)
      ];
    };
    noting = λ t. record { at = λ s h. h };
    noting_publisher = λ p. record { at = λ s h. h };
    sending = λ attrs. record { at = λ s h. sending-Loud attrs _ s h };
  }

pub handle-Quiet :
    (backend : Backend) (run_id : String) (e : RosEvent) (reading : Option ℕ) (s : MessageProcessor)
    → Post
        (λ _ s'. Spoke s.calls s'.calls)
        (λ s'. Silent s.calls s'.calls)
        (handle backend run_id e reading s)
unfolding Quiet Loud
handle-Quiet backend run_id e reading s =
    (handle-Kept backend run_id (Quiet backend s.calls) (Loud backend s.calls)
        (Quiet backend s.calls) (Kept-Quiet backend s.calls) e reading).at
      s ([], refl, refl)
