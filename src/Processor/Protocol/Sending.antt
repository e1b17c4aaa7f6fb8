-- ===== src/Processor/Protocol/Sending.antt =====
-- Opening a timeline and sending an event, in the protocol of the message processor
-- (modality-ros-hook/src/message_processor.rs).
use modality_ros.Prelude.{
  ℕ, suc, ◌≡◌, ◌≢◌, refl, ap, ◌∙◌, sym, Bool, true, false, Option, none, some, [], ◌∷◌, inl, inr,
  arith, Bool-cases, nat_eq, string_eq,
}
use modality_ros.Api.{TimelineId, Kvs}
use modality_ros.Client.{Attrs, Call, Backend}
use modality_ros.Processor.{MessageProcessor, opening, is_open, open_timeline, sending, send_event}
use modality_ros.Processor.Triple.{Triple, Post}
use modality_ros.Processor.Protocol.{Ready, Idle, Sent, Resolves-Declares}

is_open-some : (o : Option TimelineId) (t : TimelineId) → is_open o t ≡ true → o ≡ some t
is_open-some none t h = cc
is_open-some (some u) t h = ground arith

is_open-ne : (o : Option TimelineId) (t : TimelineId) → is_open o t ≡ false → o ≢ some t
is_open-ne none t h = λ e. cc
is_open-ne (some u) t h = ground arith

module _ (backend : Backend) (n : ℕ) where
  opening-Ready :
      (t : TimelineId) (ok : Bool) (s : MessageProcessor)
      → s.currently_open_timeline ≢ some t
      → Idle n s
      → Post (λ _. Ready t n [] [] [] []) (Idle n) (opening backend t ok s)
  unfolding opening
  opening-Ready t true s ne h = record {
    mirrors = record {
      cached = h.mirrors.cached;
      current = refl;
      counted = h.mirrors.counted;
      lawful = (λ e. ne (h.mirrors.current ∙ e), h.mirrors.lawful);
    };
    on = refl;
    count = h.count;
    aside = tt;
    resolved = tt;
  }
  opening-Ready t false s ne h = record {
    mirrors = record {
      cached = h.mirrors.cached;
      current = h.mirrors.current;
      counted = h.mirrors.counted;
      lawful = (λ e. ne (h.mirrors.current ∙ e), h.mirrors.lawful);
    };
    count = h.count;
  }

  -- A handler begins on its timeline.
  pub open_timeline-Ready :
      (t : TimelineId)
      → Triple (Idle n) (open_timeline backend t) (λ _. Ready t n [] [] [] []) (Idle n)
  unfolding open_timeline
  open_timeline-Ready t = record {
    at = λ s h. elim (Bool-cases (is_open s.currently_open_timeline t)) [
      | inl e ↦
          rw (e, open_timeline)
            (record {
              mirrors = h.mirrors;
              on = sym h.mirrors.current ∙ is_open-some s.currently_open_timeline t e;
              count = h.count;
              aside = tt;
              resolved = tt;
            })
      | inr e ↦
          rw (e, open_timeline)
            (opening-Ready t (backend.open_timeline s.calls t) s
              (is_open-ne s.currently_open_timeline t e) h)
    ];
  }

  -- The event carries what was collected, and its number.
  pub send_event-Sent :
      (t : TimelineId) (attrs : Attrs) (kvs : Kvs)
      → Triple (Ready t n [] [] attrs kvs) (send_event backend attrs) (λ _. Sent t n kvs) (Idle n)
  unfolding send_event sending
  send_event-Sent t attrs kvs = record {
    at = λ s h.
        let known = Resolves-Declares s.calls attrs kvs h.resolved in
        let o = h.mirrors.counted in
        elim (Bool-cases (backend.event s.calls s.ordering attrs)) [
          | inl e ↦
              rw (e, send_event)
                (record {
                  mirrors = record {
                    cached = h.mirrors.cached;
                    current = h.mirrors.current;
                    counted = omega arith;
                    lawful = (o, (t, h.on), known, h.mirrors.lawful);
                  };
                  count = ap suc h.count;
                  before = s.calls;
                  attrs = attrs;
                  last = ap (λ (k : ℕ). Call.event k attrs true ∷ s.calls) (rw (← h.count) o);
                  on = h.on;
                  resolved = h.resolved;
                })
          | inr e ↦
              rw (e, send_event)
                (record {
                  mirrors = record {
                    cached = h.mirrors.cached;
                    current = h.mirrors.current;
                    counted = h.mirrors.counted;
                    lawful = (o, (t, h.on), known, h.mirrors.lawful);
                  };
                  count = h.count;
                })
        ];
  }
