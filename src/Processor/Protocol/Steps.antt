-- ===== src/Processor/Protocol/Steps.antt =====
-- Interning attributes and sending metadata, in the protocol of the message processor
-- (modality-ros-hook/src/message_processor.rs).
use modality_ros.Prelude.{
  ℕ, String, ◌≡◌, ◌∙◌, sym, Bool, true, false, Option, none, some, [], ◌∷◌, ◌++◌, inl, inr, arith,
  Option-cases, Bool-cases, append-nil, append_assoc, nat_eq, string_eq,
}
use modality_ros.Prelude.Dict.{lookup, lookup-insert}
use modality_ros.Api.{TimelineId, InternedAttrKey, Kvs}
use modality_ros.Client.{Attrs, Call, Backend}
use modality_ros.Client.Trace.{declared}
use modality_ros.Processor.{
  MessageProcessor, remember, interned_attr_key, push_attrs, send_metadata,
}
use modality_ros.Processor.Triple.{Triple, Triple-pure, Triple-pre, Triple-bind, Post}
use modality_ros.Processor.Protocol.{Ready, Idle, Resolves-Declares, Resolves-push, Resolves-cons}

module _ (backend : Backend) (t : TimelineId) (n : ℕ) (attrs' : Attrs) (kvs' : Kvs) where
  abbrev Keyed : Attrs → Kvs → String → InternedAttrKey → MessageProcessor → Type 0
  Keyed attrs kvs name k s = Ready t n attrs' kvs' attrs kvs s × (declared name s.calls ≡ some k)

  remember-Ready :
      (attrs : Attrs) (kvs : Kvs) (name : String) (r : Option InternedAttrKey)
      (s : MessageProcessor)
      → lookup name s.attr_key_cache ≡ none
      → Ready t n attrs' kvs' attrs kvs s
      → Post (Keyed attrs kvs name) (Idle n) (remember backend name r s)
  unfolding remember
  remember-Ready attrs kvs name none s e h = record {
    mirrors = record {
      cached = h.mirrors.cached;
      current = h.mirrors.current;
      counted = h.mirrors.counted;
      lawful = (sym (h.mirrors.cached name) ∙ e, h.mirrors.lawful);
    };
    count = h.count;
  }
  remember-Ready attrs kvs name (some k) s e h =
      let fresh : declared name s.calls ≡ none = sym (h.mirrors.cached name) ∙ e in
      let c : Call = Call.declare_attr_key name (some k) in
      (
        record {
          mirrors = record {
            cached = λ m. rw lookup-insert (ground (arith, h.mirrors.cached m));
            current = h.mirrors.current;
            counted = h.mirrors.counted;
            lawful = (fresh, h.mirrors.lawful);
          };
          on = h.on;
          count = h.count;
          aside = Resolves-cons c s.calls attrs' kvs' (fresh, h.mirrors.lawful) h.aside;
          resolved = Resolves-cons c s.calls attrs kvs (fresh, h.mirrors.lawful) h.resolved;
        },
        ground arith,
      )

  interned-Ready :
      (attrs : Attrs) (kvs : Kvs) (name : String)
      → Triple
          (Ready t n attrs' kvs' attrs kvs)
          (interned_attr_key backend name)
          (Keyed attrs kvs name)
          (Idle n)
  unfolding interned_attr_key
  interned-Ready attrs kvs name = record {
    at = λ s h. elim (Option-cases (lookup name s.attr_key_cache)) [
      | inl e ↦
          rw (e, interned_attr_key)
            (remember-Ready attrs kvs name (backend.declare_attr_key s.calls name) s e h)
      | inr (k, e) ↦ rw (e, interned_attr_key) (h, sym (h.mirrors.cached name) ∙ e)
    ];
  }

  -- Attributes are collected under their keys.
  pub push_attrs-Ready :
      (attrs : Attrs) (kvs more : Kvs)
      → Triple
          (Ready t n attrs' kvs' attrs kvs)
          (push_attrs backend attrs more)
          (λ attrs''. Ready t n attrs' kvs' attrs'' (kvs ++ more))
          (Idle n)
  unfolding push_attrs
  push_attrs-Ready attrs kvs [] =
      rw append-nil (Triple-pure (λ attrs''. Ready t n attrs' kvs' attrs'' kvs) (Idle n) attrs)
  push_attrs-Ready attrs kvs ((name, v) ∷ more) = Triple-bind (interned-Ready attrs kvs name) λ k.
      Triple-pre
        (λ s h. record {
          mirrors = h.0.mirrors;
          on = h.0.on;
          count = h.0.count;
          aside = h.0.aside;
          resolved = Resolves-push s.calls attrs kvs k name v h.0.resolved h.1;
        })
        (rw append_assoc at (push_attrs-Ready (attrs ++ (k, v) ∷ []) (kvs ++ (name, v) ∷ []) more))

  after_metadata :
      (attrs : Attrs) (kvs : Kvs) (ok : Bool) (s : MessageProcessor)
      → Ready t n attrs' kvs' attrs kvs s
      → Ready t n [] [] attrs' kvs' (record s { calls = Call.timeline_metadata attrs ok ∷ s.calls })
  after_metadata attrs kvs ok s h =
      let known = Resolves-Declares s.calls attrs kvs h.resolved in
      record {
        mirrors = record {
          cached = h.mirrors.cached;
          current = h.mirrors.current;
          counted = h.mirrors.counted;
          lawful = ((t, h.on), known, h.mirrors.lawful);
        };
        on = h.on;
        count = h.count;
        aside = tt;
        resolved =
            Resolves-cons (Call.timeline_metadata attrs ok) s.calls attrs' kvs'
              ((t, h.on), known, h.mirrors.lawful) h.aside;
      }

  -- Metadata is sent with what has been collected, and what was put aside is taken up again.
  pub send_metadata-Ready :
      (attrs : Attrs) (kvs : Kvs)
      → Triple
          (Ready t n attrs' kvs' attrs kvs)
          (send_metadata backend attrs)
          (λ _. Ready t n [] [] attrs' kvs')
          (Idle n)
  unfolding send_metadata
  send_metadata-Ready attrs kvs = record {
    at = λ s h. elim (Bool-cases (backend.timeline_metadata s.calls attrs)) [
      | inl e ↦ rw (e, send_metadata) (after_metadata attrs kvs true s h)
      | inr e ↦
          rw (e, send_metadata)
            (let h' = after_metadata attrs kvs false s h in
              record { mirrors = h'.mirrors; count = h'.count })
    ];
  }
