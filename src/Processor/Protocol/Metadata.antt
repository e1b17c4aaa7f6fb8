-- ===== src/Processor/Protocol/Metadata.antt =====
-- The metadata of a node's timeline and of a publisher, in the protocol of the message processor
-- (modality-ros-hook/src/message_processor.rs).
use modality_ros.Prelude.{ℕ, String, Option, none, some, [], inl, inr, Bool-cases, contains, nat_eq}
use modality_ros.Api.{TimelineId, Kvs}
use modality_ros.Events.{PublisherGraphId}
use modality_ros.Client.{Attrs, Backend}
use modality_ros.Processor.Timeline.{
  publisher_eq, node_attrs, publisher_attrs, send_attrs, note_created, note_publisher,
  send_timeline_metadata, send_publisher_metadata,
}
use modality_ros.Processor.Triple.{Triple, Triple-pre, Triple-bind}
use modality_ros.Processor.Protocol.{Ready, Idle}
use modality_ros.Processor.Protocol.Steps.{push_attrs-Ready, send_metadata-Ready}

module _ (backend : Backend) (run_id : String) (n : ℕ) (t : TimelineId) where
  pub send_attrs-Ready :
      (attrs : Attrs) (kvs named : Kvs)
      → Triple
          (Ready t n [] [] attrs kvs)
          (send_attrs backend named)
          (λ _. Ready t n [] [] attrs kvs)
          (Idle n)
  unfolding send_attrs
  send_attrs-Ready attrs kvs named =
      Triple-pre
        (λ s h. record {
          mirrors = h.mirrors;
          on = h.on;
          count = h.count;
          aside = h.resolved;
          resolved = tt;
        })
        (Triple-bind (push_attrs-Ready backend t n attrs kvs [] [] named)
          λ tl. send_metadata-Ready backend t n attrs kvs tl named)

  -- The notes of what has been sent are no part of the protocol.
  pub note_created-Ready :
      (u : TimelineId) (attrs : Attrs) (kvs : Kvs)
      → Triple
          (Ready t n [] [] attrs kvs)
          (note_created u)
          (λ _. Ready t n [] [] attrs kvs)
          (Idle n)
  unfolding note_created
  note_created-Ready u attrs kvs = record {
    at = λ s h. record {
      mirrors = record {
        cached = h.mirrors.cached;
        current = h.mirrors.current;
        counted = h.mirrors.counted;
        lawful = h.mirrors.lawful;
      };
      on = h.on;
      count = h.count;
      aside = h.aside;
      resolved = h.resolved;
    };
  }

  pub note_publisher-Ready :
      (p : TimelineId × PublisherGraphId) (attrs : Attrs) (kvs : Kvs)
      → Triple
          (Ready t n [] [] attrs kvs)
          (note_publisher p)
          (λ _. Ready t n [] [] attrs kvs)
          (Idle n)
  unfolding note_publisher
  note_publisher-Ready p attrs kvs = record {
    at = λ s h. record {
      mirrors = record {
        cached = h.mirrors.cached;
        current = h.mirrors.current;
        counted = h.mirrors.counted;
        lawful = h.mirrors.lawful;
      };
      on = h.on;
      count = h.count;
      aside = h.aside;
      resolved = h.resolved;
    };
  }

  pub send_timeline_metadata-Ready :
      (u : TimelineId) (ns name : String) (attrs : Attrs) (kvs : Kvs)
      → Triple
          (Ready t n [] [] attrs kvs)
          (send_timeline_metadata backend run_id u ns name)
          (λ _. Ready t n [] [] attrs kvs)
          (Idle n)
  unfolding send_timeline_metadata
  send_timeline_metadata-Ready u ns name attrs kvs = record {
    at = λ s h. elim (Bool-cases (contains s.created_timelines u)) [
      | inl e ↦ rw (e, send_timeline_metadata) h
      | inr e ↦
          rw (e, send_timeline_metadata)
            ((Triple-bind (note_created-Ready u attrs kvs)
                λ _. send_attrs-Ready attrs kvs (node_attrs run_id ns name)).at
              s h)
    ];
  }

  pub send_publisher_metadata-Ready :
      (u : TimelineId) (gid : Option PublisherGraphId) (attrs : Attrs) (kvs : Kvs)
      → Triple
          (Ready t n [] [] attrs kvs)
          (send_publisher_metadata backend u gid)
          (λ _. Ready t n [] [] attrs kvs)
          (Idle n)
  unfolding send_publisher_metadata
  send_publisher_metadata-Ready u none attrs kvs = record { at = λ s h. h }
  send_publisher_metadata-Ready u (some gid) attrs kvs = record {
    at = λ s h. elim (Bool-cases (contains s.sent_timeline_publisher_metadata (u, gid))) [
      | inl e ↦ rw (e, send_publisher_metadata) h
      | inr e ↦
          rw (e, send_publisher_metadata)
            ((Triple-bind (note_publisher-Ready (u, gid) attrs kvs)
                λ _. send_attrs-Ready attrs kvs (publisher_attrs gid)).at
              s h)
    ];
  }
