-- ===== src/Processor/Rule.antt =====
-- What every handler keeps that the six operations it is made of keep
-- (modality-ros-hook/src/message_processor.rs).
use modality_ros.Prelude.{
  ℕ, String, Option, none, some, [], ◌∷◌, inl, inr, Bool-cases, contains, nat_eq,
}
use modality_ros.Api.{TimelineId, Kvs}
use modality_ros.Events.{
  PublisherGraphId, RmwEvent, create_node, MessageDirection, send, receive, CapturedMessageWithTime,
  ServiceEvent, ServiceEventType, send_request, RosEvent, message, service_event, rmw,
}
use modality_ros.Events.Rmw
use modality_ros.Client.{Attrs, Backend}
use modality_ros.Processor.{
  MessageProcessor, interned_attr_key, push_attrs, send_metadata, open_timeline, send_event,
}
use modality_ros.Processor.Timeline.{
  publisher_eq, node_attrs, publisher_attrs, send_attrs, note_created, note_publisher,
  send_timeline_metadata, send_publisher_metadata, open_timeline_and_send_metadata,
}
use modality_ros.Processor.Rmw.{stamp, rmw_attrs, rmw_metadata, handle_rmw_event}
use modality_ros.Processor.Message.{
  topic_attrs, name_attrs, publish_attrs, receive_attrs, event_kvs, direction_attrs, handle_message,
}
use modality_ros.Processor.Service.{
  client_attrs, service_event_attrs, service_metadata, handle_service_event,
}
use modality_ros.Processor.Loop.{handle}
use modality_ros.Processor.Triple.{Triple, Triple-pure, Triple-bind}

-- `P` holds before and after each operation, but `Q` after an event that was accepted, and `E`
-- after an error.
pub record Kept (backend : Backend) (P Q E : MessageProcessor → Type 0) : Type 0 where
  pub declaring : (name : String) → Triple P (interned_attr_key backend name) (λ _. P) E
  pub describing : (attrs : Attrs) → Triple P (send_metadata backend attrs) (λ _. P) E
  pub opening : (t : TimelineId) → Triple P (open_timeline backend t) (λ _. P) E
  pub noting : (t : TimelineId) → Triple P (note_created t) (λ _. P) E
  pub noting_publisher :
      (p : TimelineId × PublisherGraphId) → Triple P (note_publisher p) (λ _. P) E
  pub sending : (attrs : Attrs) → Triple P (send_event backend attrs) (λ _. Q) E

module _ (backend : Backend) (run_id : String) (P Q E : MessageProcessor → Type 0)
    (k : Kept backend P Q E) where
  push_attrs-Kept : (attrs : Attrs) (kvs : Kvs) → Triple P (push_attrs backend attrs kvs) (λ _. P) E
  unfolding push_attrs
  push_attrs-Kept attrs [] = Triple-pure (λ _. P) E attrs
  push_attrs-Kept attrs ((name, v) ∷ kvs) =
      Triple-bind (k.declaring name) λ key. push_attrs-Kept _ kvs

  send_attrs-Kept : (kvs : Kvs) → Triple P (send_attrs backend kvs) (λ _. P) E
  unfolding send_attrs
  send_attrs-Kept kvs = Triple-bind (push_attrs-Kept [] kvs) k.describing

  timeline_metadata-Kept :
      (t : TimelineId) (ns name : String)
      → Triple P (send_timeline_metadata backend run_id t ns name) (λ _. P) E
  unfolding send_timeline_metadata
  timeline_metadata-Kept t ns name = record {
    at = λ s h. elim (Bool-cases (contains s.created_timelines t)) [
      | inl e ↦ rw (e, send_timeline_metadata) h
      | inr e ↦
          rw (e, send_timeline_metadata)
            ((Triple-bind (k.noting t) λ _. send_attrs-Kept (node_attrs run_id ns name)).at s h)
    ];
  }

  publisher_metadata-Kept :
      (t : TimelineId) (gid : Option PublisherGraphId)
      → Triple P (send_publisher_metadata backend t gid) (λ _. P) E
  unfolding send_publisher_metadata
  publisher_metadata-Kept t none = record { at = λ s h. h }
  publisher_metadata-Kept t (some gid) = record {
    at = λ s h. elim (Bool-cases (contains s.sent_timeline_publisher_metadata (t, gid))) [
      | inl e ↦ rw (e, send_publisher_metadata) h
      | inr e ↦
          rw (e, send_publisher_metadata)
            ((Triple-bind (k.noting_publisher (t, gid))
                λ _. send_attrs-Kept (publisher_attrs gid)).at
              s h)
    ];
  }

  direction_attrs-Kept :
      (m : CapturedMessageWithTime) (reading : Option ℕ) (d : MessageDirection) (attrs : Attrs)
      → Triple P (direction_attrs backend run_id m reading d attrs) (λ _. P) E
  unfolding direction_attrs
  direction_attrs-Kept m reading (send gid) attrs = Triple-bind (push_attrs-Kept attrs _) λ attrs'.
      Triple-bind (publisher_metadata-Kept m.msg.node_timeline_id gid)
        λ _. push_attrs-Kept attrs' (publish_attrs m.publish_time)
  direction_attrs-Kept m reading (receive gid) attrs =
      push_attrs-Kept attrs (receive_attrs gid m reading)

  rmw_metadata-Kept : (e : RmwEvent) → Triple P (rmw_metadata backend run_id e) (λ _. P) E
  unfolding rmw_metadata
  rmw_metadata-Kept (create_node ns name t _) = timeline_metadata-Kept t ns name
  rmw_metadata-Kept _ = Triple-pure (λ _. P) E tt

  service_metadata-Kept :
      (ty : ServiceEventType) (e : ServiceEvent)
      → Triple P (service_metadata backend ty e) (λ _. P) E
  unfolding service_metadata
  service_metadata-Kept send_request e = send_attrs-Kept (client_attrs e)
  service_metadata-Kept _ e = Triple-pure (λ _. P) E tt

  pub handle-Kept :
      (e : RosEvent) (reading : Option ℕ) → Triple P (handle backend run_id e reading) (λ _. Q) E
  unfolding handle handle_rmw_event handle_service_event handle_message
      open_timeline_and_send_metadata
  handle-Kept (message m) reading =
      Triple-bind
        (Triple-bind (k.opening m.msg.node_timeline_id)
          λ _. timeline_metadata-Kept m.msg.node_timeline_id m.msg.node_namespace m.msg.node_name)
        λ _. Triple-bind (push_attrs-Kept [] (topic_attrs m.msg)) λ attrs.
          Triple-bind (push_attrs-Kept attrs (name_attrs m.msg)) λ attrs'.
            Triple-bind (direction_attrs-Kept m reading m.msg.direction attrs')
              λ attrs''. Triple-bind (push_attrs-Kept attrs'' (event_kvs m.msg.kvs)) k.sending
  handle-Kept (service_event e) reading = Triple-bind (k.opening e.timeline_id) λ _.
      Triple-bind (service_metadata-Kept e.event_type e)
        λ _. Triple-bind (push_attrs-Kept [] (service_event_attrs e)) k.sending
  handle-Kept (rmw e) reading = Triple-bind (k.opening (Rmw.timeline_id e)) λ _.
      Triple-bind (push_attrs-Kept [] (stamp (Rmw.timestamp e))) λ attrs.
        Triple-bind (rmw_metadata-Kept e)
          λ _. Triple-bind (push_attrs-Kept attrs (rmw_attrs e)) k.sending
