-- ===== src/Processor/Protocol/Handlers.antt =====
-- The three handlers in the protocol of the message processor, and what each event is to say
-- (modality-ros-hook/src/message_processor.rs).
use modality_ros.Prelude.{ℕ, String, true, Option, [], ◌∷◌, ◌++◌, append_assoc, nat_eq}
use modality_ros.Api.{TimelineId, AttrVal, Kvs}
use modality_ros.Events.{
  RmwEvent, create_node, MessageDirection, send, receive, CapturedMessageWithTime, ServiceEvent,
  ServiceEventType, send_request, RosEvent, message, service_event, rmw,
}
use modality_ros.Events.Rmw
use modality_ros.Client.{Attrs, Backend}
use modality_ros.Processor.Timeline.{publisher_eq, open_timeline_and_send_metadata}
use modality_ros.Processor.Rmw.{stamp, rmw_attrs, rmw_metadata, handle_rmw_event}
use modality_ros.Processor.Message.{
  topic_attrs, name_attrs, publish_attrs, receive_attrs, event_kvs, direction_attrs, handle_message,
}
use modality_ros.Processor.Service.{
  client_attrs, service_event_attrs, service_metadata, handle_service_event,
}
use modality_ros.Processor.Loop.{handle}
use modality_ros.Processor.Triple.{Triple, Triple-pure, Triple-bind}
use modality_ros.Processor.Protocol.{Ready, Idle, Sent}
use modality_ros.Processor.Protocol.Steps.{push_attrs-Ready}
use modality_ros.Processor.Protocol.Sending.{open_timeline-Ready, send_event-Sent}
use modality_ros.Processor.Protocol.Metadata.{
  send_attrs-Ready, send_timeline_metadata-Ready, send_publisher_metadata-Ready,
}

-- What the event of a message says, in order.
abbrev pub direction_kvs : CapturedMessageWithTime → Option ℕ → MessageDirection → Kvs
direction_kvs m reading (send gid) =
    (("event.ros.publish", AttrVal.bool true) ∷ []) ++ publish_attrs m.publish_time
direction_kvs m reading (receive gid) = receive_attrs gid m reading

abbrev pub message_kvs : CapturedMessageWithTime → Option ℕ → Kvs
message_kvs m reading =
    ((topic_attrs m.msg ++ name_attrs m.msg) ++ direction_kvs m reading m.msg.direction)
    ++ event_kvs m.msg.kvs

abbrev pub rmw_kvs : RmwEvent → Kvs
rmw_kvs e = stamp (Rmw.timestamp e) ++ rmw_attrs e

-- The timeline and the attributes of an event.
abbrev pub timeline_of : RosEvent → TimelineId
timeline_of (message m) = m.msg.node_timeline_id
timeline_of (service_event e) = e.timeline_id
timeline_of (rmw e) = Rmw.timeline_id e

abbrev pub kvs_of : RosEvent → Option ℕ → Kvs
kvs_of (message m) reading = message_kvs m reading
kvs_of (service_event e) reading = service_event_attrs e
kvs_of (rmw e) reading = rmw_kvs e

module _ (backend : Backend) (run_id : String) (n : ℕ) (t : TimelineId) where
  direction-Ready :
      (m : CapturedMessageWithTime) (reading : Option ℕ) (d : MessageDirection) (attrs : Attrs)
      (kvs : Kvs)
      → Triple
          (Ready t n [] [] attrs kvs)
          (direction_attrs backend run_id m reading d attrs)
          (λ attrs'. Ready t n [] [] attrs' (kvs ++ direction_kvs m reading d))
          (Idle n)
  unfolding direction_attrs
  direction-Ready m reading (send gid) attrs kvs = rw (← append_assoc) (
      Triple-bind (push_attrs-Ready backend t n [] [] attrs kvs _) λ attrs'.
        Triple-bind
          (send_publisher_metadata-Ready backend run_id n t m.msg.node_timeline_id gid attrs' _)
          λ _. push_attrs-Ready backend t n [] [] attrs' _ (publish_attrs m.publish_time))
  direction-Ready m reading (receive gid) attrs kvs =
      push_attrs-Ready backend t n [] [] attrs kvs (receive_attrs gid m reading)

  rmw_metadata-Ready :
      (e : RmwEvent) (attrs : Attrs) (kvs : Kvs)
      → Triple
          (Ready t n [] [] attrs kvs)
          (rmw_metadata backend run_id e)
          (λ _. Ready t n [] [] attrs kvs)
          (Idle n)
  unfolding rmw_metadata
  rmw_metadata-Ready (create_node ns name u _) attrs kvs =
      send_timeline_metadata-Ready backend run_id n t u ns name attrs kvs
  rmw_metadata-Ready _ attrs kvs = Triple-pure (λ _. Ready t n [] [] attrs kvs) (Idle n) tt

  service_metadata-Ready :
      (ty : ServiceEventType) (e : ServiceEvent) (attrs : Attrs) (kvs : Kvs)
      → Triple
          (Ready t n [] [] attrs kvs)
          (service_metadata backend ty e)
          (λ _. Ready t n [] [] attrs kvs)
          (Idle n)
  unfolding service_metadata
  service_metadata-Ready send_request e attrs kvs =
      send_attrs-Ready backend run_id n t attrs kvs (client_attrs e)
  service_metadata-Ready _ e attrs kvs = Triple-pure (λ _. Ready t n [] [] attrs kvs) (Idle n) tt

module _ (backend : Backend) (run_id : String) (n : ℕ) where
  handle_rmw_event-Sent :
      (e : RmwEvent)
      → Triple
          (Idle n)
          (handle_rmw_event backend run_id e)
          (λ _. Sent (Rmw.timeline_id e) n (rmw_kvs e))
          (Idle n)
  unfolding handle_rmw_event
  handle_rmw_event-Sent e =
      let t = Rmw.timeline_id e in
      Triple-bind (open_timeline-Ready backend n t) λ _.
        Triple-bind (push_attrs-Ready backend t n [] [] [] [] (stamp (Rmw.timestamp e))) λ attrs.
          Triple-bind (rmw_metadata-Ready backend run_id n t e attrs _) λ _.
            Triple-bind (push_attrs-Ready backend t n [] [] attrs _ (rmw_attrs e))
              λ attrs'. send_event-Sent backend n t attrs' (rmw_kvs e)

  handle_service_event-Sent :
      (e : ServiceEvent)
      → Triple
          (Idle n)
          (handle_service_event backend e)
          (λ _. Sent e.timeline_id n (service_event_attrs e))
          (Idle n)
  unfolding handle_service_event
  handle_service_event-Sent e =
      let t = e.timeline_id in
      Triple-bind (open_timeline-Ready backend n t) λ _.
        Triple-bind (service_metadata-Ready backend run_id n t e.event_type e [] []) λ _.
          Triple-bind (push_attrs-Ready backend t n [] [] [] [] (service_event_attrs e))
            λ attrs. send_event-Sent backend n t attrs (service_event_attrs e)

  handle_message-Sent :
      (m : CapturedMessageWithTime) (reading : Option ℕ)
      → Triple
          (Idle n)
          (handle_message backend run_id m reading)
          (λ _. Sent m.msg.node_timeline_id n (message_kvs m reading))
          (Idle n)
  unfolding handle_message open_timeline_and_send_metadata
  handle_message-Sent m reading =
      let t = m.msg.node_timeline_id in
      let direction = m.msg.direction in
      Triple-bind
        (Triple-bind (open_timeline-Ready backend n t) λ _.
          send_timeline_metadata-Ready backend run_id n t t m.msg.node_namespace m.msg.node_name []
            [])
        λ _. Triple-bind (push_attrs-Ready backend t n [] [] [] [] (topic_attrs m.msg)) λ attrs.
          Triple-bind (push_attrs-Ready backend t n [] [] attrs _ (name_attrs m.msg)) λ attrs'.
            Triple-bind (direction-Ready backend run_id n t m reading direction attrs' _) λ attrs''.
              Triple-bind (push_attrs-Ready backend t n [] [] attrs'' _ (event_kvs m.msg.kvs))
                λ attrs'''. send_event-Sent backend n t attrs''' (message_kvs m reading)

  pub handle-Triple :
      (e : RosEvent) (reading : Option ℕ)
      → Triple
          (Idle n)
          (handle backend run_id e reading)
          (λ _. Sent (timeline_of e) n (kvs_of e reading))
          (Idle n)
  unfolding handle
  handle-Triple (message m) reading = handle_message-Sent m reading
  handle-Triple (service_event e) reading = handle_service_event-Sent e
  handle-Triple (rmw e) reading = handle_rmw_event-Sent e
