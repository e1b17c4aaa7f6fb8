-- ===== src/Processor/Service.antt =====
-- `handle_service_event` (modality-ros-hook/src/message_processor.rs).
use modality_ros.Prelude.{String, ◌<>◌, true, [], ◌∷◌, ◌++◌}
use modality_ros.Prelude.Text.{strip_slash, slashes_to_dots, hex}
use modality_ros.Api.{AttrVal, Kvs}
use modality_ros.Events.{
  ServiceEvent, ServiceEventType, send_request, take_request, send_response, take_response,
  opposite, event_type_to_string,
}
use modality_ros.Client.{Backend}
use modality_ros.Processor.{M, pure, ◌>>=◌, ◌>>◌, push_attrs, open_timeline, send_event}
use modality_ros.Processor.Timeline.{send_attrs}
use modality_ros.Processor.Rmw.{stamp}
use modality_ros.Processor.Message.{event_kvs}

-- one slash in front goes, the others become dots
unfoldable pub normalized_service_name : String → String
unfolding strip_slash slashes_to_dots
normalized_service_name service_name = slashes_to_dots (strip_slash service_name)

-- The metadata that lets a server's events find the client's timeline.
unfoldable pub client_attrs : ServiceEvent → Kvs
unfolding normalized_service_name
client_attrs e =
    ("timeline.ros.service.client_guid." <> hex e.client_guid, AttrVal.bool true)
    ∷ ("timeline.ros.service." <> normalized_service_name e.service_name, AttrVal.bool true)
    ∷ []

-- What the client's two events say of the request.
unfoldable pub own_attrs : ServiceEvent → Kvs
own_attrs e =
    ("event.internal.ros.service.sequence_id", AttrVal.integer e.sequence_id)
    ∷ ("event.internal.ros.service.client_guid", AttrVal.string (hex e.client_guid))
    ∷ []

-- What the server's two events say of the client's.
unfoldable pub remote_attrs : ServiceEvent → Kvs
remote_attrs e =
    (
      "event.interaction.remote_timeline.ros.service.client_guid." <> hex e.client_guid,
      AttrVal.bool true,
    )
    ∷ (
      "event.interaction.remote_event.ros.service.event",
      AttrVal.string (event_type_to_string (opposite e.event_type)),
    )
    ∷ (
      "event.interaction.remote_event.internal.ros.service.sequence_id",
      AttrVal.integer e.sequence_id,
    )
    ∷ (
      "event.interaction.remote_event.internal.ros.service.client_guid",
      AttrVal.string (hex e.client_guid),
    )
    ∷ []

unfoldable pub interaction_attrs : ServiceEventType → ServiceEvent → Kvs
unfolding own_attrs remote_attrs
interaction_attrs send_request e = own_attrs e
interaction_attrs take_response e = own_attrs e
interaction_attrs take_request e = remote_attrs e
interaction_attrs send_response e =
    remote_attrs e ++ ("event.interaction.reverse", AttrVal.bool true) ∷ []

-- What every event says of its service.
unfoldable pub naming_attrs : ServiceEvent → Kvs
unfolding normalized_service_name
naming_attrs e =
    ("event.name", AttrVal.string (normalized_service_name e.service_name))
    ∷ ("event.ros.service.name", AttrVal.string e.service_name)
    ∷ ("event.ros.service.event", AttrVal.string (event_type_to_string e.event_type))
    ∷ []

-- All the attributes of the event, in order.
unfoldable pub service_event_attrs : ServiceEvent → Kvs
unfolding naming_attrs interaction_attrs stamp event_kvs
service_event_attrs e =
    naming_attrs e ++ stamp e.timestamp ++ interaction_attrs e.event_type e ++ event_kvs e.kvs

module _ (backend : Backend) where
  unfoldable pub service_metadata : ServiceEventType → ServiceEvent → M (Unit {0})
  unfolding client_attrs
  service_metadata send_request e = send_attrs backend (client_attrs e)
  service_metadata _ e = pure tt

  unfoldable pub handle_service_event : ServiceEvent → M (Unit {0})
  unfolding service_metadata service_event_attrs
  handle_service_event e = do
    open_timeline backend e.timeline_id
    service_metadata e.event_type e
    attrs ← push_attrs backend [] (service_event_attrs e)
    send_event backend attrs
