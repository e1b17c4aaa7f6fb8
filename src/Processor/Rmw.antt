-- ===== src/Processor/Rmw.antt =====
-- `handle_rmw_event` (modality-ros-hook/src/message_processor.rs).
use modality_ros.Prelude.{String, Option, none, some, [], ◌∷◌, ◌++◌}
use modality_ros.Prelude.Int.{signed}
use modality_ros.Api.{Nanoseconds, AttrVal, Kvs}
use modality_ros.Events.{
  PublisherGraphId, gid_to_string, RmwEvent, create_node, destroy_node, create_publisher,
  destroy_publisher, create_subscription, destroy_subscription, create_service, destroy_service,
  create_client, destroy_client,
}
use modality_ros.Events.Rmw
use modality_ros.Client.{Backend}
use modality_ros.Processor.{M, pure, ◌>>=◌, ◌>>◌, push_attrs, open_timeline, send_event}
use modality_ros.Processor.Timeline.{send_timeline_metadata}

unfoldable pub stamp : Option Nanoseconds → Kvs
stamp none = []
stamp (some ts) = ("event.timestamp", AttrVal.timestamp ts) ∷ []

gid_attrs : Option PublisherGraphId → Kvs
unfolding gid_to_string
gid_attrs none = []
gid_attrs (some gid) = ("event.ros.publisher_gid", AttrVal.string (gid_to_string gid)) ∷ []

named : String → Kvs
named name = ("event.name", AttrVal.string name) ∷ []

topic_attrs : String → Kvs
topic_attrs topic = ("event.ros.topic", AttrVal.string topic) ∷ []

service_attrs : String → Kvs
service_attrs service_name = ("event.ros.service.name", AttrVal.string service_name) ∷ []

schema_attrs : String → String → Kvs
schema_attrs schema_namespace schema_name =
    ("event.ros.schema.namespace", AttrVal.string schema_namespace)
    ∷ ("event.ros.schema.name", AttrVal.string schema_name)
    ∷ []

destroy_service_attrs : String → Kvs
unfolding named service_attrs
destroy_service_attrs service_name = named "rmw.destroy_service" ++ service_attrs service_name

create_client_attrs : String → String → String → Kvs
unfolding named service_attrs schema_attrs
create_client_attrs service_name schema_namespace schema_name =
    named "rmw.create_client"
    ++ service_attrs service_name
    ++ schema_attrs schema_namespace schema_name

destroy_client_attrs : String → Kvs
unfolding named service_attrs
destroy_client_attrs service_name = named "rmw.destroy_client" ++ service_attrs service_name

-- The attributes pushed for each event, after the timestamp.
unfoldable pub rmw_attrs : RmwEvent → Kvs
unfolding gid_attrs named topic_attrs service_attrs schema_attrs destroy_service_attrs
    create_client_attrs destroy_client_attrs
rmw_attrs (create_node node_namespace node_name _ _) =
    named "rmw.create_node"
    ++ ("event.ros.node.namespace", AttrVal.string node_namespace)
      ∷ ("event.ros.node.name", AttrVal.string node_name)
      ∷ []
rmw_attrs (destroy_node _ _) = named "rmw.destroy_node"
rmw_attrs (create_publisher _ _ gid topic schema_namespace schema_name pub_count) =
    named "rmw.create_publisher"
    ++ (("event.internal.publisher.count", AttrVal.integer (signed 64 pub_count)) ∷ [])
    ++ gid_attrs gid
    ++ topic_attrs topic
    ++ schema_attrs schema_namespace schema_name
rmw_attrs (destroy_publisher _ _ gid) = named "rmw.destroy_publisher" ++ gid_attrs gid
rmw_attrs (create_subscription _ _ topic schema_namespace schema_name) =
    named "rmw.create_subscription"
    ++ topic_attrs topic
    ++ schema_attrs schema_namespace schema_name
rmw_attrs (destroy_subscription _ _ topic) = named "rmw.destroy_subscription" ++ topic_attrs topic
rmw_attrs (create_service _ _ service_name schema_namespace schema_name) =
    named "rmw.create_service"
    ++ service_attrs service_name
    ++ schema_attrs schema_namespace schema_name
rmw_attrs (destroy_service _ _ service_name) = destroy_service_attrs service_name
rmw_attrs (create_client _ _ service_name schema_namespace schema_name) =
    create_client_attrs service_name schema_namespace schema_name
rmw_attrs (destroy_client _ _ service_name) = destroy_client_attrs service_name

module _ (backend : Backend) (run_id : String) where
  -- only a new node sends metadata
  unfoldable pub rmw_metadata : RmwEvent → M (Unit {0})
  rmw_metadata (create_node node_namespace node_name t _) =
      send_timeline_metadata backend run_id t node_namespace node_name
  rmw_metadata _ = pure tt

  unfoldable pub handle_rmw_event : RmwEvent → M (Unit {0})
  unfolding rmw_metadata stamp rmw_attrs
  handle_rmw_event event = do
    open_timeline backend (Rmw.timeline_id event)
    kvs ← push_attrs backend [] (stamp (Rmw.timestamp event))
    rmw_metadata event
    kvs' ← push_attrs backend kvs (rmw_attrs event)
    send_event backend kvs'
