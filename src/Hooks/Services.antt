-- ===== src/Hooks/Services.antt =====
-- The hooks that create and destroy services and clients (modality-ros-hook/src/hooks.rs), and
-- those of the four steps of a request.
use modality_ros.Prelude.{ℕ, suc, ◌-◌, String, Option, some, List, ◌++◌, map, nat_eq}
use modality_ros.Prelude.Int.{ℤ, pos, negsuc}
use modality_ros.Prelude.Dict.{lookup, insert, remove}
use modality_ros.Prelude.Text.{trim}
use modality_ros.Events.{
  create_service, destroy_service, create_client, destroy_client, rmw, now, send_request,
  take_request, send_response, take_response, service_event,
}
use modality_ros.Memory.{Memory, Slice}
use modality_ros.Schema.{flat_size}
use modality_ros.Schema.Service.{RosServiceSchema, ServiceTypeSupport, from_service_type_support}
use modality_ros.Hooks.{Hooks, Context, NodeState, send, send_found}
use modality_ros.Hooks.Registry.{with_node, with_schema}

-- `rmw::client`: its address, and the parts of the guid that the runtime keeps behind it.
pub record Client : Type 0 where
  pub address : ℕ
  pub guid_prefix : List ℕ
  pub entity_id : List ℕ

-- `rtps_client_reader_guid`
unfoldable pub rtps_client_reader_guid : Client → List ℕ
rtps_client_reader_guid client = client.guid_prefix ++ client.entity_id

-- The byte of an `i8`.
abbrev as_u8 : ℤ → ℕ
as_u8 (pos n) = n
as_u8 (negsuc n) = 256 - suc n

-- `transmute` of the writer's guid, from `[i8; 16]`
unfoldable pub guid_bytes : List ℤ → List ℕ
guid_bytes guid = map as_u8 guid

-- `request_id`
pub record RequestId : Type 0 where
  pub writer_guid : List ℤ
  pub sequence_number : ℤ

-- The bytes at an address: `from_raw_parts`.
abbrev pub bytes_at : ℕ → ℕ → Slice
bytes_at p size = record { ptr = p; len = size }

module _ (cx : Context) where
  unfoldable pub served : NodeState → ℕ → RosServiceSchema → String → Option ℕ → Hooks → Hooks
  unfolding send insert nat_eq now
  served node service schema service_name clock h =
      send cx
        (rmw
          (create_service node.timeline_id (now clock) service_name schema.name schema.namespace))
        (record h {
          services =
              insert service
                (record {
                  schema = schema;
                  node_timeline_id = node.timeline_id;
                  service_name = service_name;
                })
                h.services;
        })

  -- `modality_after_rmw_create_service`
  unfoldable pub after_create_service :
      ℕ → ℕ → ServiceTypeSupport → String → Option ℕ → Hooks → Option Hooks
  unfolding served lookup nat_eq trim from_service_type_support
  after_create_service node_ptr service type_support service_name clock h =
      with_node (lookup node_ptr h.nodes)
        (λ node.
          with_schema (from_service_type_support cx.field_types type_support)
            (λ schema. some (served node service schema (trim service_name) clock h)) h)
        h

  -- `modality_after_rmw_destroy_service`
  unfoldable pub after_destroy_service : ℕ → Option ℕ → Hooks → Hooks
  unfolding send_found lookup remove nat_eq now
  after_destroy_service service clock h =
      let sent =
        send_found cx (lookup service h.services)
          (λ s. (rmw (destroy_service s.node_timeline_id (now clock) s.service_name))) h in
      record sent { services = remove service sent.services }

  unfoldable pub connected : NodeState → ℕ → RosServiceSchema → String → Option ℕ → Hooks → Hooks
  unfolding send insert nat_eq now
  connected node client schema service_name clock h =
      send cx
        (rmw (create_client node.timeline_id (now clock) service_name schema.name schema.namespace))
        (record h {
          clients =
              insert client
                (record {
                  schema = schema;
                  node_timeline_id = node.timeline_id;
                  service_name = service_name;
                })
                h.clients;
        })

  -- `modality_after_rmw_create_client`
  unfoldable pub after_create_client :
      ℕ → ℕ → ServiceTypeSupport → String → Option ℕ → Hooks → Option Hooks
  unfolding connected lookup nat_eq trim from_service_type_support
  after_create_client node_ptr client type_support service_name clock h =
      with_node (lookup node_ptr h.nodes)
        (λ node.
          with_schema (from_service_type_support cx.field_types type_support)
            (λ schema. some (connected node client schema (trim service_name) clock h)) h)
        h

  -- `modality_after_rmw_destroy_client`
  unfoldable pub after_destroy_client : ℕ → Option ℕ → Hooks → Hooks
  unfolding send_found lookup remove nat_eq now
  after_destroy_client client clock h =
      let sent =
        send_found cx (lookup client h.clients)
          (λ c. (rmw (destroy_client c.node_timeline_id (now clock) c.service_name))) h in
      record sent { clients = remove client sent.clients }

  -- `modality_after_rmw_send_request`
  unfoldable pub after_send_request : Client → Memory → ℕ → ℤ → Option ℕ → Hooks → Hooks
  unfolding send_found lookup nat_eq now rtps_client_reader_guid
  after_send_request client mem ros_request sequence_id clock h =
      send_found cx (lookup client.address h.clients)
        (λ c. service_event (record {
          timeline_id = c.node_timeline_id;
          timestamp = now clock;
          service_name = c.service_name;
          event_type = send_request;
          client_guid = rtps_client_reader_guid client;
          sequence_id = sequence_id;
          kvs =
              cx.interpreter.interpret_single_message mem c.schema.request_members
                (bytes_at ros_request (flat_size c.schema.request_members));
        }))
        h

  -- `modality_after_rmw_take_request`
  unfoldable pub after_take_request : ℕ → RequestId → Memory → ℕ → Option ℕ → Hooks → Hooks
  unfolding send_found lookup nat_eq now guid_bytes
  after_take_request service request_id mem ros_request clock h =
      send_found cx (lookup service h.services)
        (λ s. service_event (record {
          timeline_id = s.node_timeline_id;
          timestamp = now clock;
          service_name = s.service_name;
          event_type = take_request;
          client_guid = guid_bytes request_id.writer_guid;
          sequence_id = request_id.sequence_number;
          kvs =
              cx.interpreter.interpret_single_message mem s.schema.request_members
                (bytes_at ros_request (flat_size s.schema.request_members));
        }))
        h

  -- `modality_after_rmw_send_response`; the slice has the size of the request
  unfoldable pub after_send_response : ℕ → RequestId → Memory → ℕ → Option ℕ → Hooks → Hooks
  unfolding send_found lookup nat_eq now guid_bytes
  after_send_response service request_id mem ros_response clock h =
      send_found cx (lookup service h.services)
        (λ s. service_event (record {
          timeline_id = s.node_timeline_id;
          timestamp = now clock;
          service_name = s.service_name;
          event_type = send_response;
          client_guid = guid_bytes request_id.writer_guid;
          sequence_id = request_id.sequence_number;
          kvs =
              cx.interpreter.interpret_single_message mem s.schema.response_members
                (bytes_at ros_response (flat_size s.schema.request_members));
        }))
        h

  -- `modality_after_rmw_take_response`
  unfoldable pub after_take_response : Client → ℤ → Memory → ℕ → Option ℕ → Hooks → Hooks
  unfolding send_found lookup nat_eq now rtps_client_reader_guid
  after_take_response client sequence_number mem ros_response clock h =
      send_found cx (lookup client.address h.clients)
        (λ c. service_event (record {
          timeline_id = c.node_timeline_id;
          timestamp = now clock;
          service_name = c.service_name;
          event_type = take_response;
          client_guid = rtps_client_reader_guid client;
          sequence_id = sequence_number;
          kvs =
              cx.interpreter.interpret_single_message mem c.schema.response_members
                (bytes_at ros_response (flat_size c.schema.response_members));
        }))
        h
