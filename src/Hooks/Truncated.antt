-- ===== src/Hooks/Truncated.antt =====
-- The response that a service sends (modality-ros-hook/src/hooks.rs): how much of it is read.
use modality_ros.Prelude.{ℕ, ◌≡◌, ap, ◌∙◌, Option, some, nat_eq}
use modality_ros.Prelude.Dict.{lookup}
use modality_ros.Api.{AttrVal}
use modality_ros.Config.{ModalityRosHookConfig}
use modality_ros.Events.{now, send_response, service_event}
use modality_ros.Memory.{Memory, Bindings}
use modality_ros.Schema.{flat_size}
use modality_ros.Interpret.Messages.{Texts, interpret_single_message}
use modality_ros.Interpret.Messages.Within.{schema_within, interpret_single_message-within}
use modality_ros.Hooks.{Hooks, ServiceState, send}
use modality_ros.Hooks.Services.{RequestId, guid_bytes, bytes_at, after_send_response}
use modality_ros.Hooks.Interpretation.{context_of, interpreter, reader_of}
use modality_ros.Hooks.Requests.{send_found-some}

-- When a service that is known sends a response, the event that is handed on has the attributes of
-- the response as if its schema had the members only that begin in as many bytes as a request has,
-- or right behind them: those of a longer response that begin later are left out.
pub after_send_response-within :
    (config : ModalityRosHookConfig) (bindings : Bindings) (new_attr_val : ℕ → AttrVal) (tx : Texts)
    (service : ℕ) (s : ServiceState) (id : RequestId) (mem : Memory) (at : ℕ) (clock : Option ℕ)
    (h : Hooks)
    → lookup service h.services ≡ some s
    → let cx = context_of config bindings new_attr_val tx in
      let request_size = flat_size s.schema.request_members in
      after_send_response cx service id mem at clock h
      ≡ send cx
          (service_event (record {
            timeline_id = s.node_timeline_id;
            timestamp = now clock;
            service_name = s.service_name;
            event_type = send_response;
            client_guid = guid_bytes id.writer_guid;
            sequence_id = id.sequence_number;
            kvs =
                interpret_single_message
                  (reader_of config bindings new_attr_val)
                  tx
                  mem
                  (schema_within request_size s.schema.response_members)
                  (bytes_at at request_size);
          }))
          h
unfolding after_send_response context_of interpreter
after_send_response-within config bindings new_attr_val tx service s id mem at clock h known =
    let cx = context_of config bindings new_attr_val tx in
    let request_size = flat_size s.schema.request_members in
    send_found-some cx (lookup service h.services) _ h s known
    ∙ ap
        (λ kvs.
          send cx
            (service_event (record {
              timeline_id = s.node_timeline_id;
              timestamp = now clock;
              service_name = s.service_name;
              event_type = send_response;
              client_guid = guid_bytes id.writer_guid;
              sequence_id = id.sequence_number;
              kvs = kvs;
            }))
            h)
        (interpret_single_message-within (reader_of config bindings new_attr_val) mem tx
          s.schema.response_members (bytes_at at request_size))
