-- ===== src/Hooks/Interpretation.antt =====
-- The hooks with the interpretation of messages (modality-ros-hook/src/hooks.rs and lib.rs): what
-- they rely on, filled by the functions of the schemas.
use modality_ros.Prelude.{ℕ, none, string_eq}
use modality_ros.Api.{AttrVal, Kvs}
use modality_ros.Config.{ModalityRosHookConfig}
use modality_ros.Events.{compound, CapturedMessageWithTime}
use modality_ros.Memory.{Memory, Bindings}
use modality_ros.Interpret.Members.{Reader}
use modality_ros.Interpret.Messages.{
  Texts, interpret_single_message, interpret_potentially_compound_message,
}
use modality_ros.Hooks.{Context, Interpreter, PublisherState}
use modality_ros.Hooks.Messages.{TimeSpec, publication}

-- The interpreter of a configuration, on a runtime.
unfoldable pub interpreter : Reader → Texts → Interpreter
unfolding interpret_single_message interpret_potentially_compound_message
interpreter r tx = record {
  interpret_single_message = interpret_single_message r tx;
  interpret_potentially_compound_message = interpret_potentially_compound_message r tx;
}

abbrev pub reader_of : ModalityRosHookConfig → Bindings → (ℕ → AttrVal) → Reader
reader_of config bindings new_attr_val = record {
  max_array_len = config.max_array_len;
  bindings = bindings;
  new_attr_val = new_attr_val;
}

unfoldable pub context_of : ModalityRosHookConfig → Bindings → (ℕ → AttrVal) → Texts → Context
unfolding interpreter
context_of config bindings new_attr_val tx = record {
  config = config;
  field_types = bindings.field_types;
  interpreter = interpreter (reader_of config bindings new_attr_val) tx;
}

abbrev pub event_of : PublisherState → TimeSpec → Kvs → CapturedMessageWithTime
event_of p t kvs = record {
  msg = publication p kvs;
  publish_time = compound t.tv_sec t.tv_nsec;
  receive_time = none;
}
