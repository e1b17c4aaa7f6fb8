-- ===== src/Processor/Loop.antt =====
-- `message_loop` (modality-ros-hook/src/message_processor.rs): the events that `rx.recv` yields,
-- each with what the system clock would answer, are handled in turn; a failure ends only its event.
use modality_ros.Prelude.{ℕ, String, Option, List, [], ◌∷◌}
use modality_ros.Events.{RosEvent, message, service_event, rmw}
use modality_ros.Client.{Backend}
use modality_ros.Processor.{MessageProcessor, M}
use modality_ros.Processor.Rmw.{handle_rmw_event}
use modality_ros.Processor.Message.{handle_message}
use modality_ros.Processor.Service.{handle_service_event}

module _ (backend : Backend) (run_id : String) where
  unfoldable pub handle : RosEvent → Option ℕ → M (Unit {0})
  handle (message m) reading = handle_message backend run_id m reading
  handle (rmw e) reading = handle_rmw_event backend run_id e
  handle (service_event e) reading = handle_service_event backend e

  unfoldable pub message_loop : List (RosEvent × Option ℕ) → MessageProcessor → MessageProcessor
  unfolding handle
  message_loop [] s = s
  message_loop ((event, reading) ∷ events) s = message_loop events (handle event reading s).1
