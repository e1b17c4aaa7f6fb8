-- ===== src/System.antt =====
-- The whole process (modality-ros-hook/src/hooks.rs, modality-ros-hook/src/message_processor.rs):
-- the threads of the application, which call the hooks, and the thread that `Sender::new` spawns,
-- which connects and handles the events. A call of a hook is one move; moves come in any order.
pub mod Moves
pub mod Handling
pub mod Announced
pub mod Delivery
pub mod Threads
pub mod Publication
pub mod Bound
use modality_ros.Prelude.{
  ℕ, String, Bool, true, false, Option, none, some, List, [], ◌∷◌, ◌==◌, nat_eq, if◌then◌else◌,
}
use modality_ros.Events.{RosEvent, CapturedMessage}
use modality_ros.Client.{Backend}
use modality_ros.Processor
use modality_ros.Processor.{MessageProcessor}
use modality_ros.Processor.Loop.{handle}
use modality_ros.Hooks.{Hooks, Context, receive, initial}
use modality_ros.Hooks.Machine.{Hook, perform}

-- The spawned thread: it connects, it is in `message_loop`, or it has returned.
pub data Worker : Type 0 where
  starting : Worker
  running : MessageProcessor → Worker
  ended : Worker

-- `shared` is what the threads share, and leaves its `last_captured_message` empty;
-- `last_captured_message` is the thread local LAST_CAPTURED_MESSAGE, by thread.
pub record Process : Type 0 where
  pub shared : Hooks
  pub last_captured_message : ℕ → Option (List CapturedMessage)
  pub worker : Worker

abbrev pub unstarted : Process
unstarted = record { shared = initial; last_captured_message = λ t. none; worker = Worker.starting }

-- A thread calls a hook; the spawned thread has tried to build its runtime and to connect; or it
-- handles an event, with what the system clock would answer.
pub data Move : Type 0 where
  call : (thread : ℕ) → Hook → Move
  start : (runtime_built client_connected : Bool) → Move
  work : (reading : Option ℕ) → Move

-- The state as a thread sees it.
abbrev pub seen_by : ℕ → Process → Hooks
seen_by t s = record s.shared { last_captured_message = s.last_captured_message t }

abbrev pub returned : ℕ → Process → Hooks → Process
returned t s h = record s {
  shared = record h { last_captured_message = none };
  last_captured_message =
      λ u. if u == t then h.last_captured_message else s.last_captured_message u;
}

abbrev pub after_call : ℕ → Process → Option Hooks → Option Process
after_call t s none = none
after_call t s (some h) = some (returned t s h)

-- The thread returns, and drops its end of the channel.
abbrev pub terminate : Process → Process
terminate s = record s {
  shared = record s.shared { channel = record s.shared.channel { closed = true } };
  worker = Worker.ended;
}

-- The thread of `Sender::new` before its loop.
unfoldable pub connect : Bool → Bool → Process → Process
connect true true s = record s { worker = Worker.running Processor.new }
connect true false s = terminate s
connect false client_connected s = terminate s

unfoldable pub start_worker : Worker → Bool → Bool → Process → Process
unfolding connect
start_worker Worker.starting built connected s = connect built connected s
start_worker (Worker.running p) built connected s = s
start_worker Worker.ended built connected s = s

module _ (cx : Context) (backend : Backend) (run_id : String) where
  -- one round of `message_loop`
  unfoldable pub work_on : Worker → List RosEvent → Option ℕ → Process → Process
  unfolding receive handle
  work_on Worker.starting queue reading s = s
  work_on Worker.ended queue reading s = s
  work_on (Worker.running p) [] reading s = s
  work_on (Worker.running p) (e ∷ queue) reading s = record s {
    shared = record s.shared { channel = receive s.shared.channel };
    worker = Worker.running (handle backend run_id e reading p).1;
  }

  -- `none` is a process that has stopped.
  unfoldable pub advance : Move → Process → Option Process
  unfolding perform start_worker work_on nat_eq
  advance (call t c) s = after_call t s (perform cx c (seen_by t s))
  advance (start built connected) s = some (start_worker s.worker built connected s)
  advance (work reading) s = some (work_on s.worker s.shared.channel.queue reading s)

  unfoldable pub proceed : List Move → Option Process → Option Process
  proceed [] r = r
  proceed (m ∷ moves) none = none
  proceed (m ∷ moves) (some s) = proceed moves (advance m s)

  unfoldable pub run : List Move → Process → Option Process
  unfolding proceed
  run moves s = proceed moves (some s)
