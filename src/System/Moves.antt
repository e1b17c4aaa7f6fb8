-- ===== src/System/Moves.antt =====
-- What every move keeps (modality-ros-hook/src/hooks.rs, modality-ros-hook/src/message_processor.rs).
use modality_ros.Prelude.{
  ℕ, String, ◌≡◌, subst, Bool, true, false, Option, none, some, List, [], ◌∷◌, ◌++◌, refl,
}
use modality_ros.Prelude.Dict.{Value}
use modality_ros.Events.{RosEvent}
use modality_ros.Client.{Backend}
use modality_ros.Processor
use modality_ros.Processor.{MessageProcessor}
use modality_ros.Hooks.{Hooks, Context, receive}
use modality_ros.Hooks.Machine.{Hook, perform}
use modality_ros.System.{
  Worker, Process, Move, call, start, work, seen_by, returned, terminate, connect, start_worker,
  after_call, work_on, advance, proceed, run,
}

-- The state after an event was taken, whatever became of the processor.
abbrev pub received : MessageProcessor → Process → Process
received p s = record s {
  shared = record s.shared { channel = receive s.shared.channel };
  worker = Worker.running p;
}

module _ (P : Process → Type 0) where
  connect-Keeps :
      ((s : Process) → P s → P (record s { worker = Worker.running Processor.new }))
      → ((s : Process) → P s → P (terminate s))
      → (built connected : Bool) (s : Process) → P s
      → P (connect built connected s)
  unfolding connect
  connect-Keeps on_connect on_end true true s h = on_connect s h
  connect-Keeps on_connect on_end true false s h = on_end s h
  connect-Keeps on_connect on_end false connected s h = on_end s h

  pub start_worker-Keeps :
      ((s : Process) → P s → P (record s { worker = Worker.running Processor.new }))
      → ((s : Process) → P s → P (terminate s))
      → (w : Worker) (built connected : Bool) (s : Process) → P s
      → P (start_worker w built connected s)
  unfolding start_worker
  start_worker-Keeps on_connect on_end Worker.starting built connected s h =
      connect-Keeps on_connect on_end built connected s h
  start_worker-Keeps on_connect on_end (Worker.running p) built connected s h = h
  start_worker-Keeps on_connect on_end Worker.ended built connected s h = h

  pub after_call-Keeps :
      (t : ℕ) (s : Process) (r : Option Hooks)
      → Value (λ h. P (returned t s h)) r
      → Value P (after_call t s r)
  after_call-Keeps t s none h = tt
  after_call-Keeps t s (some _) h = h

  module _ (cx : Context) (backend : Backend) (run_id : String)
      (on_receive : (p : MessageProcessor) (s : Process) → P s → P (received p s)) where
    pub work_on-Keeps :
        (w : Worker) (queue : List RosEvent) (reading : Option ℕ) (s : Process)
        → P s
        → P (work_on cx backend run_id w queue reading s)
    unfolding work_on
    work_on-Keeps Worker.starting queue reading s h = h
    work_on-Keeps Worker.ended queue reading s h = h
    work_on-Keeps (Worker.running p) [] reading s h = h
    work_on-Keeps (Worker.running p) (e ∷ queue) reading s h = on_receive _ s h

    -- A condition that the calls of hooks keep, a connection, its failure, and the taking of an
    -- event, every move keeps.
    pub advance-Keeps :
        ((t : ℕ) (c : Hook) (s : Process)
          → P s
          → Value (λ h. P (returned t s h)) (perform cx c (seen_by t s)))
        → ((s : Process) → P s → P (record s { worker = Worker.running Processor.new }))
        → ((s : Process) → P s → P (terminate s))
        → (m : Move) (s : Process) → P s
        → Value P (advance cx backend run_id m s)
    unfolding advance
    advance-Keeps on_call on_connect on_end (call t c) s h =
        after_call-Keeps t s (perform cx c (seen_by t s)) (on_call t c s h)
    advance-Keeps on_call on_connect on_end (start built connected) s h =
        start_worker-Keeps on_connect on_end s.worker built connected s h
    advance-Keeps on_call on_connect on_end (work reading) s h =
        work_on-Keeps s.worker s.shared.channel.queue reading s h

module _ (cx : Context) (backend : Backend) (run_id : String) (P : Process → Type 0)
    (on_advance : (m : Move) (s : Process) → P s → Value P (advance cx backend run_id m s)) where
  proceed-Keeps :
      (moves : List Move) (r : Option Process)
      → Value P r
      → Value P (proceed cx backend run_id moves r)
  unfolding proceed
  proceed-Keeps [] r k = k
  proceed-Keeps (m ∷ moves) none k = tt
  proceed-Keeps (m ∷ moves) (some s) k =
      proceed-Keeps moves (advance cx backend run_id m s) (on_advance m s k)

  -- A condition on the state that every move keeps holds after any moves.
  pub run-Keeps :
      (moves : List Move) (s s' : Process) → P s → run cx backend run_id moves s ≡ some s' → P s'
  unfolding run
  run-Keeps moves s s' k e = subst (Value P) e (proceed-Keeps moves (some s) k)

module _ (cx : Context) (backend : Backend) (run_id : String) where
  pub proceed-append :
      (moves more : List Move) (r : Option Process)
      → proceed cx backend run_id (moves ++ more) r
        ≡ proceed cx backend run_id more (proceed cx backend run_id moves r)
  unfolding proceed
  proceed-append [] more r = refl
  proceed-append (m ∷ moves) [] none = refl
  proceed-append (m ∷ moves) (_ ∷ more) none = refl
  proceed-append (m ∷ moves) more (some s) =
      proceed-append moves more (advance cx backend run_id m s)
