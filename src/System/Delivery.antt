-- ===== src/System/Delivery.antt =====
-- What becomes of the events in the channel (modality-ros-hook/src/hooks.rs,
-- modality-ros-hook/src/message_processor.rs).
use modality_ros.Prelude.{
  ℕ, String, ◌≡◌, refl, sym, ap, subst, ◌∙◌, Option, some, List, [], ◌∷◌, ◌++◌, append-nil, map,
  length, arith,
}
use modality_ros.Events.{RosEvent}
use modality_ros.Client.{Backend}
use modality_ros.Processor.{MessageProcessor}
use modality_ros.Processor.Loop.{handle}
use modality_ros.Processor.Delivery.{Delivered, reverse_append, message_loop-Delivered_all}
use modality_ros.Processor.Delivery.Success.{Willing}
use modality_ros.Hooks.{Context}
use modality_ros.Hooks.Channels.{accepted, accepted-receive}
use modality_ros.System
use modality_ros.System.Moves.{proceed-append}
use modality_ros.System.{Worker, Process, Move, work, work_on, advance, proceed, run}
use modality_ros.System.Handling.{receive-queue, Handles, run-Handles}

-- Nothing is left in the channel, nothing of it was lost, and the thread still runs.
record Drained (s s' : Process) : Type 0 where
  nothing_left : s'.shared.channel.queue ≡ []
  all_there : accepted s'.shared.channel ≡ accepted s.shared.channel
  processor : MessageProcessor
  still_running : s'.worker ≡ Worker.running processor

module _ (cx : Context) (backend : Backend) (run_id : String) where
  Drains : List (Option ℕ) → Process → Type 0
  Drains readings s =
      (s' : Process) × (proceed cx backend run_id (map work readings) (some s) ≡ some s')
      × Drained s s'

  -- A round that takes an event, and what is drained after it.
  round :
      (e : RosEvent) (queue : List RosEvent) (reading : Option ℕ) (readings : List (Option ℕ))
      (s : Process) (p : MessageProcessor)
      → s.worker ≡ Worker.running p
      → s.shared.channel.queue ≡ e ∷ queue
      → Drains readings (work_on cx backend run_id (Worker.running p) (e ∷ queue) reading s)
      → Drains (reading ∷ readings) s
  unfolding Drains proceed advance work_on
  round e queue reading readings s p at_w at_q (s', ends, d) =
      let taken : work_on cx backend run_id s.worker s.shared.channel.queue reading s
          ≡ work_on cx backend run_id (Worker.running p) (e ∷ queue) reading s =
        λ i. work_on cx backend run_id (at_w i) (at_q i) reading s in
      (
        s',
        ap (λ x. proceed cx backend run_id (map work readings) (some x)) taken ∙ ends,
        record {
          nothing_left = d.nothing_left;
          all_there = d.all_there ∙ accepted-receive s.shared.channel;
          processor = d.processor;
          still_running = d.still_running;
        },
      )

  drain :
      (readings : List (Option ℕ)) (queue : List RosEvent) (s : Process) (p : MessageProcessor)
      → s.worker ≡ Worker.running p
      → s.shared.channel.queue ≡ queue
      → length readings ≡ length queue
      → Drains readings s
  unfolding Drains proceed work_on
  drain [] [] s p at_w at_q l = (
    s,
    refl,
    record { nothing_left = at_q; all_there = refl; processor = p; still_running = at_w },
  )
  drain [] (e ∷ queue) s p at_w at_q l = absurd (omega (arith, l))
  drain (reading ∷ readings) [] s p at_w at_q l = absurd (omega (arith, l))
  drain (reading ∷ readings) (e ∷ queue) s p at_w at_q l =
      round e queue reading readings s p at_w at_q (
        drain readings queue (work_on cx backend run_id (Worker.running p) (e ∷ queue) reading s)
          (handle backend run_id e reading p).1 refl
          (ap (λ ch. ch.queue) (receive-queue s.shared.channel e queue at_q)) (omega (arith, l)))

  -- However the moves went before: if the spawned thread runs, then after as many rounds of it as
  -- events wait, none waits, and a client that refuses nothing has been told of every event that
  -- ever went into the channel, in the order in which they went in, and of nothing else.
  pub run-Delivered :
      (moves : List Move) (readings : List (Option ℕ)) (s : Process) (p : MessageProcessor)
      → Willing backend
      → run cx backend run_id moves System.unstarted ≡ some s
      → s.worker ≡ Worker.running p
      → length readings ≡ length s.shared.channel.queue
      → (s' : Process) × (p' : MessageProcessor) × (events : List (RosEvent × Option ℕ)) × (run cx
            backend run_id
            (map work readings)
            s
          ≡ some s')
        × (s'.shared.channel.queue ≡ [])
        × (s'.worker ≡ Worker.running p')
        × (map (λ x. x.0) events ≡ accepted s.shared.channel)
        × Delivered p'.calls (reverse_append events [])
  unfolding run Drains
  run-Delivered moves readings s p willing e at_w l =
      let (s', ends, d) = drain readings s.shared.channel.queue s p at_w refl l in
      let whole : run cx backend run_id (moves ++ map work readings) System.unstarted ≡ some s' =
        proceed-append cx backend run_id moves (map work readings) (some System.unstarted)
        ∙ ap (proceed cx backend run_id (map work readings)) e
        ∙ ends in
      let ((events, taken, at), _) =
        subst (λ w. Handles backend run_id w s'.shared.channel) d.still_running
          (run-Handles cx backend run_id (moves ++ map work readings) s' whole) in
      (
        s',
        d.processor,
        events,
        ends,
        d.nothing_left,
        d.still_running,
        taken
            ∙ sym (append-nil s'.shared.channel.received)
            ∙ ap (λ q. s'.shared.channel.received ++ q) (sym d.nothing_left)
            ∙ d.all_there,
        subst (λ q. Delivered q.calls (reverse_append events [])) (sym at)
            (message_loop-Delivered_all backend run_id willing events),
      )
