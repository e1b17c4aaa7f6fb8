-- ===== src/Tests/System.antt =====
-- Two threads of an application, and the thread of the processor.
use modality_ros.Prelude.{
  ◌≤◌, ◌++◌, ℕ, ◌≡◌, refl, true, Option, none, some, List, [], ◌∷◌, map, length, arith, nat_eq,
  string_eq,
}
use modality_ros.Prelude.Dict.{lookup}
use modality_ros.Events.{RosEvent}
use modality_ros.Processor.{MessageProcessor}
use modality_ros.Processor
use modality_ros.Processor.Loop.{message_loop}
use modality_ros.Processor.Delivery.{Delivered, delivered, reverse_append, message_loop-Delivered}
use modality_ros.Processor.Delivery.Success.{Willing}
use modality_ros.Schema.Convert.{array_member}
use modality_ros.Schema.Flatten.{from_nested_members}
use modality_ros.Hooks.{PublisherState}
use modality_ros.Hooks.Channels.{accepted}
use modality_ros.Hooks.Machine
use modality_ros.Hooks.Messages.{send_all}
use modality_ros.Hooks.Announced.{InOrder, Tables}
use modality_ros.Hooks.Publications.{publications}
use modality_ros.System
use modality_ros.System.{Process, Worker, Move, call, start, work, seen_by, advance, run}
use modality_ros.System.Handling.{Handles, run-Handles}
use modality_ros.System.Announced.{run-Seen}
use modality_ros.System.Delivery.{run-Delivered}
use modality_ros.System.Threads.{publish-elsewhere}
use modality_ros.System.Bound.{length-run}
use modality_ros.System.Publication.{publish-Delivered}
use modality_ros.Events.{message}
use modality_ros.Tests.Data.{willing, eventless, events}
use modality_ros.Tests.Schema.{pose}
use modality_ros.Tests.Hooks.{context, nothing_there, wall, publisher_or}

message_loop-Delivered_example :
    Delivered
      (message_loop eventless "run" events Processor.new).calls
      (delivered eventless "run" events Processor.new [])
message_loop-Delivered_example = message_loop-Delivered eventless "run" events

abbrev moves : List Move
moves =
    call 1 (Machine.create_node "talker" "/" 100 7 (some 50))
    ∷ start true true
    ∷ call 2 (Machine.create_publisher 100 200 pose "/pose " (some (1 ∷ [])) (some 51))
    ∷ work (some 52)
    ∷ []

abbrev process_or : Option Process → Process
process_or none = System.unstarted
process_or (some s) = s

abbrev reached : Process
unfolding run
reached = process_or (run context willing "run" moves System.unstarted)

abbrev processor_of : Worker → MessageProcessor
processor_of (Worker.running p) = p
processor_of Worker.starting = Processor.new
processor_of Worker.ended = Processor.new

abbrev processor : MessageProcessor
unfolding reached
processor = processor_of reached.worker

run-Handles_example : Handles willing "run" reached.worker reached.shared.channel
unfolding run reached advance array_member from_nested_members
run-Handles_example = run-Handles context willing "run" moves reached refl

run-Seen_example :
    InOrder [] (accepted reached.shared.channel)
    × Tables (accepted reached.shared.channel) (seen_by 2 reached)
unfolding run reached advance array_member from_nested_members
run-Seen_example = run-Seen context willing "run" moves reached refl (refl, refl) 2

willing-Willing : Willing willing
willing-Willing = record {
  declares = λ cs name. (length cs, refl);
  opens = λ cs t. refl;
  describes = λ cs attrs. refl;
  accepts = λ cs o attrs. refl;
}

run-Delivered_example :
    (s : Process) × (p : MessageProcessor) × (events : List (RosEvent × Option ℕ)) × (run context
        willing "run"
        (map work (none ∷ []))
        reached
      ≡ some s)
    × (s.shared.channel.queue ≡ [])
    × (s.worker ≡ Worker.running p)
    × (map (λ x. x.0) events ≡ accepted reached.shared.channel)
    × Delivered p.calls (reverse_append events [])
unfolding run reached processor advance array_member from_nested_members
run-Delivered_example =
    run-Delivered context willing "run" moves (none ∷ []) reached processor willing-Willing refl
      refl refl

abbrev publisher : PublisherState
unfolding reached lookup nat_eq
publisher = publisher_or (lookup 200 reached.shared.publishers)

abbrev held_up : Process
unfolding advance reached
held_up =
    process_or
      (advance context willing "run" (call 2 (Machine.publish 200 nothing_there 4000)) reached)

-- The other thread publishes and reads the clock, and the processor works.
abbrev meanwhile : List Move
meanwhile =
    call 1 (Machine.publish 200 nothing_there 5000)
    ∷ work none
    ∷ call 1 (Machine.clock_gettime 0 wall)
    ∷ []

abbrev resumed : Process
unfolding run held_up
resumed = process_or (run context willing "run" meanwhile held_up)

publish-elsewhere_example :
    (after : Process) × (advance context willing "run"
        (call 2 (Machine.clock_gettime 0 wall))
        resumed
      ≡ some after)
    × (after.shared
        ≡ send_all context
            (publications context publisher nothing_there 4000 wall)
            (record resumed.shared { last_captured_message = none }))
    × (after.worker ≡ resumed.worker)
    × (after.last_captured_message 2 ≡ none)
    × (after.last_captured_message 1 ≡ resumed.last_captured_message 1)
unfolding run reached publisher held_up resumed advance array_member from_nested_members
publish-elsewhere_example =
    publish-elsewhere context willing "run" 2 200 nothing_there 4000 publisher wall meanwhile
      reached held_up resumed 1 (λ e. omega (arith, e)) (λ e. omega (arith, e)) refl refl
      (λ e. omega (arith, e)) ((λ e. omega (arith, e)), (tt, ((λ e. omega (arith, e)), tt))) refl

length-run_example : length reached.shared.channel.queue ≤ 2
unfolding run reached advance array_member from_nested_members
length-run_example = length-run context willing "run" moves reached refl

abbrev resumed_processor : MessageProcessor
unfolding resumed
resumed_processor = processor_of resumed.worker

publish-Delivered_example :
    (end : Process) × (p : MessageProcessor) × (events : List (RosEvent × Option ℕ)) × (run context
        willing "run"
        (call 2 (Machine.clock_gettime 0 wall) ∷ map work (none ∷ none ∷ []))
        resumed
      ≡ some end)
    × (end.worker ≡ Worker.running p)
    × (map (λ x. x.0) events
        ≡ accepted resumed.shared.channel
          ++ map message (publications context publisher nothing_there 4000 wall))
    × Delivered p.calls (reverse_append events [])
unfolding run reached publisher held_up resumed resumed_processor advance array_member
    from_nested_members
publish-Delivered_example =
    publish-Delivered context willing "run" moves meanwhile 2 200 nothing_there 4000 publisher wall
      (none ∷ none ∷ []) reached held_up resumed resumed_processor willing-Willing
      (λ e. omega (arith, e)) (λ e. omega (arith, e)) refl refl refl
      ((λ e. omega (arith, e)), (tt, ((λ e. omega (arith, e)), tt))) refl refl (omega arith) refl
