-- ===== src/Processor/Protocol/Runs.antt =====
-- Whole runs of `message_loop`, from the new processor, against any client.
use modality_ros.Prelude.{
  ℕ, zero, suc, ◌+◌, ◌%◌, ◌^◌, String, ◌≡◌, refl, true, false, Option, none, some, List, [], ◌∷◌,
  arith, string_eq, ◌==◌, if◌then◌else◌,
}
use modality_ros.Prelude.Dict.{lookup}
use modality_ros.Api.{TimelineId, Kvs}
use modality_ros.Events.{RosEvent}
use modality_ros.Client.{Call, Backend}
use modality_ros.Client.Trace.{accepted}
use modality_ros.Processor.{MessageProcessor, new}
use modality_ros.Processor.Loop.{handle, message_loop}
use modality_ros.Processor.Triple.{Post}
use modality_ros.Processor.Protocol.{Lawful, Mirrors, Idle, Sent}
use modality_ros.Processor.Protocol.Handlers.{timeline_of, kvs_of, handle-Triple}

-- A handler that succeeds has had exactly one event accepted, its last call: on the event's
-- timeline, under the next number, with the event's attributes in order, each under the key that
-- its name was declared with. One that fails has had none accepted. Both keep the protocol.
pub handle-Sent :
    (backend : Backend) (run_id : String) (e : RosEvent) (reading : Option ℕ) (n : ℕ)
    (s : MessageProcessor)
    → Idle n s
    → Post
        (λ _. Sent (timeline_of e) n (kvs_of e reading))
        (Idle n)
        (handle backend run_id e reading s)
handle-Sent backend run_id e reading n s h = (handle-Triple backend run_id n e reading).at s h

abbrev pub succeeded : Option (Unit {0}) → ℕ
succeeded none = 0
succeeded (some _) = 1

-- How many of the events were handled without an error.
pub successes : Backend → String → List (RosEvent × Option ℕ) → MessageProcessor → ℕ
unfolding handle
successes backend run_id [] s = 0
successes backend run_id ((e, reading) ∷ events) s =
    let (r, s') = handle backend run_id e reading s in
    succeeded r + successes backend run_id events s'

abbrev pub OneMore : ℕ → Option (Unit {0}) × MessageProcessor → Type 0
OneMore n (r, s) = Idle (succeeded r + n) s

Post-OneMore :
    (t : TimelineId) (kvs : Kvs) (n : ℕ) (r : Option (Unit {0}) × MessageProcessor)
    → Post (λ _. Sent t n kvs) (Idle n) r
    → OneMore n r
Post-OneMore t kvs n (none, s) h = record { mirrors = h.mirrors; count = omega (arith, h.count) }
Post-OneMore t kvs n (some _, s) h = record { mirrors = h.mirrors; count = omega (arith, h.count) }

module _ (backend : Backend) (run_id : String) where
  message_loop-Idle :
      (events : List (RosEvent × Option ℕ)) (n : ℕ) (s : MessageProcessor)
      → Idle n s
      → Idle (n + successes backend run_id events s) (message_loop backend run_id events s)
  unfolding message_loop successes
  message_loop-Idle [] n s h = record { mirrors = h.mirrors; count = omega (arith, h.count) }
  message_loop-Idle ((e, reading) ∷ events) n s h =
      let (r, s') = handle backend run_id e reading s in
      let one =
        Post-OneMore (timeline_of e) (kvs_of e reading) n (handle backend run_id e reading s)
          (handle-Sent backend run_id e reading n s h) in
      let all = message_loop-Idle events (succeeded r + n) s' one in
      record { mirrors = all.mirrors; count = omega (arith, all.count) }

pub new-Idle : Idle 0 new
unfolding lookup
new-Idle = record {
  mirrors = record { cached = λ n. refl; current = refl; counted = refl; lawful = tt };
  count = refl;
}

module _ (backend : Backend) (run_id : String) (events : List (RosEvent × Option ℕ)) where
  -- Whatever the client answers, and whatever events come, the calls keep the protocol, and the
  -- processor's cache, open timeline and number are what its calls amount to.
  pub message_loop-Mirrors : Mirrors (message_loop backend run_id events new)
  message_loop-Mirrors = (message_loop-Idle backend run_id events 0 new new-Idle).mirrors

  -- As many events are accepted as were handled without an error.
  pub accepted-message_loop :
      accepted (message_loop backend run_id events new).calls ≡ successes backend run_id events new
  accepted-message_loop =
      omega (arith, (message_loop-Idle backend run_id events 0 new new-Idle).count)

-- The numbers of the accepted events, newest first.
abbrev pub numbers : List Call → List ℕ
numbers [] = []
numbers (Call.event o _ true ∷ cs) = o ∷ numbers cs
numbers (_ ∷ cs) = numbers cs

-- n - 1, ..., 1, 0, each as a `u128`.
abbrev pub count_down : ℕ → List ℕ
count_down zero = []
count_down (suc n) = n % 2 ^ 128 ∷ count_down n

Lawful-numbers : (cs : List Call) → Lawful cs → numbers cs ≡ count_down (accepted cs)
Lawful-numbers [] h = refl
Lawful-numbers (Call.event o attrs true ∷ cs) h = cc (h.0, Lawful-numbers cs h.3)
Lawful-numbers (Call.event o attrs false ∷ cs) h = Lawful-numbers cs h.3
Lawful-numbers (Call.declare_attr_key n r ∷ cs) h = Lawful-numbers cs h.1
Lawful-numbers (Call.open_timeline t true ∷ cs) h = Lawful-numbers cs h.1
Lawful-numbers (Call.open_timeline t false ∷ cs) h = Lawful-numbers cs h.1
Lawful-numbers (Call.timeline_metadata attrs ok ∷ cs) h = Lawful-numbers cs h.2

-- The accepted events of a run are numbered 0, 1, 2, ... in the order of their calls, with no gap
-- and no number twice (as `u128` numbers).
pub numbers-message_loop :
    (backend : Backend) (run_id : String) (events : List (RosEvent × Option ℕ))
    → let s = message_loop backend run_id events new in
      numbers s.calls ≡ count_down (successes backend run_id events new)
numbers-message_loop backend run_id events = rw (← accepted-message_loop backend run_id events) (
    Lawful-numbers (message_loop backend run_id events new).calls
      (message_loop-Mirrors backend run_id events).lawful)

-- How often the name was declared and got a key.
abbrev pub declarations : String → List Call → ℕ
declarations n [] = 0
declarations n (Call.declare_attr_key m (some _) ∷ cs) =
    (if n == m then 1 else 0) + declarations n cs
declarations n (_ ∷ cs) = declarations n cs
