-- ===== src/System/Publication.antt =====
-- A publication, from the thread that publishes to the client (modality-ros-hook/src/hooks.rs,
-- modality-ros-hook/src/message_processor.rs).
use modality_ros.Prelude.{
  ℕ, suc, ◌+◌, ◌≤◌, ◌<◌, String, ◌≡◌, ◌≢◌, refl, sym, ap, subst, ◌∙◌, true, false, Option, none,
  some, List, [], ◌∷◌, ◌++◌, append-nil, append_assoc, map, length, length-append, All, ltb,
  if-true, if-false, nat_eq, arith,
}
use modality_ros.Prelude.Dict.{lookup}
use modality_ros.Events.{RosEvent, message, CapturedMessageWithTime}
use modality_ros.Client.{Backend}
use modality_ros.Memory.{Memory}
use modality_ros.Processor.{MessageProcessor}
use modality_ros.Processor.Delivery.{Delivered, reverse_append}
use modality_ros.Processor.Delivery.Success.{Willing}
use modality_ros.Hooks.{Hooks, Context, Channel, PublisherState, try_send, send}
use modality_ros.Hooks.Channels.{accepted}
use modality_ros.Hooks.Messages.{TimeSpec, send_all}
use modality_ros.Hooks.Machine
use modality_ros.Hooks.Publications.{publications}
use modality_ros.System
use modality_ros.System.{Worker, Process, Move, call, work, advance, proceed, run}
use modality_ros.System.Moves.{proceed-append}
use modality_ros.System.Handling.{Handles, run-Handles}
use modality_ros.System.Delivery.{run-Delivered}
use modality_ros.System.Threads.{NotOf, publish-elsewhere}

less : (a b : ℕ) → a < b → ltb a b ≡ true
less a b h = ground arith

length-map : {A B : Type 0} (f : A → B) (l : List A) → length (map f l) ≡ length l
length-map f [] = refl
length-map f (a ∷ l) = ap suc (length-map f l)

-- The channel with more events at the end of its queue.
abbrev queued : List RosEvent → Channel → Channel
queued es ch = record ch { queue = ch.queue ++ es }

-- An event goes in where there is room.
try_send-room :
    (capacity : ℕ) (e : RosEvent) (ch : Channel)
    → ch.closed ≡ false
    → length ch.queue < capacity
    → try_send capacity e ch ≡ queued (e ∷ []) ch
unfolding try_send
try_send-room capacity e ch c room =
    if-false ch.closed ch _ c
    ∙ if-true (ltb (length ch.queue) capacity) _ _ (less (length ch.queue) capacity room)

send_all-room :
    (cx : Context) (msgs : List CapturedMessageWithTime) (h : Hooks)
    → h.channel.closed ≡ false
    → length h.channel.queue + length msgs ≤ cx.config.buffer_size
    → (send_all cx msgs h).channel ≡ queued (map message msgs) h.channel
unfolding send_all send
send_all-room cx [] h c room = λ i. record h.channel { queue = sym (append-nil h.channel.queue) i }
send_all-room cx (m ∷ msgs) h c room =
    let sent = try_send-room cx.config.buffer_size (message m) h.channel c (omega (arith, room)) in
    let longer : length (send cx (message m) h).channel.queue + length msgs
        ≤ cx.config.buffer_size =
      subst (λ ch. length ch.queue + length msgs ≤ cx.config.buffer_size) (sym sent)
        (omega (arith, room, length-append h.channel.queue (message m ∷ []))) in
    send_all-room cx msgs (send cx (message m) h) (ap (λ ch. ch.closed) sent ∙ c) longer
    ∙ ap (queued (map message msgs)) sent
    ∙ λ i. record h.channel {
      queue = append_assoc h.channel.queue (message m ∷ []) (map message msgs) i;
    }

module _ (cx : Context) (backend : Backend) (run_id : String) where
  -- The moves up to a state, and more after them.
  continued :
      (before moves : List Move) (m : Move) (s next s' : Process)
      → run cx backend run_id before System.unstarted ≡ some s
      → advance cx backend run_id m s ≡ some next
      → run cx backend run_id moves next ≡ some s'
      → run cx backend run_id (before ++ m ∷ moves) System.unstarted ≡ some s'
  unfolding run proceed
  continued before moves m s next s' at_s at_next at_s' =
      proceed-append cx backend run_id before (m ∷ moves) (some System.unstarted)
      ∙ ap (proceed cx backend run_id (m ∷ moves)) at_s
      ∙ ap (proceed cx backend run_id moves) at_next
      ∙ at_s'

  -- A message that a thread publishes reaches the client. The process has come to a state in any
  -- way, where a thread publishes a message of a registered publisher; then other threads call
  -- hooks and the spawned thread works as they like, then the thread reads the wall clock. If the
  -- spawned thread runs, the channel has room for the events of the publication, and the client
  -- refuses nothing, then after as many rounds as events wait with them, the client has been told,
  -- in order, of all that went into the channel before and then of exactly the events of the
  -- publication.
  pub publish-Delivered :
      (before moves : List Move) (t pub_ptr : ℕ) (mem : Memory) (message_ptr : ℕ)
      (p : PublisherState) (wall : TimeSpec) (readings : List (Option ℕ)) (s captured s' : Process)
      (worker : MessageProcessor)
      → Willing backend
      → pub_ptr ≢ 0
      → message_ptr ≢ 0
      → run cx backend run_id before System.unstarted ≡ some s
      → lookup pub_ptr s.shared.publishers ≡ some p
      → advance cx backend run_id (call t (Machine.publish pub_ptr mem message_ptr)) s
        ≡ some captured
      → All (NotOf t) moves
      → run cx backend run_id moves captured ≡ some s'
      → s'.worker ≡ Worker.running worker
      → length s'.shared.channel.queue + length (publications cx p mem message_ptr wall)
        ≤ cx.config.buffer_size
      → length readings
        ≡ length s'.shared.channel.queue + length (publications cx p mem message_ptr wall)
      → (end : Process) × (worker' : MessageProcessor) × (events : List (RosEvent × Option ℕ))
        × (run cx backend run_id (call t (Machine.clock_gettime 0 wall) ∷ map work readings) s'
            ≡ some end)
        × (end.worker ≡ Worker.running worker')
        × (map (λ x. x.0) events
            ≡ accepted s'.shared.channel ++ map message (publications cx p mem message_ptr wall))
        × Delivered worker'.calls (reverse_append events [])
  unfolding run proceed
  publish-Delivered before moves t pub_ptr mem message_ptr p wall readings s captured s' worker
        willing np nm at_s found at_captured others at_s' running room enough =
      let events_of = publications cx p mem message_ptr wall in
      let reached =
        continued before moves (call t (Machine.publish pub_ptr mem message_ptr)) s captured s' at_s
          at_captured at_s' in
      let (_, open_still) =
        subst (λ w. Handles backend run_id w s'.shared.channel) running
          (run-Handles cx backend run_id _ s' reached) in
      let (after, clock, shared, same_worker, _, _) =
        publish-elsewhere cx backend run_id t pub_ptr mem message_ptr p wall moves s captured s'
          (suc t) np nm found at_captured (λ e. omega (arith, e)) others at_s' in
      let grown : after.shared.channel ≡ queued (map message events_of) s'.shared.channel =
        ap (λ h. h.channel) shared
        ∙ send_all-room cx events_of (record s'.shared { last_captured_message = none }) open_still
            room in
      let waiting : length readings ≡ length after.shared.channel.queue =
        enough
        ∙ sym (
            ap (λ ch. length ch.queue) grown
            ∙ length-append s'.shared.channel.queue (map message events_of)
            ∙ ap (λ n. length s'.shared.channel.queue + n) (length-map message events_of)) in
      let (end, worker', events, ran, _, still_running, taken, told) =
        run-Delivered cx backend run_id _ readings after worker willing
          (continued _ [] (call t (Machine.clock_gettime 0 wall)) s' after after reached clock refl)
          (same_worker ∙ running) waiting in
      (
        end,
        worker',
        events,
        ap (proceed cx backend run_id (map work readings)) clock ∙ ran,
        still_running,
        taken
            ∙ ap accepted grown
            ∙ sym (
                append_assoc s'.shared.channel.received s'.shared.channel.queue
                  (map message events_of)),
        told,
      )
