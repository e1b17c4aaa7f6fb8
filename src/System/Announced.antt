-- ===== src/System/Announced.antt =====
-- The timelines of the events, whichever threads call the hooks (modality-ros-hook/src/hooks.rs).
use modality_ros.Prelude.{
  ℕ, String, ◌≡◌, sym, ap, subst, ◌∙◌, Option, none, some, List, [], ◌∷◌, ◌++◌, append_assoc,
  append-nil, ◌==◌, if-either, nat_eq,
}
use modality_ros.Prelude.Dict.{Value}
use modality_ros.Events.{RosEvent}
use modality_ros.Client.{Backend}
use modality_ros.Hooks.{Hooks, Context, Channel, try_send}
use modality_ros.Hooks.Machine.{Hook, perform}
use modality_ros.Hooks.Channels.{
  Intact, accepted, Intact-try_send, accepted-receive, Intact-receive,
}
use modality_ros.Hooks.Channels.Runs.{perform-Keeps}
use modality_ros.Hooks.Announced.{InOrder, Waiting, Tables, Waiting-append}
use modality_ros.Hooks.Announced.Rules.{Inv}
use modality_ros.Hooks.Announced.Runs.{perform-Inv}
use modality_ros.System
use modality_ros.System.{
  Worker, Process, Move, call, start, work, seen_by, returned, after_call, connect, start_worker,
  work_on, advance, run,
}
use modality_ros.Processor.{MessageProcessor}
use modality_ros.System.Moves.{received, advance-Keeps, run-Keeps}

-- Nothing was lost on the way to a later state of the channel, which has all that was there.
abbrev pub Grew : Channel → Channel → Type 0
Grew before ch =
    Intact ch → Intact before × ((new : List RosEvent) × (accepted ch ≡ accepted before ++ new))

Grew-send :
    (before : Channel) (capacity : ℕ) (e : RosEvent) (ch : Channel)
    → Grew before ch
    → Grew before (try_send capacity e ch)
Grew-send before capacity e ch h intact =
    let (intact_before, last) = Intact-try_send capacity e ch intact in
    let (whole, (new, more)) = h intact_before in
    (
      whole,
      (
        new ++ e ∷ [],
        last ∙ ap (λ l. l ++ e ∷ []) more ∙ append_assoc (accepted before) new (e ∷ []),
      ),
    )

pub perform-Grew :
    (cx : Context) (c : Hook) (h : Hooks) → Value (λ h'. Grew h.channel h'.channel) (perform cx c h)
perform-Grew cx c h =
    perform-Keeps cx (Grew h.channel) (Grew-send h.channel cx.config.buffer_size) c h
      λ intact. (intact, ([], sym (append-nil (accepted h.channel))))

-- What holds of the state as each thread sees it.
abbrev pub Seen : Process → Type 0
Seen s = (t : ℕ) → Inv (seen_by t s)

Seen-returned :
    (t : ℕ) (s : Process) (h : Hooks)
    → Seen s
    → Inv h
    → Grew s.shared.channel h.channel
    → Seen (returned t s h)
Seen-returned t s h seen inv grew u = λ intact.
    let (order, (n, p, b, v, c, w)) = inv intact in
    let (whole, (new, more)) = grew intact in
    let (_, (_, _, _, _, _, w')) = seen u whole in
    let w'' =
      if-either (Waiting (accepted h.channel)) (u == t) h.last_captured_message
        (s.last_captured_message u) w
        (subst (λ es. Waiting es (s.last_captured_message u)) (sym more)
          (Waiting-append (accepted s.shared.channel) new (s.last_captured_message u) w')) in
    (order, (n, p, b, v, c, w''))

Seen-call :
    (t : ℕ) (s : Process) (r : Option Hooks)
    → Seen s
    → Value Inv r
    → Value (λ h. Grew s.shared.channel h.channel) r
    → Value (λ h. Seen (returned t s h)) r
Seen-call t s none seen inv grew = tt
Seen-call t s (some h) seen inv grew = Seen-returned t s h seen inv grew

Seen-received : (p : MessageProcessor) (s : Process) → Seen s → Seen (received p s)
Seen-received p s seen t = λ intact.
    subst (λ es. InOrder [] es × Tables es (seen_by t s)) (sym (accepted-receive s.shared.channel))
      (seen t (Intact-receive s.shared.channel intact))

module _ (cx : Context) (backend : Backend) (run_id : String) where
  advance-Seen : (m : Move) (s : Process) → Seen s → Value Seen (advance cx backend run_id m s)
  advance-Seen =
      advance-Keeps Seen cx backend run_id Seen-received
        (λ t c s seen.
          Seen-call t s (perform cx c (seen_by t s)) seen (perform-Inv cx c (seen_by t s) (seen t))
            (perform-Grew cx c (seen_by t s)))
        (λ s seen. seen) (λ s seen t intact. cc (intact.0))

  -- After any moves of any threads: as long as no event was lost, every event that went into the
  -- channel is on the timeline of a node whose creation went in before it, or is that creation;
  -- and so it is for every entry of the tables and for the messages that wait for the clock on
  -- each thread.
  pub run-Seen :
      (moves : List Move) (s : Process)
      → run cx backend run_id moves System.unstarted ≡ some s
      → Intact s.shared.channel
      → (t : ℕ)
      → InOrder [] (accepted s.shared.channel) × Tables (accepted s.shared.channel) (seen_by t s)
  run-Seen moves s e intact t =
      run-Keeps cx backend run_id Seen advance-Seen moves System.unstarted s
        (λ t intact. (tt, (tt, tt, tt, tt, tt, tt))) e t intact
