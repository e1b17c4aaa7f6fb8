-- ===== src/System/Threads.antt =====
-- What one thread publishes, while others call the hooks (LAST_CAPTURED_MESSAGE of
-- modality-ros-hook/src/hooks.rs).
use modality_ros.Prelude.{
  ==-same, ==-differ, ℕ, String, ◌≡◌, refl, sym, ap, subst, ◌∙◌, ◌≢◌, Option, none, some, List, [],
  ◌∷◌, map, All, ◌==◌, nat_eq, if-true, if-false,
}
use modality_ros.Prelude.Dict.{Value, lookup}
use modality_ros.Events.{CapturedMessage}
use modality_ros.Client.{Backend}
use modality_ros.Memory.{Memory}
use modality_ros.Schema.{flat_size}
use modality_ros.Hooks.{Hooks, Context, PublisherState}
use modality_ros.Hooks.Services.{bytes_at}
use modality_ros.Hooks.Messages.{
  TimeSpec, publication, stamped, send_all, before_publish, after_clock_gettime,
}
use modality_ros.Hooks.Machine
use modality_ros.Hooks.Machine.{Hook, perform}
use modality_ros.Hooks.Publications.{publications, capture, reading, send_all-last, map-map}
use modality_ros.System.Moves.{after_call-Keeps, start_worker-Keeps, work_on-Keeps}
use modality_ros.System.{Process, Move, call, start, work, seen_by, returned, advance, proceed, run}

-- The move is no call by the thread.
abbrev pub NotOf : ℕ → Move → Type 0
NotOf t (call u c) = t ≢ u
NotOf t (start built connected) = Unit
NotOf t (work reading) = Unit

abbrev Waits : ℕ → Option (List CapturedMessage) → Process → Type 0
Waits t w s = s.last_captured_message t ≡ w

Waits-call :
    (t u : ℕ) (w : Option (List CapturedMessage)) (s : Process) (r : Option Hooks)
    → t ≢ u
    → Waits t w s
    → Value (λ h. Waits t w (returned u s h)) r
Waits-call t u w s none differ h = tt
Waits-call t u w s (some h') differ h = if-false (t == u) _ _ (==-differ t u differ) ∙ h

-- The messages of a publication, that wait for the clock.
abbrev held : Context → PublisherState → Memory → ℕ → List CapturedMessage
held cx p mem message_ptr = map (publication p) (
    cx.interpreter.interpret_potentially_compound_message mem p.message_schema
      (bytes_at message_ptr (flat_size p.message_schema)))

emptied :
    (h : Hooks) → h.last_captured_message ≡ none → record h { last_captured_message = none } ≡ h
emptied h e = λ i. record h { last_captured_message = sym e i }

module _ (cx : Context) (t : ℕ) (p : PublisherState) (mem : Memory) (message_ptr : ℕ) where
  Waits-publish :
      (pub_ptr : ℕ) (s : Process)
      → pub_ptr ≢ 0
      → message_ptr ≢ 0
      → lookup pub_ptr s.shared.publishers ≡ some p
      → Waits t
          (some (held cx p mem message_ptr))
          (returned t s (before_publish cx pub_ptr mem message_ptr (seen_by t s)))
  Waits-publish pub_ptr s np nm found =
      if-true (t == t) _ _ (==-same t t refl)
      ∙ ap (λ h. h.last_captured_message)
          (capture cx pub_ptr mem message_ptr p (seen_by t s) np nm found)

  handed :
      (wall : TimeSpec) (s : Process)
      → Waits t (some (held cx p mem message_ptr)) s
      → after_clock_gettime cx 0 wall (seen_by t s)
        ≡ send_all cx
            (publications cx p mem message_ptr wall)
            (record s.shared { last_captured_message = none })
  unfolding stamped
  handed wall s waits =
      ap (λ w. after_clock_gettime cx 0 wall (record s.shared { last_captured_message = w })) waits
      ∙ reading cx wall (held cx p mem message_ptr) s.shared
      ∙ ap (λ msgs. send_all cx msgs (record s.shared { last_captured_message = none }))
          (map-map (stamped cx wall) (publication p) _)

module _ (cx : Context) (backend : Backend) (run_id : String) where
  -- A move that is no call by the thread leaves what waits on it.
  Waits-advance :
      (t : ℕ) (w : Option (List CapturedMessage)) (m : Move) (s : Process)
      → NotOf t m
      → Waits t w s
      → Value (Waits t w) (advance cx backend run_id m s)
  unfolding advance
  Waits-advance t w (call u c) s differ h =
      after_call-Keeps (Waits t w) u s (perform cx c (seen_by u s))
        (Waits-call t u w s (perform cx c (seen_by u s)) differ h)
  Waits-advance t w (start built connected) s _ h =
      start_worker-Keeps (Waits t w) (λ s h. h) (λ s h. h) s.worker built connected s h
  Waits-advance t w (work r) s _ h =
      work_on-Keeps (Waits t w) cx backend run_id (λ p s h. h) s.worker s.shared.channel.queue r s h

  Waits-proceed :
      (t : ℕ) (w : Option (List CapturedMessage)) (moves : List Move) (r : Option Process)
      → All (NotOf t) moves
      → Value (Waits t w) r
      → Value (Waits t w) (proceed cx backend run_id moves r)
  unfolding proceed
  Waits-proceed t w [] r others h = h
  Waits-proceed t w (m ∷ moves) none others h = tt
  Waits-proceed t w (m ∷ moves) (some s) others h =
      Waits-proceed t w moves (advance cx backend run_id m s) others.1
        (Waits-advance t w m s others.0 h)

  -- A thread publishes a message of a registered publisher. Whatever other threads call and the
  -- spawned thread does, the thread's next call, if it reads the wall clock, hands on the events of
  -- that publication, with the time of the reading, as they are of the message at the time of the
  -- publication; the spawned thread is where it was, nothing waits on this thread, and on any other
  -- all is as it was.
  pub publish-elsewhere :
      (t pub_ptr : ℕ) (mem : Memory) (message_ptr : ℕ) (p : PublisherState) (wall : TimeSpec)
      (moves : List Move) (s captured s' : Process) (u : ℕ)
      → pub_ptr ≢ 0
      → message_ptr ≢ 0
      → lookup pub_ptr s.shared.publishers ≡ some p
      → advance cx backend run_id (call t (Machine.publish pub_ptr mem message_ptr)) s
        ≡ some captured
      → u ≢ t
      → All (NotOf t) moves
      → run cx backend run_id moves captured ≡ some s'
      → (after : Process) × (advance cx backend run_id (call t (Machine.clock_gettime 0 wall)) s'
          ≡ some after)
        × (after.shared
            ≡ send_all cx
                (publications cx p mem message_ptr wall)
                (record s'.shared { last_captured_message = none }))
        × (after.worker ≡ s'.worker)
        × (after.last_captured_message t ≡ none)
        × (after.last_captured_message u ≡ s'.last_captured_message u)
  unfolding advance perform run
  publish-elsewhere t pub_ptr mem message_ptr p wall moves s captured s' u np nm found e differ
        others ran =
      let waiting : Waits t (some (held cx p mem message_ptr)) s' =
        subst (Value (Waits t (some (held cx p mem message_ptr)))) ran (
          Waits-proceed t (some (held cx p mem message_ptr)) moves (some captured) others (
            subst (Value (Waits t (some (held cx p mem message_ptr)))) e
              (Waits-publish cx t p mem message_ptr pub_ptr s np nm found))) in
      let sent = handed cx t p mem message_ptr wall s' waiting in
      let clear =
        ap (λ h. h.last_captured_message) sent
        ∙ send_all-last cx (publications cx p mem message_ptr wall)
            (record s'.shared { last_captured_message = none }) in
      (
        returned t s' (after_clock_gettime cx 0 wall (seen_by t s')),
        refl,
        emptied (after_clock_gettime cx 0 wall (seen_by t s')) clear ∙ sent,
        refl,
        if-true (t == t) _ _ (==-same t t refl) ∙ clear,
        if-false (u == t) _ _ (==-differ u t differ),
      )
