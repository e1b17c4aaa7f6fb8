-- ===== src/System/Bound.antt =====
-- How many events wait, whichever threads call the hooks (modality-ros-hook/src/hooks.rs).
use modality_ros.Prelude.{ℕ, String, ◌≤◌, ◌≡◌, some, List, length, arith}
use modality_ros.Client.{Backend}
use modality_ros.Hooks.{Context}
use modality_ros.Hooks.Channels.{try_send_bound, receive_bound}
use modality_ros.Hooks.Channels.Runs.{perform-Keeps}
use modality_ros.System
use modality_ros.System.{Process, Move, seen_by, run}
use modality_ros.System.Moves.{advance-Keeps, run-Keeps}

abbrev Fits : ℕ → Process → Type 0
Fits capacity s = length s.shared.channel.queue ≤ capacity

-- After any moves of any threads, no more events wait in the channel than the buffer size.
pub length-run :
    (cx : Context) (backend : Backend) (run_id : String) (moves : List Move) (s : Process)
    → run cx backend run_id moves System.unstarted ≡ some s
    → length s.shared.channel.queue ≤ cx.config.buffer_size
length-run cx backend run_id moves s e =
    let capacity = cx.config.buffer_size in
    run-Keeps cx backend run_id (Fits capacity)
      (advance-Keeps (Fits capacity) cx backend run_id
        (λ p s h. receive_bound capacity s.shared.channel h)
        (λ t c s h.
          perform-Keeps cx (λ ch. length ch.queue ≤ capacity) (try_send_bound capacity) c
            (seen_by t s) h)
        (λ s h. h) (λ s h. h))
      moves System.unstarted s (omega arith) e
