-- ===== src/Hooks/Channels.antt =====
-- The channel (modality-ros-hook/src/hooks.rs): when an event was lost, and the order of the others.
pub mod Runs
use modality_ros.Prelude.{
  ℕ, ◌+◌, ◌≤◌, ◌<◌, ◌≡◌, refl, sym, ap, ◌∙◌, Bool, true, false, List, [], ◌∷◌, ◌++◌, append_assoc,
  length, length-append, ltb, if◌then◌else◌, arith, Bool-cases, inl, inr, ◌⊎◌,
}
use modality_ros.Events.{RosEvent}
use modality_ros.Hooks.{Channel, try_send, receive}

-- Nothing was lost: the thread runs, and nothing was said of a full buffer.
abbrev pub Intact : Channel → Type 0
Intact ch = (ch.closed ≡ false) × (ch.printed_error ≡ false)

-- All events that went into the channel, in order.
abbrev pub accepted : Channel → List RosEvent
accepted ch = ch.received ++ ch.queue

offered : Bool → Bool → RosEvent → Channel → Channel
offered closed room e ch =
    if closed
    then ch
    else if room
    then record ch { queue = ch.queue ++ e ∷ [] }
    else record ch { printed_error = true }

Intact-offered :
    (closed room : Bool) (e : RosEvent) (ch : Channel)
    → ch.closed ≡ closed
    → Intact (offered closed room e ch)
    → Intact ch × (accepted (offered closed room e ch) ≡ accepted ch ++ e ∷ [])
unfolding offered
Intact-offered true room e ch c h = cc (c, h.0)
Intact-offered false true e ch c h = (h, sym (append_assoc ch.received ch.queue (e ∷ [])))
Intact-offered false false e ch c h = cc (h.1)

pub Intact-try_send :
    (capacity : ℕ) (e : RosEvent) (ch : Channel)
    → Intact (try_send capacity e ch)
    → Intact ch × (accepted (try_send capacity e ch) ≡ accepted ch ++ e ∷ [])
unfolding try_send offered
Intact-try_send capacity e ch h =
    Intact-offered ch.closed (ltb (length ch.queue) capacity) e ch refl h

received-receive :
    (received queue : List RosEvent) (closed printed : Bool)
    → accepted (
        receive
          (record { received = received; queue = queue; closed = closed; printed_error = printed }))
      ≡ received ++ queue
unfolding receive
received-receive received [] closed printed = refl
received-receive received (e ∷ queue) closed printed = append_assoc received (e ∷ []) queue

pub accepted-receive : (ch : Channel) → accepted (receive ch) ≡ accepted ch
accepted-receive ch = received-receive ch.received ch.queue ch.closed ch.printed_error

-- Taking an event loses none.
pub Intact-receive : (ch : Channel) → Intact (receive ch) → Intact ch
unfolding receive
Intact-receive ch = kept ch.received ch.queue ch.closed ch.printed_error
  where
    kept :
        (received queue : List RosEvent) (closed printed : Bool)
        → Intact (
            receive (record {
              received = received;
              queue = queue;
              closed = closed;
              printed_error = printed;
            }))
        → (closed ≡ false) × (printed ≡ false)
    kept received [] closed printed h = h
    kept received (e ∷ queue) closed printed h = h

-- What is in the channel waits in at most its capacity.
pub try_send_bound :
    (capacity : ℕ) (e : RosEvent) (ch : Channel)
    → length ch.queue ≤ capacity
    → length (try_send capacity e ch).queue ≤ capacity
unfolding try_send
try_send_bound capacity e ch h = ground (arith, length-append ch.queue (e ∷ []))

shorter :
    (received queue : List RosEvent) (closed printed : Bool) (capacity : ℕ)
    → length queue ≤ capacity
    → length
        (receive (record {
          received = received;
          queue = queue;
          closed = closed;
          printed_error = printed;
        })).queue
      ≤ capacity
unfolding receive
shorter received [] closed printed capacity h = h
shorter received (e ∷ queue) closed printed capacity h = omega arith

pub receive_bound :
    (capacity : ℕ) (ch : Channel)
    → length ch.queue ≤ capacity
    → length (receive ch).queue ≤ capacity
receive_bound capacity ch = shorter ch.received ch.queue ch.closed ch.printed_error capacity

-- An event that is offered goes in last, or not at all.
accepted-offered :
    (closed room : Bool) (e : RosEvent) (ch : Channel)
    → (accepted (offered closed room e ch) ≡ accepted ch)
      ⊎ (accepted (offered closed room e ch) ≡ accepted ch ++ e ∷ [])
unfolding offered
accepted-offered true room e ch = inl refl
accepted-offered false true e ch = inr (sym (append_assoc ch.received ch.queue (e ∷ [])))
accepted-offered false false e ch = inl refl

pub accepted-try_send :
    (capacity : ℕ) (e : RosEvent) (ch : Channel)
    → (accepted (try_send capacity e ch) ≡ accepted ch)
      ⊎ (accepted (try_send capacity e ch) ≡ accepted ch ++ e ∷ [])
unfolding try_send offered
accepted-try_send capacity e ch = accepted-offered ch.closed (ltb (length ch.queue) capacity) e ch
