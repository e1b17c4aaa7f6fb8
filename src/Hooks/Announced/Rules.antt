-- ===== src/Hooks/Announced/Rules.antt =====
-- What the parts of the hooks keep (modality-ros-hook/src/hooks.rs): a sending, and a change of a table.
use modality_ros.Prelude.{
  sym, subst, Option, none, some, List, [], ◌∷◌, ◌++◌, nat_eq, All, All-mono,
}
use modality_ros.Prelude.Dict.{Value}
use modality_ros.Events.{RosEvent, message, CapturedMessageWithTime}
use modality_ros.Hooks.{Hooks, Context, send, send_found}
use modality_ros.Hooks.Messages.{send_all}
use modality_ros.Hooks.Channels.{Intact, accepted, Intact-try_send}
use modality_ros.Hooks.Announced.{
  timeline_of, Known, InOrder, Tables, Known-append, InOrder-last, Tables-append,
}

-- As long as nothing was lost, the events are in order, and the tables are of known timelines.
abbrev pub Inv : Hooks → Type 0
Inv h = Intact h.channel → InOrder [] (accepted h.channel) × Tables (accepted h.channel) h

-- The timeline is known, as long as nothing was lost.
abbrev pub IsKnown : Hooks → RosEvent → Type 0
IsKnown h e = Intact h.channel → Known (accepted h.channel) (timeline_of e)

module _ (cx : Context) where
  -- Before a sending: all that is known once the event is accepted.
  pub send-Inv_with :
      (e : RosEvent) (h : Hooks)
      → (Intact h.channel
          → InOrder [] (accepted h.channel)
            × Tables (accepted h.channel ++ e ∷ []) h
            × Known (accepted h.channel ++ e ∷ []) (timeline_of e))
      → Inv (send cx e h)
  unfolding send
  send-Inv_with e h pre intact =
      let (before, same) = Intact-try_send cx.config.buffer_size e h.channel intact in
      let (order, tables, known) = pre before in
      subst (λ es. InOrder [] es × Tables es h) (sym same)
        (InOrder-last [] (accepted h.channel) e order known, tables)

  pub send-Inv : (e : RosEvent) (h : Hooks) → Inv h → IsKnown h e → Inv (send cx e h)
  send-Inv e h inv known = send-Inv_with e h λ intact. (
    (inv intact).0,
    Tables-append (accepted h.channel) (e ∷ []) h (inv intact).1,
    Known-append (accepted h.channel) (e ∷ []) (timeline_of e) (known intact),
  )

  pub send_found-Inv :
      {A : Type 0} (o : Option A) (f : A → RosEvent) (h : Hooks)
      → Inv h
      → (Intact h.channel → Value (λ a. Known (accepted h.channel) (timeline_of (f a))) o)
      → Inv (send_found cx o f h)
  unfolding send_found
  send_found-Inv none f h inv known = inv
  send_found-Inv (some a) f h inv known = send-Inv (f a) h inv known

  AllKnown : Hooks → List CapturedMessageWithTime → Type 0
  AllKnown h msgs =
      All (λ (m : CapturedMessageWithTime). Known (accepted h.channel) m.msg.node_timeline_id) msgs

  send-AllKnown :
      (m : CapturedMessageWithTime) (msgs : List CapturedMessageWithTime) (h : Hooks)
      → (Intact h.channel → AllKnown h msgs)
      → Intact (send cx (message m) h).channel
      → AllKnown (send cx (message m) h) msgs
  unfolding send AllKnown
  send-AllKnown m msgs h known intact =
      let (before, same) = Intact-try_send cx.config.buffer_size (message m) h.channel intact in
      subst (λ es. All (λ (n : CapturedMessageWithTime). Known es n.msg.node_timeline_id) msgs)
        (sym same)
        (All-mono _ _ msgs
          (λ n. Known-append (accepted h.channel) (message m ∷ []) n.msg.node_timeline_id)
          (known before))

  pub send_all-Inv :
      (msgs : List CapturedMessageWithTime) (h : Hooks)
      → Inv h
      → (Intact h.channel
          → All
              (λ (m : CapturedMessageWithTime). Known (accepted h.channel) m.msg.node_timeline_id)
              msgs)
      → Inv (send_all cx msgs h)
  unfolding send_all AllKnown timeline_of
  send_all-Inv [] h inv known = inv
  send_all-Inv (m ∷ msgs) h inv known =
      send_all-Inv msgs (send cx (message m) h)
        (send-Inv (message m) h inv λ intact. (known intact).0)
        (send-AllKnown m msgs h λ intact. (known intact).1)
