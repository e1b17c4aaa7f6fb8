-- ===== src/Hooks/Announced.antt =====
-- The timelines of the events that the hooks hand on (modality-ros-hook/src/hooks.rs), and the
-- creation of the nodes that they belong to.
pub mod Rules
pub mod Tables
pub mod Steps
pub mod Runs
use modality_ros.Prelude.{
  ◌≡◌, sym, subst, ap, Option, none, some, List, [], ◌∷◌, ◌++◌, append_assoc, append-nil, All,
  All-mono, ◌⊎◌, inl, inr,
}
use modality_ros.Prelude.Dict.{Values, Values-mono}
use modality_ros.Api.{TimelineId}
use modality_ros.Events.{RosEvent, message, service_event, rmw, create_node, CapturedMessage}
use modality_ros.Events.Rmw
use modality_ros.Hooks.{Hooks}

-- The timeline of an event.
abbrev pub timeline_of : RosEvent → TimelineId
unfolding Rmw.timeline_id
timeline_of (message m) = m.msg.node_timeline_id
timeline_of (service_event e) = e.timeline_id
timeline_of (rmw e) = Rmw.timeline_id e

-- The timeline of the node that an event says has been created.
abbrev pub created_by : RosEvent → Option TimelineId
created_by (rmw (create_node _ _ t _)) = some t
created_by _ = none

-- One of the events says that the node with this timeline has been created.
abbrev pub Known : List RosEvent → TimelineId → Type 0
Known [] t = ⊥
Known (e ∷ es) t = (created_by e ≡ some t) ⊎ Known es t

-- Every event, after those of the past, is on the timeline of a node whose creation comes before
-- it, or is the event.
abbrev pub InOrder : List RosEvent → List RosEvent → Type 0
InOrder past [] = Unit
InOrder past (e ∷ es) = Known (past ++ e ∷ []) (timeline_of e) × InOrder (past ++ e ∷ []) es

-- All that waits for the clock has a known timeline.
abbrev pub Waiting : List RosEvent → Option (List CapturedMessage) → Type 0
Waiting es none = Unit
Waiting es (some msgs) = All (λ (m : CapturedMessage). Known es m.node_timeline_id) msgs

-- Every entry of the tables, and every message that waits, is of a node whose creation is among
-- the events.
abbrev pub Tables : List RosEvent → Hooks → Type 0
Tables es h =
    Values (λ n. Known es n.timeline_id) h.nodes
    × Values (λ p. Known es p.node_timeline_id) h.publishers
    × Values (λ s. Known es s.node_timeline_id) h.subscriptions
    × Values (λ s. Known es s.node_timeline_id) h.services
    × Values (λ c. Known es c.node_timeline_id) h.clients
    × Waiting es h.last_captured_message

pub Known-append : (es more : List RosEvent) (t : TimelineId) → Known es t → Known (es ++ more) t
Known-append [] more t h = absurd h
Known-append (e ∷ es) more t (inl h) = inl h
Known-append (e ∷ es) more t (inr h) = inr (Known-append es more t h)

pub Known-last :
    (es : List RosEvent) (e : RosEvent) (t : TimelineId)
    → created_by e ≡ some t
    → Known (es ++ e ∷ []) t
Known-last [] e t h = inl h
Known-last (e' ∷ es) e t h = inr (Known-last es e t h)

pub InOrder-last :
    (past es : List RosEvent) (e : RosEvent)
    → InOrder past es
    → Known (past ++ es ++ e ∷ []) (timeline_of e)
    → InOrder past (es ++ e ∷ [])
InOrder-last past [] e h k =
    (subst (λ l. Known (l ++ e ∷ []) (timeline_of e)) (append-nil past) k, tt)
InOrder-last past (e' ∷ es) e h k = (
  h.0,
  InOrder-last (past ++ e' ∷ []) es e h.1
      (subst (λ l. Known (l ++ e ∷ []) (timeline_of e)) (sym (append_assoc past (e' ∷ []) es)) k),
)

pub Waiting-append :
    (es more : List RosEvent) (w : Option (List CapturedMessage))
    → Waiting es w
    → Waiting (es ++ more) w
Waiting-append es more none h = tt
Waiting-append es more (some msgs) h =
    All-mono _ _ msgs (λ m. Known-append es more m.node_timeline_id) h

pub Tables-append : (es more : List RosEvent) (h : Hooks) → Tables es h → Tables (es ++ more) h
Tables-append es more h (n, p, s, v, c, w) = (
  Values-mono _ _ h.nodes (λ n. Known-append es more n.timeline_id) n,
  Values-mono _ _ h.publishers (λ p. Known-append es more p.node_timeline_id) p,
  Values-mono _ _ h.subscriptions (λ s. Known-append es more s.node_timeline_id) s,
  Values-mono _ _ h.services (λ s. Known-append es more s.node_timeline_id) v,
  Values-mono _ _ h.clients (λ c. Known-append es more c.node_timeline_id) c,
  Waiting-append es more h.last_captured_message w,
)
