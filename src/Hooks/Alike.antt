-- ===== src/Hooks/Alike.antt =====
-- Two states of the hooks (modality-ros-hook/src/hooks.rs) whose tables have the same entries,
-- in whatever order a hash map keeps them, and which parts of a state they differ in at most.
pub mod Steps
pub mod Messages
pub mod Runs
use modality_ros.Prelude.{
  ℕ, Bool, true, false, ◌≡◌, refl, subst, Option, none, some, length, nat_eq, if◌then◌else◌,
}
use modality_ros.Prelude.Dict.{Dict, lookup, insert, remove}
use modality_ros.Prelude.Dict.Same.{
  Same, Distinct, Same-insert, Same-remove, Distinct-insert, Distinct-remove, length-insert_same,
  length-remove_same,
}
use modality_ros.Events.{RosEvent}
use modality_ros.Schema.{FlatRosMessageSchema}
use modality_ros.Schema.Convert.{Outcome, done, nothing, fault}
use modality_ros.Hooks.{Hooks, Context, NodeState, PublisherState, send, send_found, try_send}
use modality_ros.Hooks.Registry.{with_node, with_schema, with_flat}

-- The publishers are counted, so no address stands twice and there are as many.
abbrev pub Counted : Dict ℕ PublisherState → Dict ℕ PublisherState → Type 0
Counted d d' = Same d d' × Distinct d × Distinct d' × (length d ≡ length d')

-- The same entries in every table, and all else the same.
abbrev pub Alike : Hooks → Hooks → Type 0
Alike h g =
    Same h.nodes g.nodes
    × Counted h.publishers g.publishers
    × Same h.subscriptions g.subscriptions
    × Same h.services g.services
    × Same h.clients g.clients
    × (h.last_captured_message ≡ g.last_captured_message)
    × (h.channel ≡ g.channel)

-- Both go on, in states that are alike, or both have stopped.
abbrev pub BothAlike : Option Hooks → Option Hooks → Type 0
BothAlike none none = Unit
BothAlike (some h) (some g) = Alike h g
BothAlike none (some _) = ⊥
BothAlike (some _) none = ⊥

pub Counted-insert :
    (k : ℕ) (v : PublisherState) (d d' : Dict ℕ PublisherState)
    → Counted d d'
    → Counted (insert k v d) (insert k v d')
Counted-insert k v d d' (same, u, u', l) = (
  Same-insert k v d d' same,
  Distinct-insert k v d u,
  Distinct-insert k v d' u',
  length-insert_same k v d d' same l,
)

pub Counted-remove :
    (k : ℕ) (d d' : Dict ℕ PublisherState) → Counted d d' → Counted (remove k d) (remove k d')
Counted-remove k d d' (same, u, u', l) = (
  Same-remove k d d' same,
  Distinct-remove k d u,
  Distinct-remove k d' u',
  length-remove_same k d d' same u u' l,
)

module _ (cx : Context) where
  pub Alike-send_equal :
      (e e' : RosEvent) (h g : Hooks) → e ≡ e' → Alike h g → Alike (send cx e h) (send cx e' g)
  unfolding send
  Alike-send_equal e e' h g equal (n, p, s, v, c, w, ch) =
      (n, p, s, v, c, w, λ i. try_send cx.config.buffer_size (equal i) (ch i))

  pub Alike-send : (e : RosEvent) (h g : Hooks) → Alike h g → Alike (send cx e h) (send cx e g)
  Alike-send e h g a = Alike-send_equal e e h g refl a

  send_found-Alike :
      {A : Type 0}
      → (o : Option A) (event : A → RosEvent) (h g : Hooks) → Alike h g
      → Alike (send_found cx o event h) (send_found cx o event g)
  unfolding send_found
  send_found-Alike none event h g a = a
  send_found-Alike (some x) event h g a = Alike-send (event x) h g a

  -- What is sent of an entry, when both tables have it or neither does
  pub Alike-send_found :
      {A : Type 0}
      → (o o' : Option A) (event : A → RosEvent) (h g : Hooks) → o ≡ o'
      → Alike h g
      → Alike (send_found cx o event h) (send_found cx o' event g)
  Alike-send_found o o' event h g same a =
      subst (λ x. Alike (send_found cx o event h) (send_found cx x event g)) same
        (send_found-Alike o event h g a)

with_node-Alike :
    (o : Option NodeState) (k k' : NodeState → Option Hooks) (h g : Hooks)
    → ((node : NodeState) → BothAlike (k node) (k' node))
    → Alike h g
    → BothAlike (with_node o k h) (with_node o k' g)
with_node-Alike none k k' h g f a = a
with_node-Alike (some node) k k' h g f a = f node

pub BothAlike-with_node :
    (o o' : Option NodeState) (k k' : NodeState → Option Hooks) (h g : Hooks)
    → o ≡ o'
    → ((node : NodeState) → BothAlike (k node) (k' node))
    → Alike h g
    → BothAlike (with_node o k h) (with_node o' k' g)
BothAlike-with_node o o' k k' h g same f a =
    subst (λ x. BothAlike (with_node o k h) (with_node x k' g)) same
      (with_node-Alike o k k' h g f a)

pub BothAlike-with_schema :
    {A : Type 0}
    → (o : Outcome A) (k k' : A → Option Hooks) (h g : Hooks) → ((a : A) → BothAlike (k a) (k' a))
    → Alike h g
    → BothAlike (with_schema o k h) (with_schema o k' g)
BothAlike-with_schema (done x) k k' h g f a = f x
BothAlike-with_schema nothing k k' h g f a = a
BothAlike-with_schema fault k k' h g f a = tt

pub BothAlike-with_flat :
    (o : Option FlatRosMessageSchema) (k k' : FlatRosMessageSchema → Option Hooks)
    → ((flat : FlatRosMessageSchema) → BothAlike (k flat) (k' flat))
    → BothAlike (with_flat o k) (with_flat o k')
BothAlike-with_flat none k k' f = tt
BothAlike-with_flat (some flat) k k' f = f flat

-- The same test of both
pub BothAlike-if :
    (b : Bool) (r s r' s' : Option Hooks)
    → BothAlike r r'
    → BothAlike s s'
    → BothAlike (if b then r else s) (if b then r' else s')
BothAlike-if true r s r' s' y n = y
BothAlike-if false r s r' s' y n = n
