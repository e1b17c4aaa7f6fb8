-- ===== src/Hooks/Announced/Tables.antt =====
-- A change of a table, a look into one, and what they keep (modality-ros-hook/src/hooks.rs).
use modality_ros.Prelude.{ℕ, Option, List, nat_eq}
use modality_ros.Prelude.Dict.{
  Dict, insert, remove, lookup, Value, Values, Values-insert, Values-remove, Value-lookup,
}
use modality_ros.Events.{CapturedMessage}
use modality_ros.Hooks.{
  Hooks, NodeState, PublisherState, SubscriptionState, ServiceState, ClientState,
}
use modality_ros.Hooks.Channels.{Intact, accepted}
use modality_ros.Hooks.Announced.{Known, Waiting}
use modality_ros.Hooks.Announced.Rules.{Inv}

-- A table of known timelines may take the place of another.
module _ (h : Hooks) (inv : Inv h) where
  pub nodes-Inv :
      (d : Dict ℕ NodeState)
      → (Intact h.channel → Values (λ (x : NodeState). Known (accepted h.channel) x.timeline_id) d)
      → Inv (record h { nodes = d })
  nodes-Inv d d-known = λ intact.
      let (order, tables) = inv intact in
      let (_, p, s, v, c, w) = tables in (order, (d-known intact, p, s, v, c, w))

  pub publishers-Inv :
      (d : Dict ℕ PublisherState)
      → (Intact h.channel
          → Values (λ (x : PublisherState). Known (accepted h.channel) x.node_timeline_id) d)
      → Inv (record h { publishers = d })
  publishers-Inv d d-known = λ intact.
      let (order, tables) = inv intact in
      let (n, _, s, v, c, w) = tables in (order, (n, d-known intact, s, v, c, w))

  pub subscriptions-Inv :
      (d : Dict ℕ SubscriptionState)
      → (Intact h.channel
          → Values (λ (x : SubscriptionState). Known (accepted h.channel) x.node_timeline_id) d)
      → Inv (record h { subscriptions = d })
  subscriptions-Inv d d-known = λ intact.
      let (order, tables) = inv intact in
      let (n, p, _, v, c, w) = tables in (order, (n, p, d-known intact, v, c, w))

  pub services-Inv :
      (d : Dict ℕ ServiceState)
      → (Intact h.channel
          → Values (λ (x : ServiceState). Known (accepted h.channel) x.node_timeline_id) d)
      → Inv (record h { services = d })
  services-Inv d d-known = λ intact.
      let (order, tables) = inv intact in
      let (n, p, s, _, c, w) = tables in (order, (n, p, s, d-known intact, c, w))

  pub clients-Inv :
      (d : Dict ℕ ClientState)
      → (Intact h.channel
          → Values (λ (x : ClientState). Known (accepted h.channel) x.node_timeline_id) d)
      → Inv (record h { clients = d })
  clients-Inv d d-known = λ intact.
      let (order, tables) = inv intact in
      let (n, p, s, v, _, w) = tables in (order, (n, p, s, v, d-known intact, w))

  pub last_captured_message-Inv :
      (msgs : Option (List CapturedMessage))
      → (Intact h.channel → Waiting (accepted h.channel) msgs)
      → Inv (record h { last_captured_message = msgs })
  last_captured_message-Inv msgs msgs-known = λ intact.
      let (order, tables) = inv intact in
      let (n, p, s, v, c, _) = tables in (order, (n, p, s, v, c, msgs-known intact))

  pub remove-nodes-Inv : (k : ℕ) → Inv (record h { nodes = remove k h.nodes })
  remove-nodes-Inv k =
      nodes-Inv _ λ intact. let (n, p, s, v, c, w) = (inv intact).1 in Values-remove _ k h.nodes n

  pub insert-nodes-Inv :
      (k : ℕ) (x : NodeState)
      → (Intact h.channel → Known (accepted h.channel) x.timeline_id)
      → Inv (record h { nodes = insert k x h.nodes })
  insert-nodes-Inv k x x-known = nodes-Inv _ λ intact.
      let (n, p, s, v, c, w) = (inv intact).1 in Values-insert _ k x h.nodes (x-known intact) n

  -- The timeline of an entry is known.
  pub lookup-nodes :
      (k : ℕ)
      → Intact h.channel
      → Value (λ (x : NodeState). Known (accepted h.channel) x.timeline_id) (lookup k h.nodes)
  lookup-nodes k intact = let (n, p, s, v, c, w) = (inv intact).1 in Value-lookup _ k h.nodes n

  pub remove-publishers-Inv : (k : ℕ) → Inv (record h { publishers = remove k h.publishers })
  remove-publishers-Inv k =
      publishers-Inv _
        λ intact. let (n, p, s, v, c, w) = (inv intact).1 in Values-remove _ k h.publishers p

  pub insert-publishers-Inv :
      (k : ℕ) (x : PublisherState)
      → (Intact h.channel → Known (accepted h.channel) x.node_timeline_id)
      → Inv (record h { publishers = insert k x h.publishers })
  insert-publishers-Inv k x x-known = publishers-Inv _ λ intact.
      let (n, p, s, v, c, w) = (inv intact).1 in Values-insert _ k x h.publishers (x-known intact) p

  -- The timeline of an entry is known.
  pub lookup-publishers :
      (k : ℕ)
      → Intact h.channel
      → Value
          (λ (x : PublisherState). Known (accepted h.channel) x.node_timeline_id)
          (lookup k h.publishers)
  lookup-publishers k intact =
      let (n, p, s, v, c, w) = (inv intact).1 in Value-lookup _ k h.publishers p

  pub remove-subscriptions-Inv :
      (k : ℕ) → Inv (record h { subscriptions = remove k h.subscriptions })
  remove-subscriptions-Inv k =
      subscriptions-Inv _
        λ intact. let (n, p, s, v, c, w) = (inv intact).1 in Values-remove _ k h.subscriptions s

  pub insert-subscriptions-Inv :
      (k : ℕ) (x : SubscriptionState)
      → (Intact h.channel → Known (accepted h.channel) x.node_timeline_id)
      → Inv (record h { subscriptions = insert k x h.subscriptions })
  insert-subscriptions-Inv k x x-known = subscriptions-Inv _ λ intact.
      let (n, p, s, v, c, w) = (inv intact).1 in
      Values-insert _ k x h.subscriptions (x-known intact) s

  -- The timeline of an entry is known.
  pub lookup-subscriptions :
      (k : ℕ)
      → Intact h.channel
      → Value
          (λ (x : SubscriptionState). Known (accepted h.channel) x.node_timeline_id)
          (lookup k h.subscriptions)
  lookup-subscriptions k intact =
      let (n, p, s, v, c, w) = (inv intact).1 in Value-lookup _ k h.subscriptions s

  pub remove-services-Inv : (k : ℕ) → Inv (record h { services = remove k h.services })
  remove-services-Inv k =
      services-Inv _
        λ intact. let (n, p, s, v, c, w) = (inv intact).1 in Values-remove _ k h.services v

  pub insert-services-Inv :
      (k : ℕ) (x : ServiceState)
      → (Intact h.channel → Known (accepted h.channel) x.node_timeline_id)
      → Inv (record h { services = insert k x h.services })
  insert-services-Inv k x x-known = services-Inv _ λ intact.
      let (n, p, s, v, c, w) = (inv intact).1 in Values-insert _ k x h.services (x-known intact) v

  -- The timeline of an entry is known.
  pub lookup-services :
      (k : ℕ)
      → Intact h.channel
      → Value
          (λ (x : ServiceState). Known (accepted h.channel) x.node_timeline_id)
          (lookup k h.services)
  lookup-services k intact =
      let (n, p, s, v, c, w) = (inv intact).1 in Value-lookup _ k h.services v

  pub remove-clients-Inv : (k : ℕ) → Inv (record h { clients = remove k h.clients })
  remove-clients-Inv k =
      clients-Inv _
        λ intact. let (n, p, s, v, c, w) = (inv intact).1 in Values-remove _ k h.clients c

  pub insert-clients-Inv :
      (k : ℕ) (x : ClientState)
      → (Intact h.channel → Known (accepted h.channel) x.node_timeline_id)
      → Inv (record h { clients = insert k x h.clients })
  insert-clients-Inv k x x-known = clients-Inv _ λ intact.
      let (n, p, s, v, c, w) = (inv intact).1 in Values-insert _ k x h.clients (x-known intact) c

  -- The timeline of an entry is known.
  pub lookup-clients :
      (k : ℕ)
      → Intact h.channel
      → Value
          (λ (x : ClientState). Known (accepted h.channel) x.node_timeline_id)
          (lookup k h.clients)
  lookup-clients k intact = let (n, p, s, v, c, w) = (inv intact).1 in Value-lookup _ k h.clients c
