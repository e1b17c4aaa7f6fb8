-- ===== src/Hooks/Alike/Steps.antt =====
-- Each hook that changes a table keeps two states alike (modality-ros-hook/src/hooks.rs).
use modality_ros.Prelude.{ℕ, String, ap, Option, [], nat_eq, string_eq, contains, ◌+◌}
use modality_ros.Prelude.Dict.{Dict, lookup}
use modality_ros.Prelude.Dict.Same.{Same, Same-insert, Same-remove}
use modality_ros.Prelude.Text.{trim}
use modality_ros.Api.{TimelineId}
use modality_ros.Events.{PublisherGraphId, rmw}
use modality_ros.Events.Now
use modality_ros.Schema.{RosMessageSchema, FlatRosMessageSchema}
use modality_ros.Schema.Convert.{MessageTypeSupport, from_message_type_support}
use modality_ros.Schema.Flatten.{flatten}
use modality_ros.Schema.Service.{ServiceTypeSupport, from_service_type_support}
use modality_ros.Hooks.{
  Hooks, Context, NodeState, PublisherState, SubscriptionState, ServiceState, ClientState,
}
use modality_ros.Hooks.Registry.{
  after_create_node, after_destroy_node, after_create_publisher, after_destroy_publisher,
  after_create_subscription, after_destroy_subscription, published, subscribed, schema_namespace,
  schema_name,
}
use modality_ros.Hooks.Services.{
  after_create_service, after_destroy_service, after_create_client, after_destroy_client, served,
  connected,
}
use modality_ros.Hooks.Alike.{
  Alike, BothAlike, Counted, Counted-insert, Counted-remove, Alike-send, Alike-send_equal,
  Alike-send_found, BothAlike-with_node, BothAlike-with_schema, BothAlike-with_flat, BothAlike-if,
}

-- A table of the same entries may take the place of another.
module _ (h g : Hooks) (a : Alike h g) where
  nodes-Alike :
      (d d' : Dict ℕ NodeState)
      → Same d d'
      → Alike (record h { nodes = d }) (record g { nodes = d' })
  nodes-Alike d d' same = let (_, p, s, v, c, w, ch) = a in (same, p, s, v, c, w, ch)

  publishers-Alike :
      (d d' : Dict ℕ PublisherState)
      → Counted d d'
      → Alike (record h { publishers = d }) (record g { publishers = d' })
  publishers-Alike d d' same = let (n, _, s, v, c, w, ch) = a in (n, same, s, v, c, w, ch)

  subscriptions-Alike :
      (d d' : Dict ℕ SubscriptionState)
      → Same d d'
      → Alike (record h { subscriptions = d }) (record g { subscriptions = d' })
  subscriptions-Alike d d' same = let (n, p, _, v, c, w, ch) = a in (n, p, same, v, c, w, ch)

  services-Alike :
      (d d' : Dict ℕ ServiceState)
      → Same d d'
      → Alike (record h { services = d }) (record g { services = d' })
  services-Alike d d' same = let (n, p, s, _, c, w, ch) = a in (n, p, s, same, c, w, ch)

  clients-Alike :
      (d d' : Dict ℕ ClientState)
      → Same d d'
      → Alike (record h { clients = d }) (record g { clients = d' })
  clients-Alike d d' same = let (n, p, s, v, _, w, ch) = a in (n, p, s, v, same, w, ch)

module _ (cx : Context) where
  pub Alike-after_create_node :
      (name namespace : String) (p : ℕ) (t : TimelineId) (clock : Option ℕ) (h g : Hooks)
      → Alike h g
      → Alike
          (after_create_node cx name namespace p t clock h)
          (after_create_node cx name namespace p t clock g)
  unfolding after_create_node
  Alike-after_create_node name namespace p t clock h g a =
      Alike-send cx _ _ _ (nodes-Alike h g a _ _ (Same-insert p _ h.nodes g.nodes a.0))

  pub Alike-after_destroy_node :
      (p : ℕ) (clock : Option ℕ) (h g : Hooks)
      → Alike h g
      → Alike (after_destroy_node cx p clock h) (after_destroy_node cx p clock g)
  unfolding after_destroy_node
  Alike-after_destroy_node p clock h g a =
      let sent = Alike-send_found cx (lookup p h.nodes) (lookup p g.nodes) _ h g (a.0 p) a in
      nodes-Alike _ _ sent _ _ (Same-remove p _ _ sent.0)

  pub Alike-after_destroy_publisher :
      (p : ℕ) (clock : Option ℕ) (h g : Hooks)
      → Alike h g
      → Alike (after_destroy_publisher cx p clock h) (after_destroy_publisher cx p clock g)
  unfolding after_destroy_publisher
  Alike-after_destroy_publisher p clock h g a =
      let sent =
        Alike-send_found cx (lookup p h.publishers) (lookup p g.publishers) _ h g (a.1.0 p) a in
      publishers-Alike _ _ sent _ _ (Counted-remove p _ _ sent.1)

  pub Alike-after_destroy_subscription :
      (p : ℕ) (clock : Option ℕ) (h g : Hooks)
      → Alike h g
      → Alike (after_destroy_subscription cx p clock h) (after_destroy_subscription cx p clock g)
  unfolding after_destroy_subscription
  Alike-after_destroy_subscription p clock h g a =
      let sent =
        Alike-send_found cx (lookup p h.subscriptions) (lookup p g.subscriptions) _ h g (a.2 p) a in
      subscriptions-Alike _ _ sent _ _ (Same-remove p _ _ sent.2)

  pub Alike-after_destroy_service :
      (p : ℕ) (clock : Option ℕ) (h g : Hooks)
      → Alike h g
      → Alike (after_destroy_service cx p clock h) (after_destroy_service cx p clock g)
  unfolding after_destroy_service
  Alike-after_destroy_service p clock h g a =
      let sent = Alike-send_found cx (lookup p h.services) (lookup p g.services) _ h g (a.3 p) a in
      services-Alike _ _ sent _ _ (Same-remove p _ _ sent.3)

  pub Alike-after_destroy_client :
      (p : ℕ) (clock : Option ℕ) (h g : Hooks)
      → Alike h g
      → Alike (after_destroy_client cx p clock h) (after_destroy_client cx p clock g)
  unfolding after_destroy_client
  Alike-after_destroy_client p clock h g a =
      let sent = Alike-send_found cx (lookup p h.clients) (lookup p g.clients) _ h g (a.4 p) a in
      clients-Alike _ _ sent _ _ (Same-remove p _ _ sent.4)

  Alike-published :
      (node : NodeState) (p : ℕ) (schema : RosMessageSchema) (flat : FlatRosMessageSchema)
      (gid : Option PublisherGraphId) (topic : String) (clock : Option ℕ) (h g : Hooks)
      → Alike h g
      → Alike
          (published cx node p schema flat gid topic clock h)
          (published cx node p schema flat gid topic clock g)
  unfolding published
  Alike-published node p schema flat gid topic clock h g a =
      Alike-send_equal cx _ _ _ _
        (ap
          (λ n.
            (rmw (
              Now.create_publisher node.timeline_id gid topic (schema_namespace schema)
                (schema_name schema) (n + 1) clock)))
          a.1.3)
        (publishers-Alike h g a _ _ (Counted-insert p _ h.publishers g.publishers a.1))

  pub BothAlike-after_create_publisher :
      (n p : ℕ) (ts : MessageTypeSupport) (topic_name : String) (gid : Option PublisherGraphId)
      (clock : Option ℕ) (h g : Hooks)
      → Alike h g
      → BothAlike
          (after_create_publisher cx n p ts topic_name gid clock h)
          (after_create_publisher cx n p ts topic_name gid clock g)
  unfolding after_create_publisher
  BothAlike-after_create_publisher n p ts topic_name gid clock h g a =
      BothAlike-with_node (lookup n h.nodes) (lookup n g.nodes) _ _ h g (a.0 n)
        (λ node. BothAlike-if (contains cx.config.ignored_topics (trim topic_name)) _ _ _ _ a (
          BothAlike-with_schema (from_message_type_support cx.field_types ts) _ _ h g
            (λ schema.
              BothAlike-with_flat (flatten schema []) _ _
                (λ flat. Alike-published node p schema flat gid (trim topic_name) clock h g a))
            a))
        a

  pub BothAlike-after_create_subscription :
      (n p : ℕ) (ts : MessageTypeSupport) (topic_name : String) (clock : Option ℕ) (h g : Hooks)
      → Alike h g
      → BothAlike
          (after_create_subscription cx n p ts topic_name clock h)
          (after_create_subscription cx n p ts topic_name clock g)
  unfolding after_create_subscription subscribed
  BothAlike-after_create_subscription n p ts topic_name clock h g a =
      BothAlike-with_node (lookup n h.nodes) (lookup n g.nodes) _ _ h g (a.0 n)
        (λ node. BothAlike-if (contains cx.config.ignored_topics (trim topic_name)) _ _ _ _ a (
          BothAlike-with_schema (from_message_type_support cx.field_types ts) _ _ h g
            (λ schema. BothAlike-with_flat (flatten schema []) _ _ (λ flat. Alike-send cx _ _ _ (
              subscriptions-Alike h g a _ _ (Same-insert p _ h.subscriptions g.subscriptions a.2))))
            a))
        a

  pub BothAlike-after_create_service :
      (n p : ℕ) (ts : ServiceTypeSupport) (name : String) (clock : Option ℕ) (h g : Hooks)
      → Alike h g
      → BothAlike
          (after_create_service cx n p ts name clock h)
          (after_create_service cx n p ts name clock g)
  unfolding after_create_service served
  BothAlike-after_create_service n p ts name clock h g a =
      BothAlike-with_node (lookup n h.nodes) (lookup n g.nodes) _ _ h g (a.0 n)
        (λ node.
          BothAlike-with_schema (from_service_type_support cx.field_types ts) _ _ h g
            (λ schema.
              Alike-send cx _ _ _
                (services-Alike h g a _ _ (Same-insert p _ h.services g.services a.3)))
            a)
        a

  pub BothAlike-after_create_client :
      (n p : ℕ) (ts : ServiceTypeSupport) (name : String) (clock : Option ℕ) (h g : Hooks)
      → Alike h g
      → BothAlike
          (after_create_client cx n p ts name clock h)
          (after_create_client cx n p ts name clock g)
  unfolding after_create_client connected
  BothAlike-after_create_client n p ts name clock h g a =
      BothAlike-with_node (lookup n h.nodes) (lookup n g.nodes) _ _ h g (a.0 n)
        (λ node.
          BothAlike-with_schema (from_service_type_support cx.field_types ts) _ _ h g
            (λ schema.
              Alike-send cx _ _ _
                (clients-Alike h g a _ _ (Same-insert p _ h.clients g.clients a.4)))
            a)
        a
