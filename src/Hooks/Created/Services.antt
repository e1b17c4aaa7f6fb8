-- ===== src/Hooks/Created/Services.antt =====
-- What the creation of a service and of a client leaves, and what it tells
-- (modality-ros-hook/src/hooks.rs).
use modality_ros.Prelude.{
  ℕ, String, ◌≡◌, refl, ap, ◌∙◌, Option, some, [], ◌∷◌, nat_eq, ◌==◌, if◌then◌else◌,
}
use modality_ros.Prelude.Dict.{lookup, lookup-insert}
use modality_ros.Prelude.Text.{trim}
use modality_ros.Api.{AttrVal, Kvs}
use modality_ros.Events.{RmwEvent, rmw, create_service, create_client, now}
use modality_ros.Processor.Rmw.{rmw_attrs}
use modality_ros.Schema.Convert.{Outcome, done}
use modality_ros.Schema.Service.{RosServiceSchema, ServiceTypeSupport, from_service_type_support}
use modality_ros.Hooks.{Hooks, Context, NodeState, try_send, send}
use modality_ros.Hooks.Registry.{with_node, with_schema}
use modality_ros.Hooks.Services.{served, connected, after_create_service, after_create_client}

-- A creation goes through when the node and the type support are known.
goes_through :
    (o : Option NodeState) (r : Outcome RosServiceSchema)
    (create : NodeState → RosServiceSchema → Hooks) (h : Hooks) (node : NodeState)
    (schema : RosServiceSchema)
    → o ≡ some node
    → r ≡ done schema
    → with_node o (λ n. with_schema r (λ s. some (create n s)) h) h ≡ some (create node schema)
goes_through o r create h node schema known converts =
    ap (λ o'. with_node o' (λ n. with_schema r (λ s. some (create n s)) h) h) known
    ∙ ap (λ r'. with_schema r' (λ s. some (create node s)) h) converts

-- The attributes of a creation: the schema's name stands under the key of its namespace, and its
-- namespace under the key of its name.
abbrev pub swapped : String → String → RosServiceSchema → Kvs
swapped name service_name schema =
    ("event.name", AttrVal.string name)
    ∷ ("event.ros.service.name", AttrVal.string service_name)
    ∷ ("event.ros.schema.namespace", AttrVal.string schema.name)
    ∷ ("event.ros.schema.name", AttrVal.string schema.namespace)
    ∷ []

module _ (cx : Context) where
  -- The creation of a service, or of a client, on a known node and with a type support that is
  -- known, goes through: its address then gives its schema, its node's timeline and its name
  -- without white space around it, every other address what it gave before, and the one event
  -- that is offered to the channel says the schema's name as its namespace and the namespace as
  -- its name.
  pub lookup-after_create_service :
      (node_ptr ptr : ℕ) (type_support : ServiceTypeSupport) (service_name : String)
      (clock : Option ℕ) (h : Hooks) (node : NodeState) (schema : RosServiceSchema)
      → lookup node_ptr h.nodes ≡ some node
      → from_service_type_support cx.field_types type_support ≡ done schema
      → ((h' : Hooks) × (event : RmwEvent) × (after_create_service cx node_ptr ptr type_support
              service_name clock h
            ≡ some h')
          × (h'.channel ≡ try_send cx.config.buffer_size (rmw event) h.channel)
          × (rmw_attrs event ≡ swapped "rmw.create_service" (trim service_name) schema)
          × ((k : ℕ)
              → lookup k h'.services ≡ (
                  if k == ptr
                  then some (record {
                    schema = schema;
                    node_timeline_id = node.timeline_id;
                    service_name = trim service_name;
                  })
                  else lookup k h.services)))
        × ((h' : Hooks) × (event : RmwEvent) × (after_create_client cx node_ptr ptr type_support
                service_name clock h
              ≡ some h')
            × (h'.channel ≡ try_send cx.config.buffer_size (rmw event) h.channel)
            × (rmw_attrs event ≡ swapped "rmw.create_client" (trim service_name) schema)
            × ((k : ℕ)
                → lookup k h'.clients ≡ (
                    if k == ptr
                    then some (record {
                      schema = schema;
                      node_timeline_id = node.timeline_id;
                      service_name = trim service_name;
                    })
                    else lookup k h.clients)))
  unfolding after_create_service after_create_client served connected send rmw_attrs
  lookup-after_create_service node_ptr ptr type_support service_name clock h node schema known
        converts =
      let name = trim service_name in
      (
        (
          served cx node ptr schema name clock h,
          create_service node.timeline_id (now clock) name schema.name schema.namespace,
          goes_through (lookup node_ptr h.nodes)
              (from_service_type_support cx.field_types type_support)
              (λ n s. served cx n ptr s name clock h) h node schema known converts,
          refl,
          refl,
          λ k. lookup-insert k ptr _ h.services,
        ),
        (
          connected cx node ptr schema name clock h,
          create_client node.timeline_id (now clock) name schema.name schema.namespace,
          goes_through (lookup node_ptr h.nodes)
              (from_service_type_support cx.field_types type_support)
              (λ n s. connected cx n ptr s name clock h) h node schema known converts,
          refl,
          refl,
          λ k. lookup-insert k ptr _ h.clients,
        ),
      )
