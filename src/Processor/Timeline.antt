-- ===== src/Processor/Timeline.antt =====
-- The metadata of timelines (modality-ros-hook/src/message_processor.rs): a node's, once, and its
-- publishers', once each.
use modality_ros.Prelude.{String, ◌<>◌, true, Option, none, some, List, [], ◌∷◌}
use modality_ros.Prelude.{Eq, nat_eq, contains, if◌then◌else◌, ℕ_discrete}
use modality_ros.Prelude.Text.{strip_slashes}
use modality_ros.Api.{TimelineId, AttrVal, Kvs}
use modality_ros.Events.{PublisherGraphId, gid_to_string}
use modality_ros.Client.{Backend}
use modality_ros.Processor.{M, ◌>>=◌, ◌>>◌, push_attrs, send_metadata, open_timeline}

gid_dec : Discrete (TimelineId × PublisherGraphId)
unfolding ℕ_discrete
gid_dec = hlevel ℕ_discrete

instance unfoldable pub publisher_eq : Eq (TimelineId × PublisherGraphId)
unfolding gid_dec
publisher_eq = record { dec = gid_dec }

-- `format!("{node_namespace}/{node_name}")`, and then without the slashes in front
unfoldable pub node_path : String → String → String
node_path node_namespace node_name = node_namespace <> "/" <> node_name

unfoldable pub timeline_name : String → String → String
unfolding node_path strip_slashes
timeline_name node_namespace node_name = strip_slashes (node_path node_namespace node_name)

-- `HashSet::insert` answers whether the element is new.
abbrev pub set_insert {ℓ} : {A : Type ℓ} ⦃e : Eq A⦄ → A → List A → List A
set_insert a l = if contains l a then l else a ∷ l

module _ (run_id : String) where
  unfoldable pub node_attrs : String → String → Kvs
  unfolding timeline_name node_path
  node_attrs node_namespace node_name =
      ("timeline.run_id", AttrVal.string run_id)
      ∷ ("timeline.name", AttrVal.string (timeline_name node_namespace node_name))
      ∷ ("timeline.ros.node.name", AttrVal.string node_name)
      ∷ ("timeline.ros.node.namespace", AttrVal.string node_namespace)
      ∷ ("timeline.ros.node", AttrVal.string (node_path node_namespace node_name))
      ∷ []

unfoldable pub publisher_attrs : PublisherGraphId → Kvs
unfolding gid_to_string
publisher_attrs gid = ("timeline.ros.publisher_gid." <> gid_to_string gid, AttrVal.bool true) ∷ []

unfoldable pub note_created : TimelineId → M (Unit {0})
note_created t s = (some tt, record s { created_timelines = set_insert t s.created_timelines })

unfoldable pub note_publisher : TimelineId × PublisherGraphId → M (Unit {0})
note_publisher p s = (
  some tt,
  record s { sent_timeline_publisher_metadata = set_insert p s.sent_timeline_publisher_metadata },
)

module _ (backend : Backend) where
  unfoldable pub send_attrs : Kvs → M (Unit {0})
  send_attrs kvs = push_attrs backend [] kvs >>= send_metadata backend

  -- the timeline is marked before its metadata is sent
  unfoldable pub send_timeline_metadata : String → TimelineId → String → String → M (Unit {0})
  unfolding send_attrs note_created node_attrs
  send_timeline_metadata run_id t node_namespace node_name s =
      if contains s.created_timelines t
      then (some tt, s)
      else (note_created t >> send_attrs (node_attrs run_id node_namespace node_name)) s

  -- the part of `handle_message` on a publisher's gid
  unfoldable pub send_publisher_metadata : TimelineId → Option PublisherGraphId → M (Unit {0})
  unfolding send_attrs note_publisher publisher_attrs
  send_publisher_metadata t none s = (some tt, s)
  send_publisher_metadata t (some gid) s =
      if contains s.sent_timeline_publisher_metadata (t, gid)
      then (some tt, s)
      else (note_publisher (t, gid) >> send_attrs (publisher_attrs gid)) s

  unfoldable pub open_timeline_and_send_metadata :
      String → TimelineId → String → String → M (Unit {0})
  unfolding send_timeline_metadata
  open_timeline_and_send_metadata run_id t node_namespace node_name =
      open_timeline backend t >> send_timeline_metadata run_id t node_namespace node_name
