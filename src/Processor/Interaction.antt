-- ===== src/Processor/Interaction.antt =====
-- The attributes by which the two ends of an interaction are to find one another
-- (modality-ros-hook/src/message_processor.rs).
pub mod Topic
use modality_ros.Prelude.{
  ℕ, String, ◌<>◌, ◌≡◌, ◌≢◌, refl, sym, subst, ap, ◌∙◌, Bool, true, false, ◌⊎◌, inl, inr, Option,
  none, some, List, [], ◌∷◌, ◌++◌, arith, All,
}
use modality_ros.Prelude.Text.{hex}
use modality_ros.Prelude.Text.Hex.{IsByte, hex_inj}
use modality_ros.Api.{Nanoseconds, AttrVal, Kvs}
use modality_ros.Events.{
  PublisherGraphId, gid_to_string, to_epoch_nanos, MessageDirection, send, receive,
  CapturedMessageWithTime, ServiceEvent, ServiceEventType, send_request, take_request,
  send_response, take_response, opposite, event_type_to_string,
}
use modality_ros.Processor.Timeline.{publisher_attrs}
use modality_ros.Processor.Rmw.{stamp}
use modality_ros.Processor.Message.{
  publish_attrs, receive_attrs, remote_time, remote_gid, event_kvs,
}
use modality_ros.Processor.Service.{
  client_attrs, naming_attrs, service_event_attrs, interaction_attrs, own_attrs, remote_attrs,
}

-- The attribute is among those collected.
abbrev pub Has : String → AttrVal → Kvs → Type 0
Has k v [] = ⊥
Has k v ((j, w) ∷ kvs) = ((k ≡ j) × (v ≡ w)) ⊎ Has k v kvs

pub Has-append_left : (k : String) (v : AttrVal) (xs ys : Kvs) → Has k v xs → Has k v (xs ++ ys)
Has-append_left k v [] ys h = absurd h
Has-append_left k v (x ∷ xs) ys (inl e) = inl e
Has-append_left k v (x ∷ xs) ys (inr h) = inr (Has-append_left k v xs ys h)

pub Has-append_right : (k : String) (v : AttrVal) (xs ys : Kvs) → Has k v ys → Has k v (xs ++ ys)
Has-append_right k v [] ys h = h
Has-append_right k v (x ∷ xs) ys h = inr (Has-append_right k v xs ys h)

pub Has-append :
    (k : String) (v : AttrVal) (xs ys : Kvs) → Has k v (xs ++ ys) → Has k v xs ⊎ Has k v ys
Has-append k v [] ys h = inr h
Has-append k v (x ∷ xs) ys (inl e) = inl (inl e)
Has-append k v (x ∷ xs) ys (inr h) = elim (Has-append k v xs ys h) [
  | inl l ↦ inl (inr l)
  | inr r ↦ inr r
]

-- The two events that a server logs.
abbrev pub IsServer : ServiceEventType → Type 0
IsServer take_request = Unit
IsServer send_response = Unit
IsServer _ = ⊥

-- Both lists have an attribute of one value, under these names.
abbrev pub Share : Kvs → String → Kvs → String → Type 0
Share xs k ys j = (v : AttrVal) × Has k v xs × Has j v ys

Has-interaction :
    (k : String) (v : AttrVal) (e : ServiceEvent)
    → Has k v (interaction_attrs e.event_type e)
    → Has k v (service_event_attrs e)
unfolding service_event_attrs
Has-interaction k v e h =
    let before = naming_attrs e ++ stamp e.timestamp in
    Has-append_left k v (before ++ interaction_attrs e.event_type e) (event_kvs e.kvs)
      (Has-append_right k v before (interaction_attrs e.event_type e) h)

own_step :
    (c : ServiceEvent)
    → Has "event.ros.service.event"
        (AttrVal.string (event_type_to_string c.event_type))
        (service_event_attrs c)
unfolding service_event_attrs
own_step c = inr (inr (inl (refl, refl)))

module _ (k : String) (v : AttrVal) (e : ServiceEvent) where
  server_attrs :
      (ty : ServiceEventType)
      → IsServer ty
      → Has k v (remote_attrs e)
      → Has k v (interaction_attrs ty e)
  unfolding interaction_attrs
  server_attrs take_request h = λ r. r
  server_attrs send_response h =
      Has-append_left k v (remote_attrs e) (("event.interaction.reverse", AttrVal.bool true) ∷ [])
  server_attrs send_request h = absurd h
  server_attrs take_response h = absurd h

  client_side :
      (ty : ServiceEventType)
      → IsServer ty
      → Has k v (own_attrs e)
      → Has k v (interaction_attrs (opposite ty) e)
  unfolding interaction_attrs opposite
  client_side take_request h = λ r. r
  client_side send_response h = λ r. r
  client_side send_request h = absurd h
  client_side take_response h = absurd h

-- A server's event and the client's event that it stands in an interaction with: the same request
-- of the same client, the other end of the same step.
pub record Answers (e c : ServiceEvent) : Type 0 where
  pub at_server : IsServer e.event_type
  pub other_end : c.event_type ≡ opposite e.event_type
  pub same_client : c.client_guid ≡ e.client_guid
  pub same_request : c.sequence_id ≡ e.sequence_id

module _ (e c : ServiceEvent) (answers : Answers e c) where
  Has-server :
      (k : String) (v : AttrVal) → Has k v (remote_attrs e) → Has k v (service_event_attrs e)
  Has-server k v h = Has-interaction k v e (server_attrs k v e e.event_type answers.at_server h)

  Has-client : (k : String) (v : AttrVal) → Has k v (own_attrs c) → Has k v (service_event_attrs c)
  Has-client k v h = Has-interaction k v c (
      subst (λ ty. Has k v (interaction_attrs ty c)) (sym answers.other_end)
        (client_side k v c e.event_type answers.at_server h))

  -- Each attribute `event.interaction.remote_event.x` by which a server's event names the client's
  -- is the attribute `event.x` of the client's event, with the same value: the step, the sequence
  -- number and the client's guid.
  pub remote_event-Share :
      Share
        (service_event_attrs e)
        "event.interaction.remote_event.ros.service.event"
        (service_event_attrs c)
        "event.ros.service.event"
      × Share
          (service_event_attrs e)
          "event.interaction.remote_event.internal.ros.service.sequence_id"
          (service_event_attrs c)
          "event.internal.ros.service.sequence_id"
      × Share
          (service_event_attrs e)
          "event.interaction.remote_event.internal.ros.service.client_guid"
          (service_event_attrs c)
          "event.internal.ros.service.client_guid"
  unfolding remote_attrs own_attrs
  remote_event-Share = (
    (
      AttrVal.string (event_type_to_string (opposite e.event_type)),
      Has-server _ _ (inr (inl (refl, refl))),
      rw (← answers.other_end) (own_step c),
    ),
    (
      AttrVal.integer e.sequence_id,
      Has-server _ _ (inr (inr (inl (refl, refl)))),
      Has-client _ _ (inl (refl, ap AttrVal.integer (sym answers.same_request))),
    ),
    (
      AttrVal.string (hex e.client_guid),
      Has-server _ _ (inr (inr (inr (inl (refl, refl))))),
      Has-client _ _ (inr (inl (refl, ap (λ g. AttrVal.string (hex g)) (sym answers.same_client)))),
    ),
  )
