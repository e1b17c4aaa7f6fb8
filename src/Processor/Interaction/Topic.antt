-- ===== src/Processor/Interaction/Topic.antt =====
-- A message that is received finds the timeline and the time of its publication.
use text.Mathlib.Text.{starts_with}
use text.Mathlib.TextLemmas.{append_cancel_left, append_assoc as string_assoc}
use text.Mathlib.TextPositions.{starts_with-append}
use modality_ros.Prelude.{
  ℕ, ◌+◌, ◌*◌, ◌^◌, ◌<◌, String, ◌<>◌, ◌≡◌, ◌≢◌, refl, sym, ap, subst, ◌∙◌, true, false, ◌↔◌, inl,
  inr, Option, none, some, ◌∷◌, ◌++◌, arith, All,
}
use modality_ros.Prelude.Int.{pos}
use modality_ros.Prelude.Text.Hex.{IsByte, hex_inj}
use modality_ros.Api.{Nanoseconds, AttrVal, Kvs}
use modality_ros.Events.{
  PublisherGraphId, gid_to_string, CapturedTime, compound, signed_epoch_nanos, to_epoch_nanos,
  nanos_per_sec, CapturedMessageWithTime,
}
use modality_ros.Events.Time.Bounds.{to_epoch_nanos-compound, to_epoch_nanos-signed}
use modality_ros.Processor.Timeline.{publisher_attrs}
use modality_ros.Processor.Rmw.{stamp}
use modality_ros.Processor.Message.{
  publish_attrs, receive_attrs, remote_time, remote_gid, captured, receive_time_or_now,
}
use modality_ros.Processor.Interaction.{Has, Has-append, Has-append_left, Has-append_right, Share}

gid_to_string_inj :
    (g g' : PublisherGraphId)
    → All IsByte g
    → All IsByte g'
    → gid_to_string g ≡ gid_to_string g'
    → g ≡ g'
unfolding gid_to_string
gid_to_string_inj g g' = hex_inj g g'

-- A text that does not start so is not continued so.
not_prefix : (p s x : String) → starts_with s p ≡ false → s ≢ p <> x
not_prefix p s x h e = cc (h, ap (λ k. starts_with k p) e, starts_with-append p x)

abbrev remote : String
remote = "event.interaction.remote_timeline."

-- The parts of a reception's attributes that name no remote timeline.
not_stamp : (o : Option Nanoseconds) (x : String) (v : AttrVal) → ¬ Has (remote <> x) v (stamp o)
unfolding stamp
not_stamp none x v h = h
not_stamp (some t) x v (inl e) = not_prefix remote "event.timestamp" x refl (sym e.0)
not_stamp (some t) x v (inr h) = h

not_remote_time :
    (o : Option Nanoseconds) (x : String) (v : AttrVal) → ¬ Has (remote <> x) v (remote_time o)
unfolding remote_time
not_remote_time none x v h = h
not_remote_time (some t) x v (inl e) =
    not_prefix remote "event.interaction.remote_timestamp" x refl (sym e.0)
not_remote_time (some t) x v (inr h) = h

-- The attribute that names a publisher, without what stands in front of it.
abbrev gid_key : PublisherGraphId → String
gid_key g = "ros.publisher_gid." <> gid_to_string g

Has-publisher_attrs :
    (g : PublisherGraphId) (x : String) (v : AttrVal)
    → Has ("timeline." <> x) v (publisher_attrs g)
    → x ≡ gid_key g
unfolding publisher_attrs
Has-publisher_attrs g x v (inl e) =
    append_cancel_left "timeline." _ _
      (e.0 ∙ string_assoc "timeline." "ros.publisher_gid." (gid_to_string g))
Has-publisher_attrs g x v (inr h) = absurd h

Has-remote_gid :
    (g : PublisherGraphId) (x : String) (v : AttrVal)
    → Has (remote <> x) v (remote_gid (some g))
    → x ≡ gid_key g
unfolding remote_gid
Has-remote_gid g x v (inl e) =
    append_cancel_left remote _ _ (e.0 ∙ string_assoc remote "ros.publisher_gid." (gid_to_string g))
Has-remote_gid g x v (inr h) = absurd h

module _ (g : PublisherGraphId) (m : CapturedMessageWithTime) (reading : Option ℕ) where
  abbrev first : Kvs
  first = ("event.ros.receive", AttrVal.bool true) ∷ remote_time (to_epoch_nanos m.publish_time)

  abbrev time : Option Nanoseconds
  time = receive_time_or_now (captured m.receive_time) reading

  not_first : (x : String) (v : AttrVal) → ¬ Has (remote <> x) v first
  not_first x v (inl e) = not_prefix remote "event.ros.receive" x refl (sym e.0)
  not_first x v (inr h) = not_remote_time (to_epoch_nanos m.publish_time) x v h

  Has-receive_attrs :
      (x : String) (v : AttrVal)
      → Has (remote <> x) v (receive_attrs (some g) m reading)
      → x ≡ gid_key g
  unfolding receive_attrs
  Has-receive_attrs x v h =
      elim (Has-append (remote <> x) v (first ++ remote_gid (some g)) (stamp time) h) [
        | inr r ↦ absurd (not_stamp time x v r)
        | inl l ↦ elim (Has-append (remote <> x) v first (remote_gid (some g)) l) [
          | inl k ↦ absurd (not_first x v k)
          | inr k ↦ Has-remote_gid g x v k
        ]
      ]

  Has-gid_key : Has (remote <> gid_key g) (AttrVal.bool true) (receive_attrs (some g) m reading)
  unfolding receive_attrs remote_gid
  Has-gid_key =
      let key = remote <> gid_key g in
      let v : AttrVal = AttrVal.bool true in
      Has-append_left key v (first ++ remote_gid (some g)) (stamp time) (
        Has-append_right key v first (remote_gid (some g))
          (inl (sym (string_assoc remote "ros.publisher_gid." (gid_to_string g)), refl)))

Has-publisher_key :
    (g : PublisherGraphId) → Has ("timeline." <> gid_key g) (AttrVal.bool true) (publisher_attrs g)
unfolding publisher_attrs
Has-publisher_key g =
    inl (sym (string_assoc "timeline." "ros.publisher_gid." (gid_to_string g)), refl)

-- A reception from the publisher `g` names an attribute `x` of the remote timeline, true, that is in
-- the metadata of the publisher `g'` exactly if `g'` is `g` (for gids of bytes): it finds its own
-- publisher's timeline and no other's.
pub receive_attrs-publisher_attrs :
    (g g' : PublisherGraphId) (m : CapturedMessageWithTime) (reading : Option ℕ)
    → All IsByte g
    → All IsByte g'
    → ((x : String) × Has
          ("event.interaction.remote_timeline." <> x)
          (AttrVal.bool true)
          (receive_attrs (some g) m reading)
        × Has ("timeline." <> x) (AttrVal.bool true) (publisher_attrs g'))
      ↔ (g ≡ g')
receive_attrs-publisher_attrs g g' m reading b b' = (
  λ (x, received, sent). gid_to_string_inj g g' b b' (
      append_cancel_left "ros.publisher_gid." _ _
        (sym (Has-receive_attrs g m reading x _ received) ∙ Has-publisher_attrs g' x _ sent)),
  λ e.
      subst
        (λ h.
          (x : String) × Has ("event.interaction.remote_timeline." <> x) (AttrVal.bool true)
            (receive_attrs (some g) m reading)
          × Has ("timeline." <> x) (AttrVal.bool true) (publisher_attrs h))
        e (gid_key g, Has-gid_key g m reading, Has-publisher_key g),
)

Has-timestamp :
    (t : CapturedTime) (ns : Nanoseconds)
    → to_epoch_nanos t ≡ some ns
    → Has "event.timestamp" (AttrVal.timestamp ns) (publish_attrs t)
unfolding publish_attrs
Has-timestamp t ns e = rw e (inl (refl, refl))

Has-remote_timestamp :
    (g : Option PublisherGraphId) (m : CapturedMessageWithTime) (reading : Option ℕ)
    (ns : Nanoseconds)
    → to_epoch_nanos m.publish_time ≡ some ns
    → Has "event.interaction.remote_timestamp" (AttrVal.timestamp ns) (receive_attrs g m reading)
unfolding receive_attrs
Has-remote_timestamp g m reading ns e = rw e (inr (inl (refl, refl)))

-- The sender's clock reading, as it was captured, and the same time as DDS delivers it make one
-- timestamp, which the publication bears as `event.timestamp` and the reception as
-- `event.interaction.remote_timestamp`. (The total is to fit an `i64`.)
pub remote_timestamp-Share :
    (sec nsec : ℕ) (g : Option PublisherGraphId) (m : CapturedMessageWithTime) (reading : Option ℕ)
    → sec * nanos_per_sec + nsec < 2 ^ 63
    → m.publish_time ≡ signed_epoch_nanos (pos (sec * nanos_per_sec + nsec))
    → Share
        (publish_attrs (compound (pos sec) (pos nsec)))
        "event.timestamp"
        (receive_attrs g m reading)
        "event.interaction.remote_timestamp"
remote_timestamp-Share sec nsec g m reading fits e =
    let total : ℕ = sec * nanos_per_sec + nsec in
    (
      AttrVal.timestamp total,
      Has-timestamp (compound (pos sec) (pos nsec)) total
          (to_epoch_nanos-compound sec nsec (omega arith)),
      Has-remote_timestamp g m reading total (ap to_epoch_nanos e ∙ to_epoch_nanos-signed total),
    )
