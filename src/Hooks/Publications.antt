-- ===== src/Hooks/Publications.antt =====
-- A publication from its hook to the channel, and what is left of an object that was destroyed
-- (modality-ros-hook/src/hooks.rs).
use modality_ros.Prelude.{
  ==-differ, if-false, ℕ, ◌≡◌, ◌≢◌, refl, ap, ◌∙◌, Bool, true, false, none, some, List, [], ◌∷◌,
  map, ◌==◌, ◌||◌, nat_eq,
}
use modality_ros.Prelude.Dict.{lookup}
use modality_ros.Events.{message, compound, CapturedMessageWithTime, CapturedMessage}
use modality_ros.Memory.{Memory}
use modality_ros.Schema.{flat_size}
use modality_ros.Hooks.{Hooks, Context, PublisherState, send}
use modality_ros.Hooks.Services.{bytes_at}
use modality_ros.Hooks.Messages.{
  TimeSpec, publication, stamped, send_all, before_publish, after_clock_gettime,
}

-- The events of a publication: one for each message in it, with what is known of the publisher.
abbrev pub publications :
    Context → PublisherState → Memory → ℕ → TimeSpec → List CapturedMessageWithTime
publications cx p mem message_ptr t =
    map
      (λ kvs. record {
        msg = publication p kvs;
        publish_time = compound t.tv_sec t.tv_nsec;
        receive_time = none;
      })
      (cx.interpreter.interpret_potentially_compound_message mem p.message_schema
        (bytes_at message_ptr (flat_size p.message_schema)))

pub map-map :
    {A B C : Type 0} (f : B → C) (g : A → B) (l : List A) → map f (map g l) ≡ map (λ a. f (g a)) l
map-map f g [] = refl
map-map f g (a ∷ l) = λ i. f (g a) ∷ map-map f g l i

||-false : (a b : Bool) → a ≡ false → b ≡ false → (a || b) ≡ false
||-false true b h k = cc
||-false false b h k = k

module _ (cx : Context) where
  pub send_all-last :
      (msgs : List CapturedMessageWithTime) (h : Hooks)
      → (send_all cx msgs h).last_captured_message ≡ h.last_captured_message
  unfolding send_all
  send_all-last [] h = refl
  send_all-last (m ∷ msgs) h = send_all-last msgs (send cx (message m) h)

  pub capture :
      (pub_ptr : ℕ) (mem : Memory) (message_ptr : ℕ) (p : PublisherState) (h : Hooks)
      → pub_ptr ≢ 0
      → message_ptr ≢ 0
      → lookup pub_ptr h.publishers ≡ some p
      → before_publish cx pub_ptr mem message_ptr h ≡ record h {
        last_captured_message = some (
            map (publication p) (
              cx.interpreter.interpret_potentially_compound_message mem p.message_schema
                (bytes_at message_ptr (flat_size p.message_schema))));
      }
  unfolding before_publish
  capture pub_ptr mem message_ptr p h np nm found =
      if-false (pub_ptr == 0 || message_ptr == 0) h _ (
        ||-false (pub_ptr == 0) (message_ptr == 0) (==-differ pub_ptr 0 np)
          (==-differ message_ptr 0 nm))
      ∙ ap
          (λ o. elim o as (λ _. Hooks) [
            | none ↦ h
            | some q ↦ record h {
              last_captured_message = some (
                  map (publication q) (
                    cx.interpreter.interpret_potentially_compound_message mem q.message_schema
                      (bytes_at message_ptr (flat_size q.message_schema))));
            }
          ])
          found

  other_clock :
      (clock_id : ℕ) (t : TimeSpec) (h : Hooks)
      → clock_id ≢ 0
      → after_clock_gettime cx clock_id t h ≡ h
  unfolding after_clock_gettime
  other_clock clock_id t h n = if-false (clock_id == 0) _ h (==-differ clock_id 0 n)

  pub reading :
      (t : TimeSpec) (msgs : List CapturedMessage) (h : Hooks)
      → after_clock_gettime cx 0 t (record h { last_captured_message = some msgs })
        ≡ send_all cx (map (stamped cx t) msgs) (record h { last_captured_message = none })
  unfolding after_clock_gettime
  reading t msgs h = refl

  no_reading :
      (t : TimeSpec) (h : Hooks) → h.last_captured_message ≡ none → after_clock_gettime cx 0 t h ≡ h
  unfolding after_clock_gettime
  no_reading t h e =
      ap
        (λ o. elim o as (λ _. Hooks) [
          | none ↦ h
          | some msgs ↦
              send_all cx (map (stamped cx t) msgs) (record h { last_captured_message = none })
        ])
        e

  -- A publication of a registered publisher, followed by readings of other clocks and then of the
  -- wall clock, hands on the events of the publication, in order, with the time of that reading,
  -- and leaves nothing that waits: the next reading hands on nothing.
  pub clock_gettime-publish :
      (pub_ptr : ℕ) (mem : Memory) (message_ptr : ℕ) (p : PublisherState) (other : ℕ)
      (before t later : TimeSpec) (h : Hooks)
      → pub_ptr ≢ 0
      → message_ptr ≢ 0
      → other ≢ 0
      → lookup pub_ptr h.publishers ≡ some p
      → let captured = before_publish cx pub_ptr mem message_ptr h in
        let stamped_at =
          after_clock_gettime cx 0 t (after_clock_gettime cx other before captured) in
        (stamped_at
          ≡ send_all cx
              (publications cx p mem message_ptr t)
              (record h { last_captured_message = none }))
        × (after_clock_gettime cx 0 later stamped_at ≡ stamped_at)
  unfolding stamped
  clock_gettime-publish pub_ptr mem message_ptr p other before t later h np nm not_wall found =
      (handed, no_reading later _ (ap (λ h'. h'.last_captured_message) handed ∙ send_all-last _ _))
    where
      handed :
          after_clock_gettime cx 0 t
            (after_clock_gettime cx other before (before_publish cx pub_ptr mem message_ptr h))
          ≡ send_all cx
              (publications cx p mem message_ptr t)
              (record h { last_captured_message = none })
      handed =
          ap (after_clock_gettime cx 0 t) (
            other_clock other before (before_publish cx pub_ptr mem message_ptr h) not_wall
            ∙ capture pub_ptr mem message_ptr p h np nm found)
          ∙ reading t _ h
          ∙ ap (λ msgs. send_all cx msgs (record h { last_captured_message = none }))
              (map-map (stamped cx t) (publication p) _)
