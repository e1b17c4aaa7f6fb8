-- ===== src/Config/Topics.antt =====
-- The topics of MODALITY_ROS_IGNORED_TOPICS (`from_env` of modality-ros-hook/src/config.rs).
use modality_ros.Prelude.{
  String, ◌≡◌, refl, sym, ap, ◌∙◌, Bool, true, false, ◌||◌, List, [], ◌∷◌, ◌++◌, map, All, inl, inr,
  Bool-cases, contains, string_eq, ==-sound, ◌==◌, if-true, if-false,
}
use modality_ros.Prelude.Text.{join, trim}
use modality_ros.Prelude.Text.Pieces.{Without, split-join}
use modality_ros.Config.{
  Env, ok, string_env_var, insert_topic, insert_topics, is_comma, ignored_topics_of, from_env,
}

||-assoc : (a b c : Bool) → ((a || b) || c) ≡ (a || (b || c))
||-assoc true b c = refl
||-assoc false b c = refl

||-false : (a : Bool) → (a || false) ≡ a
||-false true = refl
||-false false = refl

contains-append :
    (topics : List String) (topic t : String)
    → contains (topics ++ topic ∷ []) t ≡ (contains topics t || t == topic)
contains-append [] topic t = ||-false (t == topic)
contains-append (x ∷ topics) topic t =
    ap (λ b. t == x || b) (contains-append topics topic t)
    ∙ sym (||-assoc (t == x) (contains topics t) (t == topic))

-- What is in the set already adds nothing.
absorbed :
    (topics : List String) (topic t : String) (same : Bool)
    → (t == topic) ≡ same
    → contains topics topic ≡ true
    → contains topics t ≡ (contains topics t || same)
absorbed topics topic t false e old = sym (||-false (contains topics t))
absorbed topics topic t true e old =
    let found = ap (contains topics) (==-sound t topic e) ∙ old in
    found ∙ sym (ap (λ b. b || true) found)

-- A topic that is inserted is in the set, and the others are as before.
contains-insert_topic :
    (topics : List String) (topic t : String)
    → contains (insert_topic topics topic) t ≡ (contains topics t || t == topic)
unfolding insert_topic
contains-insert_topic topics topic t = elim (Bool-cases (contains topics topic)) [
  | inl old ↦
      ap (λ l. contains l t) (if-true (contains topics topic) topics (topics ++ topic ∷ []) old)
      ∙ absorbed topics topic t (t == topic) refl old
  | inr fresh ↦
      ap (λ l. contains l t) (if-false (contains topics topic) topics (topics ++ topic ∷ []) fresh)
      ∙ contains-append topics topic t
]

contains-insert_topics :
    (topics pieces : List String) (t : String)
    → contains (insert_topics topics pieces) t ≡ (contains topics t || contains (map trim pieces) t)
unfolding insert_topics
contains-insert_topics topics [] t = sym (||-false (contains topics t))
contains-insert_topics topics (s ∷ pieces) t =
    contains-insert_topics (insert_topic topics (trim s)) pieces t
    ∙ ap (λ b. b || contains (map trim pieces) t) (contains-insert_topic topics (trim s) t)
    ∙ ||-assoc (contains topics t) (t == trim s) (contains (map trim pieces) t)

map-trimmed : (topics : List String) → All (λ t. trim t ≡ t) topics → map trim topics ≡ topics
map-trimmed [] h = refl
map-trimmed (t ∷ topics) h = λ i. h.0 i ∷ map-trimmed topics h.1 i

-- If the variable for topics holds one or more topics joined by commas, none of which has a comma,
-- or white space at its ends, the configuration ignores exactly these topics.
pub from_env-join :
    (env : Env) (new_run_id first : String) (more : List String) (t : String)
    → env "MODALITY_ROS_IGNORED_TOPICS" ≡ ok (join "," (first ∷ more))
    → All (Without is_comma) (first ∷ more)
    → All (λ topic. trim topic ≡ topic) (first ∷ more)
    → contains (from_env env new_run_id).ignored_topics t ≡ contains (first ∷ more) t
unfolding from_env ignored_topics_of string_env_var
from_env-join env new_run_id first more t e plain trimmed =
    ap (λ v. contains (ignored_topics_of (string_env_var v)) t) e
    ∙ ap (λ pieces. contains (insert_topics [] pieces) t)
        (split-join is_comma "," first more refl plain)
    ∙ contains-insert_topics [] (first ∷ more) t
    ∙ ap (λ topics. contains topics t) (map-trimmed (first ∷ more) trimmed)
