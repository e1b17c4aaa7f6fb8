-- ===== src/Tests/Config.antt =====
-- Configurations read from environments.
use modality_ros.Prelude.{
  nat_eq, ◌≡◌, refl, none, some, contains, String, [], ◌∷◌, arith, ◌==◌, string_eq, if◌then◌else◌,
}
use modality_ros.Prelude.Text.{decimal, join, trim}
use modality_ros.Config.{is_comma, Env, ok, not_present, u64_env_var, from_env}
use modality_ros.Config.Topics.{from_env-join}
use modality_ros.Config.Numbers.{from_env-decimal}

abbrev thirty : Env
thirty name = ok (decimal 30)

from_env-decimal_example :
    ((from_env thirty "run").connect_timeout ≡ 30)
    × ((from_env thirty "run").max_array_len ≡ 30)
    × ((from_env thirty "run").buffer_size ≡ 30)
from_env-decimal_example =
    from_env-decimal thirty "run" 30 30 30 (omega arith) (omega arith) (omega arith) refl refl refl

abbrev topics : Env
topics name = if name == "MODALITY_ROS_IGNORED_TOPICS" then ok " /a, /b,/a" else not_present

ignored : (from_env topics "run").ignored_topics ≡ "/a" ∷ "/b" ∷ []
unfolding from_env string_eq
ignored = refl

too_large : u64_env_var (ok "18446744073709551616") ≡ none
unfolding u64_env_var
too_large = refl

signed : u64_env_var (ok " +20 ") ≡ some 20
unfolding u64_env_var
signed = refl

abbrev joined : Env
joined name = ok (join "," ("/a" ∷ "/tf" ∷ []))

from_env-join_example :
    contains (from_env joined "run").ignored_topics "/tf"
    ≡ contains {A = String} ("/a" ∷ "/tf" ∷ []) "/tf"
unfolding trim nat_eq is_comma
from_env-join_example =
    from_env-join joined "run" "/a" ("/tf" ∷ []) "/tf" refl
      ((refl, (refl, tt)), ((refl, (refl, (refl, tt))), tt)) (refl, (refl, tt))
