-- ===== src/Prelude/Text/Pieces.antt =====
-- The pieces of a text between separators (`str::split` as modality-ros-hook/src/config.rs uses it).
use Prim.Native.Char.{Char}
use Prim.Native.String.{String, ◌++◌ as ◌<>◌}
use text.Mathlib.TextLemmas.{nil-append, cons-append}
use mathlib.Core.Path.{◌≡◌, refl, ap, ◌∙◌}
use mathlib.Core.Bool.{Bool, true, false}
use mathlib.Core.List.{List, [], ◌∷◌}
use modality_ros.Prelude.Lists.{All}
use modality_ros.Prelude.Text.{split, split_onto, join}

-- No character of the text passes the test.
abbrev pub Without : (Char → Bool) → String → Type 0
Without p String.[] = Unit
Without p (String.◌∷◌ c s) = (p c ≡ false) × Without p s

split-Without : (p : Char → Bool) (s : String) → Without p s → split p s ≡ s ∷ []
unfolding split split_onto
split-Without p String.[] h = refl
split-Without p (String.◌∷◌ c s) h =
    ap (λ b. split_onto b c (split p s)) h.0 ∙ ap (split_onto false c) (split-Without p s h.1)

split-append :
    (p : Char → Bool) (s : String) (c : Char) (more : String)
    → Without p s
    → p c ≡ true
    → split p (s <> String.◌∷◌ c more) ≡ s ∷ split p more
unfolding split split_onto
split-append p String.[] c more h e =
    ap (split p) (nil-append (String.◌∷◌ c more)) ∙ ap (λ b. split_onto b c (split p more)) e
split-append p (String.◌∷◌ d s) c more h e =
    ap (split p) (cons-append d s (String.◌∷◌ c more))
    ∙ ap (λ b. split_onto b d (split p (s <> String.◌∷◌ c more))) h.0
    ∙ ap (split_onto false d) (split-append p s c more h.1 e)

-- Pieces that are joined by a character that none of them has are split off again.
pub split-join :
    (p : Char → Bool) (c : Char) (t : String) (more : List String)
    → p c ≡ true
    → All (Without p) (t ∷ more)
    → split p (join (String.◌∷◌ c "") (t ∷ more)) ≡ t ∷ more
unfolding join
split-join p c t [] e h = split-Without p t h.0
split-join p c t (u ∷ more) e h =
    ap (λ tail. split p (t <> tail)) (cons-append c "" _ ∙ ap (String.◌∷◌ c) (nil-append _))
    ∙ split-append p t c (join (String.◌∷◌ c "") (u ∷ more)) h.0 e
    ∙ ap (λ l. t ∷ l) (split-join p c u more e h.1)
