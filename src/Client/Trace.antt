-- ===== src/Client/Trace.antt =====
-- What a sequence of answered calls, newest first, amounts to.
use modality_ros.Prelude.{ℕ, suc, String, true, Option, none, some, List, [], ◌∷◌}
use modality_ros.Prelude.{◌==◌, string_eq, if◌then◌else◌}
use modality_ros.Api.{TimelineId, InternedAttrKey}
use modality_ros.Client.{Call}

-- The key that a name was last declared under.
abbrev pub declared : String → List Call → Option InternedAttrKey
declared n [] = none
declared n (Call.declare_attr_key m (some k) ∷ cs) = if n == m then some k else declared n cs
declared n (_ ∷ cs) = declared n cs

-- The timeline that was last opened.
abbrev pub opened : List Call → Option TimelineId
opened [] = none
opened (Call.open_timeline t true ∷ cs) = some t
opened (_ ∷ cs) = opened cs

-- How many events were accepted.
abbrev pub accepted : List Call → ℕ
accepted [] = 0
accepted (Call.event _ _ true ∷ cs) = suc (accepted cs)
accepted (_ ∷ cs) = accepted cs
