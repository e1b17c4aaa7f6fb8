-- ===== src/Processor/Triple.antt =====
-- Actions of the message processor between a condition before, one after success and one after
-- failure.
use modality_ros.Prelude.{Option, none, some}
use modality_ros.Processor
use modality_ros.Processor.{MessageProcessor, M, pure, ◌>>=◌}

abbrev pub Post :
    {A : Type 0}
    → (A → MessageProcessor → Type 0)
    → (MessageProcessor → Type 0)
    → Option A × MessageProcessor
    → Type 0
Post Q E (none, s) = E s
Post Q E (some a, s) = Q a s

module _ {A : Type 0} where
  pub record Triple (P : MessageProcessor → Type 0) (m : M A) (Q : A → MessageProcessor → Type 0)
      (E : MessageProcessor → Type 0) : Type 0 where
    pub at : (s : MessageProcessor) → P s → Post Q E (m s)

  pub Triple-pure :
      (Q : A → MessageProcessor → Type 0) (E : MessageProcessor → Type 0) (a : A)
      → Triple (Q a) (pure a) Q E
  Triple-pure Q E a = record { at = λ s p. p }

  -- The condition before may be stronger.
  pub Triple-pre :
      {P P' : MessageProcessor → Type 0} {m : M A} {Q : A → MessageProcessor → Type 0}
      {E : MessageProcessor → Type 0}
      → ((s : MessageProcessor) → P' s → P s)
      → Triple P m Q E
      → Triple P' m Q E
  Triple-pre f h = record { at = λ s p. h.at s (f s p) }

module _ {A B : Type 0} {E : MessageProcessor → Type 0} where
  after-Post :
      {Q : A → MessageProcessor → Type 0} {R : B → MessageProcessor → Type 0} {f : A → M B}
      → ((a : A) → Triple (Q a) (f a) R E)
      → (r : Option A × MessageProcessor) → Post Q E r
      → Post R E (Processor.after f r.0 r.1)
  after-Post h (none, s) p = p
  after-Post h (some a, s) p = (h a).at s p

  pub Triple-bind :
      {P : MessageProcessor → Type 0} {Q : A → MessageProcessor → Type 0}
      {R : B → MessageProcessor → Type 0} {m : M A} {f : A → M B}
      → Triple P m Q E
      → ((a : A) → Triple (Q a) (f a) R E)
      → Triple P (m >>= f) R E
  unfolding ◌>>=◌
  Triple-bind {m} hm hf = record { at = λ s p. after-Post hf (m s) (hm.at s p) }
