-- ===== src/Core/Exec/Triple.antt =====
-- Statements about methods: from a state with `P`, a normal return leaves `Q` of the result and the
-- state, and an exception leaves `E` of the state.
use remote_backup_m1_server.Prelude.{Bool, true, false, if◌then◌else◌}
use remote_backup_m1_server.Outcome.{
  ComesBack, Outcome, ok, throws, exits, fault, stuck, filesystem_error, length_error, logic_error,
  runtime_error,
}
use remote_backup_m1_server.Core.Exec.{
  Exec, pure, lift, continue, ◌>>=◌, handle_error, try_filesystem,
}

module _ {ℓ κ μ} {S : Type ℓ} {A : Type κ} where
  abbrev pub After : (A → S → Type μ) → (S → Type μ) → Outcome A × S → Type μ
  After Q E (ok a, s) = Q a s
  After Q E (throws e, s) = E s
  After Q E (exits, s) = Unit
  After Q E (fault, s) = Unit
  After Q E (stuck, s) = Unit

  pub record Triple (P : S → Type μ) (m : Exec S A) (Q : A → S → Type μ) (E : S → Type μ)
      : Type (ℓ ⊔ μ) where
    pub at : (s : S) → P s → After Q E (m s)

  -- An outcome at a state of which all is known.
  pub After-same :
      (Q : A → S → Type μ) (E : S → Type μ) (r : Outcome A) (s : S)
      → ((a : A) → Q a s)
      → E s
      → After Q E (r, s)
  After-same Q E (ok a) s q e = q a
  After-same Q E (throws x) s q e = e
  After-same Q E exits s q e = tt
  After-same Q E fault s q e = tt
  After-same Q E stuck s q e = tt

  pub After-weaken :
      (Q R : A → S → Type μ) (E F : S → Type μ) (r : Outcome A × S)
      → After Q E r
      → ((a : A) (s : S) → Q a s → R a s)
      → ((s : S) → E s → F s)
      → After R F r
  After-weaken Q R E F (ok a, s) h q e = q a s h
  After-weaken Q R E F (throws x, s) h q e = e s h
  After-weaken Q R E F (exits, s) h q e = tt
  After-weaken Q R E F (fault, s) h q e = tt
  After-weaken Q R E F (stuck, s) h q e = tt

  pub After-handle_error :
      (Q : A → S → Type μ) (E : S → Type μ) (r : Outcome A × S) (h : Exec S A)
      → After Q E r
      → ((s : S) → E s → After Q E (h s))
      → After Q E (handle_error r h)
  After-handle_error Q E (ok a, s) h post recover = post
  After-handle_error Q E (throws filesystem_error, s) h post recover = recover s post
  After-handle_error Q E (throws length_error, s) h post recover = post
  After-handle_error Q E (throws logic_error, s) h post recover = post
  After-handle_error Q E (throws runtime_error, s) h post recover = post
  After-handle_error Q E (exits, s) h post recover = tt
  After-handle_error Q E (fault, s) h post recover = tt
  After-handle_error Q E (stuck, s) h post recover = tt

  pub Triple-weaken :
      (P R : S → Type μ) (Q : A → S → Type μ) (E F : S → Type μ) (m : Exec S A)
      → ((s : S) → R s → P s)
      → ((s : S) → E s → F s)
      → Triple P m Q E
      → Triple R m Q F
  Triple-weaken P R Q E F m p e h = record {
    at = λ s r. After-weaken Q Q E F (m s) (h.at s (p s r)) (λ a t q. q) e;
  }

  pub After-ComesBack :
      (E : S → Type μ) (r : Outcome A) (s : S) → ComesBack r → After (λ _. E) E (r, s) → E s
  After-ComesBack E (ok a) s b h = h
  After-ComesBack E (throws x) s b h = h
  After-ComesBack E exits s b h = elim b [ ]
  After-ComesBack E fault s b h = elim b [ ]
  After-ComesBack E stuck s b h = elim b [ ]

  pub Triple-pure :
      (P : S → Type μ) (Q : A → S → Type μ) (E : S → Type μ) (a : A)
      → ((s : S) → P s → Q a s)
      → Triple P (pure a) Q E
  unfolding pure
  Triple-pure P Q E a h = record { at = h }

  -- A step that leaves the state and comes to `r`.
  pub Triple-lift :
      (P : S → Type μ) (E : S → Type μ) (r : Outcome A)
      → ((s : S) → P s → E s)
      → Triple P (lift r) (λ _. P) E
  unfolding lift
  Triple-lift P E r e = record { at = λ s p. After-same (λ _. P) E r s (λ _. p) (e s p) }

  pub Triple-if :
      (P : S → Type μ) (Q : A → S → Type μ) (E : S → Type μ) (b : Bool) (m n : Exec S A)
      → Triple P m Q E
      → Triple P n Q E
      → Triple P (if b then m else n) Q E
  Triple-if P Q E true m n hm hn = hm
  Triple-if P Q E false m n hm hn = hn

  pub Triple-try :
      (P : S → Type μ) (Q : A → S → Type μ) (E : S → Type μ) (m h : Exec S A)
      → Triple P m Q E
      → Triple E h Q E
      → Triple P (try_filesystem m h) Q E
  unfolding try_filesystem
  Triple-try P Q E m h hm hh = record {
    at = λ s p. After-handle_error Q E (m s) h (hm.at s p) hh.at;
  }

module _ {ℓ κ ν μ} {S : Type ℓ} {A : Type κ} {B : Type ν} where
  pub After-continue :
      (Q : A → S → Type μ) (R : B → S → Type μ) (E : S → Type μ) (r : Outcome A × S)
      (f : A → Exec S B)
      → After Q E r
      → ((a : A) → Triple (Q a) (f a) R E)
      → After R E (continue r f)
  After-continue Q R E (ok a, s) f post next = (next a).at s post
  After-continue Q R E (throws x, s) f post next = post
  After-continue Q R E (exits, s) f post next = tt
  After-continue Q R E (fault, s) f post next = tt
  After-continue Q R E (stuck, s) f post next = tt

  pub Triple-bind :
      (P : S → Type μ) (Q : A → S → Type μ) (R : B → S → Type μ) (E : S → Type μ) (m : Exec S A)
      (f : A → Exec S B)
      → Triple P m Q E
      → ((a : A) → Triple (Q a) (f a) R E)
      → Triple P (m >>= f) R E
  unfolding ◌>>=◌
  Triple-bind P Q R E m f hm hf = record { at = λ s p. After-continue Q R E (m s) f (hm.at s p) hf }

-- The state of a call is taken over into another state.
pub After-into {ℓ κ ν μ} :
    {S : Type ℓ} {T : Type ν} {A : Type κ} (P : T → Type μ) (f : S → T) (r : Outcome A) (s : S)
    → After (λ _ s. P (f s)) (λ s. P (f s)) (r, s)
    → After (λ _. P) P (r, f s)
After-into P f (ok a) s h = h
After-into P f (throws x) s h = h
After-into P f exits s h = tt
After-into P f fault s h = tt
After-into P f stuck s h = tt

-- Of every call something trivial holds.
pub After-unit {ℓ κ μ} :
    {S : Type ℓ} {A : Type κ} (r : Outcome A) (s : S)
    → After (λ (_ : A) (_ : S). Unit {μ}) (λ _. Unit) (r, s)
After-unit (ok a) s = tt
After-unit (throws x) s = tt
After-unit exits s = tt
After-unit fault s = tt
After-unit stuck s = tt
