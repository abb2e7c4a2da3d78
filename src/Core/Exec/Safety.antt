-- ===== src/Core/Exec/Safety.antt =====
-- Methods without undefined behaviour: from a state with `P`, a call returns with `Q` of the result and the
-- state, throws with `E` of the state, or ends the program.
use remote_backup_m1_server.Prelude.{Bool, true, false, if◌then◌else◌}
use remote_backup_m1_server.Outcome.{
  Exception, Outcome, ok, throws, exits, fault, stuck, filesystem_error, length_error, logic_error,
  runtime_error,
}
use remote_backup_m1_server.Core.Exec.{
  Exec, pure, lift, gets, modify, exit_if, continue, ◌>>=◌, handle_error, try_filesystem,
}

-- A call that returns, throws or ends the program.
pub data IsDefined {ℓ} {A : Type ℓ} : Outcome A → Type ℓ where
  returned : (a : A) → IsDefined (ok a)
  thrown : (e : Exception) → IsDefined (throws e)
  ended : IsDefined exits

module _ {ℓ κ} {S : Type ℓ} {A : Type κ} where
  abbrev pub Safely : (A → S → Type 0) → (S → Type 0) → Outcome A × S → Type 0
  Safely Q E (ok a, s) = Q a s
  Safely Q E (throws e, s) = E s
  Safely Q E (exits, s) = Unit
  Safely Q E (fault, s) = ⊥
  Safely Q E (stuck, s) = ⊥

  pub record Safe (P : S → Type 0) (m : Exec S A) (Q : A → S → Type 0) (E : S → Type 0)
      : Type (ℓ ⊔ κ) where
    pub at : (s : S) → P s → Safely Q E (m s)

  pub Safely-IsDefined :
      (Q : A → S → Type 0) (E : S → Type 0) (r : Outcome A) (s : S)
      → Safely Q E (r, s)
      → IsDefined r
  Safely-IsDefined Q E (ok a) s h = returned a
  Safely-IsDefined Q E (throws e) s h = thrown e
  Safely-IsDefined Q E exits s h = ended
  Safely-IsDefined Q E fault s h = absurd h
  Safely-IsDefined Q E stuck s h = absurd h

  Safely-lift :
      (P E : S → Type 0) (r : Outcome A) (s : S)
      → IsDefined r
      → P s
      → E s
      → Safely (λ _. P) E (r, s)
  Safely-lift P E (ok a) s d p e = p
  Safely-lift P E (throws x) s d p e = e
  Safely-lift P E exits s d p e = tt
  Safely-lift P E fault s d p e = elim d [ ]
  Safely-lift P E stuck s d p e = elim d [ ]

  pub Safe-lift :
      (P E : S → Type 0) (r : Outcome A)
      → IsDefined r
      → ((s : S) → P s → E s)
      → Safe P (lift r) (λ _. P) E
  unfolding lift
  Safe-lift P E r d e = record { at = λ s p. Safely-lift P E r s d p (e s p) }

  pub Safe-pure :
      (P : S → Type 0) (Q : A → S → Type 0) (E : S → Type 0) (a : A)
      → ((s : S) → P s → Q a s)
      → Safe P (pure a) Q E
  unfolding pure
  Safe-pure P Q E a h = record { at = h }

  pub Safe-gets : (P E : S → Type 0) (f : S → A) → Safe P (gets f) (λ _. P) E
  unfolding gets
  Safe-gets P E f = record { at = λ s p. p }

  pub Safe-if :
      (P : S → Type 0) (Q : A → S → Type 0) (E : S → Type 0) (b : Bool) (m n : Exec S A)
      → Safe P m Q E
      → Safe P n Q E
      → Safe P (if b then m else n) Q E
  Safe-if P Q E true m n hm hn = hm
  Safe-if P Q E false m n hm hn = hn

  Safely-handle_error :
      (Q : A → S → Type 0) (E : S → Type 0) (r : Outcome A × S) (h : Exec S A)
      → Safely Q E r
      → ((s : S) → E s → Safely Q E (h s))
      → Safely Q E (handle_error r h)
  Safely-handle_error Q E (ok a, s) h post recover = post
  Safely-handle_error Q E (throws filesystem_error, s) h post recover = recover s post
  Safely-handle_error Q E (throws length_error, s) h post recover = post
  Safely-handle_error Q E (throws logic_error, s) h post recover = post
  Safely-handle_error Q E (throws runtime_error, s) h post recover = post
  Safely-handle_error Q E (exits, s) h post recover = tt
  Safely-handle_error Q E (fault, s) h post recover = post
  Safely-handle_error Q E (stuck, s) h post recover = post

  pub Safe-try :
      (P : S → Type 0) (Q : A → S → Type 0) (E : S → Type 0) (m h : Exec S A)
      → Safe P m Q E
      → Safe E h Q E
      → Safe P (try_filesystem m h) Q E
  unfolding try_filesystem
  Safe-try P Q E m h hm hh = record {
    at = λ s p. Safely-handle_error Q E (m s) h (hm.at s p) hh.at;
  }

  pub Safe-weaken :
      (P R : S → Type 0) (Q : A → S → Type 0) (E : S → Type 0) (m : Exec S A)
      → ((s : S) → R s → P s)
      → Safe P m Q E
      → Safe R m Q E
  Safe-weaken P R Q E m f h = record { at = λ s r. h.at s (f s r) }

  Safely-forget :
      (Q : A → S → Type 0) (E : S → Type 0) (r : Outcome A × S)
      → Safely Q E r
      → Safely (λ _ _. Unit) (λ _. Unit) r
  Safely-forget Q E (ok a, s) h = tt
  Safely-forget Q E (throws x, s) h = tt
  Safely-forget Q E (exits, s) h = tt
  Safely-forget Q E (fault, s) h = h
  Safely-forget Q E (stuck, s) h = h

  pub Safe-forget :
      (P : S → Type 0) (Q : A → S → Type 0) (E : S → Type 0) (m : Exec S A)
      → Safe P m Q E
      → Safe P m (λ _ _. Unit) (λ _. Unit)
  Safe-forget P Q E m h = record { at = λ s p. Safely-forget Q E (m s) (h.at s p) }

module _ {ℓ} {S : Type ℓ} where
  pub Safe-modify :
      (P Q E : S → Type 0) (f : S → S) → ((s : S) → P s → Q (f s)) → Safe P (modify f) (λ _. Q) E
  unfolding modify
  Safe-modify P Q E f h = record { at = h }

  pub Safe-exit_if : (P E : S → Type 0) (b : Bool) → Safe P (exit_if b) (λ _. P) E
  unfolding exit_if
  Safe-exit_if P E true = record { at = λ s p. tt }
  Safe-exit_if P E false = record { at = λ s p. p }

module _ {ℓ κ ν} {S : Type ℓ} {A : Type κ} {B : Type ν} where
  Safely-continue :
      (Q : A → S → Type 0) (R : B → S → Type 0) (E : S → Type 0) (r : Outcome A × S)
      (f : A → Exec S B)
      → Safely Q E r
      → ((a : A) → Safe (Q a) (f a) R E)
      → Safely R E (continue r f)
  Safely-continue Q R E (ok a, s) f h next = (next a).at s h
  Safely-continue Q R E (throws e, s) f h next = h
  Safely-continue Q R E (exits, s) f h next = tt
  Safely-continue Q R E (fault, s) f h next = h
  Safely-continue Q R E (stuck, s) f h next = h

  pub Safe-bind :
      (P : S → Type 0) (Q : A → S → Type 0) (R : B → S → Type 0) (E : S → Type 0) (m : Exec S A)
      (f : A → Exec S B)
      → Safe P m Q E
      → ((a : A) → Safe (Q a) (f a) R E)
      → Safe P (m >>= f) R E
  unfolding ◌>>=◌
  Safe-bind P Q R E m f hm hf = record { at = λ s p. Safely-continue Q R E (m s) f (hm.at s p) hf }
