-- ===== src/Outcome.antt =====
-- What running a piece of the C++ program can come to.

-- The exceptions that the program throws or that reach it from the standard library and Boost.
pub data Exception : Type 0 where
  filesystem_error length_error logic_error runtime_error : Exception

-- `exits` is `std::exit(EXIT_FAILURE)`, `fault` is undefined behaviour (a read out of bounds, a null
-- dereference), and `stuck` is a loop of the model that ran out of fuel.
pub data Outcome {ℓ} (A : Type ℓ) : Type ℓ where
  ok : A → Outcome A
  throws : Exception → Outcome A
  exits : Outcome A
  fault : Outcome A
  stuck : Outcome A

infixl 5 ◌>>=◌
abbrev pub ◌>>=◌ {ℓ κ} : {A : Type ℓ} {B : Type κ} → Outcome A → (A → Outcome B) → Outcome B
ok a >>= f = f a
throws e >>= f = throws e
exits >>= f = exits
fault >>= f = fault
stuck >>= f = stuck

-- A call comes back to its caller: it returns or throws.
pub data ComesBack {ℓ} {A : Type ℓ} : Outcome A → Type ℓ where
  returns : (a : A) → ComesBack (ok a)
  raises : (x : Exception) → ComesBack (throws x)
