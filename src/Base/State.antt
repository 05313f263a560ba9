-- ===== src/Base/State.antt =====
-- Computations on a state that may fault: `none` is a read through a pointer that leads nowhere.
use mathlib.Core.Option.{Option, none, some}

abbrev pub StateM : Type 0 → Type 0 → Type 0
StateM S A = S → Option (A × S)

module _ {S : Type 0} where
  infixl 5 ◌>>=◌ ◌>>◌
  abbrev pub ◌>>=◌ : {A B : Type 0} → StateM S A → (A → StateM S B) → StateM S B
  ◌>>=◌ m f s = elim (m s) [ none ↦ none | some (a, s') ↦ f a s' ]

  abbrev pub ◌>>◌ : {B : Type 0} → StateM S (Unit {0}) → StateM S B → StateM S B
  m >> k = m >>= λ _. k

  abbrev pub pure : {A : Type 0} → A → StateM S A
  pure a s = some (a, s)

  abbrev pub fault : {A : Type 0} → StateM S A
  fault s = none

  abbrev pub get_state : StateM S S
  get_state s = some (s, s)

  abbrev pub put_state : S → StateM S (Unit {0})
  put_state t s = some (tt, t)

  -- A value that a pointer leads to.
  abbrev pub deref : {A : Type 0} → Option A → StateM S A
  deref none s = none
  deref (some a) s = some (a, s)
