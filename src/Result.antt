-- ===== src/Result.antt =====
-- Calls that may raise, over a state that keeps what was written before the raise.
use reconciliation_ingestion.Prelude.{String, ◌≡◌, refl}

-- An exception, by the check of the program that raises it, or from a collaborator.
pub data Error : Type 0 where
  raised : String → Error
  value_error : String → Error
  context_mismatch accounting_mismatch : Error

pub data Result (A : Type 0) : Type 0 where
  ok : A → Result A
  err : Error → Result A

abbrev pub and_then : {A B : Type 0} → Result A → (A → Result B) → Result B
and_then (ok a) f = f a
and_then (err e) f = err e

-- `P` holds of the value, if there is one.
abbrev pub IsOk : {A : Type 0} → (A → Type 0) → Result A → Type 0
IsOk P (ok a) = P a
IsOk P (err e) = Unit {0}

-- There is a value.
abbrev pub IsReturned : {A : Type 0} → Result A → Type 0
IsReturned (ok a) = Unit {0}
IsReturned (err e) = ⊥

pub and_then-IsReturned :
    {A B : Type 0} (P : A → Type 0) (r : Result A) (f : A → Result B)
    → IsReturned r
    → IsOk P r
    → ((a : A) → P a → IsReturned (f a))
    → IsReturned (and_then r f)
and_then-IsReturned P (ok a) f h p k = k a p
and_then-IsReturned P (err e) f h p k = absurd h

pub IsReturned-and_then :
    {A B : Type 0} (r : Result A) (f : A → Result B)
    → IsReturned r
    → ((a : A) → IsReturned (f a))
    → IsReturned (and_then r f)
IsReturned-and_then (ok a) f h k = k a
IsReturned-and_then (err e) f h k = absurd h

pub and_then-IsOk :
    {A B : Type 0} (P : B → Type 0) (r : Result A) (f : A → Result B)
    → ((a : A) → r ≡ ok a → IsOk P (f a))
    → IsOk P (and_then r f)
and_then-IsOk P (ok a) f h = h a refl
and_then-IsOk P (err e) f h = tt

abbrev pub Exec : Type 0 → Type 0 → Type 0
Exec S A = S → Result A × S

module _ {S : Type 0} where
  abbrev pub pure : {A : Type 0} → A → Exec S A
  pure a s = (ok a, s)

  abbrev pub lift : {A : Type 0} → Result A → Exec S A
  lift r s = (r, s)

  -- Read the state.
  abbrev pub gets : {A : Type 0} → (S → A) → Exec S A
  gets f s = (ok (f s), s)

  -- Change the state.
  abbrev pub modify : (S → S) → Exec S (Unit {0})
  modify f s = (ok tt, f s)

  abbrev pub proceed : {A B : Type 0} → Result A → (A → Exec S B) → Exec S B
  proceed (ok a) f s = f a s
  proceed (err e) f s = (err e, s)

  infixl 5 ◌>>=◌ ◌>>◌
  unfoldable pub ◌>>=◌ : {A B : Type 0} → Exec S A → (A → Exec S B) → Exec S B
  ◌>>=◌ m f s = let (r, t) = m s in proceed r f t

  abbrev pub ◌>>◌ : {B : Type 0} → Exec S (Unit {0}) → Exec S B → Exec S B
  m >> k = m >>= λ _. k

  -- `Q` holds of the value and the state wherever the call returns.
  abbrev pub Post : {A : Type 0} → (A → S → Type 0) → Result A × S → Type 0
  Post Q (ok a, s) = Q a s
  Post Q (err e, s) = Unit {0}

  proceed-Post :
      {A B : Type 0} (P : A → S → Type 0) (Q : B → S → Type 0) (r : Result A) (t : S)
      (f : A → Exec S B)
      → Post P (r, t)
      → ((a : A) (u : S) → P a u → Post Q (f a u))
      → Post Q (proceed r f t)
  proceed-Post P Q (ok a) t f h k = k a t h
  proceed-Post P Q (err e) t f h k = tt

  -- The rule of a sequence.
  pub Post-bind :
      {A B : Type 0} (P : A → S → Type 0) (Q : B → S → Type 0) (m : Exec S A) (f : A → Exec S B)
      (s : S)
      → Post P (m s)
      → ((a : A) (u : S) → P a u → Post Q (f a u))
      → Post Q ((m >>= f) s)
  unfolding ◌>>=◌
  Post-bind P Q m f s h k = let (r, t) = m s in proceed-Post P Q r t f h k

  -- The rule of a call that leaves the state alone.
  pub Post-lift :
      {A B : Type 0} (Q : B → S → Type 0) (r : Result A) (f : A → Exec S B) (s : S)
      → ((a : A) → r ≡ ok a → Post Q (f a s))
      → Post Q ((lift r >>= f) s)
  unfolding ◌>>=◌
  Post-lift Q (ok a) f s h = h a refl
  Post-lift Q (err e) f s h = tt

  pub Post-of_IsOk :
      {A : Type 0} (P : A → Type 0) (Q : A → S → Type 0) (r : Result A) (s : S)
      → IsOk P r
      → ((a : A) → P a → Q a s)
      → Post Q (r, s)
  Post-of_IsOk P Q (ok a) s h k = k a h
  Post-of_IsOk P Q (err e) s h k = tt

  pub Post-weaken :
      {A : Type 0} (P Q : A → S → Type 0) (x : Result A × S)
      → Post P x
      → ((a : A) (s : S) → P a s → Q a s)
      → Post Q x
  Post-weaken P Q (ok a, s) h k = k a s h
  Post-weaken P Q (err e, s) h k = tt

  -- The call returns, with a value and a state that `Q` holds of.
  abbrev pub Returns : {A : Type 0} → (A → S → Type 0) → Result A × S → Type 0
  Returns Q (ok a, s) = Q a s
  Returns Q (err e, s) = ⊥

  proceed-Returns :
      {A B : Type 0} (P : A → S → Type 0) (Q : B → S → Type 0) (r : Result A) (t : S)
      (f : A → Exec S B)
      → Returns P (r, t)
      → ((a : A) (u : S) → P a u → Returns Q (f a u))
      → Returns Q (proceed r f t)
  proceed-Returns P Q (ok a) t f h k = k a t h
  proceed-Returns P Q (err e) t f h k = absurd h

  pub Returns-bind :
      {A B : Type 0} (P : A → S → Type 0) (Q : B → S → Type 0) (m : Exec S A) (f : A → Exec S B)
      (s : S)
      → Returns P (m s)
      → ((a : A) (u : S) → P a u → Returns Q (f a u))
      → Returns Q ((m >>= f) s)
  unfolding ◌>>=◌
  Returns-bind P Q m f s h k = let (r, t) = m s in proceed-Returns P Q r t f h k

  pub Returns-lift :
      {A : Type 0} (Q : S → Type 0) (r : Result A) (s : S)
      → IsReturned r
      → Q s
      → Returns (λ (_ : A). Q) (r, s)
  Returns-lift Q (ok a) s h q = q
  Returns-lift Q (err e) s h q = absurd h

  -- A call that returns does what holds wherever it returns.
  pub Returns-Post :
      {A : Type 0} (P Q : A → S → Type 0) (x : Result A × S) → Returns P x → Post Q x → Returns Q x
  Returns-Post P Q (ok a, s) h q = q
  Returns-Post P Q (err e, s) h q = absurd h

  pub Returns-weaken :
      {A : Type 0} (P Q : A → S → Type 0) (x : Result A × S)
      → Returns P x
      → ((a : A) (s : S) → P a s → Q a s)
      → Returns Q x
  Returns-weaken P Q (ok a, s) h k = k a s h
  Returns-weaken P Q (err e, s) h k = absurd h
