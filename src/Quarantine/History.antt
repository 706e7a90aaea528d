-- ===== src/Quarantine/History.antt =====
-- The events of a quarantine record: what one further event does to their counts and identifiers.
use text.Mathlib.Text.{◌==◌ as str_eq}
use text.Mathlib.TextEquality.{eq_iff}
use reconciliation_ingestion.Prelude.{
  ℕ, suc, ◌+◌, String, Bool, true, false, ◌&&◌, ◌||◌, not, Option, none, some, List, [], ◌∷◌, ◌++◌,
  any, count_if, same_key, is_some, subst, ◌≡◌, refl, sym, arith, Bool-cases, inl, inr,
}
use reconciliation_ingestion.Quarantine.Types.{QuarantineResolutionEvent}
use reconciliation_ingestion.Quarantine.Updates.{has_action}
use reconciliation_ingestion.Quarantine.Lifecycle.{is_fresh, actions_distinct}

pub &&-left : (a b : Bool) → (a && b) ≡ true → a ≡ true
&&-left a b p = ground arith

pub &&-right : (a b : Bool) → (a && b) ≡ true → b ≡ true
&&-right a b p = ground arith

pub &&-intro : (a b : Bool) → a ≡ true → b ≡ true → (a && b) ≡ true
&&-intro a b p q = ground arith

pub not-true : (b : Bool) → not b ≡ true → b ≡ false
not-true b h = ground arith

pub not-false : (b : Bool) → b ≡ false → not b ≡ true
not-false b h = ground arith

pub ||-left : (a b : Bool) → (a || b) ≡ false → a ≡ false
||-left a b p = ground arith

pub ||-right : (a b : Bool) → (a || b) ≡ false → b ≡ false
||-right a b p = ground arith

pub count_if-append :
    {A : Type 0} (p : A → Bool) (xs : List A) (x : A)
    → count_if p (xs ++ (x ∷ [])) ≡ count_if p xs + count_if p (x ∷ [])
count_if-append p [] x = omega arith
count_if-append p (y ∷ xs) x = go (p y) _ _ _ (count_if-append p xs x)
  where
    go :
        (b : Bool) (m n k : ℕ)
        → m ≡ n + k
        → (elim b as (λ _. ℕ) [ true ↦ suc m | false ↦ m ])
          ≡ (elim b as (λ _. ℕ) [ true ↦ suc n | false ↦ n ]) + k
    go true m n k h = omega (arith, h)
    go false m n k h = h

||-false : (b : Bool) → b ≡ (b || false)
||-false b = ground arith

pub any-append :
    {A : Type 0} (p : A → Bool) (xs : List A) (x : A) → any p (xs ++ (x ∷ [])) ≡ (any p xs || p x)
any-append p [] x = sym (||-false (p x))
any-append p (y ∷ xs) x = elim (Bool-cases (p y)) [
  | inl e ↦ rw e refl
  | inr e ↦ rw e (any-append p xs x)
]

pub str_eq-sym : (a b : String) → str_eq a b ≡ false → str_eq b a ≡ false
str_eq-sym a b h = elim (Bool-cases (str_eq b a)) [
  | inl e ↦ cc (h, (eq_iff a b).1 (sym ((eq_iff b a).0 e)))
  | inr e ↦ e
]

no_action : (a b : Option String) → same_key a b ≡ false → same_key b a ≡ false
no_action none none h = h
no_action none (some b) h = refl
no_action (some a) none h = refl
no_action (some a) (some b) h = str_eq-sym a b h

other_action :
    (a b : Option String) (x : QuarantineResolutionEvent) (es : List QuarantineResolutionEvent)
    → x.action_id ≡ b
    → is_some b ≡ true
    → is_fresh a (x ∷ es) ≡ true
    → same_key a b ≡ false
other_action none none x es p s h = cc s
other_action none (some b) x es p s h = refl
other_action (some a) b x es p s h =
    no_action b (some a) (subst (λ u. same_key u (some a) ≡ false) p (||-left _ _ (not-true _ h)))

-- A fresh event leaves an earlier one's identifier alone.
is_fresh-append :
    (k : Option String) (es : List QuarantineResolutionEvent) (e x : QuarantineResolutionEvent)
    → x.action_id ≡ k
    → is_fresh e.action_id (x ∷ es) ≡ true
    → is_fresh k es ≡ true
    → is_fresh k (es ++ (e ∷ [])) ≡ true
is_fresh-append none es e x p h f = refl
is_fresh-append (some b) es e x p h f = rw (any-append (has_action b) es e) (
    rw (not-true (any (has_action b) es) f)
      (not-false (has_action b e) (other_action e.action_id (some b) x es p refl h)))

is_fresh-tail :
    (a : Option String) (x : QuarantineResolutionEvent) (es : List QuarantineResolutionEvent)
    → is_fresh a (x ∷ es) ≡ true
    → is_fresh a es ≡ true
is_fresh-tail none x es h = refl
is_fresh-tail (some a) x es h = not-false _ (||-right _ _ (not-true _ h))

&&-fresh-nil : (a : Option String) → (is_fresh a [] && true) ≡ true
&&-fresh-nil none = refl
&&-fresh-nil (some a) = refl

-- A fresh event keeps the identifiers distinct.
pub actions_distinct-append :
    (es : List QuarantineResolutionEvent) (e : QuarantineResolutionEvent)
    → actions_distinct es ≡ true
    → is_fresh e.action_id es ≡ true
    → actions_distinct (es ++ (e ∷ [])) ≡ true
actions_distinct-append [] e d h = &&-fresh-nil e.action_id
actions_distinct-append (x ∷ es) e d h =
    &&-intro _ _ (is_fresh-append x.action_id es e x refl h (&&-left (is_fresh x.action_id es) _ d))
      (actions_distinct-append es e (&&-right (is_fresh x.action_id es) _ d)
        (is_fresh-tail e.action_id x es h))
