-- ===== src/Quality/Outcome.antt =====
-- What `infer_outcome` of src/domain/ingestion/quality.py promises of an evaluation.
use reconciliation_ingestion.Prelude.{
  ◌≤◌, Bool, ◌||◌, ◌&&◌, List, [], ◌∷◌, ◌++◌, ◌≡◌, refl, ◌∙◌, any, every, arith,
}
use mathlib.Core.List.{Permᴰ}
use reconciliation_ingestion.Quality.Types.{
  QualityOutcome, QualitySeverity, QualityViolation, is_batch_fatal, is_fatal, is_warning,
  is_warning_severity, choose_outcome, infer_outcome, is_conflicting, is_reject, fatal_item,
  warning_item, is_equivalent,
}
use reconciliation_ingestion.Quality.Founded.{
  strictness, asked, asked_by, IsFounded, IsFounded-infer,
}

choose_twice :
    (o : QualityOutcome) (a b c d e : Bool)
    → choose_outcome (choose_outcome o a b c d e) a b c d e ≡ choose_outcome o a b c d e
unfolding choose_outcome
choose_twice o a b c d e = ground arith

-- The tests of the ladder on one outcome and severity.
tests :
    (o : QualityOutcome) (s : QualitySeverity) (given : QualityOutcome) (c r w e f : Bool)
    → strictness (asked o s)
      ≤ strictness (
          choose_outcome given
            ((is_batch_fatal o || is_fatal s) || f)
            (is_conflicting o || c)
            (is_reject o || r)
            ((is_warning o || is_warning_severity s) || w)
            (is_equivalent o && e))
unfolding choose_outcome
tests o s given c r w e f = ground arith

any-append {ℓ} :
    {A : Type ℓ} (p : A → Bool) (xs ys : List A) → any p (xs ++ ys) ≡ (any p xs || any p ys)
any-append p [] ys = refl
any-append p (x ∷ xs) ys = ground (arith, any-append p xs ys)

every-append {ℓ} :
    {A : Type ℓ} (p : A → Bool) (xs ys : List A) → every p (xs ++ ys) ≡ (every p xs && every p ys)
every-append p [] ys = refl
every-append p (x ∷ xs) ys = ground (arith, every-append p xs ys)

-- The outcome of a list of violations with at least one in it.
inferred : QualityOutcome → List QualityViolation → QualityOutcome
inferred o vs =
    choose_outcome o (any fatal_item vs) (any (λ i. is_conflicting i.outcome) vs)
      (any (λ i. is_reject i.outcome) vs) (any warning_item vs)
      (every (λ i. is_equivalent i.outcome) vs)

or-middle : (a b c : Bool) → (a || (b || c)) ≡ (b || (a || c))
or-middle a b c = ground arith

and-middle : (a b c : Bool) → (a && (b && c)) ≡ (b && (a && c))
and-middle a b c = ground arith

any-middle {ℓ} :
    {A : Type ℓ} (p : A → Bool) (xs ys : List A) (x : A)
    → any p (xs ++ (x ∷ ys)) ≡ (p x || (any p xs || any p ys))
any-middle p xs ys x = any-append p xs (x ∷ ys) ∙ or-middle (any p xs) (p x) (any p ys)

every-middle {ℓ} :
    {A : Type ℓ} (p : A → Bool) (xs ys : List A) (x : A)
    → every p (xs ++ (x ∷ ys)) ≡ (p x && (every p xs && every p ys))
every-middle p xs ys x = every-append p xs (x ∷ ys) ∙ and-middle (every p xs) (p x) (every p ys)

infer_outcome-inferred :
    (o : QualityOutcome) (before after : List QualityViolation) (v : QualityViolation)
    → infer_outcome o (before ++ (v ∷ after)) ≡ inferred o (before ++ (v ∷ after))
unfolding infer_outcome inferred
infer_outcome-inferred o [] after v = refl
infer_outcome-inferred o (u ∷ before) after v = refl

inferred-strict :
    (o : QualityOutcome) (before after : List QualityViolation) (v : QualityViolation)
    → strictness (asked_by v) ≤ strictness (inferred o (before ++ (v ∷ after)))
unfolding inferred
inferred-strict o before after v =
    rw
      (
        any-middle fatal_item before after v,
        any-middle (λ i. is_conflicting i.outcome) before after v,
        any-middle (λ i. is_reject i.outcome) before after v,
        any-middle warning_item before after v,
        every-middle (λ i. is_equivalent i.outcome) before after v,
      )
      (tests v.outcome v.severity o _ _ _ _ _)

any-Permᴰ :
    (p : QualityViolation → Bool) (vs ws : List QualityViolation)
    → Permᴰ vs ws
    → any p vs ≡ any p ws
any-Permᴰ p _ _ Permᴰ.nil = refl
any-Permᴰ p _ _ (Permᴰ.cons {l₁ = vs} {l₂ = ws} e h) = rw (e, any-Permᴰ p vs ws h) refl
any-Permᴰ p _ _ (Permᴰ.swap {l = l} e f) = rw (e, f) (or-middle _ _ (any p l))
any-Permᴰ p vs ws (Permᴰ.trans {l₂ = us} h g) = any-Permᴰ p vs us h ∙ any-Permᴰ p us ws g

every-Permᴰ :
    (p : QualityViolation → Bool) (vs ws : List QualityViolation)
    → Permᴰ vs ws
    → every p vs ≡ every p ws
every-Permᴰ p _ _ Permᴰ.nil = refl
every-Permᴰ p _ _ (Permᴰ.cons {l₁ = vs} {l₂ = ws} e h) = rw (e, every-Permᴰ p vs ws h) refl
every-Permᴰ p _ _ (Permᴰ.swap {l = l} e f) = rw (e, f) (and-middle _ _ (every p l))
every-Permᴰ p vs ws (Permᴰ.trans {l₂ = us} h g) = every-Permᴰ p vs us h ∙ every-Permᴰ p us ws g

inferred-Permᴰ :
    (o : QualityOutcome) (vs ws : List QualityViolation)
    → Permᴰ vs ws
    → inferred o vs ≡ inferred o ws
unfolding inferred
inferred-Permᴰ o vs ws h =
    rw
      (
        any-Permᴰ fatal_item vs ws h,
        any-Permᴰ (λ i. is_conflicting i.outcome) vs ws h,
        any-Permᴰ (λ i. is_reject i.outcome) vs ws h,
        any-Permᴰ warning_item vs ws h,
        every-Permᴰ (λ i. is_equivalent i.outcome) vs ws h,
      )
      refl

infer_outcome-Permᴰ :
    (o : QualityOutcome) (vs ws : List QualityViolation)
    → Permᴰ vs ws
    → infer_outcome o vs ≡ infer_outcome o ws
unfolding infer_outcome inferred
infer_outcome-Permᴰ o _ _ Permᴰ.nil = refl
infer_outcome-Permᴰ o _ _ (Permᴰ.cons e h) = inferred-Permᴰ o _ _ (Permᴰ.cons e h)
infer_outcome-Permᴰ o _ _ (Permᴰ.swap {l = l} e f) = inferred-Permᴰ o _ _ (Permᴰ.swap {l = l} e f)
infer_outcome-Permᴰ o vs ws (Permᴰ.trans {l₂ = us} h g) =
    infer_outcome-Permᴰ o vs us h ∙ infer_outcome-Permᴰ o us ws g

infer_twice :
    (o : QualityOutcome) (us : List QualityViolation)
    → infer_outcome (infer_outcome o us) us ≡ infer_outcome o us
infer_twice o [] = unfold infer_outcome in refl
infer_twice o (u ∷ us) = unfold infer_outcome in choose_twice o _ _ _ _ _

-- Inference judges by the strictest: the outcome is no milder than any violation asks for (FATAL or BATCH_FATAL before
-- a conflict, before REJECT, before WARNING, before an equivalent duplicate); it is the given one or one that a
-- violation asks for, or REJECT where none asks for more than an equivalent duplicate; inferred again from the same
-- violations it stays; and any order of the violations gives the same outcome.
pub infer_outcome_judges :
    (o : QualityOutcome) (before after ws : List QualityViolation) (v : QualityViolation)
    → Permᴰ (before ++ (v ∷ after)) ws
    → let vs = before ++ (v ∷ after) in
      (strictness (asked_by v) ≤ strictness (infer_outcome o vs))
      × IsFounded o vs (infer_outcome o vs)
      × (infer_outcome (infer_outcome o vs) vs ≡ infer_outcome o vs)
      × (infer_outcome o vs ≡ infer_outcome o ws)
infer_outcome_judges o before after ws v h =
    let vs = before ++ (v ∷ after) in
    (
      rw (infer_outcome-inferred o before after v) (inferred-strict o before after v),
      IsFounded-infer o vs,
      infer_twice o vs,
      infer_outcome-Permᴰ o vs ws h,
    )
