-- ===== src/Quality/Founded.antt =====
-- Where the outcome that `infer_outcome` of src/domain/ingestion/quality.py answers comes from.
use reconciliation_ingestion.Prelude.{
  ℕ, ◌==◌, ltb, true, false, Bool-cases, ◌⊎◌, inl, inr, Bool, ◌||◌, ◌&&◌, List, [], ◌∷◌, ◌≡◌, refl,
  any, every, arith,
}
use reconciliation_ingestion.Quality.Types.{
  QualityOutcome, valid, warning, reject, equivalent_duplicate, conflicting_duplicate, batch_fatal,
  QualitySeverity, fatal, QualityViolation, is_batch_fatal, is_fatal, is_warning,
  is_warning_severity, choose_outcome, infer_outcome, is_conflicting, is_reject, fatal_item,
  warning_item, is_equivalent,
}

-- How strict an outcome is.
abbrev pub strictness : QualityOutcome → ℕ
strictness valid = 0
strictness equivalent_duplicate = 1
strictness warning = 2
strictness reject = 3
strictness conflicting_duplicate = 4
strictness batch_fatal = 5

-- What one violation asks for, by its outcome and its severity.
abbrev pub asked : QualityOutcome → QualitySeverity → QualityOutcome
asked o fatal = batch_fatal
asked valid QualitySeverity.warning = warning
asked equivalent_duplicate QualitySeverity.warning = warning
asked o _ = o

abbrev pub asked_by : QualityViolation → QualityOutcome
asked_by v = asked v.outcome v.severity

-- The outcome that was given, or what some violation asks for.
abbrev IsAsked : QualityOutcome → List QualityViolation → QualityOutcome → Type 0
IsAsked given vs o = (o ≡ given) ⊎ (any (λ v. strictness (asked_by v) == strictness o) vs ≡ true)

-- Nobody asks for more than to count a row as an equivalent duplicate.
abbrev IsQuiet : List QualityViolation → Type 0
IsQuiet vs = every (λ v. ltb (strictness (asked_by v)) 2) vs ≡ true

module _ (p q f : QualityViolation → Bool)
    (implies : (v : QualityViolation) → p v ≡ true → f v ≡ false → q v ≡ true) where
  any-implied : (vs : List QualityViolation) → any p vs ≡ true → any f vs ≡ false → any q vs ≡ true
  any-implied [] h n = h
  any-implied (v ∷ vs) h n = elim (Bool-cases (p v)) [
    | inl e ↦ or_intro (q v) (any q vs) (inl (implies v e (or_none (f v) (any f vs) n).0))
    | inr e ↦
        or_intro (q v) (any q vs) (inr (any-implied vs (rw e at h) (or_none (f v) (any f vs) n).1))
  ]
    where
      or_intro : (a b : Bool) → (a ≡ true) ⊎ (b ≡ true) → (a || b) ≡ true
      or_intro a b h = ground arith

      or_none : (a b : Bool) → (a || b) ≡ false → (a ≡ false) × (b ≡ false)
      or_none a b h = ground arith

any-or :
    (f g : QualityViolation → Bool) (vs : List QualityViolation)
    → any f vs ≡ false
    → any g vs ≡ false
    → any (λ v. f v || g v) vs ≡ false
any-or f g [] h k = refl
any-or f g (v ∷ vs) h k =
    let (a, b) = neither (f v) (any f vs) h in
    let (c, d) = neither (g v) (any g vs) k in rw (a, c) (any-or f g vs b d)
  where
    neither : (a b : Bool) → (a || b) ≡ false → (a ≡ false) × (b ≡ false)
    neither a b h = ground arith

-- What lets a violation ask for a rejection, or for more; and for a warning, or for more.
abbrev rejecting_item : QualityViolation → Bool
rejecting_item v = fatal_item v || (is_conflicting v.outcome || is_reject v.outcome)

abbrev stricter_item : QualityViolation → Bool
stricter_item v = rejecting_item v || warning_item v

fatal_asks :
    (o : QualityOutcome) (s : QualitySeverity)
    → (is_batch_fatal o || is_fatal s) ≡ true
    → (strictness (asked o s) == 5) ≡ true
fatal_asks o s h = ground arith

conflict_asks :
    (o : QualityOutcome) (s : QualitySeverity)
    → is_conflicting o ≡ true
    → (is_batch_fatal o || is_fatal s) ≡ false
    → (strictness (asked o s) == 4) ≡ true
conflict_asks o s h n = ground arith

reject_asks :
    (o : QualityOutcome) (s : QualitySeverity)
    → is_reject o ≡ true
    → (is_batch_fatal o || is_fatal s) ≡ false
    → (strictness (asked o s) == 3) ≡ true
reject_asks o s h n = ground arith

warning_asks :
    (o : QualityOutcome) (s : QualitySeverity)
    → (is_warning o || is_warning_severity s) ≡ true
    → ((is_batch_fatal o || is_fatal s) || (is_conflicting o || is_reject o)) ≡ false
    → (strictness (asked o s) == 2) ≡ true
warning_asks o s h n = ground arith

equivalent_asks :
    (o : QualityOutcome) (s : QualitySeverity)
    → is_equivalent o ≡ true
    → (((is_batch_fatal o || is_fatal s) || (is_conflicting o || is_reject o))
        || (is_warning o || is_warning_severity s))
      ≡ false
    → (strictness (asked o s) == 1) ≡ true
equivalent_asks o s h n = ground arith

quiet_asks :
    (o : QualityOutcome) (s : QualitySeverity)
    → (((is_batch_fatal o || is_fatal s) || (is_conflicting o || is_reject o))
        || (is_warning o || is_warning_severity s))
      ≡ false
    → ltb (strictness (asked o s)) 2 ≡ true
quiet_asks o s n = ground arith

IsQuiet-of_none : (vs : List QualityViolation) → any stricter_item vs ≡ false → IsQuiet vs
IsQuiet-of_none [] h = refl
IsQuiet-of_none (v ∷ vs) h =
    let (a, b) = neither (stricter_item v) (any stricter_item vs) h in
    rw (quiet_asks v.outcome v.severity a) (IsQuiet-of_none vs b)
  where
    neither : (a b : Bool) → (a || b) ≡ false → (a ≡ false) × (b ≡ false)
    neither a b h = ground arith

-- The outcome that was given, or one that a violation asks for, or the rejection of what nobody has judged.
abbrev pub IsFounded : QualityOutcome → List QualityViolation → QualityOutcome → Type 0
IsFounded given vs o = IsAsked given vs o ⊎ ((o ≡ reject) × IsQuiet vs)

module _ (vs : List QualityViolation) where
  abbrev Asked : ℕ → Type 0
  Asked n = any (λ v. strictness (asked_by v) == n) vs ≡ true

  founded :
      (given : QualityOutcome) (f c r w e : Bool)
      → (f ≡ true → Asked 5)
      → (f ≡ false → c ≡ true → Asked 4)
      → (f ≡ false → r ≡ true → Asked 3)
      → ((f || (c || r)) ≡ false → w ≡ true → Asked 2)
      → (((f || (c || r)) || w) ≡ false → e ≡ true → Asked 1)
      → (((f || (c || r)) || w) ≡ false → IsQuiet vs)
      → IsFounded given vs (choose_outcome given f c r w e)
  unfolding choose_outcome
  founded given true c r w e h5 h4 h3 h2 h1 q = inl (inr (h5 refl))
  founded batch_fatal false c r w e h5 h4 h3 h2 h1 q = inl (inl refl)
  founded conflicting_duplicate false true r w e h5 h4 h3 h2 h1 q = inl (inl refl)
  founded conflicting_duplicate false false r w e h5 h4 h3 h2 h1 q = inl (inl refl)
  founded valid false true r w e h5 h4 h3 h2 h1 q = inl (inr (h4 refl refl))
  founded warning false true r w e h5 h4 h3 h2 h1 q = inl (inr (h4 refl refl))
  founded reject false true r w e h5 h4 h3 h2 h1 q = inl (inr (h4 refl refl))
  founded equivalent_duplicate false true r w e h5 h4 h3 h2 h1 q = inl (inr (h4 refl refl))
  founded reject false false r w e h5 h4 h3 h2 h1 q = inl (inl refl)
  founded valid false false true w e h5 h4 h3 h2 h1 q = inl (inr (h3 refl refl))
  founded warning false false true w e h5 h4 h3 h2 h1 q = inl (inr (h3 refl refl))
  founded equivalent_duplicate false false true w e h5 h4 h3 h2 h1 q = inl (inr (h3 refl refl))
  founded warning false false false w e h5 h4 h3 h2 h1 q = inl (inl refl)
  founded valid false false false true e h5 h4 h3 h2 h1 q = inl (inr (h2 refl refl))
  founded equivalent_duplicate false false false true e h5 h4 h3 h2 h1 q = inl (inr (h2 refl refl))
  founded equivalent_duplicate false false false false e h5 h4 h3 h2 h1 q = inl (inl refl)
  founded valid false false false false true h5 h4 h3 h2 h1 q = inl (inr (h1 refl refl))
  founded valid false false false false false h5 h4 h3 h2 h1 q = inr (refl, q refl)

three_of :
    (f g h : QualityViolation → Bool) (vs : List QualityViolation)
    → (any f vs || (any g vs || any h vs)) ≡ false
    → any (λ v. f v || (g v || h v)) vs ≡ false
three_of f g h vs n =
    let (a, b, c) = none_of (any f vs) (any g vs) (any h vs) n in
    any-or f (λ v. g v || h v) vs a (any-or g h vs b c)
  where
    none_of : (a b c : Bool) → (a || (b || c)) ≡ false → (a ≡ false) × (b ≡ false) × (c ≡ false)
    none_of a b c h = ground arith

four_of :
    (f g h k : QualityViolation → Bool) (vs : List QualityViolation)
    → ((any f vs || (any g vs || any h vs)) || any k vs) ≡ false
    → any (λ v. (f v || (g v || h v)) || k v) vs ≡ false
four_of f g h k vs n =
    let (a, b) = neither (any f vs || (any g vs || any h vs)) (any k vs) n in
    any-or (λ v. f v || (g v || h v)) k vs (three_of f g h vs a) b
  where
    neither : (a b : Bool) → (a || b) ≡ false → (a ≡ false) × (b ≡ false)
    neither a b h = ground arith

all_equivalent_ask :
    (v : QualityViolation) (vs : List QualityViolation)
    → any stricter_item (v ∷ vs) ≡ false
    → every (λ i. is_equivalent i.outcome) (v ∷ vs) ≡ true
    → any (λ i. strictness (asked_by i) == 1) (v ∷ vs) ≡ true
all_equivalent_ask v vs n e =
    rw
      (equivalent_asks v.outcome v.severity
        (left_true (is_equivalent v.outcome) (every (λ i. is_equivalent i.outcome) vs) e)
        (left_false (stricter_item v) (any stricter_item vs) n))
      refl
  where
    left_true : (a b : Bool) → (a && b) ≡ true → a ≡ true
    left_true a b h = ground arith

    left_false : (a b : Bool) → (a || b) ≡ false → a ≡ false
    left_false a b h = ground arith

pub IsFounded-infer :
    (o : QualityOutcome) (vs : List QualityViolation) → IsFounded o vs (infer_outcome o vs)
unfolding infer_outcome
IsFounded-infer o [] = inl (inl refl)
IsFounded-infer o (v ∷ vs) =
    let all = v ∷ vs in
    let conflicts : QualityViolation → Bool = λ i. is_conflicting i.outcome in
    let rejects : QualityViolation → Bool = λ i. is_reject i.outcome in
    founded all o (any fatal_item all) (any conflicts all) (any rejects all) (any warning_item all)
      (every (λ i. is_equivalent i.outcome) all)
      (λ h.
        any-implied fatal_item (λ i. strictness (asked_by i) == 5) (λ i. false)
          (λ i a _. fatal_asks i.outcome i.severity a) all h (any-nothing all))
      (λ n h.
        any-implied conflicts (λ i. strictness (asked_by i) == 4) fatal_item
          (λ i a b. conflict_asks i.outcome i.severity a b) all h n)
      (λ n h.
        any-implied rejects (λ i. strictness (asked_by i) == 3) fatal_item
          (λ i a b. reject_asks i.outcome i.severity a b) all h n)
      (λ n h.
        any-implied warning_item (λ i. strictness (asked_by i) == 2) rejecting_item
          (λ i a b. warning_asks i.outcome i.severity a b) all h
          (three_of fatal_item conflicts rejects all n))
      (λ n h. all_equivalent_ask v vs (four_of fatal_item conflicts rejects warning_item all n) h)
      (λ n. IsQuiet-of_none all (four_of fatal_item conflicts rejects warning_item all n))
  where
    any-nothing : (us : List QualityViolation) → any (λ i. false) us ≡ false
    any-nothing [] = refl
    any-nothing (u ∷ us) = any-nothing us
