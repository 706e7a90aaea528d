-- ===== src/Validation/Verdict.antt =====
-- The verdict of src/validators/validator.py against a description of a clean transaction.
use reconciliation_ingestion.Prelude.{
  ℕ, String, Bool, true, false, ◌&&◌, ◌||◌, not, Option, List, [], ◌∷◌, ◌++◌, any, every,
  if◌then◌else◌, ltb, ◌≡◌, refl, ap, ◌∙◌, arith,
}
use reconciliation_ingestion.Quality.Types.{
  QualityRuleCode, negative_amount, invalid_status, QualityOutcome, QualityViolation, infer_outcome,
  choose_outcome, fatal_item, is_conflicting,
}
use reconciliation_ingestion.Validation.Rules.{
  FieldValue, Transaction, finite, infinity, not_a_number, missing, text, other, decimal, moment,
  is_blank, is_missing, violation, when, validate_required_fields, is_transaction_status,
  is_negative, validate_decimal, validate_date, validate_status, row_violations, concluded,
  trace_of, validate,
}

-- The description: each field is as it should be.
abbrev is_amount : FieldValue → Bool
is_amount (decimal (finite sign coefficient exponent)) = not sign || not (ltb 0 coefficient)
is_amount _ = false

abbrev is_date : FieldValue → Bool
is_date missing = true
is_date (moment t) = true
is_date _ = false

abbrev is_status : FieldValue → Bool
is_status (text s) = not (is_blank (text s)) && is_transaction_status s
is_status _ = false

unfoldable pub is_clean : Transaction → Bool
is_clean t =
    not (is_blank t.id)
    && (not (is_blank t.currency)
        && (is_amount t.amount && (is_date t.trans_date && is_status t.status)))

abbrev is_none : List QualityViolation → Bool
is_none [] = true
is_none (v ∷ vs) = false

is_none-append : (xs ys : List QualityViolation) → is_none (xs ++ ys) ≡ (is_none xs && is_none ys)
is_none-append [] ys = refl
is_none-append (x ∷ xs) ys = refl

is_none-when : (b : Bool) (v : QualityViolation) → is_none (when b v) ≡ not b
is_none-when true v = refl
is_none-when false v = refl

-- Every violation of the rules is a rejection.
plain : QualityViolation → Bool
plain v = not (fatal_item v) && not (is_conflicting v.outcome)

every-plain-append :
    (xs ys : List QualityViolation) → every plain (xs ++ ys) ≡ (every plain xs && every plain ys)
every-plain-append [] ys = refl
every-plain-append (x ∷ xs) ys = ground (arith, every-plain-append xs ys)

module _ (shown : FieldValue → String) (row : Option ℕ) (trace : Option String) where
  is_none-validate_decimal :
      (v : FieldValue)
      → (not (is_missing v) && is_none (validate_decimal shown v row trace)) ≡ is_amount v
  unfolding validate_decimal
  is_none-validate_decimal missing = refl
  is_none-validate_decimal (text s) = refl
  is_none-validate_decimal (other s) = refl
  is_none-validate_decimal (moment t) = refl
  is_none-validate_decimal (decimal infinity) = refl
  is_none-validate_decimal (decimal not_a_number) = refl
  is_none-validate_decimal (decimal (finite true k e)) = is_none-when (ltb 0 k) _
  is_none-validate_decimal (decimal (finite false k e)) = refl

  is_none-validate_date : (v : FieldValue) → is_none (validate_date shown v row trace) ≡ is_date v
  unfolding validate_date
  is_none-validate_date missing = refl
  is_none-validate_date (text s) = refl
  is_none-validate_date (other s) = refl
  is_none-validate_date (moment t) = refl
  is_none-validate_date (decimal d) = refl

  both : (a b : Bool) → (not a && not (not a && not b)) ≡ (not a && b)
  both a b = ground arith

  is_none-validate_status :
      (v : FieldValue)
      → (not (is_blank v) && is_none (validate_status shown v row trace)) ≡ is_status v
  unfolding validate_status is_blank
  is_none-validate_status missing = refl
  is_none-validate_status (text s) =
      (ap (λ u. not (is_blank (text s)) && u)
          (is_none-when (not (is_blank (text s)) && not (is_transaction_status s)) _)
        ∙ both (is_blank (text s)) (is_transaction_status s))
  is_none-validate_status (other s) = refl
  is_none-validate_status (moment t) = refl
  is_none-validate_status (decimal d) = refl

  is_none-validate_required_fields :
      (t : Transaction)
      → is_none (validate_required_fields t row trace) ≡ (
          not (is_blank t.id)
          && (not (is_blank t.currency) && (not (is_missing t.amount) && not (is_blank t.status))))
  unfolding validate_required_fields
  is_none-validate_required_fields t = simp (is_none-append, is_none-when)

  is_none-collected :
      (t : Transaction)
      → is_none (row_violations shown t row trace) ≡ (
          is_none (validate_required_fields t row trace)
          && (is_none (validate_decimal shown t.amount row trace)
              && (is_none (validate_date shown t.trans_date row trace)
                  && is_none (validate_status shown t.status row trace))))
  unfolding row_violations
  is_none-collected t = simp is_none-append

  is_none-row_violations :
      (t : Transaction) → is_none (row_violations shown t row trace) ≡ is_clean t
  unfolding is_clean
  is_none-row_violations t = rw is_none-collected (
      ground (
        arith,
        is_none-validate_required_fields t,
        is_none-validate_decimal t.amount,
        is_none-validate_date t.trans_date,
        is_none-validate_status t.status,
      ))

  plain-when :
      (b : Bool) (code : QualityRuleCode) (field message : String)
      → every plain (when b (violation code field message row trace)) ≡ true
  unfolding plain violation
  plain-when true code field message = refl
  plain-when false code field message = refl

  plain-validate_required_fields :
      (t : Transaction) → every plain (validate_required_fields t row trace) ≡ true
  unfolding validate_required_fields
  plain-validate_required_fields t = simp (every-plain-append, plain-when)

  plain-validate_decimal :
      (v : FieldValue) → every plain (validate_decimal shown v row trace) ≡ true
  unfolding validate_decimal plain violation
  plain-validate_decimal missing = refl
  plain-validate_decimal (text s) = refl
  plain-validate_decimal (other s) = refl
  plain-validate_decimal (moment t) = refl
  plain-validate_decimal (decimal infinity) = refl
  plain-validate_decimal (decimal not_a_number) = refl
  plain-validate_decimal (decimal (finite sign k e)) =
      plain-when (is_negative sign k) negative_amount _ _

  plain-validate_date : (v : FieldValue) → every plain (validate_date shown v row trace) ≡ true
  unfolding validate_date plain violation
  plain-validate_date missing = refl
  plain-validate_date (text s) = refl
  plain-validate_date (other s) = refl
  plain-validate_date (moment t) = refl
  plain-validate_date (decimal d) = refl

  plain-validate_status : (v : FieldValue) → every plain (validate_status shown v row trace) ≡ true
  unfolding validate_status plain violation
  plain-validate_status missing = refl
  plain-validate_status (text s) =
      plain-when (not (is_blank (text s)) && not (is_transaction_status s)) invalid_status _ _
  plain-validate_status (other s) = refl
  plain-validate_status (moment t) = refl
  plain-validate_status (decimal d) = refl

  plain-row_violations : (t : Transaction) → every plain (row_violations shown t row trace) ≡ true
  unfolding row_violations
  plain-row_violations t = simp (
    every-plain-append, plain-when, plain-validate_decimal, plain-validate_date,
    plain-validate_status,
  )

-- Nothing that is neither fatal nor a conflict raises a rejection's outcome.
no_fatal : (vs : List QualityViolation) → every plain vs ≡ true → any fatal_item vs ≡ false
unfolding plain
no_fatal [] p = refl
no_fatal (v ∷ vs) p = ground (arith, no_fatal vs)

no_conflict :
    (vs : List QualityViolation)
    → every plain vs ≡ true
    → any (λ i. is_conflicting i.outcome) vs ≡ false
unfolding plain
no_conflict [] p = refl
no_conflict (v ∷ vs) p = ground (arith, no_conflict vs)

concluded_outcome :
    (include_context : Bool) (row : Option ℕ) (vs : List QualityViolation)
    → every plain vs ≡ true
    → (concluded include_context row vs).outcome
      ≡ (if is_none vs then QualityOutcome.valid else QualityOutcome.reject)
unfolding concluded infer_outcome choose_outcome
concluded_outcome true row [] p = refl
concluded_outcome false row [] p = refl
concluded_outcome true row (v ∷ vs) p = rw (no_fatal (v ∷ vs) p, no_conflict (v ∷ vs) p)
concluded_outcome false row (v ∷ vs) p = rw (no_fatal (v ∷ vs) p, no_conflict (v ∷ vs) p)

-- Validation returns VALID exactly for a clean transaction, whatever the row, the trace and the context asked
-- for, and REJECT for every other.
pub verdict_is_clean :
    (shown : FieldValue → String) (t : Transaction) (row : Option ℕ) (trace : Option String)
    (include_context : Bool)
    → (validate shown t row trace include_context).outcome
      ≡ (if is_clean t then QualityOutcome.valid else QualityOutcome.reject)
unfolding validate
verdict_is_clean shown t row trace include_context =
    (concluded_outcome include_context row (row_violations shown t row (trace_of trace t.trace))
        (plain-row_violations shown row (trace_of trace t.trace) t)
      ∙ rw is_none-row_violations)
