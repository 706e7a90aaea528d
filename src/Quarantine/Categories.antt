-- ===== src/Quarantine/Categories.antt =====
-- The categories of the persisted error codes, said code by code: src/domain/ingestion/quarantine.py.
use text.Mathlib.TextEquality.{eq_iff}
use reconciliation_ingestion.Prelude.{
  ℕ, ◌+◌, ◌≤◌, String, Bool, true, false, List, [], ◌∷◌, some, any, every, ◌&&◌, map, All, leb,
  str_eq, ◌≡◌, refl, sym, ap, ◌∙◌, subst, ◌⊎◌, inl, inr, arith, Bool-cases,
}
use reconciliation_ingestion.Quality.Types.{
  QualityRuleCode, required_schema_path, missing_required_source_column, schema_config_drift,
  source_structure_unreadable, config_validation, missing_required_field, malformed_row,
  invalid_amount, negative_amount, invalid_timestamp, invalid_status, equivalent_duplicate,
  conflicting_duplicate, code_value,
}
use reconciliation_ingestion.Quarantine.Texts.{codes, to_upper}
use reconciliation_ingestion.Quarantine.Issues.{
  IssueType, error_codes_for_issue_type, issue_type_for_error_code, normalized_code, covers,
  first_covering, issue_types, covered_codes,
}

-- The codes that a record is stored with: those of the quality rules, and that of a recovery.
pub data PersistedCode : Type 0 where
  of_rule : QualityRuleCode → PersistedCode
  recovery_required : PersistedCode

abbrev pub text_of : PersistedCode → String
text_of (of_rule r) = code_value r
text_of recovery_required = "SOURCE_UNIT_RECOVERY_REQUIRED"

-- What an operator is shown for each of them.
abbrev rule_category : QualityRuleCode → IssueType
rule_category required_schema_path = IssueType.schema
rule_category missing_required_source_column = IssueType.schema
rule_category schema_config_drift = IssueType.schema
rule_category source_structure_unreadable = IssueType.schema
rule_category config_validation = IssueType.schema
rule_category missing_required_field = IssueType.required_field
rule_category malformed_row = IssueType.format
rule_category invalid_amount = IssueType.format
rule_category negative_amount = IssueType.format
rule_category invalid_timestamp = IssueType.format
rule_category invalid_status = IssueType.format
rule_category equivalent_duplicate = IssueType.duplicate
rule_category conflicting_duplicate = IssueType.duplicate

abbrev pub category_of : PersistedCode → IssueType
category_of (of_rule r) = rule_category r
category_of recovery_required = IssueType.recovery

-- The same letters, the first text's in either case where the second one has a capital.
pub data IgnoresCase : List ℕ → List ℕ → Type 0 where
  ended : IgnoresCase [] []
  same : (c : ℕ) (xs ys : List ℕ) → IgnoresCase xs ys → IgnoresCase (c ∷ xs) (c ∷ ys)
  small :
      (c : ℕ) (xs ys : List ℕ)
      → 65 ≤ c
      → c ≤ 90
      → IgnoresCase xs ys
      → IgnoresCase ((c + 32) ∷ xs) (c ∷ ys)

-- No small letter.
abbrev is_upper : List ℕ → Bool
is_upper xs = every (λ c. leb c 96) xs

upper_same : (c : ℕ) → leb c 96 ≡ true → to_upper c ≡ c
unfolding to_upper
upper_same c h = ground arith

upper_small : (c : ℕ) → 65 ≤ c → c ≤ 90 → to_upper (c + 32) ≡ c
unfolding to_upper
upper_small c h g = ground arith

both : (a b : Bool) → (a && b) ≡ true → (a ≡ true) × (b ≡ true)
both a b h = ground arith

upper_of : (xs ys : List ℕ) → is_upper ys ≡ true → IgnoresCase xs ys → map to_upper xs ≡ ys
upper_of _ _ u ended = refl
upper_of _ _ u (same c xs ys h) =
    let (here, rest) = both (leb c 96) (is_upper ys) u in
    ap (λ x. x ∷ map to_upper xs) (upper_same c here) ∙ ap (λ l. c ∷ l) (upper_of xs ys rest h)
upper_of _ _ u (small c xs ys low high h) =
    let (here, rest) = both (leb c 96) (is_upper ys) u in
    ap (λ x. x ∷ map to_upper xs) (upper_small c low high) ∙ ap (λ l. c ∷ l) (upper_of xs ys rest h)

text_of-is_upper : (p : PersistedCode) → is_upper (codes (text_of p)) ≡ true
unfolding code_value
text_of-is_upper (of_rule required_schema_path) = refl
text_of-is_upper (of_rule missing_required_source_column) = refl
text_of-is_upper (of_rule schema_config_drift) = refl
text_of-is_upper (of_rule source_structure_unreadable) = refl
text_of-is_upper (of_rule config_validation) = refl
text_of-is_upper (of_rule missing_required_field) = refl
text_of-is_upper (of_rule malformed_row) = refl
text_of-is_upper (of_rule invalid_amount) = refl
text_of-is_upper (of_rule negative_amount) = refl
text_of-is_upper (of_rule invalid_timestamp) = refl
text_of-is_upper (of_rule invalid_status) = refl
text_of-is_upper (of_rule equivalent_duplicate) = refl
text_of-is_upper (of_rule conflicting_duplicate) = refl
text_of-is_upper recovery_required = refl

category_is_found :
    (p : PersistedCode) → first_covering issue_types (codes (text_of p)) ≡ category_of p
unfolding code_value covers
category_is_found (of_rule required_schema_path) = refl
category_is_found (of_rule missing_required_source_column) = refl
category_is_found (of_rule schema_config_drift) = refl
category_is_found (of_rule source_structure_unreadable) = refl
category_is_found (of_rule config_validation) = refl
category_is_found (of_rule missing_required_field) = refl
category_is_found (of_rule malformed_row) = refl
category_is_found (of_rule invalid_amount) = refl
category_is_found (of_rule negative_amount) = refl
category_is_found (of_rule invalid_timestamp) = refl
category_is_found (of_rule invalid_status) = refl
category_is_found (of_rule equivalent_duplicate) = refl
category_is_found (of_rule conflicting_duplicate) = refl
category_is_found recovery_required = refl

in_any_case :
    (p : PersistedCode) (code : String)
    → IgnoresCase (codes code) (codes (text_of p))
    → issue_type_for_error_code (some code) ≡ category_of p
unfolding issue_type_for_error_code normalized_code
in_any_case p code h =
    ap (first_covering issue_types)
      (upper_of (codes code) (codes (text_of p)) (text_of-is_upper p) h)
    ∙ category_is_found p

itself : (xs : List ℕ) → IgnoresCase xs xs
itself [] = ended
itself (c ∷ xs) = same c xs xs (itself xs)

-- What holds of every text of a list holds of one that is in it.
All-any :
    (P : String → Type 0) (k : String) (xs : List String)
    → All P xs
    → any (str_eq k) xs ≡ true
    → P k
All-any P k [] a h = cc h
All-any P k (x ∷ xs) a h = elim (Bool-cases (str_eq k x)) [
  | inl e ↦ subst P (sym ((eq_iff k x).0 e)) a.0
  | inr e ↦ All-any P k xs a.1 (rw e at h)
]

is_listed :
    (p : PersistedCode)
    → any (str_eq (text_of p)) (error_codes_for_issue_type (category_of p)) ≡ true
unfolding code_value error_codes_for_issue_type
is_listed (of_rule required_schema_path) = refl
is_listed (of_rule missing_required_source_column) = refl
is_listed (of_rule schema_config_drift) = refl
is_listed (of_rule source_structure_unreadable) = refl
is_listed (of_rule config_validation) = refl
is_listed (of_rule missing_required_field) = refl
is_listed (of_rule malformed_row) = refl
is_listed (of_rule invalid_amount) = refl
is_listed (of_rule negative_amount) = refl
is_listed (of_rule invalid_timestamp) = refl
is_listed (of_rule invalid_status) = refl
is_listed (of_rule equivalent_duplicate) = refl
is_listed (of_rule conflicting_duplicate) = refl
is_listed recovery_required = refl

listed_once :
    (p : PersistedCode) (t : IssueType)
    → (t ≡ category_of p) ⊎ (any (str_eq (text_of p)) (error_codes_for_issue_type t) ≡ false)
listed_once p t = elim (Bool-cases (any (str_eq (text_of p)) (error_codes_for_issue_type t))) [
  | inl h ↦ inl (
      sym (
        All-any (λ c. issue_type_for_error_code (some c) ≡ t) (text_of p)
          (error_codes_for_issue_type t) (covered_codes t) h)
      ∙ in_any_case p (text_of p) (itself (codes (text_of p))))
  | inr h ↦ inr h
]

-- Codes and categories agree both ways: a persisted error code, its letters in either case, is shown as its category
-- (the five codes of configuration and structure as schema, a missing field as required field, the five of a
-- malformed value as format, the two duplicates as duplicate, that of a recovery as recovery), the filter of that
-- category lists the code, and that of no other category does.
pub codes_have_one_category :
    (p : PersistedCode) (code : String) (t : IssueType)
    → IgnoresCase (codes code) (codes (text_of p))
    → (issue_type_for_error_code (some code) ≡ category_of p)
      × (any (str_eq (text_of p)) (error_codes_for_issue_type (category_of p)) ≡ true)
      × ((t ≡ category_of p) ⊎ (any (str_eq (text_of p)) (error_codes_for_issue_type t) ≡ false))
codes_have_one_category p code t h = (in_any_case p code h, is_listed p, listed_once p t)
