-- ===== src/Quarantine/Issues.antt =====
-- The operator-facing categories of src/domain/ingestion/quarantine.py: from a persisted error code to its
-- category, and from a category to the codes it covers.
use reconciliation_ingestion.Prelude.{
  ℕ, String, Bool, Option, none, some, List, [], ◌∷◌, any, map, All, ◌≡◌, refl, if◌then◌else◌,
}
use reconciliation_ingestion.Quarantine.Texts.{codes, to_upper, same_codes}

pub data IssueType : Type 0 where
  schema required_field format duplicate recovery other : IssueType

-- `quarantine_error_codes_for_issue_type`, which reads `_ISSUE_TYPE_CODES`.
unfoldable pub error_codes_for_issue_type : IssueType → List String
error_codes_for_issue_type schema =
    "REQUIRED_SCHEMA_PATH" ∷ "MISSING_REQUIRED_SOURCE_COLUMN" ∷ "SCHEMA_CONFIG_DRIFT"
    ∷ "SOURCE_STRUCTURE_UNREADABLE" ∷ "CONFIG_VALIDATION" ∷ []
error_codes_for_issue_type required_field = "MISSING_REQUIRED_FIELD" ∷ []
error_codes_for_issue_type format =
    "MALFORMED_ROW" ∷ "INVALID_AMOUNT" ∷ "NEGATIVE_AMOUNT" ∷ "INVALID_TIMESTAMP" ∷ "INVALID_STATUS"
    ∷ []
error_codes_for_issue_type duplicate = "EQUIVALENT_DUPLICATE" ∷ "CONFLICTING_DUPLICATE" ∷ []
error_codes_for_issue_type recovery = "SOURCE_UNIT_RECOVERY_REQUIRED" ∷ []
error_codes_for_issue_type other = []

-- The order of the keys of `_ISSUE_TYPE_CODES`.
abbrev pub issue_types : List IssueType
issue_types = schema ∷ required_field ∷ format ∷ duplicate ∷ recovery ∷ []

-- `str(error_code or "").upper()`
unfoldable pub normalized_code : Option String → List ℕ
unfolding to_upper
normalized_code none = []
normalized_code (some c) = map to_upper (codes c)

-- `normalized in codes`
unfoldable pub covers : IssueType → List ℕ → Bool
unfolding error_codes_for_issue_type
covers t k = any (λ c. same_codes k (codes c)) (error_codes_for_issue_type t)

abbrev pub first_covering : List IssueType → List ℕ → IssueType
first_covering [] k = other
first_covering (t ∷ ts) k = let rest = first_covering ts k in if covers t k then t else rest

-- `quarantine_issue_type_for_error_code`
unfoldable pub issue_type_for_error_code : Option String → IssueType
unfolding normalized_code covers
issue_type_for_error_code code = first_covering issue_types (normalized_code code)

pub covered_codes :
    (t : IssueType)
    → All (λ c. issue_type_for_error_code (some c) ≡ t) (error_codes_for_issue_type t)
unfolding issue_type_for_error_code error_codes_for_issue_type
covered_codes schema = (refl, (refl, (refl, (refl, (refl, tt)))))
covered_codes required_field = (refl, tt)
covered_codes format = (refl, (refl, (refl, (refl, (refl, tt)))))
covered_codes duplicate = (refl, (refl, tt))
covered_codes recovery = (refl, tt)
covered_codes other = tt
