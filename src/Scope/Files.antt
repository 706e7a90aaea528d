-- ===== src/Scope/Files.antt =====
-- `classify_scope` of src/reconciliation/scope.py. Its two counts are read from the databases; a confidence is a
-- number of hundredths, and `existing` is the text that tells how many files there are.
use reconciliation_ingestion.Prelude.{
  ℕ, String, Bool, true, false, Option, none, some, List, [], ◌∷◌, ◌++◌, if◌then◌else◌,
}
use reconciliation_ingestion.Result.{Result, ok, and_then}
use reconciliation_ingestion.Scope.Keys.{ScopeType, unconfirmed, full_snapshot, is_zero}

-- What `classify_scope` returns.
pub record FileScope : Type 0 where
  pub scope_type : ScopeType
  pub scope_confidence : ℕ
  pub scope_reason : List String
  pub default_partner_scope : ScopeType
  pub same_day_file_count : ℕ
  pub internal_db_record_count : ℕ

-- The two reads, for the partner at the day's bounds.
pub record ScopeCounts (Day : Type 0) : Type 0 where
  pub count_files : String → Day → Result ℕ
  pub count_internal : String → Day → Result ℕ
  pub existing : ℕ → String → String

abbrev is_unconfirmed : ScopeType → Bool
is_unconfirmed unconfirmed = true
is_unconfirmed _ = false

abbrev with_remark : FileScope → FileScope
with_remark s =
    if is_unconfirmed s.scope_type
    then record s {
      scope_reason =
          s.scope_reason
          ++ ("Unconfirmed scope is handled conservatively as file-scoped reconciliation until reviewed."
              ∷ []);
    }
    else s

abbrev chosen : ScopeType → ℕ → ℕ → ScopeType → ℕ → List String → FileScope
chosen default files internal scope confidence reasons = record {
  scope_type = scope;
  scope_confidence = confidence;
  scope_reason = reasons;
  default_partner_scope = default;
  same_day_file_count = files;
  internal_db_record_count = internal;
}

-- The choice by the two counts.
unfoldable pub scope_of_counts : (ℕ → String → String) → String → ScopeType → ℕ → ℕ → FileScope
scope_of_counts existing partner default files internal = with_remark (
    if is_zero files
    then chosen default files internal full_snapshot 82 (
        "No prior same-day partner file exists, so this is treated as the first full snapshot."
        ∷ [])
    else if is_zero internal
    then chosen default files internal unconfirmed 45
        ("Prior files exist but no same-day internal rows are available for comparison." ∷ [])
    else chosen default files internal default (if is_unconfirmed default then 55 else 60) (
        existing files partner
        ∷ "Key evidence is required before choosing append, replacement, or snapshot."
        ∷ []))

-- `classify_scope`; a file without a date has no counts.
unfoldable pub classify_scope :
    {Day : Type 0} → ScopeCounts Day → String → Option Day → ScopeType → Result FileScope
unfolding scope_of_counts
classify_scope c partner none default = ok (scope_of_counts c.existing partner default 0 0)
classify_scope c partner (some day) default = and_then (c.count_files partner day) (λ files.
    and_then (c.count_internal partner day)
      (λ internal. ok (scope_of_counts c.existing partner default files internal)))
