-- ===== src/Scope/Keys.antt =====
-- `classify_key_scope` of src/reconciliation/scope.py. A ratio is compared by products of the counts, and a
-- confidence is a number of hundredths; both agree with the source's floating point for counts below 2 ^ 50.
use reconciliation_ingestion.Prelude.{
  ℕ, ◌*◌, String, Bool, not, ◌&&◌, ◌||◌, List, [], ◌∷◌, any, str_eq, ltb, length, if◌then◌else◌,
}
use reconciliation_ingestion.Quarantine.Texts.{strip}

-- `ReconciliationScopeType`
pub data ScopeType : Type 0 where
  unconfirmed full_snapshot incremental_append replacement : ScopeType

-- The part of the signals that is counted.
pub record Signals : Type 0 where
  pub incoming_count : ℕ
  pub historical_count : ℕ
  pub overlap_count : ℕ
  pub new_count : ℕ
  pub prior_file_count : ℕ

pub record KeyScope : Type 0 where
  pub scope_type : ScopeType
  pub scope_confidence : ℕ
  pub scope_reason : List String
  pub scope_signals : Signals

unfoldable pub is_key_of : List String → String → Bool
is_key_of ks k = any (str_eq k) ks

abbrev pub add_key : String → List String → List String
add_key k ks = if str_eq k "" || is_key_of ks k then ks else k ∷ ks

-- `{str(key).strip() for key in keys if str(key).strip()}`
unfoldable pub key_set : List String → List String
unfolding strip
key_set [] = []
key_set (k ∷ ks) = add_key (strip k) (key_set ks)

unfoldable pub select : (String → Bool) → List String → List String
select p [] = []
select p (k ∷ ks) = let rest = select p ks in if p k then k ∷ rest else rest

abbrev pub is_zero : ℕ → Bool
is_zero n = ltb n 1

unfoldable pub signals_of : List String → List String → ℕ → Signals
unfolding is_key_of
signals_of incoming historical prior = record {
  incoming_count = length incoming;
  historical_count = length historical;
  overlap_count = length (select (is_key_of historical) incoming);
  new_count = length (select (λ k. not (is_key_of historical k)) incoming);
  prior_file_count = prior;
}

abbrev answer : ScopeType → ℕ → String → Signals → KeyScope
answer scope confidence reason s = record {
  scope_type = scope;
  scope_confidence = confidence;
  scope_reason = reason ∷ [];
  scope_signals = s;
}

-- The ladder of returns on the counts.
unfoldable pub classify_signals : Signals → KeyScope
classify_signals s =
    if is_zero s.incoming_count
    then answer unconfirmed 20 "No business keys were available for scope classification." s
    else if is_zero s.historical_count
    then (if is_zero s.prior_file_count
        then answer full_snapshot 92
            "No prior same-day partner keys exist; the first delivery is treated as a full snapshot."
            s
        else answer unconfirmed 55
            "Prior files exist, but historical business keys are unavailable for comparison." s)
    else if is_zero s.overlap_count
    then answer incremental_append 98
        "The file contains only new business keys and no key overlaps the prior same-day deliveries."
        s
    else if not (ltb s.overlap_count s.historical_count) && ltb 0 s.new_count
    then answer replacement 96
        "The file covers the prior same-day key set and adds new keys, so it supersedes the previous delivery."
        s
    else if not (ltb (5 * s.overlap_count) (4 * s.incoming_count))
    then answer replacement 86
        "Most incoming keys overlap prior deliveries, so the file is treated as a replacement candidate."
        s
    else if ltb 0 s.new_count
        && (not (ltb (2 * s.new_count) s.incoming_count)
            || ltb (2 * s.overlap_count) s.incoming_count)
    then answer incremental_append 90
        "The incoming batch is predominantly new and does not replace the prior same-day key set." s
    else answer unconfirmed 55 "Key overlap is ambiguous; reviewer selection is required." s

-- `classify_key_scope`
unfoldable pub classify_key_scope : List String → List String → ℕ → KeyScope
unfolding key_set signals_of classify_signals
classify_key_scope incoming_keys historical_keys prior =
    classify_signals (signals_of (key_set incoming_keys) (key_set historical_keys) prior)
