-- ===== src/Scope/Choice.antt =====
-- What the ladder of src/reconciliation/scope.py comes to: three shares of the incoming keys.
use reconciliation_ingestion.Prelude.{
  ℕ, ◌+◌, ◌*◌, String, Bool, not, ◌||◌, List, [], ◌∷◌, ltb, length, ◌≡◌, refl, arith, if◌then◌else◌,
}
use reconciliation_ingestion.Scope.Keys.{
  ScopeType, Signals, unconfirmed, full_snapshot, incremental_append, replacement, is_key_of,
  key_set, select, is_zero, signals_of, classify_signals, classify_key_scope,
}

-- The choice, from the counts of incoming, historical and common keys alone.
unfoldable pub expected_scope : ℕ → ℕ → ℕ → ℕ → ScopeType
expected_scope incoming historical common prior =
    if is_zero incoming
    then unconfirmed
    else if is_zero historical
    then (if is_zero prior then full_snapshot else unconfirmed)
    else if not (ltb (5 * common) (4 * incoming)) || not (ltb common historical)
    then replacement
    else if ltb incoming (2 * common)
    then unconfirmed
    else incremental_append

pub length-select_split :
    (p : String → Bool) (ks : List String)
    → length (select p ks) + length (select (λ k. not (p k)) ks) ≡ length ks
unfolding select
length-select_split p [] = refl
length-select_split p (k ∷ ks) = ground (arith, length-select_split p ks)

classify_signals_lem :
    (s : Signals)
    → s.overlap_count + s.new_count ≡ s.incoming_count
    → (classify_signals s).scope_type
      ≡ expected_scope s.incoming_count s.historical_count s.overlap_count s.prior_file_count
unfolding classify_signals expected_scope
classify_signals_lem s split = ground arith

-- The scope of a delivery depends on how its keys lie to the keys delivered before, and on nothing else: no keys,
-- or none before though files came, leave it unconfirmed; none before and no file make a snapshot; at least
-- four fifths in common, or all the old keys delivered again, make a replacement; of the others, those with
-- at most half in common are an append, and those between are left to a reviewer.
pub scope_by_shares :
    (incoming_keys historical_keys : List String) (prior : ℕ)
    → (classify_key_scope incoming_keys historical_keys prior).scope_type
      ≡ expected_scope
          (length (key_set incoming_keys))
          (length (key_set historical_keys))
          (length (select (is_key_of (key_set historical_keys)) (key_set incoming_keys)))
          prior
unfolding classify_key_scope signals_of
scope_by_shares incoming_keys historical_keys prior =
    classify_signals_lem (signals_of (key_set incoming_keys) (key_set historical_keys) prior)
      (length-select_split (is_key_of (key_set historical_keys)) (key_set incoming_keys))
