-- ===== src/Scope/Counts.antt =====
-- The counts that src/reconciliation/scope.py compares are counts of different keys.
use text.Mathlib.TextEquality.{eq_iff}
use reconciliation_ingestion.Prelude.{
  ℕ, ◌+◌, ◌≤◌, String, Bool, true, false, not, ◌&&◌, ◌||◌, List, [], ◌∷◌, str_eq, length, ◌≡◌, refl,
  ap, arith, Bool-cases, inl, inr,
}
use reconciliation_ingestion.Quarantine.History.{str_eq-sym}
use reconciliation_ingestion.Scope.Choice.{length-select_split}
use reconciliation_ingestion.Scope.Keys.{
  Signals, is_key_of, add_key, key_set, select, signals_of, classify_key_scope, classify_signals,
}

-- No key twice.
abbrev are_different : List String → Bool
are_different [] = true
are_different (k ∷ ks) = not (is_key_of ks k) && are_different ks

are_different-add_key :
    (k : String) (ks : List String) → are_different ks ≡ true → are_different (add_key k ks) ≡ true
are_different-add_key k ks h = ground arith

are_different-key_set : (ks : List String) → are_different (key_set ks) ≡ true
unfolding key_set
are_different-key_set [] = refl
are_different-key_set (k ∷ ks) = are_different-add_key _ (key_set ks) (are_different-key_set ks)

select-or :
    (p q : String → Bool) (ks : List String)
    → length (select (λ k. p k || q k) ks) ≤ length (select p ks) + length (select q ks)
unfolding select
select-or p q [] = ground arith
select-or p q (k ∷ ks) = ground (arith, select-or p q ks)

select_none :
    (y : String) (ks : List String)
    → is_key_of ks y ≡ false
    → length (select (λ k. str_eq k y) ks) ≡ 0
unfolding select is_key_of
select_none y [] h = refl
select_none y (k ∷ ks) h = ground (arith, select_none y ks, str_eq-sym y k)

select_at_most_one :
    (y : String) (ks : List String)
    → are_different ks ≡ true
    → length (select (λ k. str_eq k y) ks) ≤ 1
unfolding select
select_at_most_one y [] h = ground arith
select_at_most_one y (k ∷ ks) h = elim (Bool-cases (str_eq k y)) [
  | inl e ↦ ground (arith, e, select_none y ks, ap (is_key_of ks) ((eq_iff k y).0 e))
  | inr e ↦ ground (arith, e, select_at_most_one y ks)
]

select_from_none : (ks : List String) → length (select (is_key_of []) ks) ≡ 0
unfolding select is_key_of
select_from_none [] = refl
select_from_none (k ∷ ks) = select_from_none ks

select_bound :
    (ys ks : List String) → are_different ks ≡ true → length (select (is_key_of ys) ks) ≤ length ys
unfolding is_key_of
select_bound [] ks h = ground (arith, select_from_none ks)
select_bound (y ∷ ys) ks h = ground (
  arith,
  select-or (λ k. str_eq k y) (is_key_of ys) ks,
  select_at_most_one y ks h,
  select_bound ys ks h,
)

length-select_bound : (p : String → Bool) (ks : List String) → length (select p ks) ≤ length ks
unfolding select
length-select_bound p [] = ground arith
length-select_bound p (k ∷ ks) = ground (arith, length-select_bound p ks)

classify_signals-signals : (s : Signals) → (classify_signals s).scope_signals ≡ s
unfolding classify_signals
classify_signals-signals s = ground arith

-- The counts fit: neither ratio passes one, and each incoming key is common or new.
abbrev pub AddsUp : Signals → Type 0
AddsUp s =
    (s.overlap_count ≤ s.historical_count)
    × ((s.overlap_count ≤ s.incoming_count) × (s.overlap_count + s.new_count ≡ s.incoming_count))

-- However often a key is repeated or padded with spaces, the common keys are at most the old keys and at most
-- the incoming ones, so that neither ratio passes one; and the common and the new keys are the incoming keys.
key_scope-AddsUp :
    (incoming_keys historical_keys : List String) (prior : ℕ)
    → AddsUp (classify_key_scope incoming_keys historical_keys prior).scope_signals
unfolding classify_key_scope signals_of
key_scope-AddsUp incoming_keys historical_keys prior =
    let s = signals_of (key_set incoming_keys) (key_set historical_keys) prior in
    rw (classify_signals-signals s) (
      select_bound (key_set historical_keys) (key_set incoming_keys)
          (are_different-key_set incoming_keys),
      (
        length-select_bound (is_key_of (key_set historical_keys)) (key_set incoming_keys),
        length-select_split (is_key_of (key_set historical_keys)) (key_set incoming_keys),
      ),
    )
