-- ===== src/Examples/Scopes.antt =====
-- The classification of src/reconciliation/scope.py on concrete keys.
use reconciliation_ingestion.Prelude.{String, List, [], ◌∷◌, ◌≡◌, refl}
use reconciliation_ingestion.Scope.Keys.{
  classify_key_scope, unconfirmed, is_key_of, key_set, select,
}
use reconciliation_ingestion.Scope.Choice.{expected_scope, scope_by_shares}

abbrev delivered : List String
delivered = "a" ∷ " b" ∷ "c " ∷ "b" ∷ "" ∷ "d" ∷ []

-- Two of three in common are neither an append nor a replacement.
scope_by_shares_example :
    (classify_key_scope ("a" ∷ "b " ∷ "e" ∷ "a" ∷ []) delivered 1).scope_type ≡ unconfirmed
unfolding expected_scope key_set select is_key_of
scope_by_shares_example = scope_by_shares ("a" ∷ "b " ∷ "e" ∷ "a" ∷ []) delivered 1

all_again :
    (classify_key_scope ("d" ∷ "c" ∷ "b" ∷ "a" ∷ "e" ∷ []) delivered 1).scope_confidence ≡ 96
unfolding classify_key_scope select
all_again = refl
