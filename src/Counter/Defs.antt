-- ===== src/Counter/Defs.antt =====
-- The dictionary of counts, and the ten items that a summary shows first.
use Prim.Native.Nat.{Ordering, compare as compare_ℕ}
use Prim.Native.String.{compare}
use reconciliation_ingestion.Prelude.{
  ℕ, suc, String, Bool, true, false, List, [], ◌∷◌, map, str_eq, take, if◌then◌else◌,
}

abbrev pub Counter : Type 0
Counter = List (String × ℕ)

-- counts.get(k, 0)
unfoldable pub get_count : String → Counter → ℕ
get_count k [] = 0
get_count k ((j, n) ∷ c) = if str_eq j k then n else get_count k c

-- counts[k] = counts.get(k, 0) + 1
unfoldable pub increment : String → Counter → Counter
increment k [] = (k, 1) ∷ []
increment k ((j, n) ∷ c) = if str_eq j k then (j, suc n) ∷ c else (j, n) ∷ increment k c

-- The key (-count, code), compared as Python compares tuples.
unfoldable pub key_le : String × ℕ → String × ℕ → Bool
key_le (k, n) (j, m) = elim (compare_ℕ m n) [
  | Ordering.lt ↦ true
  | Ordering.gt ↦ false
  | Ordering.eq ↦ elim (compare k j) [ Ordering.gt ↦ false | _ ↦ true ]
]

unfoldable pub insert_item : String × ℕ → Counter → Counter
insert_item x [] = x ∷ []
insert_item x (y ∷ c) = if key_le x y then x ∷ y ∷ c else y ∷ insert_item x c

unfoldable pub sort_items : Counter → Counter
sort_items [] = []
sort_items (x ∷ c) = insert_item x (sort_items c)

abbrev first : String × ℕ → String
first (k, n) = k

-- [code for code, _ in sorted(counts.items(), key=...)[:10]]
unfoldable pub top_items : Counter → List String
unfolding sort_items insert_item key_le
top_items c = map first (take 10 (sort_items c))
