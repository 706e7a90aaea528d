-- ===== src/Counter/Laws.antt =====
-- What a client of the counters uses.
use reconciliation_ingestion.Prelude.{
  ℕ, zero, suc, ◌≤◌, String, List, [], ◌∷◌, ◌≡◌, refl, str_eq, eq_iff, arith, if◌then◌else◌, length,
  map, take,
}
use reconciliation_ingestion.Counter.Defs.{Counter, get_count, increment, sort_items, top_items}

pub get_count-increment :
    (k j : String) (c : Counter)
    → get_count j (increment k c) ≡ (if str_eq k j then suc (get_count j c) else get_count j c)
unfolding get_count increment
get_count-increment k j [] = ground (arith, eq_iff k j)
get_count-increment k j ((i, n) ∷ c) =
    ground (arith, eq_iff k j, eq_iff i k, eq_iff i j, get_count-increment k j c)

length-take_le {ℓ} : {A : Type ℓ} (n : ℕ) (xs : List A) → length (take n xs) ≤ n
length-take_le zero xs = omega arith
length-take_le (suc n) [] = omega arith
length-take_le (suc n) (x ∷ xs) = omega (arith, length-take_le n xs)

length-map {ℓ κ} :
    {A : Type ℓ} {B : Type κ} (f : A → B) (xs : List A) → length (map f xs) ≡ length xs
length-map f [] = refl
length-map f (x ∷ xs) = omega (arith, length-map f xs)

pub length-top_items : (c : Counter) → length (top_items c) ≤ 10
unfolding top_items
length-top_items c =
    omega (arith, length-take_le 10 (sort_items c), length-map {0, 0} _ (take 10 (sort_items c)))
