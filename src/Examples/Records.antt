-- ===== src/Examples/Records.antt =====
-- The collection of quarantine records in memory does what the database's driver promises.
use text.Mathlib.TextEquality.{eq_iff}
use text.Mathlib.TextPositions.{eq_refl}
use reconciliation_ingestion.Prelude.{
  ℕ, zero, suc, ◌≤◌, any, ◌&&◌, ◌||◌, String, Bool, true, false, Option, none, some, [], ◌∷◌, take,
  length, All, str_eq, if◌then◌else◌, ◌≡◌, refl, sym, ap, ◌∙◌, Bool-cases, inl, inr, subst, arith,
  ◌⊎◌,
}
use mathlib.Core.Bool.{true≢false}
use mathlib.Core.Option.{some_inj}
use reconciliation_ingestion.Quarantine.History.{str_eq-sym}
use reconciliation_ingestion.Quarantine.Types.{IngestionQuarantineRecord}
use reconciliation_ingestion.Quarantine.Collection.{IsDocumentStore, KeepsId}
use reconciliation_ingestion.Examples.Documents.{
  lookup-removed, lookup-remove, filter, IsStored-remove, lookup-miss, lookup-id, lookup-hit,
  IsStored, lookup, remove, visible, cut, delete_where, head_of, Documents, records,
}

visible-IsStored : (db : Documents) → All (IsStored db) (visible db)
visible-IsStored [] = tt
visible-IsStored (d ∷ ds) =
    (lookup-hit d.id d ds (eq_refl d.id), IsStored-remove d ds (visible ds) (visible-IsStored ds))

All-filter :
    (P : IngestionQuarantineRecord → Type 0) (q : IngestionQuarantineRecord → Bool) (xs : Documents)
    → All P xs
    → All (λ d. (q d ≡ true) × P d) (filter q xs)
All-filter P q [] h = tt
All-filter P q (x ∷ xs) h = elim (Bool-cases (q x)) [
  | inl e ↦ rw e ((e, h.0), All-filter P q xs h.1)
  | inr e ↦ rw e (All-filter P q xs h.1)
]

All-cut :
    (P : IngestionQuarantineRecord → Type 0) (n : Option ℕ) (xs : Documents)
    → All P xs
    → All P (cut n xs)
All-cut P none xs h = h
All-cut P (some zero) xs h = tt
All-cut P (some (suc n)) [] h = tt
All-cut P (some (suc n)) (x ∷ xs) h = (h.0, All-cut P (some n) xs h.1)

length-take : (n : ℕ) (xs : Documents) → length (take n xs) ≤ n
length-take zero xs = omega arith
length-take (suc n) [] = omega arith
length-take (suc n) (x ∷ xs) = omega (arith, length-take n xs)

All-unremoved :
    (P : IngestionQuarantineRecord → Type 0) (k : String) (xs : Documents)
    → All P (remove k xs)
    → All (λ x. (str_eq x.id k ≡ true) ⊎ P x) xs
All-unremoved P k [] h = tt
All-unremoved P k (x ∷ xs) h = go (All-unremoved P k xs) (str_eq x.id k) refl h
  where
    go :
        (All P (remove k xs) → All (λ x. (str_eq x.id k ≡ true) ⊎ P x) xs)
        → (b : Bool) → str_eq x.id k ≡ b
        → All P (if b then remove k xs else x ∷ remove k xs)
        → All (λ x. (str_eq x.id k ≡ true) ⊎ P x) (x ∷ xs)
    go rest true e h = (inl e, rest h)
    go rest false e h = (inr h.0, rest h.1)

-- What holds of the visible documents holds of every stored one.
visible-complete :
    (P : IngestionQuarantineRecord → Type 0) (k : String) (db : Documents)
    (d : IngestionQuarantineRecord)
    → All P (visible db)
    → lookup k db ≡ some d
    → P d
visible-complete P k [] d h p = cc p
visible-complete P k (e ∷ ds) d h p = elim (Bool-cases (str_eq e.id k)) as (λ _. P d) [
  | inl t ↦ subst P (some_inj.0 (sym (lookup-hit k e ds t) ∙ p)) h.0
  | inr t ↦
      let below = sym (lookup-miss k e ds t) ∙ p in
      elim (visible-complete (λ x. (str_eq x.id e.id ≡ true) ⊎ P x) k ds d
          (All-unremoved P e.id (visible ds) h.1) below)
        as (λ _. P d) [
          | inl r ↦ absurd (
              true≢false (
                sym r
                ∙ str_eq-sym e.id d.id
                    (subst (λ u. str_eq e.id u ≡ false) (sym (lookup-id k ds d below)) t)))
          | inr r ↦ r
        ]
]

none_match :
    (q : IngestionQuarantineRecord → Bool) (xs : Documents)
    → head_of (filter q xs) ≡ none
    → All (λ x. q x ≡ false) xs
none_match q [] h = tt
none_match q (x ∷ xs) h = go (none_match q xs) (q x) refl h
  where
    go :
        (head_of (filter q xs) ≡ none → All (λ x. q x ≡ false) xs)
        → (b : Bool) → q x ≡ b
        → head_of (if b then x ∷ filter q xs else filter q xs) ≡ none
        → All (λ x. q x ≡ false) (x ∷ xs)
    go rest true e h = cc h
    go rest false e h = (e, rest h)

or-false : (a b : Bool) → (a || b) ≡ false → (a ≡ false) × (b ≡ false)
or-false a b h = ground arith

marked : (a b : Bool) → a ≡ true → (a && b) ≡ false → b ≡ false
marked a b h e = ground arith

none_marked :
    (q r : IngestionQuarantineRecord → Bool) (xs : Documents)
    → any r (filter q xs) ≡ false
    → All (λ x. (q x && r x) ≡ false) xs
none_marked q r [] h = tt
none_marked q r (x ∷ xs) h = go (none_marked q r xs) (q x) refl h
  where
    go :
        (any r (filter q xs) ≡ false → All (λ x. (q x && r x) ≡ false) xs)
        → (b : Bool) → q x ≡ b
        → any r (if b then x ∷ filter q xs else filter q xs) ≡ false
        → All (λ x. (q x && r x) ≡ false) (x ∷ xs)
    go rest true e h =
        let (here, below) = or-false (r x) (any r (filter q xs)) h in (rw e here, rest below)
    go rest false e h = (rw e refl, rest h)

head_matches :
    (P : IngestionQuarantineRecord → Type 0) (xs : Documents) (d : IngestionQuarantineRecord)
    → All P xs
    → head_of xs ≡ some d
    → P d
head_matches P [] d h p = cc p
head_matches P (x ∷ xs) d h p = subst P (some_inj.0 p) h.0

updated-found :
    (k : String) (f : IngestionQuarantineRecord → IngestionQuarantineRecord) (db : Documents)
    (d : IngestionQuarantineRecord)
    → KeepsId f
    → lookup k db ≡ some d
    → lookup k (f d ∷ remove d.id db) ≡ some (f d)
updated-found k f db d keeps p =
    lookup-hit k (f d) (remove d.id db) ((eq_iff (f d).id k).1 (keeps d ∙ lookup-id k db d p))

deleted :
    (o : Option IngestionQuarantineRecord) (k : String) (db : Documents)
    → (delete_where o k db).1 ≡ remove k db
deleted none k db = refl
deleted (some d) k db = refl

deleted-bound :
    (o : Option IngestionQuarantineRecord) (k : String) (db : Documents)
    → (delete_where o k db).0 ≤ 1
deleted-bound none k db = omega arith
deleted-bound (some d) k db = omega arith

pub records-IsDocumentStore : IsDocumentStore records
records-IsDocumentStore = record {
  update_hit = λ k q f db d keeps p h. rw p (rw h (updated-found k f db d keeps p));
  update_modified = λ k q f db d keeps p h n. rw p (rw h refl);
  update_miss = λ k q f db d p h. rw p (rw h refl);
  update_absent = λ k q f db p. rw p refl;
  claim_hit = λ k q f db d p h. rw p (rw h refl);
  claim_miss = λ k q f db d p h. rw p (rw h refl);
  claim_absent = λ k q f db p. rw p refl;
  find_matches = λ q s limit db.
      All-cut (λ d. (q d ≡ true) × IsStored db d) limit (filter q (visible db))
        (All-filter (IsStored db) q (visible db) (visible-IsStored db));
  find_bounded = λ q s limit db. length-take limit (filter q (visible db));
  delete_other = λ j k db n. ap (lookup k) (deleted (lookup j db) j db) ∙ lookup-remove j k db n;
  delete_same = λ k db. ap (lookup k) (deleted (lookup k db) k db) ∙ lookup-removed k db;
  delete_count = λ k db. deleted-bound (lookup k db) k db;
  find_id = λ k db d p. lookup-id k db d p;
  find_complete = λ q r s db d p h e.
      marked (q d) (r d) h
        (visible-complete (λ x. (q x && r x) ≡ false) d.id db d (none_marked q r (visible db) e) p);
  find_first_match = λ q db d h.
      head_matches (λ d. (q d ≡ true) × IsStored db d) (filter q (visible db)) d
        (All-filter (IsStored db) q (visible db) (visible-IsStored db)) h;
  find_first_none =
      λ q db d h p. visible-complete (λ x. q x ≡ false) d.id db d (none_match q (visible db) h) p;
  count_is = λ db. (visible db, λ q. refl);
}
