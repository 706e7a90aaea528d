-- ===== src/Examples/Documents.antt =====
-- A collection of quarantine records in memory, in the order they were written.
use text.Mathlib.TextEquality.{eq_iff}
use reconciliation_ingestion.Prelude.{
  ℕ, suc, String, Bool, true, false, Option, none, some, List, [], ◌∷◌, ◌++◌, take, count_if, All,
  str_eq, if◌then◌else◌, ◌≡◌, ◌≢◌, refl, sym, ap, ◌∙◌, Bool-cases, inl, inr, subst,
}
use mathlib.Core.Option.{some_inj}
use reconciliation_ingestion.Quarantine.History.{str_eq-sym}
use reconciliation_ingestion.Quarantine.Types.{IngestionQuarantineRecord}
use reconciliation_ingestion.Quarantine.Collection.{Collection}

abbrev pub Documents : Type 0
Documents = List IngestionQuarantineRecord

abbrev pub lookup : String → Documents → Option IngestionQuarantineRecord
lookup k [] = none
lookup k (d ∷ ds) = let rest = lookup k ds in if str_eq d.id k then some d else rest

abbrev pub remove : String → Documents → Documents
remove k [] = []
remove k (d ∷ ds) = let rest = remove k ds in if str_eq d.id k then rest else d ∷ rest

-- Each identifier's document, once.
abbrev pub visible : Documents → Documents
visible [] = []
visible (d ∷ ds) = d ∷ remove d.id (visible ds)

abbrev pub filter : (IngestionQuarantineRecord → Bool) → Documents → Documents
filter q [] = []
filter q (d ∷ ds) = let rest = filter q ds in if q d then d ∷ rest else rest

abbrev pub cut : Option ℕ → Documents → Documents
cut none ds = ds
cut (some n) ds = take n ds

abbrev pub head_of : Documents → Option IngestionQuarantineRecord
head_of [] = none
head_of (d ∷ ds) = some d

abbrev pub update_where :
    Option IngestionQuarantineRecord
    → (IngestionQuarantineRecord → Bool)
    → (IngestionQuarantineRecord → IngestionQuarantineRecord)
    → Documents
    → Option IngestionQuarantineRecord × Documents
update_where none q f db = (none, db)
update_where (some d) q f db = if q d then (some (f d), f d ∷ remove d.id db) else (none, db)

abbrev was_some : Option IngestionQuarantineRecord × Documents → Bool × Documents
was_some (none, db) = (false, db)
was_some (some d, db) = (true, db)

abbrev pub delete_where : Option IngestionQuarantineRecord → String → Documents → ℕ × Documents
delete_where none k db = (0, remove k db)
delete_where (some d) k db = (1, remove k db)

abbrev update_all :
    (IngestionQuarantineRecord → Bool)
    → (IngestionQuarantineRecord → IngestionQuarantineRecord)
    → Documents
    → ℕ × Documents
update_all q f [] = (0, [])
update_all q f (d ∷ ds) =
    let (n, rest) = update_all q f ds in if q d then (suc n, f d ∷ rest) else (n, d ∷ rest)

abbrev pub records : Collection
records = record {
  Db = Documents;
  find_one = lookup;
  update_one = λ k q f db. was_some (update_where (lookup k db) q f db);
  find_one_and_update = λ k q f db. update_where (lookup k db) q f db;
  find = λ q s limit db. cut limit (filter q (visible db));
  find_first = λ q db. head_of (filter q (visible db));
  count_documents = λ q db. count_if q (visible db);
  insert_many = λ ds db. db ++ ds;
  update_many = update_all;
  delete_one = λ k db. delete_where (lookup k db) k db;
}

abbrev pub IsStored : Documents → IngestionQuarantineRecord → Type 0
IsStored db d = lookup d.id db ≡ some d

pub lookup-hit :
    (k : String) (e : IngestionQuarantineRecord) (ds : Documents)
    → str_eq e.id k ≡ true
    → lookup k (e ∷ ds) ≡ some e
lookup-hit k e ds h = rw h refl

pub lookup-miss :
    (k : String) (e : IngestionQuarantineRecord) (ds : Documents)
    → str_eq e.id k ≡ false
    → lookup k (e ∷ ds) ≡ lookup k ds
lookup-miss k e ds h = rw h refl

pub lookup-id :
    (k : String) (db : Documents) (d : IngestionQuarantineRecord) → lookup k db ≡ some d → d.id ≡ k
lookup-id k [] d p = cc p
lookup-id k (e ∷ ds) d p = elim (Bool-cases (str_eq e.id k)) as (λ _. d.id ≡ k) [
  | inl h ↦ subst (λ x. x.id ≡ k) (some_inj.0 (sym (lookup-hit k e ds h) ∙ p)) ((eq_iff e.id k).0 h)
  | inr h ↦ lookup-id k ds d (sym (lookup-miss k e ds h) ∙ p)
]

other_id : (a j k : String) → j ≢ k → str_eq a j ≡ true → str_eq a k ≡ false
other_id a j k n h = elim (Bool-cases (str_eq a k)) as (λ _. str_eq a k ≡ false) [
  | inl e ↦ absurd (n (sym ((eq_iff a j).0 h) ∙ (eq_iff a k).0 e))
  | inr e ↦ e
]

pub lookup-remove : (j k : String) (db : Documents) → j ≢ k → lookup k (remove j db) ≡ lookup k db
lookup-remove j k [] n = refl
lookup-remove j k (d ∷ ds) n = elim (Bool-cases (str_eq d.id j)) [
  | inl h ↦ rw h (lookup-remove j k ds n ∙ sym (lookup-miss k d ds (other_id d.id j k n h)))
  | inr h ↦ rw h (ap (λ u. if str_eq d.id k then some d else u) (lookup-remove j k ds n))
]

pub lookup-removed : (k : String) (db : Documents) → lookup k (remove k db) ≡ none
lookup-removed k [] = refl
lookup-removed k (d ∷ ds) = elim (Bool-cases (str_eq d.id k)) [
  | inl h ↦ rw h (lookup-removed k ds)
  | inr h ↦ rw (h, h) (lookup-removed k ds)
]

pub IsStored-remove :
    (d : IngestionQuarantineRecord) (ds xs : Documents)
    → All (IsStored ds) xs
    → All (IsStored (d ∷ ds)) (remove d.id xs)
IsStored-remove d ds [] h = tt
IsStored-remove d ds (x ∷ xs) h = elim (Bool-cases (str_eq x.id d.id)) [
  | inl e ↦ rw e (IsStored-remove d ds xs h.1)
  | inr e ↦ rw e (lookup-miss x.id d ds (str_eq-sym x.id d.id e) ∙ h.0, IsStored-remove d ds xs h.1)
]
