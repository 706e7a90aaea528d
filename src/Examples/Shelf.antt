-- ===== src/Examples/Shelf.antt =====
-- A collection that holds one file record at most, and what it promises.
use text.Mathlib.TextEquality.{eq_iff}
use reconciliation_ingestion.Prelude.{
  String, Bool, true, false, Option, none, some, str_eq, if◌then◌else◌, ◌≡◌, refl, sym, ap, ◌∙◌,
  subst,
}
use mathlib.Core.Option.{some_inj}
use reconciliation_ingestion.Result.{Result, ok, err}
use reconciliation_ingestion.Ingestion.Types.{ReconciliationFile}
use reconciliation_ingestion.Ingestion.Files.{FileCollection}
use reconciliation_ingestion.Ingestion.Owning.{Found, IsIndexed}
use reconciliation_ingestion.Ingestion.Store.{IsFileStore, KeepsId}
use reconciliation_ingestion.Ingestion.Failing.{IsAcknowledged}

-- At most one record.
abbrev pub Shelf : Type 0
Shelf = Option ReconciliationFile

abbrev chosen_by : (ReconciliationFile → Bool) → Shelf → Shelf
chosen_by q none = none
chosen_by q (some d) = if q d then some d else none

abbrev changed : (ReconciliationFile → ReconciliationFile) → Shelf → Shelf → Shelf × Shelf
changed f none db = (none, db)
changed f (some d) db = (some (f d), some (f d))

abbrev has_id : String → ReconciliationFile → Bool
has_id k d = str_eq d.id k

abbrev inserted : ReconciliationFile → Shelf → Result Bool × Shelf
inserted d none = (ok true, some d)
inserted d (some e) = (ok false, some e)

abbrev answer_of : Shelf × Shelf → Result Shelf × Shelf
answer_of x = (ok x.0, x.1)

abbrev found_and_changed :
    (ReconciliationFile → Bool)
    → (ReconciliationFile → ReconciliationFile)
    → Shelf
    → Result (Option ReconciliationFile) × Shelf
found_and_changed q f db = answer_of (changed f (chosen_by q db) db)

abbrev updated_one :
    String → (ReconciliationFile → ReconciliationFile) → Shelf → Result Bool × Shelf
updated_one k f db = let (o, next) = changed f (chosen_by (has_id k) db) db in (ok true, next)

abbrev pub shelf : FileCollection
shelf = record {
  Db = Shelf;
  find_one = λ q db. ok (chosen_by q db);
  insert_one = inserted;
  find_one_and_update = found_and_changed;
  update_one = updated_one;
}

pub shelf-IsAcknowledged : IsAcknowledged shelf
shelf-IsAcknowledged k f db = tt

abbrev stored_as : Shelf → String → Shelf
stored_as db k = chosen_by (has_id k) db

held : (k : String) (d : ReconciliationFile) → d.id ≡ k → stored_as (some d) k ≡ some d
held k d e = rw ((eq_iff d.id k).1 e) refl

kept_if :
    (b : Bool) (x d : ReconciliationFile)
    → (if b then some x else none) ≡ some d
    → (b ≡ true) × (x ≡ d)
kept_if true x d e = (refl, some_inj.0 e)
kept_if false x d e = cc e

chosen-true :
    (q : ReconciliationFile → Bool) (db : Shelf) (d : ReconciliationFile)
    → chosen_by q db ≡ some d
    → q d ≡ true
chosen-true q none d e = cc e
chosen-true q (some x) d e = let (b, same) = kept_if (q x) x d e in subst (λ y. q y ≡ true) same b

chosen_is_held :
    (q : ReconciliationFile → Bool) (db : Shelf) (d : ReconciliationFile)
    → chosen_by q db ≡ some d
    → db ≡ some d
chosen_is_held q none d e = e
chosen_is_held q (some x) d e = ap some (kept_if (q x) x d e).1

held_id : (k : String) (db : Shelf) (d : ReconciliationFile) → stored_as db k ≡ some d → d.id ≡ k
held_id k none d e = cc e
held_id k (some x) d e =
    let (b, same) = kept_if (str_eq x.id k) x d e in sym (ap (λ r. r.id) same) ∙ (eq_iff x.id k).0 b

chosen_is_stored :
    (q : ReconciliationFile → Bool) (db : Shelf) (d : ReconciliationFile)
    → chosen_by q db ≡ some d
    → stored_as db d.id ≡ some d
chosen_is_stored q db d e = rw (chosen_is_held q db d e) (held d.id d refl)

insert_is_stored :
    (d : ReconciliationFile) (db db' : Shelf)
    → inserted d db ≡ (ok true, db')
    → stored_as db' d.id ≡ some d
insert_is_stored d none db' e =
    subst (λ x. stored_as x d.id ≡ some d) (ap (λ x. x.1) e) (held d.id d refl)
insert_is_stored d (some x) db' e = cc (ap (λ x. x.0) e)

refused_is_same :
    (d : ReconciliationFile) (db db' : Shelf) → inserted d db ≡ (ok false, db') → db' ≡ db
refused_is_same d none db' e = cc (ap (λ x. x.0) e)
refused_is_same d (some x) db' e = sym (ap (λ x. x.1) e)

updated_is_stored :
    (k : String) (f : ReconciliationFile → ReconciliationFile) (db db' : Shelf) (b : Bool)
    (d : ReconciliationFile)
    → KeepsId f
    → updated_one k f db ≡ (ok b, db')
    → stored_as db k ≡ some d
    → stored_as db' k ≡ some (f d)
updated_is_stored k f db db' b d keeps e p =
    let next : changed f (chosen_by (has_id k) db) db ≡ (some (f d), some (f d)) =
      ap (λ o. changed f o db) p in
    subst (λ x. stored_as x k ≡ some (f d)) (sym (ap (λ x. x.1) next) ∙ ap (λ x. x.1) e)
      (held k (f d) (keeps d ∙ held_id k db d p))

abbrev value : Result Shelf → Shelf
value (ok o) = o
value (err e) = none

found_is_stored :
    (f : ReconciliationFile → ReconciliationFile) (o db db' : Shelf) (d : ReconciliationFile)
    → answer_of (changed f o db) ≡ (ok (some d), db')
    → stored_as db' d.id ≡ some d
found_is_stored f none db db' d e = cc (ap (λ x. x.0) e)
found_is_stored f (some x) db db' d e =
    subst (λ y. stored_as y d.id ≡ some d) (sym (ap (λ x. value x.0) e) ∙ ap (λ x. x.1) e)
      (held d.id d refl)

nothing_is_same :
    (f : ReconciliationFile → ReconciliationFile) (o db db' : Shelf)
    → answer_of (changed f o db) ≡ (ok none, db')
    → db' ≡ db
nothing_is_same f none db db' e = sym (ap (λ x. x.1) e)
nothing_is_same f (some x) db db' e = cc (ap (λ x. x.0) e)

pub shelf-IsFileStore : IsFileStore shelf
shelf-IsFileStore = record {
  document = stored_as;
  insert_stored = insert_is_stored;
  insert_refused = refused_is_same;
  found_stored = λ q db d e. chosen_is_stored q db d (ap value e);
  found_and_updated = λ q f db db' d keeps. found_is_stored f (chosen_by q db) db db' d;
  found_nothing = λ q f db db'. nothing_is_same f (chosen_by q db) db db';
  update_written = updated_is_stored;
  update_unsure = λ k f db db' e d keeps u p. cc (ap (λ x. x.0) u);
}

shelf_unique :
    (db : Shelf) (i j : String) (d e : ReconciliationFile)
    → stored_as db i ≡ some d
    → stored_as db j ≡ some e
    → d ≡ e
shelf_unique db i j d e p q =
    some_inj.0 (sym (chosen_is_held (has_id i) db d p) ∙ chosen_is_held (has_id j) db e q)

shelf_is_full :
    (d e : ReconciliationFile) (db db' : Shelf) (i : String)
    → inserted d db ≡ (ok true, db')
    → ¬ (stored_as db i ≡ some e)
shelf_is_full d e none db' i u p = cc p
shelf_is_full d e (some x) db' i u p = cc (ap (λ y. y.0) u)

update-Found :
    (q : ReconciliationFile → Bool) (f : ReconciliationFile → ReconciliationFile) (db db' : Shelf)
    (d : ReconciliationFile) (o : Shelf)
    → chosen_by q db ≡ o
    → answer_of (changed f o db) ≡ (ok (some d), db')
    → Found shelf-IsFileStore q f db d
unfolding shelf-IsFileStore
update-Found q f db db' d none g e = cc (ap (λ x. x.0) e)
update-Found q f db db' d (some b) g e = record {
  before = b;
  stored = chosen_is_stored q db b g;
  matches = chosen-true q db b g;
  after = some_inj.0 (sym (ap (λ x. value x.0) e));
}

pub shelf-IsIndexed : IsIndexed shelf-IsFileStore
unfolding shelf-IsFileStore
shelf-IsIndexed = record {
  unique = λ db i j d e p q _ _. shelf_unique db i j d e p q;
  insert_accepted = λ d e db db' i u p _ _. shelf_is_full d e db db' i u p;
  update_matched = λ q f db db' d. update-Found q f db db' d (chosen_by q db) refl;
}
