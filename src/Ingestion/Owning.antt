-- ===== src/Ingestion/Owning.antt =====
-- Two claims of one file, as src/pipeline/file_claim.py makes them: the database calls of the second may come between
-- those of the first, so that what it has read may be out of date.
use text.Mathlib.TextEquality.{eq_iff}
use mathlib.Core.Bool.{true≢false}
use reconciliation_ingestion.Prelude.{
  String, Bool, true, false, ◌&&◌, Option, none, some, ◌≡◌, refl, ap, ◌∙◌, sym, Bool-cases, inl,
  inr, str_eq,
}
use reconciliation_ingestion.Result.{Result, ok, err, Post, Post-bind, Post-lift, proceed, ◌>>=◌}
use reconciliation_ingestion.Scope.Files.{FileScope, ScopeCounts, classify_scope}
use reconciliation_ingestion.Scope.Keys.{unconfirmed}
use reconciliation_ingestion.Ingestion.Types.{
  ReconciliationFile, FileClaimResult, ProcessFileCommand,
}
use reconciliation_ingestion.Ingestion.Files.{
  FileCollection, is_delivery, is_failed, is_failed_delivery, reclaimed_file, existing_or_raise,
  find_by_its_unit, find_existing, created_or_existing, find_by_file_hash,
  reclaim_failed_by_file_hash, create_or_get_by_file_hash,
}
use reconciliation_ingestion.Ingestion.Claim.{
  Digests, candidate, claim_created, claim_new, claim_reclaimed, claim_found,
}
use reconciliation_ingestion.Ingestion.Store.{IsFileStore}

module _ {c : FileCollection} (s : IsFileStore c) where
  open c use {Db}

  -- The document that an update has found, and what became of it.
  pub record Found (q : ReconciliationFile → Bool) (f : ReconciliationFile → ReconciliationFile)
      (db : Db) (d : ReconciliationFile) : Type 0 where
    pub before : ReconciliationFile
    pub stored : s.document db before.id ≡ some before
    pub matches : q before ≡ true
    pub after : d ≡ f before

  -- The unique index on partner and file hash, and the match of an update.
  pub record IsIndexed : Type 0 where
    pub unique :
        (db : Db) (i j : String) (d e : ReconciliationFile)
        → s.document db i ≡ some d
        → s.document db j ≡ some e
        → d.partner ≡ e.partner
        → d.file_hash ≡ e.file_hash
        → d ≡ e
    pub insert_accepted :
        (d e : ReconciliationFile) (db db' : Db) (i : String)
        → c.insert_one d db ≡ (ok true, db')
        → s.document db i ≡ some e
        → d.partner ≡ e.partner
        → ¬ (d.file_hash ≡ e.file_hash)
    pub update_matched :
        (q : ReconciliationFile → Bool) (f : ReconciliationFile → ReconciliationFile) (db db' : Db)
        (d : ReconciliationFile)
        → c.find_one_and_update q f db ≡ (ok (some d), db')
        → Found q f db d

  -- The file is stored, and has not failed.
  pub record Held (partner file_hash : String) (db : Db) : Type 0 where
    pub file : ReconciliationFile
    pub stored : s.document db file.id ≡ some file
    pub same_partner : file.partner ≡ partner
    pub same_hash : file.file_hash ≡ file_hash
    pub not_failed : is_failed file.processing_status ≡ false

and-true : (a b : Bool) → (a && b) ≡ true → (a ≡ true) × (b ≡ true)
and-true true true e = (refl, refl)
and-true true false e = cc e
and-true false b e = cc e

-- What a failed delivery is.
pub is_failed_delivery-true :
    (partner file_hash : String) (d : ReconciliationFile)
    → is_failed_delivery partner file_hash d ≡ true
    → (d.partner ≡ partner) × (d.file_hash ≡ file_hash) × (is_failed d.processing_status ≡ true)
unfolding is_failed_delivery is_delivery
is_failed_delivery-true partner file_hash d e =
    let (both, failed) = and-true _ (is_failed d.processing_status) e in
    let (p, h) = and-true (str_eq d.partner partner) (str_eq d.file_hash file_hash) both in
    ((eq_iff d.partner partner).0 p, (eq_iff d.file_hash file_hash).0 h, failed)

module _ {S A : Type 0} where
  -- A call does something or raises.
  anything : (x : Result A × S) → Post (λ _ _. Unit {0}) x
  anything (ok a, t) = tt
  anything (err e, t) = tt

module _ (c : FileCollection) (s : IsFileStore c) (x : IsIndexed s) where
  open c use {Db}

  abbrev IsRefused : FileClaimResult → Db → Type 0
  IsRefused r db = r.created ≡ false

  abbrev pub IsOld : ReconciliationFile × Bool → Db → Type 0
  IsOld a db = a.1 ≡ false

  IsOld-existing_or_raise :
      (o : Option ReconciliationFile) (db : Db) → Post IsOld (existing_or_raise c o db)
  IsOld-existing_or_raise none db = tt
  IsOld-existing_or_raise (some d) db = refl

  IsOld-find_existing :
      (doc : ReconciliationFile) (o : Option ReconciliationFile) (db : Db)
      → Post IsOld (find_existing c doc o db)
  IsOld-find_existing doc (some d) db = refl
  IsOld-find_existing doc none db =
      Post-bind (λ _ _. Unit {0}) IsOld (find_by_its_unit c doc.fetch_unit_key)
        (existing_or_raise c) db (anything (find_by_its_unit c doc.fetch_unit_key db))
        (λ o t _. IsOld-existing_or_raise o t)

  pub IsOld-refused :
      (doc : ReconciliationFile) (db : Db) → Post IsOld (created_or_existing c doc false db)
  unfolding ◌>>=◌ find_by_file_hash
  IsOld-refused doc db =
      Post-bind (λ _ _. Unit {0}) IsOld (find_by_file_hash c doc.partner doc.file_hash)
        (find_existing c doc) db (anything (find_by_file_hash c doc.partner doc.file_hash db))
        (λ o t _. IsOld-find_existing doc o t)

  module _ (g : Digests) (counts : ScopeCounts String) (id : String) (command : ProcessFileCommand)
      (file_hash : String) (key : Option String) where
    abbrev HeldIn : Db → Type 0
    HeldIn db = Held s command.partner file_hash db

    IsRefused-created :
        (a : ReconciliationFile × Bool) (db : Db)
        → IsOld a db
        → IsRefused (claim_created c g counts id command file_hash key a) db
    IsRefused-created (d, true) db e = cc e
    IsRefused-created (d, false) db e = refl

    module _ (db : Db) (held : HeldIn db) where
      -- The index refuses a second record of the file.
      IsOld-inserted :
          (scope : FileScope) (y : Result Bool × Db)
          → c.insert_one (candidate g id command file_hash key scope) db ≡ y
          → Post IsOld
              (proceed y.0 (created_or_existing c (candidate g id command file_hash key scope)) y.1)
      unfolding candidate
      IsOld-inserted scope (err e, db') u = tt
      IsOld-inserted scope (ok true, db') u = absurd (
          x.insert_accepted (candidate g id command file_hash key scope) held.file db db'
            held.file.id u held.stored (sym held.same_partner) (sym held.same_hash))
      IsOld-inserted scope (ok false, db') u =
          IsOld-refused (candidate g id command file_hash key scope) db'

      IsOld-create_or_get :
          (scope : FileScope)
          → Post IsOld
              (create_or_get_by_file_hash c (candidate g id command file_hash key scope) db)
      unfolding create_or_get_by_file_hash ◌>>=◌
      IsOld-create_or_get scope =
          IsOld-inserted scope (c.insert_one (candidate g id command file_hash key scope) db) refl

      IsRefused-new : Post IsRefused (claim_new c g counts id command file_hash key db)
      IsRefused-new =
          Post-lift IsRefused
            (classify_scope counts command.partner (some command.reconciliation_date) unconfirmed) _
            db
            (λ scope _.
              Post-bind IsOld IsRefused
                (create_or_get_by_file_hash c (candidate g id command file_hash key scope)) _ db
                (IsOld-create_or_get scope) (λ a t h. IsRefused-created a t h))

      -- No update finds the file as failed.
      not-Found_failed :
          (d : ReconciliationFile)
          → ¬ (Found s (is_failed_delivery command.partner file_hash) reclaimed_file db d)
      not-Found_failed d f =
          let (p, h, failed) =
            is_failed_delivery-true command.partner file_hash f.before f.matches in
          let same =
            x.unique db f.before.id held.file.id f.before held.file f.stored held.stored
              (p ∙ sym held.same_partner) (h ∙ sym held.same_hash) in
          true≢false (sym failed ∙ ap (λ e. is_failed e.processing_status) same ∙ held.not_failed)

      IsRefused-reclaimed :
          (e : ReconciliationFile) (y : Result (Option ReconciliationFile) × Db)
          → reclaim_failed_by_file_hash c command.partner file_hash db ≡ y
          → Post IsRefused (proceed y.0 (claim_reclaimed c g counts id command e) y.1)
      unfolding reclaim_failed_by_file_hash
      IsRefused-reclaimed e (err r, db') u = tt
      IsRefused-reclaimed e (ok none, db') u = refl
      IsRefused-reclaimed e (ok (some d), db') u = absurd (
          not-Found_failed d (
            x.update_matched (is_failed_delivery command.partner file_hash) reclaimed_file db db' d
              u))

      -- Whatever the claim has read before, it is refused.
      pub IsRefused-found :
          (seen : Option ReconciliationFile)
          → Post IsRefused (claim_found c g counts id command file_hash key seen db)
      unfolding ◌>>=◌
      IsRefused-found none = IsRefused-new
      IsRefused-found (some e) = elim (Bool-cases (is_failed e.processing_status)) [
        | inl h ↦ rw h (
            IsRefused-reclaimed e (reclaim_failed_by_file_hash c command.partner file_hash db) refl)
        | inr h ↦ rw h refl
      ]
