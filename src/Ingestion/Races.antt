-- ===== src/Ingestion/Races.antt =====
-- Who owns a file that src/pipeline/file_claim.py claims twice.
use mathlib.Core.Bool.{true≢false}
use reconciliation_ingestion.Prelude.{
  String, Bool, true, false, Option, none, some, ◌≡◌, refl, ap, ◌∙◌, sym, subst, Bool-cases, inl,
  inr,
}
use reconciliation_ingestion.Result.{Result, ok, err, Post, Post-bind, Post-lift, proceed, ◌>>=◌}
use reconciliation_ingestion.Scope.Files.{FileScope, ScopeCounts, classify_scope}
use reconciliation_ingestion.Scope.Keys.{unconfirmed}
use reconciliation_ingestion.Ingestion.Types.{
  ReconciliationFile, FileClaimResult, ProcessFileCommand,
}
use reconciliation_ingestion.Ingestion.Files.{
  FileCollection, is_delivery, is_failed, is_failed_delivery, reclaimed_file, created_or_existing,
  find_by_file_hash, reclaim_failed_by_file_hash, create_or_get_by_file_hash,
}
use reconciliation_ingestion.Ingestion.Claim.{
  Digests, candidate, claim, claim_created, claim_new, claim_reclaimed, claim_found,
}
use reconciliation_ingestion.Ingestion.Store.{IsFileStore}
use reconciliation_ingestion.Ingestion.Claimed.{reclaimed_file-KeepsId}
use reconciliation_ingestion.Ingestion.Owning.{
  Found, IsIndexed, Held, is_failed_delivery-true, IsOld, IsOld-refused, IsRefused-found,
}

module _ (c : FileCollection) (s : IsFileStore c) (x : IsIndexed s) where
  open c use {Db}

  module _ (g : Digests) (counts : ScopeCounts String) (id : String) (command : ProcessFileCommand)
      (file_hash : String) (key : Option String) where
    abbrev HeldIn : Db → Type 0
    HeldIn db = Held s command.partner file_hash db

    -- What a claim that has made or taken back a record leaves behind.
    abbrev Owns : FileClaimResult → Db → Type 0
    Owns r db = r.created ≡ true → HeldIn db

    abbrev MadeIt : ReconciliationFile × Bool → Db → Type 0
    MadeIt a db = a.1 ≡ true → HeldIn db

    MadeIt-old :
        (y : Result (ReconciliationFile × Bool) × Db) → Post (IsOld c s x) y → Post MadeIt y
    MadeIt-old (err e, t) h = tt
    MadeIt-old (ok (d, b), t) h = λ e. absurd (true≢false (sym e ∙ h))

    MadeIt-inserted :
        (scope : FileScope) (db : Db) (y : Result Bool × Db)
        → c.insert_one (candidate g id command file_hash key scope) db ≡ y
        → Post MadeIt
            (proceed y.0 (created_or_existing c (candidate g id command file_hash key scope)) y.1)
    unfolding candidate
    MadeIt-inserted scope db (err e, db') u = tt
    MadeIt-inserted scope db (ok true, db') u = λ e. record {
      file = candidate g id command file_hash key scope;
      stored = s.insert_stored (candidate g id command file_hash key scope) db db' u;
      same_partner = refl;
      same_hash = refl;
      not_failed = refl;
    }
    MadeIt-inserted scope db (ok false, db') u =
        MadeIt-old (created_or_existing c (candidate g id command file_hash key scope) false db')
          (IsOld-refused c s x (candidate g id command file_hash key scope) db')

    MadeIt-create_or_get :
        (scope : FileScope) (db : Db)
        → Post MadeIt (create_or_get_by_file_hash c (candidate g id command file_hash key scope) db)
    unfolding create_or_get_by_file_hash ◌>>=◌
    MadeIt-create_or_get scope db =
        MadeIt-inserted scope db (c.insert_one (candidate g id command file_hash key scope) db) refl

    Owns-created :
        (a : ReconciliationFile × Bool) (db : Db)
        → MadeIt a db
        → Owns (claim_created c g counts id command file_hash key a) db
    Owns-created (d, true) db h = h
    Owns-created (d, false) db h = λ e. cc e

    Owns-new : (db : Db) → Post Owns (claim_new c g counts id command file_hash key db)
    Owns-new db =
        Post-lift Owns
          (classify_scope counts command.partner (some command.reconciliation_date) unconfirmed) _
          db
          (λ scope _.
            Post-bind MadeIt Owns
              (create_or_get_by_file_hash c (candidate g id command file_hash key scope)) _ db
              (MadeIt-create_or_get scope db) (λ a t h. Owns-created a t h))

    taken_back :
        (db db' : Db) (d : ReconciliationFile)
        → s.document db' d.id ≡ some d
        → Found s (is_failed_delivery command.partner file_hash) reclaimed_file db d
        → HeldIn db'
    unfolding reclaimed_file
    taken_back db db' d stored f =
        let (p, h, failed) = is_failed_delivery-true command.partner file_hash f.before f.matches in
        record {
          file = d;
          stored = stored;
          same_partner = ap (λ e. e.partner) f.after ∙ p;
          same_hash = ap (λ e. e.file_hash) f.after ∙ h;
          not_failed = ap (λ e. is_failed e.processing_status) f.after;
        }

    Owns-reclaimed :
        (e : ReconciliationFile) (db : Db) (y : Result (Option ReconciliationFile) × Db)
        → reclaim_failed_by_file_hash c command.partner file_hash db ≡ y
        → Post Owns (proceed y.0 (claim_reclaimed c g counts id command e) y.1)
    unfolding reclaim_failed_by_file_hash
    Owns-reclaimed e db (err r, db') u = tt
    Owns-reclaimed e db (ok none, db') u = λ b. cc b
    Owns-reclaimed e db (ok (some d), db') u = λ _.
        let q = is_failed_delivery command.partner file_hash in
        taken_back db db' d (s.found_and_updated q reclaimed_file db db' d reclaimed_file-KeepsId u)
          (x.update_matched q reclaimed_file db db' d u)

    Owns-found :
        (seen : Option ReconciliationFile) (db : Db)
        → Post Owns (claim_found c g counts id command file_hash key seen db)
    unfolding ◌>>=◌
    Owns-found none db = Owns-new db
    Owns-found (some e) db = elim (Bool-cases (is_failed e.processing_status)) [
      | inl h ↦
          rw h
            (Owns-reclaimed e db (reclaim_failed_by_file_hash c command.partner file_hash db) refl)
      | inr h ↦ rw h (λ b. cc b)
    ]

    Owns-claim : (db : Db) → Post Owns (claim c g counts id command file_hash key db)
    unfolding claim find_by_file_hash ◌>>=◌
    Owns-claim db =
        Post-lift Owns (c.find_one (is_delivery command.partner file_hash) db)
          (claim_found c g counts id command file_hash key) db (λ o h. Owns-found o db)

    owned :
        (y : Result FileClaimResult × Db) (r : FileClaimResult) (db : Db)
        → y ≡ (ok r, db)
        → Post Owns y
        → Owns r db
    owned y r db e h = subst (λ y. Post Owns y) e h

  -- Of two claims of one file only one owns it: once a claim has made the record, or has taken a failed one back, the
  -- other is refused, also if it had looked for the file before, whatever it saw then.
  pub racing_claims_one_owner :
      (g : Digests) (counts : ScopeCounts String) (id other_id : String)
      (command other_command : ProcessFileCommand) (file_hash : String)
      (key other_key : Option String) (db after : Db) (r : FileClaimResult)
      → claim c g counts id command file_hash key db ≡ (ok r, after)
      → r.created ≡ true
      → command.partner ≡ other_command.partner
      → (seen : Option ReconciliationFile)
      → Post
          (λ other _. other.created ≡ false)
          (claim_found c g counts other_id other_command file_hash other_key seen after)
  racing_claims_one_owner g counts id other_id command other_command file_hash key other_key db
        after r won created same seen =
      IsRefused-found c s x g counts other_id other_command file_hash other_key after
        (subst (λ p. Held s p file_hash after) same
          (owned g counts id command file_hash key _ r after won
            (Owns-claim g counts id command file_hash key db) created))
        seen
