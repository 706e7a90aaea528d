-- ===== src/Ingestion/Claiming.antt =====
-- The claim as src/pipeline/ingestion_pipeline.py makes it: what it answers is stored.
use reconciliation_ingestion.Prelude.{String, none, some, ◌≡◌, refl, ◌∙◌}
use reconciliation_ingestion.Result.{Result, ok, err, Exec, Post, Post-lift, lift, ◌>>=◌}
use reconciliation_ingestion.Ingestion.Types.{ProcessFileCommand}
use reconciliation_ingestion.Ingestion.Files.{FileCollection}
use reconciliation_ingestion.Ingestion.Claim.{derive_fetch_unit_key, claim}
use reconciliation_ingestion.Ingestion.Finalizer.{World, on_db}
use reconciliation_ingestion.Ingestion.Phases.{Ports}
use reconciliation_ingestion.Ingestion.Pipeline.{claim_source_file}
use reconciliation_ingestion.Ingestion.Store.{IsFileStore}
use reconciliation_ingestion.Ingestion.Claimed.{claim-IsStored}
use reconciliation_ingestion.Ingestion.Exits.{Exits, Exits-none}

module _ (c : FileCollection) (s : IsFileStore c) {Config Row Container : Type 0}
    (p : Ports Config Row Container) where
  open c use {Db}

  module _ (id : String) (command : ProcessFileCommand) where
    lift-keeps :
        {A B : Type 0} (r : Result A) (f : A → Exec (World Db) B) (w : World Db)
        → ((a : A) → (f a w).1.file_record ≡ w.file_record)
        → ((lift r >>= f) w).1.file_record ≡ w.file_record
    unfolding ◌>>=◌
    lift-keeps (ok a) f w h = h a
    lift-keeps (err e) f w h = refl

    claim-keeps :
        (w : World Db) → (claim_source_file c p id command w).1.file_record ≡ w.file_record
    unfolding claim_source_file
    claim-keeps w = lift-keeps (p.digests.compute_file_hash command.file_path) _ w (λ hash.
        lift-keeps (derive_fetch_unit_key p.digests command command.fetch_unit_metadata) _ w
          (λ key. refl))

    on_db-Post :
        {A : Type 0} (Q : A → Db → Type 0) (m : Exec Db A) (w : World Db)
        → Post Q (m w.db)
        → Post (λ a t. Q a t.db) (on_db m w)
    on_db-Post {A = A} Q m w h = answer (m w.db) h
      where
        answer :
            (x : Result A × Db) → Post Q x → Post (λ a t. Q a t.db) (x.0, record w { db = x.1 })
        answer (ok a, db) g = g
        answer (err e, db) g = tt

    claim_source_file-IsStored :
        (w : World Db)
        → Post
            (λ r t. s.document t.db r.file_record.id ≡ some r.file_record)
            (claim_source_file c p id command w)
    unfolding claim_source_file
    claim_source_file-IsStored w =
        Post-lift _ (p.digests.compute_file_hash command.file_path) _ w (λ hash _.
          Post-lift _ (derive_fetch_unit_key p.digests command command.fetch_unit_metadata) _ w
            (λ key _.
              on_db-Post (λ r db. s.document db r.file_record.id ≡ some r.file_record)
                (claim c p.digests p.counts id command hash key) w
                (claim-IsStored c s p.digests p.counts id command hash key w.db)))

    -- A claim that raises has no record.
    pub Exits-claim :
        (w : World Db)
        → w.file_record ≡ none
        → Exits c s
            (λ r t. s.document t.db r.file_record.id ≡ some r.file_record)
            (claim_source_file c p id command w)
    Exits-claim w n =
        Exits-none c s _ (claim_source_file c p id command w) (claim_source_file-IsStored w)
          (claim-keeps w ∙ n)
