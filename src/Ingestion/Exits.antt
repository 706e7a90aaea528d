-- ===== src/Ingestion/Exits.antt =====
-- The ways out of a run of src/pipeline/ingestion_pipeline.py: where it raises, it has no record yet, or the record
-- that it has claimed is stored.
use reconciliation_ingestion.Prelude.{String, none, some, ◌≡◌, ap, ◌∙◌, sym, subst, ◌⊎◌, inl, inr}
use reconciliation_ingestion.Result.{Result, ok, err, Exec, Post, Returns, proceed, lift, ◌>>=◌}
use reconciliation_ingestion.RunState.State.{IngestionRunState}
use reconciliation_ingestion.Ingestion.Types.{ReconciliationFile}
use reconciliation_ingestion.Ingestion.Files.{FileCollection, update_stage_summary, with_summary}
use reconciliation_ingestion.Ingestion.Finalizer.{World, change_record, on_db, attempt}
use reconciliation_ingestion.Ingestion.Store.{IsFileStore, KeepsId, At, At-attempt}
use reconciliation_ingestion.Ingestion.Finished.{with_summary-KeepsId}
use reconciliation_ingestion.Ingestion.Stored.{Claimed}

module _ (c : FileCollection) (s : IsFileStore c) where
  open c use {Db}

  -- The run's record is stored.
  pub record Holds (w : World Db) : Type 0 where
    pub own_record : ReconciliationFile
    pub document : ReconciliationFile
    pub at : At c s own_record.id own_record document w

  abbrev pub MayHold : World Db → Type 0
  MayHold w = (w.file_record ≡ none) ⊎ Holds w

  -- `P` where the call returns, and no record or a stored one where it raises.
  abbrev pub Exits : {A : Type 0} → (A → World Db → Type 0) → Result A × World Db → Type 0
  Exits P (ok a, t) = P a t
  Exits P (err e, t) = MayHold t

  proceed-Exits :
      {A B : Type 0} (P : A → World Db → Type 0) (Q : B → World Db → Type 0) (r : Result A)
      (t : World Db) (f : A → Exec (World Db) B)
      → Exits P (r, t)
      → ((a : A) (u : World Db) → P a u → Exits Q (f a u))
      → Exits Q (proceed r f t)
  proceed-Exits P Q (ok a) t f h k = k a t h
  proceed-Exits P Q (err e) t f h k = h

  pub Exits-bind :
      {A B : Type 0} (P : A → World Db → Type 0) (Q : B → World Db → Type 0) (m : Exec (World Db) A)
      (f : A → Exec (World Db) B) (w : World Db)
      → Exits P (m w)
      → ((a : A) (u : World Db) → P a u → Exits Q (f a u))
      → Exits Q ((m >>= f) w)
  unfolding ◌>>=◌
  Exits-bind P Q m f w h k = let (r, t) = m w in proceed-Exits P Q r t f h k

  -- The run works on the record with the identifier `k`.
  abbrev pub Works : String → World Db → Type 0
  Works k w = Claimed c s (λ d. Unit {0}) k w

  pub Holds-Works : (k : String) (w : World Db) → Works k w → Holds w
  Holds-Works k w h = record {
    own_record = h.own_record;
    document = h.document;
    at = record {
      own = h.at.own;
      stored = subst (λ i. s.document w.db i ≡ some h.document) (sym h.same_id) h.at.stored;
    };
  }

  pub Exits-Works :
      {A : Type 0} (k : String) (r : Result A) (t : World Db)
      → Works k t
      → Exits (λ _ u. Works k u) (r, t)
  Exits-Works k (ok a) t h = h
  Exits-Works k (err e) t h = inr (Holds-Works k t h)

  pub Exits-lift :
      {A B : Type 0} (k : String) (Q : B → World Db → Type 0) (r : Result A)
      (f : A → Exec (World Db) B) (w : World Db)
      → Works k w
      → ((a : A) → Exits Q (f a w))
      → Exits Q ((lift r >>= f) w)
  unfolding ◌>>=◌
  Exits-lift k Q (ok a) f w h next = next a
  Exits-lift k Q (err e) f w h next = inr (Holds-Works k w h)

  pub Works-move :
      (k : String) (w : World Db) (r : IngestionRunState)
      → Works k w
      → Works k (record w { state = r })
  Works-move k w r h = record {
    own_record = h.own_record;
    document = h.document;
    same_id = h.same_id;
    at = record { own = h.at.own; stored = h.at.stored };
    own_is = tt;
    document_is = tt;
  }

  -- An update of the run's document.
  update-Works :
      (k : String) (f : ReconciliationFile → ReconciliationFile) (keeps : KeepsId f) (w : World Db)
      → Works k w
      → Works k (on_db (c.update_one k f) w).1
  update-Works k f keeps w h = elim (At-attempt c s k f keeps w h.own_record h.document h.at).0 [
    | inl b ↦ record {
      own_record = h.own_record;
      document = h.document;
      same_id = h.same_id;
      at = b;
      own_is = tt;
      document_is = tt;
    }
    | inr b ↦ record {
      own_record = h.own_record;
      document = f h.document;
      same_id = h.same_id;
      at = b;
      own_is = tt;
      document_is = tt;
    }
  ]

  pub Exits-update :
      (k : String) (f : ReconciliationFile → ReconciliationFile) (keeps : KeepsId f) (w : World Db)
      → Works k w
      → Exits (λ _ t. Works k t) (on_db (c.update_one k f) w)
  Exits-update k f keeps w h =
      let x = on_db (c.update_one k f) w in Exits-Works k x.0 x.1 (update-Works k f keeps w h)

  -- A change of the run's record.
  pub on_record-Works :
      (k : String) (f : ReconciliationFile → ReconciliationFile) (keeps : KeepsId f) (w : World Db)
      → Works k w
      → Works k (record w { file_record = change_record f w.file_record })
  on_record-Works k f keeps w h = record {
    own_record = f h.own_record;
    document = h.document;
    same_id = keeps h.own_record ∙ h.same_id;
    at = record { own = ap (change_record f) h.at.own; stored = h.at.stored };
    own_is = tt;
    document_is = tt;
  }

  pub summary-Works :
      (k t : String) (w : World Db)
      → Works k w
      → Works k (attempt (on_db (update_stage_summary c k t)) w).1
  unfolding update_stage_summary
  summary-Works k t w h = update-Works k (with_summary t) (with_summary-KeepsId t) w h

  -- What holds where the call returns, and what it leaves where it raises.
  pub Exits-of_Post :
      {A : Type 0} (P Q : A → World Db → Type 0) (x : Result A × World Db)
      → Post P x
      → Exits Q x
      → Exits P x
  Exits-of_Post P Q (ok a, t) h k = h
  Exits-of_Post P Q (err e, t) h k = k

  pub Exits-of_Returns :
      {A : Type 0} (P : A → World Db → Type 0) (x : Result A × World Db) → Returns P x → Exits P x
  Exits-of_Returns P (ok a, t) h = h
  Exits-of_Returns P (err e, t) h = absurd h

  pub Exits-none :
      {A : Type 0} (P : A → World Db → Type 0) (x : Result A × World Db)
      → Post P x
      → x.1.file_record ≡ none
      → Exits P x
  Exits-none P (ok a, t) h n = h
  Exits-none P (err e, t) h n = inl n
