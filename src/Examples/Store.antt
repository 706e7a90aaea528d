-- ===== src/Examples/Store.antt =====
-- A collection of checkpoints in memory, with what the database's driver promises.
use text.Mathlib.TextPositions.{eq_refl}
use reconciliation_ingestion.Prelude.{
  Bool, true, false, ◌&&◌, Option, none, some, str_eq, if◌then◌else◌, ◌≡◌, refl,
}
use reconciliation_ingestion.Checkpoint.Types.{
  Stream, IngestionCheckpoint, IngestionMode, scheduled, backfill,
}
use reconciliation_ingestion.Checkpoint.Collection.{Collection, IsDocumentStore}

abbrev same_mode : IngestionMode → IngestionMode → Bool
same_mode scheduled scheduled = true
same_mode backfill backfill = true
same_mode _ _ = false

abbrev same_stream : Stream → Stream → Bool
same_stream a b =
    str_eq a.partner b.partner
    && (str_eq a.fetch_config_id b.fetch_config_id
        && (str_eq a.source_type b.source_type
            && (str_eq a.stream_key b.stream_key && same_mode a.mode b.mode)))

same_mode_refl : (m : IngestionMode) → same_mode m m ≡ true
same_mode_refl scheduled = refl
same_mode_refl backfill = refl

same_stream_refl : (a : Stream) → same_stream a a ≡ true
same_stream_refl a =
    rw
      (
        eq_refl a.partner,
        eq_refl a.fetch_config_id,
        eq_refl a.source_type,
        eq_refl a.stream_key,
        same_mode_refl a.mode,
      )
      refl

abbrev Documents : Type 0
Documents = Stream → Option IngestionCheckpoint

abbrev put : Stream → IngestionCheckpoint → Documents → Documents
put k d db j = if same_stream k j then some d else db j

put-found : (k : Stream) (d : IngestionCheckpoint) (db : Documents) → put k d db k ≡ some d
put-found k d db = rw (same_stream_refl k) refl

abbrev insert_where :
    Option IngestionCheckpoint → IngestionCheckpoint → Documents → Option Documents
insert_where (some d) x db = none
insert_where none x db = some (put x.stream x db)

abbrev update_where :
    Option IngestionCheckpoint
    → Stream
    → (IngestionCheckpoint → Bool)
    → (IngestionCheckpoint → IngestionCheckpoint)
    → Documents
    → Bool × Documents
update_where none k q f db = (false, db)
update_where (some d) k q f db = if q d then (true, put k (f d) db) else (false, db)

abbrev claim_where :
    Option IngestionCheckpoint
    → Stream
    → (IngestionCheckpoint → Bool)
    → (IngestionCheckpoint → IngestionCheckpoint)
    → Documents
    → Option IngestionCheckpoint × Documents
claim_where none k q f db = (none, db)
claim_where (some d) k q f db = if q d then (some (f d), put k (f d) db) else (none, db)

abbrev pub memory : Collection
memory = record {
  Db = Documents;
  find_one = λ k db. db k;
  insert_one = λ x db. insert_where (db x.stream) x db;
  update_one = λ k q f db. update_where (db k) k q f db;
  find_one_and_update = λ k q f db. claim_where (db k) k q f db;
}

pub memory-IsDocumentStore : IsDocumentStore memory
memory-IsDocumentStore = record {
  update_hit = λ k q f db d keeps p h. rw p (rw h (put-found k (f d) db));
  update_modified = λ k q f db d keeps p h n. rw p (rw h refl);
  update_miss = λ k q f db d p h. rw p (rw h refl);
  claim_hit = λ k q f db d p h. rw p (rw h refl);
  claim_miss = λ k q f db d p h. rw p (rw h refl);
  claim_absent = λ k q f db p. rw p refl;
  update_absent = λ k q f db p. rw p refl;
}
