-- ===== src/Quarantine/Summaries.antt =====
-- `summarize` and `group_summaries` of src/infrastructure/ingestion/quarantine_repository.py.
use reconciliation_ingestion.Prelude.{
  ℕ, ◌+◌, String, Bool, true, false, ◌&&◌, not, Option, none, some, List, [], ◌∷◌, any, str_eq,
  if◌then◌else◌, or_else,
}
use reconciliation_ingestion.Quarantine.Types.{
  IngestionQuarantineRecord, QuarantineStatus, RowError, is_pending, is_reprocessing, is_resolved,
  is_rejected, is_active, same_status, non_empty, is_terminal,
}
use reconciliation_ingestion.Quarantine.Issues.{IssueType, issue_type_for_error_code}
use reconciliation_ingestion.Quarantine.Collection.{Collection, created_at_id}
use reconciliation_ingestion.Quarantine.Updates.{at_most}
use reconciliation_ingestion.Quarantine.Queries.{QuarantineQuery, matches, is_high, bounded_limit}

pub record QueueSummary : Type 0 where
  pub total : ℕ
  pub pending : ℕ
  pub reprocessing : ℕ
  pub resolved : ℕ
  pub rejected : ℕ
  pub overdue : ℕ
  pub high_priority : ℕ

-- `overdue_filter`
unfoldable pub is_overdue : ℕ → IngestionQuarantineRecord → Bool
is_overdue now d = is_active d.status && at_most d.review_due_at now

abbrev pub asks_other : Option QuarantineStatus → QuarantineStatus → Bool
asks_other none s = false
asks_other (some t) s = not (same_status t s)

abbrev pub asks_terminal : Option QuarantineStatus → Bool
asks_terminal none = false
asks_terminal (some t) = is_terminal t

module _ (c : Collection) where
  open c use {Db, count_documents, find}

  -- `count` with a further filter.
  abbrev pub count_with : QuarantineQuery → ℕ → (IngestionQuarantineRecord → Bool) → Db → ℕ
  count_with q now extra = count_documents (λ d. matches q now d && extra d)

  -- `status_count`
  abbrev pub status_count : QuarantineQuery → ℕ → QuarantineStatus → Db → ℕ
  status_count q now s db =
      if asks_other q.status s then 0 else count_with q now (λ d. same_status s d.status) db

  -- `summarize`
  unfoldable pub summarize : QuarantineQuery → ℕ → Db → QueueSummary
  unfolding is_overdue
  summarize q now db = record {
    total = count_documents (matches q now) db;
    pending = status_count q now QuarantineStatus.pending db;
    reprocessing = status_count q now QuarantineStatus.reprocessing db;
    resolved = status_count q now QuarantineStatus.resolved db;
    rejected = status_count q now QuarantineStatus.rejected db;
    overdue = if asks_terminal q.status then 0 else count_with q now (is_overdue now) db;
    high_priority = count_with q now (λ d. is_high d.priority) db;
  }

-- One group of `group_summaries`.
pub record Group : Type 0 where
  pub group_key : String
  pub review_packet_id : Option String
  pub post_approval_run_id : Option String
  pub source_file_id : String
  pub partner : String
  pub counts : QueueSummary
  pub issue_types : List IssueType

abbrev first_text : Option String → String → String
first_text none s = s
first_text (some t) s = t

-- record.post_approval_run_id or record.review_packet_id or record.source_file_id
unfoldable pub group_key_of : IngestionQuarantineRecord → String
group_key_of d =
    first_text (or_else (non_empty d.post_approval_run_id) (non_empty d.review_packet_id))
      d.source_file_id

abbrev pub no_counts : QueueSummary
no_counts = record {
  total = 0;
  pending = 0;
  reprocessing = 0;
  resolved = 0;
  rejected = 0;
  overdue = 0;
  high_priority = 0;
}

unfoldable pub new_group : IngestionQuarantineRecord → Group
unfolding group_key_of
new_group d = record {
  group_key = group_key_of d;
  review_packet_id = d.review_packet_id;
  post_approval_run_id = d.post_approval_run_id;
  source_file_id = d.source_file_id;
  partner = d.partner;
  counts = no_counts;
  issue_types = [];
}

abbrev pub one_if : Bool → ℕ
one_if true = 1
one_if false = 0

unfoldable pub count_record : ℕ → IngestionQuarantineRecord → QueueSummary → QueueSummary
unfolding is_overdue
count_record now d s = record {
  total = s.total + 1;
  pending = s.pending + one_if (is_pending d.status);
  reprocessing = s.reprocessing + one_if (is_reprocessing d.status);
  resolved = s.resolved + one_if (is_resolved d.status);
  rejected = s.rejected + one_if (is_rejected d.status);
  overdue = s.overdue + one_if (is_overdue now d);
  high_priority = s.high_priority + one_if (is_high d.priority);
}

abbrev same_issue : IssueType → IssueType → Bool
same_issue IssueType.schema IssueType.schema = true
same_issue IssueType.required_field IssueType.required_field = true
same_issue IssueType.format IssueType.format = true
same_issue IssueType.duplicate IssueType.duplicate = true
same_issue IssueType.recovery IssueType.recovery = true
same_issue IssueType.other IssueType.other = true
same_issue _ _ = false

-- `set.add`
abbrev add_issue : IssueType → List IssueType → List IssueType
add_issue t ts = if any (same_issue t) ts then ts else t ∷ ts

abbrev add_code : Option String → List IssueType → List IssueType
add_code none ts = ts
add_code (some code) ts = add_issue (issue_type_for_error_code (some code)) ts

abbrev add_issues : List RowError → List IssueType → List IssueType
add_issues [] ts = ts
add_issues (e ∷ es) ts = add_issues es (add_code (non_empty e.error_code) ts)

unfoldable pub count_in_group : ℕ → IngestionQuarantineRecord → Group → Group
unfolding count_record issue_type_for_error_code
count_in_group now d g = record g {
  counts = count_record now d g.counts;
  issue_types = add_issues d.errors g.issue_types;
}

-- `groups.setdefault`, and the counting of the record in its group.
unfoldable pub add_to_groups : ℕ → IngestionQuarantineRecord → List Group → List Group
unfolding new_group count_in_group group_key_of
add_to_groups now d [] = count_in_group now d (new_group d) ∷ []
add_to_groups now d (g ∷ gs) =
    let rest = add_to_groups now d gs in
    if str_eq g.group_key (group_key_of d) then count_in_group now d g ∷ gs else g ∷ rest

unfoldable pub group_records : ℕ → List IngestionQuarantineRecord → List Group → List Group
unfolding add_to_groups
group_records now [] gs = gs
group_records now (d ∷ ds) gs = group_records now ds (add_to_groups now d gs)

module _ (c : Collection) where
  open c use {Db, find}

  -- `group_summaries`; the sorting of each group's issue types is left out.
  unfoldable group_summaries : QuarantineQuery → ℕ → ℕ → Db → List Group
  unfolding matches bounded_limit group_records
  group_summaries q now limit db =
      group_records now
        (find (matches (record q { limit = 200; cursor = none }) now) created_at_id
          (some (bounded_limit limit 2000)) db)
        []
