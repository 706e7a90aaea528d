-- ===== src/Orchestrator/Resume.antt =====
-- `units_after_checkpoint` of src/application/automation/stream_identity.py: where a stream goes on.
use text.Mathlib.TextEquality.{eq_iff}
use text.Mathlib.TextPositions.{eq_refl}
use mathlib.Core.Bool.{true≢false}
use reconciliation_ingestion.Prelude.{
  sym, ◌∙◌, ◌≢◌, All, String, Bool, true, false, ◌||◌, List, [], ◌∷◌, ◌++◌, Option, none, some,
  same_key, get_or, str_eq, if◌then◌else◌, ◌≡◌, refl, ap, ◌⊎◌, inl, inr, Bool-cases,
}
use reconciliation_ingestion.Checkpoint.Types.{IngestionCheckpoint, HighWaterMark}
use reconciliation_ingestion.Orchestrator.Outcome.{SourceUnitMetadata}

-- A text that is not empty, as Python tests it.
abbrev pub non_empty : Option String → Option String
non_empty none = none
non_empty (some t) = if str_eq t "" then none else some t

abbrev hash_of : Option HighWaterMark → Option String
hash_of none = none
hash_of (some h) = non_empty h.content_hash

-- `completed_hash and unit.content_hash == completed_hash`
abbrev pub same_hash : Option String → Option String → Bool
same_hash none unit_hash = false
same_hash (some h) unit_hash = same_key unit_hash (some h)

-- The test of the loop.
unfoldable pub is_completed_unit : Option IngestionCheckpoint → SourceUnitMetadata → Bool
is_completed_unit none u = same_key u.source_unit_key none
is_completed_unit (some c) u =
    same_key u.source_unit_key (non_empty c.last_completed_unit_key)
    || same_hash (hash_of c.high_water_mark) u.content_hash

-- The loop: the units after the first completed one.
unfoldable after_completed :
    Option IngestionCheckpoint → List SourceUnitMetadata → Option (List SourceUnitMetadata)
unfolding is_completed_unit
after_completed c [] = none
after_completed c (u ∷ us) =
    let rest = after_completed c us in if is_completed_unit c u then some us else rest

unfoldable pub units_after_checkpoint :
    List SourceUnitMetadata → Option IngestionCheckpoint → List SourceUnitMetadata
unfolding after_completed
units_after_checkpoint units c = get_or units (after_completed c units)

-- The unit that the checkpoint has completed last: it has the key, or the bytes. Where no key is completed, a unit
-- without a key passes for it.
pub data IsLastCompleted (u : SourceUnitMetadata) : Option IngestionCheckpoint → Type 0 where
  keyless_start : u.source_unit_key ≡ none → IsLastCompleted u none
  keyless :
      (c : IngestionCheckpoint)
      → (c.last_completed_unit_key ≡ none) ⊎ (c.last_completed_unit_key ≡ some "")
      → u.source_unit_key ≡ none
      → IsLastCompleted u (some c)
  by_key :
      (c : IngestionCheckpoint) (key : String)
      → key ≢ ""
      → c.last_completed_unit_key ≡ some key
      → u.source_unit_key ≡ some key
      → IsLastCompleted u (some c)
  by_bytes :
      (c : IngestionCheckpoint) (mark : HighWaterMark) (hash : String)
      → hash ≢ ""
      → c.high_water_mark ≡ some mark
      → mark.content_hash ≡ some hash
      → u.content_hash ≡ some hash
      → IsLastCompleted u (some c)

str_eq-≢ : (a b : String) → a ≢ b → str_eq a b ≡ false
str_eq-≢ a b n = elim (Bool-cases (str_eq a b)) [
  | inl e ↦ absurd (n ((eq_iff a b).0 e))
  | inr e ↦ e
]

non_empty-≢ : (s : String) → s ≢ "" → non_empty (some s) ≡ some s
non_empty-≢ s n = rw (str_eq-≢ s "" n) refl

no_key : (o : Option String) → (o ≡ none) ⊎ (o ≡ some "") → non_empty o ≡ none
no_key o (inl e) = rw e refl
no_key o (inr e) = rw e refl

or-true : (a : Bool) → (a || true) ≡ true
or-true true = refl
or-true false = refl

IsLastCompleted-is_completed_unit :
    (u : SourceUnitMetadata) (c : Option IngestionCheckpoint)
    → IsLastCompleted u c
    → is_completed_unit c u ≡ true
unfolding is_completed_unit
IsLastCompleted-is_completed_unit u c (keyless_start e) = rw e refl
IsLastCompleted-is_completed_unit u c (keyless d o e) =
    rw (e, no_key d.last_completed_unit_key o) refl
IsLastCompleted-is_completed_unit u c (by_key d key n p e) =
    rw (e, p, non_empty-≢ key n, eq_refl key) refl
IsLastCompleted-is_completed_unit u c (by_bytes d mark hash n p q e) =
    rw (p, q, non_empty-≢ hash n, e, eq_refl hash) (or-true _)

-- `same_key` with its sides.
same_key-≡ : (a b : Option String) → same_key a b ≡ true → a ≡ b
same_key-≡ none none h = refl
same_key-≡ (some a) (some b) h = ap some ((eq_iff a b).0 h)
same_key-≡ none (some b) h = cc h
same_key-≡ (some a) none h = cc h

-- What a text that is not empty says of the optional text that it comes from.
abbrev IsNamed : Option String → Option String → Type 0
IsNamed o none = (o ≡ none) ⊎ (o ≡ some "")
IsNamed o (some s) = (o ≡ some s) × (s ≢ "")

IsNamed-non_empty : (o : Option String) → IsNamed o (non_empty o)
IsNamed-non_empty none = inl refl
IsNamed-non_empty (some s) = elim (Bool-cases (str_eq s "")) [
  | inl e ↦ rw e (inr (ap some ((eq_iff s "").0 e)))
  | inr e ↦ rw e (refl, λ p. true≢false (sym ((eq_iff s "").1 p) ∙ e))
]

completed_key :
    (c : IngestionCheckpoint) (u : SourceUnitMetadata) (k : Option String)
    → IsNamed c.last_completed_unit_key k
    → u.source_unit_key ≡ k
    → IsLastCompleted u (some c)
completed_key c u none h e = keyless c h e
completed_key c u (some k) h e = by_key c k h.1 h.0 e

completed_bytes :
    (c : IngestionCheckpoint) (u : SourceUnitMetadata) (mark : HighWaterMark) (k : Option String)
    → c.high_water_mark ≡ some mark
    → IsNamed mark.content_hash k
    → same_hash k u.content_hash ≡ true
    → IsLastCompleted u (some c)
completed_bytes c u mark none p h e = cc e
completed_bytes c u mark (some k) p h e =
    by_bytes c mark k h.1 p h.0 (same_key-≡ u.content_hash (some k) e)

completed_mark :
    (c : IngestionCheckpoint) (u : SourceUnitMetadata) (m : Option HighWaterMark)
    → c.high_water_mark ≡ m
    → same_hash (hash_of m) u.content_hash ≡ true
    → IsLastCompleted u (some c)
completed_mark c u none p e = cc e
completed_mark c u (some mark) p e =
    completed_bytes c u mark (non_empty mark.content_hash) p (IsNamed-non_empty mark.content_hash) e

is_completed_unit-IsLastCompleted :
    (u : SourceUnitMetadata) (c : Option IngestionCheckpoint)
    → is_completed_unit c u ≡ true
    → IsLastCompleted u c
unfolding is_completed_unit
is_completed_unit-IsLastCompleted u none h = keyless_start (same_key-≡ u.source_unit_key none h)
is_completed_unit-IsLastCompleted u (some c) h =
    elim (Bool-cases (same_key u.source_unit_key (non_empty c.last_completed_unit_key))) [
      | inl e ↦
          completed_key c u (non_empty c.last_completed_unit_key)
            (IsNamed-non_empty c.last_completed_unit_key)
            (same_key-≡ u.source_unit_key (non_empty c.last_completed_unit_key) e)
      | inr e ↦ completed_mark c u c.high_water_mark refl (rw e at h)
    ]

-- How the units are cut: before the first completed one, which is left out with those before it.
pub record IsCut (c : Option IngestionCheckpoint) (units rest : List SourceUnitMetadata)
    : Type 0 where
  pub before : List SourceUnitMetadata
  pub last : SourceUnitMetadata
  pub parts : units ≡ before ++ (last ∷ rest)
  pub ends : IsLastCompleted last c
  pub first : All (λ u. ¬ (IsLastCompleted u c)) before

abbrev IsUncompleted : Option IngestionCheckpoint → SourceUnitMetadata → Type 0
IsUncompleted c u = ¬ (IsLastCompleted u c)

IsUncompleted-is_completed_unit :
    (c : Option IngestionCheckpoint) (u : SourceUnitMetadata)
    → is_completed_unit c u ≡ false
    → IsUncompleted c u
IsUncompleted-is_completed_unit c u e h =
    true≢false (sym (IsLastCompleted-is_completed_unit u c h) ∙ e)

abbrev IsCutWhere :
    Option IngestionCheckpoint → List SourceUnitMetadata → Option (List SourceUnitMetadata) → Type 0
IsCutWhere c units none = All (λ u. ¬ (IsLastCompleted u c)) units
IsCutWhere c units (some rest) = IsCut c units rest

further :
    (c : Option IngestionCheckpoint) (u : SourceUnitMetadata) (us : List SourceUnitMetadata)
    (o : Option (List SourceUnitMetadata))
    → is_completed_unit c u ≡ false
    → IsCutWhere c us o
    → IsCutWhere c (u ∷ us) o
further c u us none e h = (IsUncompleted-is_completed_unit c u e, h)
further c u us (some rest) e h = record {
  before = u ∷ h.before;
  last = h.last;
  parts = ap (λ l. u ∷ l) h.parts;
  ends = h.ends;
  first = (IsUncompleted-is_completed_unit c u e, h.first);
}

IsCutWhere-after_completed :
    (c : Option IngestionCheckpoint) (units : List SourceUnitMetadata)
    → IsCutWhere c units (after_completed c units)
unfolding after_completed
IsCutWhere-after_completed c [] = tt
IsCutWhere-after_completed c (u ∷ us) = elim (Bool-cases (is_completed_unit c u)) [
  | inl e ↦ rw e (record {
    before = [];
    last = u;
    parts = refl;
    ends = is_completed_unit-IsLastCompleted u c e;
    first = tt;
  })
  | inr e ↦ rw e (further c u us (after_completed c us) e (IsCutWhere-after_completed c us))
]

-- A stream goes on right after the first unit, in their order, that the checkpoint has completed last: a unit with
-- the last completed key, or with the bytes of the high-water mark, or one without a key where no key is completed.
-- Where there is no such unit it starts with all of them.
pub stream_resumes :
    (units : List SourceUnitMetadata) (c : Option IngestionCheckpoint)
    → (All (λ u. ¬ (IsLastCompleted u c)) units × (units_after_checkpoint units c ≡ units))
      ⊎ IsCut c units (units_after_checkpoint units c)
unfolding units_after_checkpoint
stream_resumes units c = go (after_completed c units) (IsCutWhere-after_completed c units)
  where
    go :
        (o : Option (List SourceUnitMetadata))
        → IsCutWhere c units o
        → (All (λ u. ¬ (IsLastCompleted u c)) units × (get_or units o ≡ units))
          ⊎ IsCut c units (get_or units o)
    go none h = inl (h, refl)
    go (some rest) h = inr h
