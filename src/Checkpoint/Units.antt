-- ===== src/Checkpoint/Units.antt =====
-- `_unit_timeline_update` of src/infrastructure/ingestion/checkpoint_repository.py as a map from units to
-- their entries.
use text.Mathlib.TextPositions.{eq_refl}
use text.Mathlib.TextEquality.{eq_iff}
use reconciliation_ingestion.Prelude.{
  ℕ, String, true, false, List, [], ◌∷◌, some, get_or, str_eq, if◌then◌else◌, ◌≡◌, refl, sym, ap,
  ◌∙◌, Bool-cases, inl, inr,
}
use reconciliation_ingestion.Checkpoint.Types.{SourceUnitSummary}
use reconciliation_ingestion.Checkpoint.Timeline.{
  UnitChange, new_unit, change_unit, find_unit, unit_timeline_update,
}

find-here :
    (u : SourceUnitSummary) (us : List SourceUnitSummary) (k : String)
    → str_eq u.unit_key k ≡ true
    → find_unit k (u ∷ us) ≡ some u
unfolding find_unit
find-here u us k e = ap (λ b. if b then some u else find_unit k us) e

find-there :
    (u : SourceUnitSummary) (us : List SourceUnitSummary) (k : String)
    → str_eq u.unit_key k ≡ false
    → find_unit k (u ∷ us) ≡ find_unit k us
unfolding find_unit
find-there u us k e = ap (λ b. if b then some u else find_unit k us) e

update-here :
    (u : SourceUnitSummary) (us : List SourceUnitSummary) (k : String) (c : UnitChange) (now : ℕ)
    → str_eq u.unit_key k ≡ true
    → unit_timeline_update (u ∷ us) k c now ≡ change_unit c now u ∷ us
unfolding unit_timeline_update
update-here u us k c now e =
    ap (λ b. if b then change_unit c now u ∷ us else u ∷ unit_timeline_update us k c now) e

update-there :
    (u : SourceUnitSummary) (us : List SourceUnitSummary) (k : String) (c : UnitChange) (now : ℕ)
    → str_eq u.unit_key k ≡ false
    → unit_timeline_update (u ∷ us) k c now ≡ u ∷ unit_timeline_update us k c now
unfolding unit_timeline_update
update-there u us k c now e =
    ap (λ b. if b then change_unit c now u ∷ us else u ∷ unit_timeline_update us k c now) e

change_unit-key :
    (c : UnitChange) (now : ℕ) (u : SourceUnitSummary) → (change_unit c now u).unit_key ≡ u.unit_key
unfolding change_unit
change_unit-key c now u = refl

finds_changed :
    (us : List SourceUnitSummary) (key : String) (c : UnitChange) (now : ℕ)
    → find_unit key (unit_timeline_update us key c now)
      ≡ some (change_unit c now (get_or (new_unit key now) (find_unit key us)))
finds_changed [] key c now =
    unfold unit_timeline_update find_unit in
    find-here (change_unit c now (new_unit key now)) [] key (eq_refl key)
finds_changed (u ∷ us) key c now = elim (Bool-cases (str_eq u.unit_key key)) [
  | inl e ↦
      ap (find_unit key) (update-here u us key c now e)
      ∙ find-here (change_unit c now u) us key
          (ap (λ k. str_eq k key) (change_unit-key c now u) ∙ e)
      ∙ ap (λ o. some (change_unit c now (get_or (new_unit key now) o)))
          (sym (find-here u us key e))
  | inr e ↦
      ap (find_unit key) (update-there u us key c now e)
      ∙ find-there u (unit_timeline_update us key c now) key e
      ∙ finds_changed us key c now
      ∙ ap (λ o. some (change_unit c now (get_or (new_unit key now) o)))
          (sym (find-there u us key e))
]

finds_others :
    (us : List SourceUnitSummary) (key : String) (c : UnitChange) (now : ℕ) (other : String)
    → str_eq key other ≡ false
    → find_unit other (unit_timeline_update us key c now) ≡ find_unit other us
finds_others [] key c now other o =
    unfold unit_timeline_update find_unit in
    find-there (change_unit c now (new_unit key now)) [] other o
finds_others (u ∷ us) key c now other o = elim (Bool-cases (str_eq u.unit_key key)) [
  | inl e ↦
      let apart = ap (λ k. str_eq k other) ((eq_iff u.unit_key key).0 e) ∙ o in
      ap (find_unit other) (update-here u us key c now e)
      ∙ find-there (change_unit c now u) us other
          (ap (λ k. str_eq k other) (change_unit-key c now u) ∙ apart)
      ∙ sym (find-there u us other apart)
  | inr e ↦
      ap (find_unit other) (update-there u us key c now e)
      ∙ elim (Bool-cases (str_eq u.unit_key other)) [
        | inl f ↦
            find-here u (unit_timeline_update us key c now) other f ∙ sym (find-here u us other f)
        | inr f ↦
            find-there u (unit_timeline_update us key c now) other f
            ∙ finds_others us key c now other o
            ∙ sym (find-there u us other f)
      ]
]

-- A source unit's entry is found again as it was changed, made anew where it was missing, and every other
-- unit's entry is as it was.
pub timeline_is_a_map :
    (us : List SourceUnitSummary) (key other : String) (c : UnitChange) (now : ℕ)
    → str_eq key other ≡ false
    → (find_unit key (unit_timeline_update us key c now)
        ≡ some (change_unit c now (get_or (new_unit key now) (find_unit key us))))
      × (find_unit other (unit_timeline_update us key c now) ≡ find_unit other us)
timeline_is_a_map us key other c now o =
    (finds_changed us key c now, finds_others us key c now other o)
