-- ===== src/Orchestrator/Order.antt =====
-- `process_source_units` of src/application/ingestion/source_unit_orchestrator.py goes through its units in
-- order, and returns at the first one that does not go on.
use reconciliation_ingestion.Prelude.{
  ℕ, suc, ◌+◌, ◌≤◌, String, true, false, List, [], ◌∷◌, Option, some, length, get_elem?, ◌≡◌, refl,
  arith, ◌⊎◌, inl, inr,
}
use reconciliation_ingestion.Result.{Returns, Returns-bind, Returns-weaken}
use reconciliation_ingestion.Orchestrator.Outcome.{SourceUnitMetadata}
use reconciliation_ingestion.Orchestrator.Ports.{
  Ports, Progress, Summary, UnitEnd, moved, stopped, summary,
}
use reconciliation_ingestion.Orchestrator.Process.{
  unit_key_of, process_keyed, continue_with, process_units, process_source_units,
}
use reconciliation_ingestion.Orchestrator.Rounds.{
  IsCalm, done, is_stop, EndsUnit, Ends, Returns-process_keyed,
}

module _ {S : Type 0} (w : Ports S) (calm : IsCalm w) where
  -- What a return says, `n` units being behind the list.
  pub Reports : ℕ → List SourceUnitMetadata → Summary → S → Type 0
  Reports n units x s =
      ((is_stop x ≡ false)
        × (x.failed ≡ 0)
        × (x.processed + x.replayed + x.skipped ≡ n + length units))
      ⊎ ((i : ℕ) × (u : SourceUnitMetadata) × (is_stop x ≡ true)
          × (get_elem? units i ≡ some u)
          × (x.stopped_at ≡ unit_key_of w u)
          × (x.processed ≤ n + i))

  Returns-process_units :
      (us : List SourceUnitMetadata) (p : Progress) (s : S)
      → Returns (Reports (done p) us) (process_units w us p s)
  unfolding process_units Reports summary Ends
  Returns-process_units [] p s = inl (refl, refl, omega arith)
  Returns-process_units (u ∷ us) p s =
      Returns-bind (Ends w calm (unit_key_of w u) p) (Reports (done p) (u ∷ us))
        (process_keyed w u p (unit_key_of w u)) (continue_with w (process_units w us)) s
        (Returns-process_keyed w calm u p (unit_key_of w u) s) (go (Returns-process_units us))
    where
      later :
          (q : Progress) (x : Summary) (t : S)
          → done q ≡ done p + 1
          → Reports (done q) us x t
          → Reports (done p) (u ∷ us) x t
      later q x t e (inl (a, b, h)) = inl (a, b, omega (arith, h, e))
      later q x t e (inr (i, v, a, g, k, h)) = inr (suc i, v, a, g, k, omega (arith, h, e))

      go :
          ((q : Progress) (t : S) → Returns (Reports (done q) us) (process_units w us q t))
          → (e : UnitEnd) (t : S) → EndsUnit (unit_key_of w u) p e
          → Returns (Reports (done p) (u ∷ us)) (continue_with w (process_units w us) e t)
      go rest (moved q) t h =
          Returns-weaken (Reports (done q) us) (Reports (done p) (u ∷ us)) (process_units w us q t)
            (rest q t) (λ x v. later q x v h.0)
      go rest (stopped x) t h = inr (0, u, h.0, refl, h.1, omega (arith, h.2))

  -- The units are gone through in order. Where its collaborators raise nothing, `process_source_units` returns:
  -- either every unit was processed, replayed or skipped, none failed and the counts add up to the units given;
  -- or it stopped, for a failure or a review, at one of the units, names that unit's key, and counts no more
  -- units as processed than stand before it.
  pub units_in_order :
      (units : List SourceUnitMetadata) (last : Option String) (s : S)
      → Returns (Reports 0 units) (process_source_units w units last s)
  unfolding process_source_units
  units_in_order units last s =
      Returns-process_units units
        (record {
          processed = 0;
          replayed = 0;
          skipped = 0;
          partial_outcome = false;
          duplicate_outcomes = [];
          previous_unit_key = last;
        })
        s
