-- ===== src/Quarantine/Leftover.antt =====
-- What is left behind when the claim of a record runs out in the middle of an action:
-- `reclaim_expired_claim`, `claim` and `reserve_action` of
-- src/infrastructure/ingestion/quarantine_repository.py one after the other.
use reconciliation_ingestion.Prelude.{
  ℕ, String, Bool, true, false, Option, none, some, ◌≡◌, refl, sym, ap, ◌∙◌, subst, ltb, is_some,
  str_eq, arith,
}
use reconciliation_ingestion.Result.{ok}
use reconciliation_ingestion.Quarantine.Types.{
  IngestionQuarantineRecord, QuarantineAction, ActiveAction, is_pending,
}
use reconciliation_ingestion.Quarantine.Collection.{Collection, IsDocumentStore, KeepsId}
use reconciliation_ingestion.Quarantine.Updates.{
  Tick, bounded_action_id, has_action, is_reclaimable, reclaimed, is_claimable, claimed,
  claim_event, is_reservable, reserved,
}
use reconciliation_ingestion.Quarantine.Repository.{
  claim, reclaim_expired_claim, reserve_action, reserve_as, refused_reservation, in_progress,
}
use reconciliation_ingestion.Quarantine.Operations.{undisturbed}
use reconciliation_ingestion.Quarantine.History.{&&-intro, not-false, any-append}
use reconciliation_ingestion.Quarantine.Actions.{is_applied}

module _ (c : Collection) (s : IsDocumentStore c) where
  open c use {Db, find_one, update_one, find_one_and_update}

  -- An update that matches is stored.
  stored :
      (k : String) (q : IngestionQuarantineRecord → Bool)
      (f : IngestionQuarantineRecord → IngestionQuarantineRecord) (db : Db)
      (d : IngestionQuarantineRecord)
      → KeepsId f
      → find_one k db ≡ some d
      → q d ≡ true
      → find_one k (find_one_and_update k q f db).1 ≡ some (f d)
  stored k q f db d keeps p h =
      ap (λ u. find_one k u.1) (s.claim_hit k q f db d p h) ∙ s.update_hit k q f db d keeps p h

  reclaim-stored :
      (k : String) (now : ℕ) (db : Db) (d : IngestionQuarantineRecord)
      → find_one k db ≡ some d
      → is_reclaimable now d ≡ true
      → find_one k (reclaim_expired_claim c k now db).1 ≡ some (reclaimed now d)
  unfolding reclaim_expired_claim
  reclaim-stored k now db d p h =
      stored k (is_reclaimable now) (reclaimed now) db d (λ _. unfold reclaimed in refl) p h

  claim-stored :
      (k operator_id : String) (lease : ℕ) (raw : Option String) (x : String) (tick : Tick)
      (db : Db) (d : IngestionQuarantineRecord)
      → find_one k db ≡ some d
      → ltb lease 1 ≡ false
      → bounded_action_id raw ≡ ok (some x)
      → is_pending d.status ≡ true
      → is_applied x d ≡ false
      → find_one k (claim c k operator_id lease raw tick (undisturbed c) db).1
        ≡ some (claimed operator_id lease (some x) tick d d)
  unfolding claim
  claim-stored k operator_id lease raw x tick db d p l b st u =
      rw (l, b, p, st)
        (stored k (is_claimable (some x)) (claimed operator_id lease (some x) tick d) db d
          (λ _. unfold claimed in refl) p (unfold is_claimable in &&-intro _ _ st (not-false _ u)))

  reservation-in_progress :
      (b : String) (a : Option ActiveAction) (d : IngestionQuarantineRecord)
      → d.active_action ≡ a
      → is_some a ≡ true
      → is_applied b d ≡ false
      → refused_reservation c b (some d) ≡ in_progress
  reservation-in_progress b none d p h u = cc h
  reservation-in_progress b (some a) d p h u = rw (u, p) refl

  not_reservable_twice :
      (operator_id b : String) (d : IngestionQuarantineRecord)
      → is_some d.active_action ≡ true
      → is_reservable operator_id b d ≡ false
  unfolding is_reservable
  not_reservable_twice operator_id b d h = rw h (ground arith)

  reserve-refused :
      (k operator_id raw b : String) (act : QuarantineAction) (tick : Tick) (db : Db)
      (d : IngestionQuarantineRecord)
      → find_one k db ≡ some d
      → bounded_action_id (some raw) ≡ ok (some b)
      → is_some d.active_action ≡ true
      → is_applied b d ≡ false
      → reserve_action c k operator_id raw act tick (undisturbed c) db ≡ (ok in_progress, db)
  unfolding reserve_action
  reserve-refused k operator_id raw b act tick db d p r h u =
      subst (λ x. reserve_as c k operator_id act tick (undisturbed c) x db ≡ (ok in_progress, db))
        (sym r)
        (rw
          (
            s.claim_miss k (is_reservable operator_id b) (reserved operator_id b act tick.now) db d
                p (not_reservable_twice operator_id b d h),
            p,
            reservation-in_progress b d.active_action d refl h u,
          )
          refl)

  -- A reservation outlives its claim: where the claim of a record runs out while an action is reserved, and the
  -- record is reclaimed and then claimed again, with an action that its history does not have and nobody else
  -- writing meanwhile, every further action that the new owner asks for is answered as being in progress, and
  -- changes nothing.
  pub reservation_outlives_claim :
      (k operator_id raw b x : String) (claim_id : Option String) (lease now : ℕ)
      (act : QuarantineAction) (tick later : Tick) (db : Db) (d : IngestionQuarantineRecord)
      → find_one k db ≡ some d
      → is_reclaimable now d ≡ true
      → is_some d.active_action ≡ true
      → ltb lease 1 ≡ false
      → bounded_action_id claim_id ≡ ok (some x)
      → bounded_action_id (some raw) ≡ ok (some b)
      → is_applied x d ≡ false
      → is_applied b d ≡ false
      → str_eq x b ≡ false
      → let claimed_db =
          (claim c k operator_id lease claim_id tick
            (undisturbed c)
            (reclaim_expired_claim c k now db).1).1 in
        reserve_action c k operator_id raw act later (undisturbed c) claimed_db
        ≡ (ok in_progress, claimed_db)
  unfolding claimed reclaimed claim_event
  reservation_outlives_claim k operator_id raw b x claim_id lease now act tick later db d p h i l bx
        br ux ub n =
      reserve-refused k operator_id raw b act later _
        (claimed operator_id lease (some x) tick (reclaimed now d) (reclaimed now d))
        (claim-stored k operator_id lease claim_id x tick _ (reclaimed now d)
          (reclaim-stored k now db d p h) l bx (unfold reclaimed in refl) (unfold reclaimed in ux))
        br (unfold claimed reclaimed in i) applied
    where
      applied :
          is_applied b (claimed operator_id lease (some x) tick (reclaimed now d) (reclaimed now d))
          ≡ false
      applied =
          any-append (has_action b) d.resolution_history
            (claim_event operator_id lease (some x) tick (reclaimed now d))
          ∙ rw (ub, n) refl
