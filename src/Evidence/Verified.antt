-- ===== src/Evidence/Verified.antt =====
-- What `settle` of src/blackbase/evaluation/journal.py has checked when it returns.
use blackbase.Prelude.{
  ℕ, ◌≡◌, refl, sym, ap, ◌∙◌, subst, true, false, not, String, Option, none, some, arith,
  str_eq_iff, lookup, ok, >>-ok, >>=-ok, ok-injective, if-elim,
}
use blackbase.Evidence.Event.{Disposition, Receipt}
use blackbase.Evidence.Record.{
  Status, deciding, EvidenceRecord, is_decided, status_eq, status_of, changed, next, expected,
  terminal_verified,
}
use blackbase.Evidence.Validity.{IsValid, detach_self}
use blackbase.Evidence.Journal.{
  Journal, settle, run_call, atomic_update, settle_update, settle_carried, settle_checks,
  settle_write, same_receipt, verified_change, expected_destination,
}
use blackbase.Evidence.Steps.{make_record-eq, Advances-IsValid, settle-Advances}
use blackbase.Evidence.Invariant.{IsSound}

-- The receipt `v` proves the disposition `d` of the record `r`.
pub record Proves (digest : Disposition → String) (v : Receipt) (d : Disposition)
    (r : EvidenceRecord) : Type 0 where
  pub carried : r.disposition ≡ some d
  pub decided : r.status ≡ status_of d.status
  pub verified : terminal_verified r ≡ true
  pub of_event : v.event_id ≡ r.event_id
  pub of_snapshot : v.event_snapshot_key ≡ r.event_snapshot_key
  pub of_destination : v.destination_snapshot_key ≡ expected_destination r d
  pub of_disposition : v.disposition_digest ≡ digest d

status_eq-not : (a b : Status) → not (status_eq a b) ≡ false → a ≡ b
status_eq-not a b h = ground arith

module _ (digest : Disposition → String) where
  settle_checks-ok :
      (r : EvidenceRecord) (d : Disposition) (v : Receipt)
      → settle_checks digest r d v ≡ ok tt
      → (v.event_id ≡ r.event_id)
        × (v.event_snapshot_key ≡ r.event_snapshot_key)
        × (v.destination_snapshot_key ≡ expected_destination r d)
        × (v.disposition_digest ≡ digest d)
  unfolding settle_checks
  settle_checks-ok r d v h = ground (
    arith,
    str_eq_iff v.event_id r.event_id,
    str_eq_iff v.event_snapshot_key r.event_snapshot_key,
    str_eq_iff v.destination_snapshot_key (expected_destination r d),
    str_eq_iff v.disposition_digest (digest d),
  )

  -- The four bindings of a receipt, on the record before the write.
  abbrev Bound : EvidenceRecord → Disposition → Receipt → Type 0
  Bound r d v =
      (v.event_id ≡ r.event_id)
      × (v.event_snapshot_key ≡ r.event_snapshot_key)
      × (v.destination_snapshot_key ≡ expected_destination r d)
      × (v.disposition_digest ≡ digest d)

  decided-status_of : (d : Disposition) → is_decided (status_of d.status) ≡ true
  unfolding status_of
  decided-status_of d = ground arith

  written-Proves :
      (r : EvidenceRecord) (d : Disposition) (v : Receipt) (now : ℕ) (s : Status)
      {r' : EvidenceRecord}
      → IsValid digest r
      → r.disposition ≡ some d
      → Bound r d v
      → s ≡ status_of d.status
      → next digest now r (verified_change s v) ≡ ok r'
      → Proves digest v d r'
  unfolding next terminal_verified expected_destination
  written-Proves r d v now s valid carried (e, k, t, g) st h =
      subst (Proves digest v d)
        (sym (make_record-eq digest (changed now r (verified_change s v)) h))
        (record {
          carried = carried;
          decided = st;
          verified = rw (st, decided-status_of d) refl;
          of_event = e ∙ sym valid.event.stripped;
          of_snapshot = k ∙ sym valid.snapshot.stripped;
          of_destination = rw valid.destination t;
          of_disposition = g;
        })

  kept-Proves :
      (r : EvidenceRecord) (d : Disposition) (v : Receipt) (now : ℕ) (o : Option Receipt)
      {r' : EvidenceRecord}
      → IsValid digest r
      → r.disposition ≡ some d
      → Bound r d v
      → r.status ≡ status_of d.status
      → r.verification ≡ o
      → same_receipt r o v (next digest now r (verified_change r.status v)) ≡ ok r'
      → Proves digest v d r'
  unfolding terminal_verified
  kept-Proves r d v now none valid carried b st e h =
      written-Proves r d v now r.status valid carried b st h
  kept-Proves r d v now (some old) valid carried (a, k, t, g) st e h =
      subst (Proves digest v d) (ground arith) (record {
        carried = carried;
        decided = st;
        verified = rw (st, decided-status_of d, e) refl;
        of_event = a;
        of_snapshot = k;
        of_destination = t;
        of_disposition = g;
      })

  settle_write-Proves :
      (r : EvidenceRecord) (d : Disposition) (v : Receipt) (now : ℕ) {r' : EvidenceRecord}
      → IsValid digest r
      → r.disposition ≡ some d
      → Bound r d v
      → settle_write digest r d v now ≡ ok r'
      → Proves digest v d r'
  unfolding settle_write
  settle_write-Proves r d v now valid carried b h =
      if-elim (is_decided r.status) _ _ h
        (λ done m.
          if-elim (not (status_eq r.status (status_of d.status))) _ _ m (λ t n. cc)
            (λ f n. kept-Proves r d v now r.verification valid carried b (same_status f) refl n))
        (λ active m.
          if-elim (not (status_eq r.status deciding)) _ _ m (λ t n. cc)
            (λ f n. written-Proves r d v now (status_of d.status) valid carried b refl n))
    where
      same_status :
          not (status_eq r.status (status_of d.status)) ≡ false → r.status ≡ status_of d.status
      same_status f = status_eq-not r.status (status_of d.status) f

  settle_carried-Proves :
      (r : EvidenceRecord) (o : Option Disposition) (v : Receipt) (now : ℕ) {r' : EvidenceRecord}
      → IsValid digest r
      → r.disposition ≡ o
      → settle_carried digest r o v now ≡ ok r'
      → (d : Disposition) × Proves digest v d r'
  unfolding settle_carried
  settle_carried-Proves r none v now valid e h = cc
  settle_carried-Proves r (some d) v now valid e h =
      let (checked, written) = >>-ok (settle_checks digest r d v) _ h in
      (d, settle_write-Proves r d v now valid e (settle_checks-ok r d v checked) written)

  settle_update-Proves :
      (o : Option EvidenceRecord) (v : Receipt) (revision : Option ℕ) (now : ℕ)
      {r' : EvidenceRecord}
      → ((q : EvidenceRecord) → o ≡ some q → IsValid digest q)
      → settle_update digest v revision now o ≡ ok r'
      → IsValid digest r' × ((d : Disposition) × Proves digest v d r')
  unfolding settle_update
  settle_update-Proves none v revision now valid h = cc
  settle_update-Proves (some r) v revision now valid h = (
    Advances-IsValid digest (valid r refl)
        (settle-Advances digest v revision now r (valid r refl) h),
    settle_carried-Proves r r.disposition v now (valid r refl) refl
        (>>-ok (expected r revision) _ h).1,
  )

  -- When `settle` returns on a sound journal, the record is decided and verified with the status of the
  -- disposition that it carries, and the receipt that `settle` was given is bound to the
  -- event, the event's Snapshot, the digest of the carried disposition, and the Snapshot where that
  -- disposition had to be written.
  pub settle-Proves :
      (event_id : String) (v : Receipt) (revision : Option ℕ) (now : ℕ) (j : Journal)
      {r : EvidenceRecord} {j' : Journal}
      → IsSound digest j
      → run_call digest (settle event_id v revision now) j ≡ ok (r, j')
      → (d : Disposition) × Proves digest v d r
  unfolding run_call atomic_update
  settle-Proves event_id v revision now j s h =
      let (u, updated, h₁) = >>=-ok (settle_update digest v revision now (lookup event_id j)) _ h in
      let (valid, (d, proof)) =
        settle_update-Proves (lookup event_id j) v revision now (λ q e. (s.at event_id q e).0)
          updated in
      let same =
        ap (λ (p : EvidenceRecord × Journal). p.0)
          (ok-injective (rw (detach_self digest u valid) at h₁)) in
      (d, subst (Proves digest v d) same proof)
