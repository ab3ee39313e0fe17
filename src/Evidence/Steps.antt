-- ===== src/Evidence/Steps.antt =====
-- How one operation may change one record: the edges of the state machine of
-- src/blackbase/evaluation/journal.py.
use blackbase.Prelude.{
  ℕ, ◌+◌, ◌≡◌, refl, sym, ap, subst, ◌⊎◌, inl, inr, true, false, not, String, Option, none, some,
  arith, str_eq, Dict, ok, raise_if, >>-ok, ok-injective, if-elim, ltb,
}
use blackbase.Evidence.Event.{Verdict, Disposition, Receipt}
use blackbase.Evidence.Record.{
  Status, preparing, pending, deciding, abandoned, other_snapshot, status_of, status_eq, is_decided,
  is_terminal, EvidenceRecord, Changes, expected, next, make_record, normalized, changed,
  lacks_name, has_bad_times, missing_identity, bad_revision, bad_timestamps, terminal,
}
use blackbase.Evidence.Validity.{IsValid, make_record-IsValid}
use blackbase.Evidence.Journal.{
  durable_change, intent_change, verified_change, abandon_change, durable_update, prepare_update,
  settle_update, settle_carried, settle_checks, settle_write, same_receipt, abandon_update,
}

-- The status edges that a write may follow.
pub data Edge (s t : Status) : Type 0 where
  made_durable : s ≡ preparing → t ≡ pending → Edge s t
  intended : s ≡ pending → t ≡ deciding → Edge s t
  settled : (v : Verdict) → s ≡ deciding → t ≡ status_of v → Edge s t
  reverified : is_decided s ≡ true → t ≡ s → Edge s t
  gave_up : is_terminal s ≡ false → t ≡ abandoned → Edge s t

module _ (digest : Disposition → String) where
  -- A write is well formed, keeps who the record is about and counts one revision up along an edge.
  pub record Evolves (r r' : EvidenceRecord) : Type 0 where
    pub valid : IsValid digest r'
    pub event_kept : r'.event_id ≡ r.event_id
    pub run_kept : r'.run_id ≡ r.run_id
    pub snapshot_kept : r'.event_snapshot_key ≡ r.event_snapshot_key
    pub identity_kept : r'.identity ≡ r.identity
    pub birth_kept : r'.created_at ≡ r.created_at
    pub one_revision : r'.revision ≡ r.revision + 1
    pub edge : Edge r.status r'.status

  -- An operation returns the record that was there, or a later one.
  abbrev pub Advances : EvidenceRecord → EvidenceRecord → Type 0
  Advances r r' = (r' ≡ r) ⊎ Evolves r r'

  pub make_record-eq :
      (r : EvidenceRecord) {r' : EvidenceRecord} → make_record digest r ≡ ok r' → r' ≡ normalized r
  unfolding make_record
  make_record-eq r h =
      let h₁ = (>>-ok (raise_if (lacks_name (normalized r)) missing_identity) _ h).1 in
      let h₂ = (>>-ok (raise_if (ltb r.revision 1) bad_revision) _ h₁).1 in
      let h₃ = (>>-ok (raise_if (has_bad_times r) bad_timestamps) _ h₂).1 in
      let h₄ = (>>-ok _ _ h₃).1 in let h₅ = (>>-ok _ _ h₄).1 in sym (ok-injective h₅)

  pub next-Evolves :
      (now : ℕ) (r : EvidenceRecord) (c : Changes) {r' : EvidenceRecord}
      → IsValid digest r
      → Edge r.status c.to_status
      → next digest now r c ≡ ok r'
      → Evolves r r'
  unfolding next
  next-Evolves now r c v edge h =
      let e = make_record-eq (changed now r c) h in
      subst (Evolves r) (sym e) (record {
        valid = subst (IsValid digest) e (make_record-IsValid digest (changed now r c) h);
        event_kept = v.event.stripped;
        run_kept = v.run.stripped;
        snapshot_kept = v.snapshot.stripped;
        identity_kept = refl;
        birth_kept = refl;
        one_revision = refl;
        edge = edge;
      })

  pub durable-Advances :
      (revision : Option ℕ) (now : ℕ) (r : EvidenceRecord) {r' : EvidenceRecord}
      → IsValid digest r
      → durable_update digest revision now (some r) ≡ ok r'
      → Advances r r'
  unfolding durable_update
  durable-Advances revision now r v h =
      let step = (>>-ok (expected r revision) _ h).1 in
      if-elim (status_eq r.status preparing) _ _ step
        (λ t n. inr (next-Evolves now r durable_change v (made_durable (ground arith) refl) n))
        (λ f n. inl (sym (ok-injective n)))

  pub prepare-Advances :
      (d : Disposition) (key : String) (revision : Option ℕ) (now : ℕ) (r : EvidenceRecord)
      {r' : EvidenceRecord}
      → IsValid digest r
      → prepare_update digest d key revision now (some r) ≡ ok r'
      → Advances r r'
  unfolding prepare_update
  prepare-Advances d key revision now r v h =
      let bound = (>>-ok (expected r revision) _ h).1 in
      let step =
        (>>-ok (raise_if (not (str_eq d.event_snapshot_key r.event_snapshot_key)) other_snapshot) _
          bound).1 in
      if-elim (status_eq r.status pending) _ _ step
        (λ t n. inr (next-Evolves now r (intent_change d key) v (intended (ground arith) refl) n))
        (λ f n. inl (ground arith))

  same_receipt-Advances :
      (r : EvidenceRecord) (o : Option Receipt) (w : Receipt) (now : ℕ) {r' : EvidenceRecord}
      → IsValid digest r
      → is_decided r.status ≡ true
      → same_receipt r o w (next digest now r (verified_change r.status w)) ≡ ok r'
      → Advances r r'
  same_receipt-Advances r none w now v d h =
      inr (next-Evolves now r (verified_change r.status w) v (reverified d refl) h)
  same_receipt-Advances r (some old) w now v d h = inl (ground arith)

  settle_write-Advances :
      (r : EvidenceRecord) (d : Disposition) (w : Receipt) (now : ℕ) {r' : EvidenceRecord}
      → IsValid digest r
      → settle_write digest r d w now ≡ ok r'
      → Advances r r'
  unfolding settle_write
  settle_write-Advances r d w now v h =
      if-elim (is_decided r.status) _ _ h
        (λ done m.
          if-elim (not (status_eq r.status (status_of d.status))) _ _ m (λ t n. cc)
            (λ f n. same_receipt-Advances r r.verification w now v done n))
        (λ active m.
          if-elim (not (status_eq r.status deciding)) _ _ m (λ t n. cc)
            (λ f n. inr (
              next-Evolves now r (verified_change (status_of d.status) w) v
                (settled d.status (ground arith) refl) n)))

  settle_carried-Advances :
      (r : EvidenceRecord) (o : Option Disposition) (w : Receipt) (now : ℕ) {r' : EvidenceRecord}
      → IsValid digest r
      → settle_carried digest r o w now ≡ ok r'
      → Advances r r'
  unfolding settle_carried
  settle_carried-Advances r none w now v h = cc
  settle_carried-Advances r (some d) w now v h =
      settle_write-Advances r d w now v (>>-ok (settle_checks digest r d w) _ h).1

  pub settle-Advances :
      (w : Receipt) (revision : Option ℕ) (now : ℕ) (r : EvidenceRecord) {r' : EvidenceRecord}
      → IsValid digest r
      → settle_update digest w revision now (some r) ≡ ok r'
      → Advances r r'
  unfolding settle_update
  settle-Advances w revision now r v h =
      settle_carried-Advances r r.disposition w now v (>>-ok (expected r revision) _ h).1

  pub abandon-Advances :
      (reason : String) (metadata : Dict String) (revision : Option ℕ) (now : ℕ)
      (r : EvidenceRecord) {r' : EvidenceRecord}
      → IsValid digest r
      → abandon_update digest reason metadata revision now (some r) ≡ ok r'
      → Advances r r'
  unfolding abandon_update
  abandon-Advances reason metadata revision now r v h =
      let step = (>>-ok (expected r revision) _ h).1 in
      if-elim (status_eq r.status abandoned) _ _ step (λ t n. inl (sym (ok-injective n)))
        (λ f n.
          if-elim (terminal r) _ _ n (λ t m. cc)
            (λ g m. inr (
              next-Evolves now r (abandon_change reason metadata) v (gave_up (ground arith) refl)
                m)))

  pub Advances-event_id : {r r' : EvidenceRecord} → Advances r r' → r'.event_id ≡ r.event_id
  Advances-event_id (inl e) = ap (λ (x : EvidenceRecord). x.event_id) e
  Advances-event_id (inr e) = e.event_kept

  pub Advances-IsValid :
      {r r' : EvidenceRecord} → IsValid digest r → Advances r r' → IsValid digest r'
  Advances-IsValid v (inl e) = subst (IsValid digest) (sym e) v
  Advances-IsValid v (inr e) = e.valid
