-- ===== src/Evidence/Invariant.antt =====
-- The journal of src/blackbase/evaluation/journal.py as a whole: every operation keeps every stored
-- record well formed and under its own key, and moves one record along one edge.
use blackbase.Prelude.{
  ◌≡◌, refl, sym, ◌∙◌, subst, ◌≢◌, inl, String, [], Option, none, some, arith, str_eq, str_eq_iff,
  str_eq_refl, lookup, insert, lookup-insert, ok, raise_if, >>-ok, >>=-ok, ok-injective, if-elim,
  strip, is_empty, dict_eq, ◌&&◌,
}
use blackbase.Evidence.Event.{Disposition}
use blackbase.Evidence.Record.{EvidenceRecord, make_record, preparing, no_reason}
use blackbase.Evidence.Validity.{IsValid, make_record-IsValid, detach_self}
use blackbase.Evidence.Journal.{
  Journal, Updater, Call, reserve, mark_event_durable, prepare_disposition, settle, abandon,
  ReserveArgs, requested_record, reserve_update, durable_update, prepare_update, settle_update,
  abandon_update, atomic_update, run_call,
}
use blackbase.Evidence.Steps.{
  Advances, durable-Advances, prepare-Advances, settle-Advances, abandon-Advances, make_record-eq,
  Advances-event_id, Advances-IsValid,
}

module _ (digest : Disposition → String) where
  -- Every stored record is well formed and stands under its own event id.
  pub record IsSound (j : Journal) : Type 0 where
    pub at :
        (k : String) (r : EvidenceRecord)
        → lookup k j ≡ some r
        → IsValid digest r × (r.event_id ≡ k)

  pub IsSound-empty : IsSound []
  IsSound-empty = record { at = λ k r h. cc }

  -- What a call did to the record of one event, from `before` to the record that it returned.
  abbrev pub Moved : Option EvidenceRecord → EvidenceRecord → Type 0
  Moved none r = (r.status ≡ preparing) × (r.revision ≡ 1)
  Moved (some old) r = Advances digest old r

  -- The returned record is stored, and no other entry has changed.
  pub record Stores (j : Journal) (r : EvidenceRecord) (j' : Journal) : Type 0 where
    pub sound : IsSound j'
    pub stored : lookup r.event_id j' ≡ some r
    pub others : (k : String) → k ≢ r.event_id → lookup k j' ≡ lookup k j
    pub moved : Moved (lookup r.event_id j) r

  insert-IsSound :
      (j : Journal) (r : EvidenceRecord)
      → IsSound j
      → IsValid digest r
      → IsSound (insert r.event_id r j)
  insert-IsSound j r s v = record {
    at = λ k q h.
        if-elim (str_eq r.event_id k) _ _ (sym (lookup-insert r.event_id k r j) ∙ h)
          (λ same e.
            subst (λ x. IsValid digest x × (x.event_id ≡ k)) (some-eq e)
              (v, (str_eq_iff r.event_id k).0 same))
          (λ other e. s.at k q e);
  }
    where
      some-eq : {a b : EvidenceRecord} → Path (Option EvidenceRecord) (some a) (some b) → a ≡ b
      some-eq e = cc

  -- An updater that returns a well-formed record of the event that it was given.
  abbrev Good : String → Updater → Type 0
  Good k f =
      (o : Option EvidenceRecord) (r : EvidenceRecord)
      → ((q : EvidenceRecord) → o ≡ some q → IsValid digest q × (q.event_id ≡ k))
      → f o ≡ ok r
      → IsValid digest r × (r.event_id ≡ k) × Moved o r

  Stores-insert :
      (j : Journal) (r : EvidenceRecord)
      → IsSound j
      → IsValid digest r
      → Moved (lookup r.event_id j) r
      → Stores j r (insert r.event_id r j)
  Stores-insert j r s v m = record {
    sound = insert-IsSound j r s v;
    stored = rw lookup-insert (rw str_eq_refl);
    others = λ k ne. ground (arith, lookup-insert r.event_id k r j, str_eq_iff r.event_id k);
    moved = m;
  }

  atomic_update-Stores :
      (k : String) (f : Updater) (j : Journal) {r : EvidenceRecord} {j' : Journal}
      → Good k f
      → IsSound j
      → atomic_update digest k f j ≡ ok (r, j')
      → Stores j r j'
  unfolding atomic_update
  atomic_update-Stores k f j g s h =
      let (u, updated, h₁) = >>=-ok (f (lookup k j)) _ h in
      let (valid, own, moved) = g (lookup k j) u (s.at k) updated in
      subst (λ (p : EvidenceRecord × Journal). Stores j p.0 p.1)
        (ok-injective (rw (detach_self digest u valid) at h₁))
        (Stores-insert j u s valid (subst (λ x. Moved (lookup x j) u) (sym own) moved))

  -- An updater that refuses an absent record, and advances a present one.
  advancing-Good :
      (k : String) (f : Updater)
      → ((r : EvidenceRecord) → f none ≡ ok r → ⊥)
      → ((q r : EvidenceRecord) → IsValid digest q → f (some q) ≡ ok r → Advances digest q r)
      → Good k f
  advancing-Good k f refuses advances none r before h = absurd (refuses r h)
  advancing-Good k f refuses advances (some q) r before h =
      let (v, own) = before q refl in
      let moved = advances q r v h in
      (Advances-IsValid digest v moved, Advances-event_id digest moved ∙ own, moved)

  reserve-Good :
      (q : EvidenceRecord)
      → IsValid digest q
      → (q.status ≡ preparing) × (q.revision ≡ 1)
      → Good q.event_id (reserve_update q)
  unfolding reserve_update
  reserve-Good q v fresh none r before h =
      subst (λ x. IsValid digest x × (x.event_id ≡ q.event_id) × Moved none x) (ok-injective h)
        (v, refl, fresh)
  reserve-Good q v fresh (some p) r before h =
      if-elim
        (str_eq p.run_id q.run_id
          && str_eq p.event_snapshot_key q.event_snapshot_key
          && dict_eq p.identity q.identity)
        _ _ h
        (λ t n.
          subst (λ x. IsValid digest x × (x.event_id ≡ q.event_id) × Moved (some p) x)
            (ok-injective n) ((before p refl).0, (before p refl).1, inl refl))
        (λ f n. cc)

  requested_fresh :
      (a : ReserveArgs) {q : EvidenceRecord}
      → make_record digest (requested_record a) ≡ ok q
      → (q.status ≡ preparing) × (q.revision ≡ 1)
  requested_fresh a h = rw (make_record-eq digest (requested_record a) h) (refl, refl)

  -- On a sound journal, every call that returns leaves a sound one in which the record that it returns is
  -- stored; it is a new one in preparation with revision 1, the stored one, or one further along an edge of
  -- the life cycle; and no other entry has changed.
  pub run_call-Stores :
      (c : Call) (j : Journal) {r : EvidenceRecord} {j' : Journal}
      → IsSound j
      → run_call digest c j ≡ ok (r, j')
      → Stores j r j'
  unfolding run_call durable_update prepare_update settle_update abandon_update
  run_call-Stores (reserve a) j s h =
      let (q, made, h₁) = >>=-ok (make_record digest (requested_record a)) _ h in
      atomic_update-Stores q.event_id (reserve_update q) j
        (reserve-Good q (make_record-IsValid digest (requested_record a) made)
          (requested_fresh a made))
        s h₁
  run_call-Stores (mark_event_durable k revision now) j s h =
      atomic_update-Stores k (durable_update digest revision now) j
        (advancing-Good k _ (λ r e. cc) (λ q r. durable-Advances digest revision now q)) s h
  run_call-Stores (prepare_disposition d key revision now) j s h =
      atomic_update-Stores d.event_id (prepare_update digest d key revision now) j
        (advancing-Good d.event_id _ (λ r e. cc)
          (λ q r. prepare-Advances digest d key revision now q))
        s h
  run_call-Stores (settle k v revision now) j s h =
      atomic_update-Stores k (settle_update digest v revision now) j
        (advancing-Good k _ (λ r e. cc) (λ q r. settle-Advances digest v revision now q)) s h
  run_call-Stores (abandon k reason metadata revision now) j s h =
      atomic_update-Stores k (abandon_update digest (strip reason) metadata revision now) j
        (advancing-Good k _ (λ r e. cc)
          (λ q r. abandon-Advances digest (strip reason) metadata revision now q))
        s (>>-ok (raise_if (is_empty (strip reason)) no_reason) _ h).1
