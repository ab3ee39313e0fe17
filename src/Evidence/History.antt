-- ===== src/Evidence/History.antt =====
-- Histories of calls on the journal of src/blackbase/evaluation/journal.py.
use blackbase.Prelude.{
  ◌≤◌, ◌≡◌, refl, sym, ap, ◌∙◌, subst, inl, inr, true, String, List, [], ◌∷◌, some, arith, str_eq,
  str_eq_iff, lookup, Result, ok, err, Bool-cases,
}
use blackbase.Evidence.Event.{Disposition}
use blackbase.Evidence.Record.{Status, EvidenceRecord, EvidenceError, is_terminal, status_of}
use blackbase.Evidence.Journal.{Journal, Call, run_call}
use blackbase.Evidence.Steps.{Edge, made_durable, intended, settled, reverified, gave_up, Advances}
use blackbase.Evidence.Invariant.{IsSound, Stores, run_call-Stores, Moved}

-- What is left of the journal after a call; one that raises leaves it alone.
abbrev pub after : {A : Type 0} → Journal → Result EvidenceError (A × Journal) → Journal
after j (ok (r, j')) = j'
after j (err e) = j

-- A terminal status is never left, and the revision never falls.
pub record Later (r r' : EvidenceRecord) : Type 0 where
  pub same_event : r'.event_id ≡ r.event_id
  pub same_snapshot : r'.event_snapshot_key ≡ r.event_snapshot_key
  pub grown : r.revision ≤ r'.revision
  pub final : is_terminal r.status ≡ true → r'.status ≡ r.status

terminal-Edge : {s t : Status} → Edge s t → is_terminal s ≡ true → t ≡ s
unfolding status_of
terminal-Edge (made_durable a b) h = ground arith
terminal-Edge (intended a b) h = ground arith
terminal-Edge (settled v a b) h = ground arith
terminal-Edge (reverified a b) h = b
terminal-Edge (gave_up a b) h = ground arith

module _ (digest : Disposition → String) where
  -- A history runs its calls in turn.
  unfoldable pub play : List Call → Journal → Journal
  play [] j = j
  play (c ∷ cs) j = play cs (after j (run_call digest c j))

  Later-refl : (r : EvidenceRecord) → Later r r
  Later-refl r = record {
    same_event = refl;
    same_snapshot = refl;
    grown = omega arith;
    final = λ h. refl;
  }

  Later-trans : {r s t : EvidenceRecord} → Later r s → Later s t → Later r t
  Later-trans a b = record {
    same_event = b.same_event ∙ a.same_event;
    same_snapshot = b.same_snapshot ∙ a.same_snapshot;
    grown = omega arith;
    final = λ h. b.final (ap is_terminal (a.final h) ∙ h) ∙ a.final h;
  }

  Advances-Later : {r r' : EvidenceRecord} → Advances digest r r' → Later r r'
  Advances-Later {r} (inl e) = subst (Later r) (sym e) (Later-refl r)
  Advances-Later (inr e) = record {
    same_event = e.event_kept;
    same_snapshot = e.snapshot_kept;
    grown = omega arith;
    final = terminal-Edge e.edge;
  }

  -- What a history has made of a stored record.
  abbrev Kept : String → EvidenceRecord → Journal → Type 0
  Kept k r j' = (r' : EvidenceRecord) × (lookup k j' ≡ some r') × Later r r'

  Stores-Kept :
      (k : String) (q : EvidenceRecord) (j : Journal) (r : EvidenceRecord) (j' : Journal)
      → Stores digest j r j'
      → lookup k j ≡ some q
      → Kept k q j'
  Stores-Kept k q j r j' s h = elim (Bool-cases (str_eq k r.event_id)) [
    | inl hit ↦
        let e = (str_eq_iff k r.event_id).0 hit in
        (
          r,
          ap (λ x. lookup x j') e ∙ s.stored,
          Advances-Later (subst (λ o. Moved digest o r) (ap (λ x. lookup x j) (sym e) ∙ h) s.moved),
        )
    | inr miss ↦
        (q, s.others k (λ e. ground (arith, (str_eq_iff k r.event_id).1 e)) ∙ h, Later-refl q)
  ]

  call-Kept :
      (k : String) (q : EvidenceRecord) (j : Journal)
      (res : Result EvidenceError (EvidenceRecord × Journal))
      → ((r : EvidenceRecord) (j' : Journal) → res ≡ ok (r, j') → Stores digest j r j')
      → IsSound digest j
      → lookup k j ≡ some q
      → IsSound digest (after j res) × Kept k q (after j res)
  call-Kept k q j (ok (r, j')) stores s h =
      ((stores r j' refl).sound, Stores-Kept k q j r j' (stores r j' refl) h)
  call-Kept k q j (err e) stores s h = (s, (q, h, Later-refl q))

  -- Whatever calls are made on a sound journal, it stays sound, and a stored record is not lost: it keeps
  -- its event and Snapshot, its revision never falls, and a terminal status stays as it is.
  pub play-Kept :
      (cs : List Call) (j : Journal) (k : String) (r : EvidenceRecord)
      → IsSound digest j
      → lookup k j ≡ some r
      → IsSound digest (play cs j)
        × ((r' : EvidenceRecord) × (lookup k (play cs j) ≡ some r') × Later r r')
  unfolding play
  play-Kept [] j k r s h = (s, (r, h, Later-refl r))
  play-Kept (c ∷ cs) j k r s h =
      let (s', (q, found, later)) =
        call-Kept k r j (run_call digest c j) (λ q j' e. run_call-Stores digest c j s e) s h in
      let (s'', (q', found', later')) = play-Kept cs (after j (run_call digest c j)) k q s' found in
      (s'', (q', found', Later-trans later later'))

  after-IsSound :
      (j : Journal) (res : Result EvidenceError (EvidenceRecord × Journal))
      → ((r : EvidenceRecord) (j' : Journal) → res ≡ ok (r, j') → Stores digest j r j')
      → IsSound digest j
      → IsSound digest (after j res)
  after-IsSound j (ok (r, j')) stores s = (stores r j' refl).sound
  after-IsSound j (err e) stores s = s

  -- The soundness alone, which needs no stored record.
  pub play-IsSound : (cs : List Call) (j : Journal) → IsSound digest j → IsSound digest (play cs j)
  unfolding play
  play-IsSound [] j s = s
  play-IsSound (c ∷ cs) j s =
      play-IsSound cs _ (after-IsSound j _ (λ q j' e. run_call-Stores digest c j s e) s)
