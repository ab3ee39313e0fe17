-- ===== src/Settlement/Refinement.antt =====
-- The journal of src/blackbase/resources/budget_settlement.py against a book that maps each settlement to
-- its record.
use blackbase.Prelude.{
  ◌≡◌, refl, sym, ap, ◌∙◌, subst, inl, inr, Bool, true, false, ◌||◌, not, String, List, [], ◌∷◌,
  Option, none, some, str_eq, str_eq_iff, Bool-cases, Option-cases, Result-cases, All, Dict, lookup,
  lookup-insert, Result, ok, err, raise_if, ◌>>=◌, ◌>>◌, ℤ, pos, int_eq,
}
use blackbase.Settlement.Wire.{
  SettlementError, Fields, plain_fields, plain_fields-plain_fields, fields_eq, Conversions,
  other_authority, unknown_settlement,
}
use blackbase.Settlement.Record.{BudgetSettlementRecord, as_dict, from_dict}
use blackbase.Settlement.Journal.{
  Row, Change, is_terminal, row_of, upsert, or_fields, changed_payload, prepare, transition,
  mark_settled, mark_reserved, mark_ready, mark_retry, mark_reclaimed, settled_change,
  reserved_change, ready_change, retry_change, reclaimed_change,
}
use blackbase.Settlement.Roundtrip.{IsFramed, IsBuilt, from_dict-framed, from_dict-as_dict}
use blackbase.Settlement.Book.{
  Book, write, book_prepare, changed, book_transition, SettlementCall, prepares, settles, readies,
  reserves, retries, reclaims, IsBuiltCall, IsCall, book_step, outcome, after, book_run, step, run,
}

-- What a table holds under a key, and what the book has there.
abbrev Stored : String → Option Row → Option BudgetSettlementRecord → Type 0
Stored k none o = o ≡ none
Stored k (some row) o =
    (r : BudgetSettlementRecord) × IsBuilt r
    × (r.settlement_id ≡ k)
    × (row ≡ row_of r)
    × (o ≡ some r)

pub record Represents (t : Dict Row) (b : Book) : Type 0 where
  pub stored : (k : String) → Stored k (lookup k t) (b k)

-- The code and the book return the same record and stay in step, or raise the same error.
abbrev pub Agree :
    Result SettlementError (BudgetSettlementRecord × Dict Row)
    → Result SettlementError (BudgetSettlementRecord × Book)
    → Type 0
Agree (ok (r, t)) (ok (s, b)) = (r ≡ s) × Represents t b
Agree (ok x) (err e) = ⊥
Agree (err d) (ok y) = ⊥
Agree (err d) (err e) = d ≡ e

Agree-eq :
    (x y : Result SettlementError (BudgetSettlementRecord × Dict Row))
    (u v : Result SettlementError (BudgetSettlementRecord × Book))
    → x ≡ y
    → u ≡ v
    → Agree y v
    → Agree x u
Agree-eq x y u v p q a = subst (λ z. Agree z u) (sym p) (subst (λ w. Agree y w) (sym q) a)

pub upsert-Represents :
    (r : BudgetSettlementRecord) (t : Dict Row) (b : Book)
    → IsBuilt r
    → Represents t b
    → Represents (upsert r t) (write r b)
unfolding prepare book_prepare row_of
upsert-Represents r t b built h = record {
  stored = λ k.
      rw (lookup-insert r.settlement_id k (row_of r) t)
        (elim (Bool-cases (str_eq r.settlement_id k)) [
          | inl hit ↦ rw hit (r, built, (str_eq_iff r.settlement_id k).0 hit, refl, refl)
          | inr miss ↦ rw miss (h.stored k)
        ]);
}

module _ (c : Conversions) where
  -- The last steps of the operations.
  abbrev guarded :
      {X : Type 0}
      → BudgetSettlementRecord
      → BudgetSettlementRecord
      → X
      → Result SettlementError (BudgetSettlementRecord × X)
  unfolding fields_eq
  guarded r current x =
      raise_if
        (not (str_eq current.parent_reservation_id r.parent_reservation_id)
          || not (fields_eq current.child_handle r.child_handle))
        other_authority
      >> ok (current, x)

  abbrev written :
      ℤ
      → Change
      → BudgetSettlementRecord
      → Dict Row
      → Result SettlementError (BudgetSettlementRecord × Dict Row)
  unfolding from_dict changed_payload upsert
  written now ch r t =
      from_dict c now (changed_payload now ch r) >>= λ updated. ok (updated, upsert updated t)

  abbrev booked :
      ℤ
      → Change
      → BudgetSettlementRecord
      → Book
      → Result SettlementError (BudgetSettlementRecord × Book)
  unfolding plain_fields
  booked now ch r b = plain_fields (or_fields ch.usage r.usage) >>= λ usage.
      plain_fields ch.error >>= λ error.
      ok (changed now ch usage error r, write (changed now ch usage error r) b)

  prepare-Agree :
      (now : ℤ) (r : BudgetSettlementRecord) (t : Dict Row) (b : Book)
      → IsBuilt r
      → Represents t b
      → Agree (prepare c now r t) (book_prepare r b)
  unfolding prepare book_prepare row_of
  prepare-Agree now r t b built h = elim (Option-cases (lookup r.settlement_id t)) [
    | inl absent ↦
        let blank : b r.settlement_id ≡ none =
          subst (λ o. Stored r.settlement_id o (b r.settlement_id)) absent
            (h.stored r.settlement_id) in
        Agree-eq _ (ok (r, upsert r t)) _ (ok (r, write r b)) (rw (absent, prepare) refl)
          (rw (blank, book_prepare) refl) (refl, upsert-Represents r t b built h)
    | inr (row, here) ↦
        let (current, built', key, is, at) =
          subst (λ o. Stored r.settlement_id o (b r.settlement_id)) here
            (h.stored r.settlement_id) in
        let read = from_dict-as_dict c now current built' in
        Agree-eq _ (guarded r current t) _ (guarded r current b)
          (rw (here, prepare) (rw (is, read) refl)) (rw (at, book_prepare) refl) (tested current)
  ]
    where
      tested :
          (current : BudgetSettlementRecord) → Agree (guarded r current t) (guarded r current b)
      tested current =
          elim (Bool-cases (
            not (str_eq current.parent_reservation_id r.parent_reservation_id)
            || not (fields_eq current.child_handle r.child_handle))) [
              | inl other ↦ rw other refl
              | inr same ↦ rw same (refl, h)
            ]

  changed-IsFramed :
      (now : ℤ) (ch : Change) (usage error : Fields) (r : BudgetSettlementRecord)
      → int_eq now (pos 0) ≡ false
      → IsFramed r
      → IsFramed (changed now ch usage error r)
  changed-IsFramed now ch usage error r set f = record {
    settlement_id = f.settlement_id;
    project_run_id = f.project_run_id;
    parent_case_run_id = f.parent_case_run_id;
    child_case_run_id = f.child_case_run_id;
    budget = f.budget;
    parent_reservation_id = f.parent_reservation_id;
    parent_authority_ref = f.parent_authority_ref;
    child_handle = f.child_handle;
    created_at = f.created_at;
    updated_at = set;
  }

  from_dict-changed_payload :
      (now : ℤ) (ch : Change) (r : BudgetSettlementRecord)
      → int_eq now (pos 0) ≡ false
      → IsBuilt r
      → from_dict c now (changed_payload now ch r) ≡ (
          plain_fields (or_fields ch.usage r.usage) >>= λ usage.
          plain_fields ch.error >>= λ error. ok (changed now ch usage error r))
  unfolding changed_payload as_dict
  from_dict-changed_payload now ch r set built =
      from_dict-framed c now (changed now ch (or_fields ch.usage r.usage) ch.error r)
        (changed-IsFramed now ch (or_fields ch.usage r.usage) ch.error r set built.frame)

  changed-Agree :
      (now : ℤ) (ch : Change) (r : BudgetSettlementRecord) (t : Dict Row) (b : Book)
      → int_eq now (pos 0) ≡ false
      → IsBuilt r
      → Represents t b
      → Agree (written now ch r t) (booked now ch r b)
  unfolding written
  changed-Agree now ch r t b set built h =
      rw (from_dict-changed_payload now ch r set built)
        (elim (Result-cases (plain_fields (or_fields ch.usage r.usage))) [
          | inr (e, bad) ↦ rw bad refl
          | inl (usage, p) ↦ elim (Result-cases (plain_fields ch.error)) [
            | inr (e, bad) ↦ rw (p, bad) refl
            | inl (error, q) ↦
                rw (p, q)
                  (
                    refl,
                    upsert-Represents (changed now ch usage error r) t b
                        (record {
                          frame = changed-IsFramed now ch usage error r set built.frame;
                          usage = plain_fields-plain_fields (or_fields ch.usage r.usage) p;
                          last_error = plain_fields-plain_fields ch.error q;
                        })
                        h,
                  )
          ]
        ])

  -- A transition of a settlement that the table has.
  abbrev transited :
      ℤ
      → Change
      → BudgetSettlementRecord
      → Dict Row
      → Result SettlementError (BudgetSettlementRecord × Dict Row)
  transited now ch current t = elim (is_terminal current.status) [
    | true ↦ ok (current, t)
    | false ↦ written now ch current t
  ]

  abbrev book_transited :
      ℤ
      → Change
      → BudgetSettlementRecord
      → Book
      → Result SettlementError (BudgetSettlementRecord × Book)
  book_transited now ch current b = elim (is_terminal current.status) [
    | true ↦ ok (current, b)
    | false ↦ booked now ch current b
  ]

  transited-Agree :
      (now : ℤ) (ch : Change) (r : BudgetSettlementRecord) (t : Dict Row) (b : Book)
      → int_eq now (pos 0) ≡ false
      → IsBuilt r
      → Represents t b
      → (d : Bool) → is_terminal r.status ≡ d
      → Agree (transited now ch r t) (book_transited now ch r b)
  transited-Agree now ch r t b set built h true e =
      Agree-eq _ (ok (r, t)) _ (ok (r, b)) (rw (e, transited) refl) (rw (e, book_transited) refl)
        (refl, h)
  transited-Agree now ch r t b set built h false e =
      Agree-eq _ (written now ch r t) _ (booked now ch r b) (rw (e, transited) refl)
        (rw (e, book_transited) refl) (changed-Agree now ch r t b set built h)

  transition-Agree :
      (now : ℤ) (k : String) (ch : Change) (t : Dict Row) (b : Book)
      → int_eq now (pos 0) ≡ false
      → Represents t b
      → Agree (transition c now k ch t) (book_transition now k ch b)
  unfolding transition written book_transition row_of
  transition-Agree now k ch t b set h = elim (Option-cases (lookup k t)) [
    | inl absent ↦
        let blank : b k ≡ none = subst (λ o. Stored k o (b k)) absent (h.stored k) in
        Agree-eq _ (err unknown_settlement) _ (err unknown_settlement)
          (rw (absent, transition) refl) (rw (blank, book_transition) refl) refl
    | inr (row, here) ↦ found row here (subst (λ o. Stored k o (b k)) here (h.stored k))
  ]
    where
      found :
          (row : Row)
          → lookup k t ≡ some row
          → Stored k (some row) (b k)
          → Agree (transition c now k ch t) (book_transition now k ch b)
      found row here (r, built, key, is, at) =
          let read = from_dict-as_dict c now r built in
          Agree-eq _ (transited now ch r t) _ (book_transited now ch r b)
            (rw (here, transition) (rw (is, read) refl)) (rw (at, book_transition) refl)
            (transited-Agree now ch r t b set built h (is_terminal r.status) refl)

  step-Agree :
      (now : ℤ) (call : SettlementCall) (t : Dict Row) (b : Book)
      → int_eq now (pos 0) ≡ false
      → IsBuiltCall call
      → Represents t b
      → Agree (step c now call t) (book_step now call b)
  unfolding mark_settled mark_reserved mark_ready mark_retry mark_reclaimed prepare book_step
  step-Agree now (prepares r) t b set built h = prepare-Agree now r t b built h
  step-Agree now (settles k usage) t b set built h =
      transition-Agree now k (settled_change usage) t b set h
  step-Agree now (reserves k) t b set built h = transition-Agree now k reserved_change t b set h
  step-Agree now (readies k usage) t b set built h =
      transition-Agree now k (ready_change usage) t b set h
  step-Agree now (retries k e usage) t b set built h =
      transition-Agree now k (retry_change e usage) t b set h
  step-Agree now (reclaims k e usage) t b set built h =
      transition-Agree now k (reclaimed_change e usage) t b set h

  outcome-Agree :
      (x : Result SettlementError (BudgetSettlementRecord × Dict Row))
      (y : Result SettlementError (BudgetSettlementRecord × Book)) (t : Dict Row) (b : Book)
      → Agree x y
      → Represents t b
      → (outcome x ≡ outcome y) × Represents (after x t) (after y b)
  outcome-Agree (ok (r, t')) (ok (s, b')) t b a h = (ap ok a.0, a.1)
  outcome-Agree (ok x) (err e) t b a h = absurd a
  outcome-Agree (err d) (ok y) t b a h = absurd a
  outcome-Agree (err d) (err e) t b a h = (ap err a, h)

  -- The journal refines a book that maps each settlement to its record. Take a table that represents a book,
  -- and any calls of the operations that change the journal, each at a clock that is not at zero, with every
  -- prepared record as its constructor builds it. Then the code returns the same record or raises the same
  -- error as the book at each call, and the table that is left represents the book that is left.
  pub run-refines :
      (calls : List (ℤ × SettlementCall)) (t : Dict Row) (b : Book)
      → All IsCall calls
      → Represents t b
      → ((run c calls t).0 ≡ (book_run calls b).0)
        × Represents (run c calls t).1 (book_run calls b).1
  unfolding run book_run
  run-refines [] t b good h = (refl, h)
  run-refines ((now, call) ∷ calls) t b good h =
      let a = step-Agree now call t b good.0.0 good.0.1 h in
      let (same, next) = outcome-Agree (step c now call t) (book_step now call b) t b a h in
      let (all, left) =
        run-refines calls (after (step c now call t) t) (after (book_step now call b) b) good.1
          next in
      (ap2 same all, left)
    where
      ap2 :
          {A : Type 0} {x y : A} {xs ys : List A}
          → x ≡ y
          → xs ≡ ys
          → Path (List A) (x ∷ xs) (y ∷ ys)
      ap2 p q = rw (p, q) refl

pub Represents-consistent :
    (t : Dict Row) (b : Book)
    → Represents t b
    → (k : String) (r : BudgetSettlementRecord) → b k ≡ some r
    → r.settlement_id ≡ k
Represents-consistent t b h k r at = elim (Option-cases (lookup k t)) [
  | inl absent ↦ let blank : b k ≡ none = subst (λ o. Stored k o (b k)) absent (h.stored k) in cc
  | inr (row, here) ↦
      let (s, built, key, is, at') = subst (λ o. Stored k o (b k)) here (h.stored k) in
      let same : s ≡ r = cc in subst (λ (x : BudgetSettlementRecord). x.settlement_id ≡ k) same key
]

-- The row of a record of the book, and the record of a row of the table.
pub row-Represents :
    (t : Dict Row) (b : Book)
    → Represents t b
    → (k : String) (r : BudgetSettlementRecord) → b k ≡ some r
    → lookup k t ≡ some (row_of r)
row-Represents t b h k r at = elim (Option-cases (lookup k t)) [
  | inl absent ↦ let blank : b k ≡ none = subst (λ o. Stored k o (b k)) absent (h.stored k) in cc
  | inr (row, here) ↦
      let (s, built, key, is, at') = subst (λ o. Stored k o (b k)) here (h.stored k) in
      let same : s ≡ r = cc in here ∙ ap some is ∙ ap (λ x. some (row_of x)) same
]

pub Represents-row :
    (t : Dict Row) (b : Book)
    → Represents t b
    → (k : String) (row : Row) → lookup k t ≡ some row
    → (r : BudgetSettlementRecord) × (row ≡ row_of r) × (b k ≡ some r)
Represents-row t b h k row here =
    let (s, built, key, is, at) = subst (λ o. Stored k o (b k)) here (h.stored k) in (s, is, at)
