-- ===== src/Settlement/History.antt =====
-- What runs of the journal of src/blackbase/resources/budget_settlement.py do to a settlement's record.
use blackbase.Prelude.{
  ◌≡◌, ◌≤◌, refl, sym, ap, ◌∙◌, subst, inl, inr, true, false, ◌||◌, not, String, List, [], ◌∷◌,
  Option, none, some, str_eq, str_eq_iff, Bool-cases, Result-cases, All, Dict, lookup, Result, ok,
  err, ℤ, arith,
}
use blackbase.Settlement.Wire.{
  SettlementError, Fields, plain_fields, fields_eq, Conversions, other_authority,
  unknown_settlement,
}
use blackbase.Settlement.Record.{BudgetSettlementRecord}
use blackbase.Settlement.Journal.{
  Row, Change, is_terminal, row_of, or_fields, settled_change, reserved_change, ready_change,
  retry_change, reclaimed_change,
}
use blackbase.Settlement.Book.{
  Book, write, book_prepare, changed, book_transition, SettlementCall, prepares, settles, readies,
  reserves, retries, reclaims, IsCall, book_step, after, book_run, run,
}
use blackbase.Settlement.Refinement.{Represents, run-refines, Represents-consistent, row-Represents}

-- How a later record of a settlement stands to an earlier one: a terminal record stays as it is, attempts
-- never fall, and the delegation that it records stays the same.
pub record Advances (r s : BudgetSettlementRecord) : Type 0 where
  pub final : is_terminal r.status ≡ true → s ≡ r
  pub attempts : r.attempts ≤ s.attempts
  pub reservation : s.parent_reservation_id ≡ r.parent_reservation_id
  pub authority : s.parent_authority_ref ≡ r.parent_authority_ref
  pub child : s.child_handle ≡ r.child_handle
  pub amount : s.requested_amount ≡ r.requested_amount
  pub created : s.created_at ≡ r.created_at

Advances-refl : (r : BudgetSettlementRecord) → Advances r r
Advances-refl r = record {
  final = λ h. refl;
  attempts = omega arith;
  reservation = refl;
  authority = refl;
  child = refl;
  amount = refl;
  created = refl;
}

Advances-trans : (r s u : BudgetSettlementRecord) → Advances r s → Advances s u → Advances r u
Advances-trans r s u a b = record {
  final = λ h. b.final (rw (a.final h) h) ∙ a.final h;
  attempts = omega (arith, a.attempts, b.attempts);
  reservation = b.reservation ∙ a.reservation;
  authority = b.authority ∙ a.authority;
  child = b.child ∙ a.child;
  amount = b.amount ∙ a.amount;
  created = b.created ∙ a.created;
}

changed-Advances :
    (now : ℤ) (ch : Change) (usage error : Fields) (r : BudgetSettlementRecord)
    → is_terminal r.status ≡ false
    → Advances r (changed now ch usage error r)
changed-Advances now ch usage error r live = record {
  final = λ h. cc;
  attempts = omega arith;
  reservation = refl;
  authority = refl;
  child = refl;
  amount = refl;
  created = refl;
}

-- A book whose records stand under their own names.
abbrev IsNamed : Book → Type 0
IsNamed b = (k : String) (r : BudgetSettlementRecord) → b k ≡ some r → r.settlement_id ≡ k

-- Every record of the first book has a later one in the second.
abbrev Grows : Book → Book → Type 0
Grows b b' =
    (k : String) (r : BudgetSettlementRecord)
    → b k ≡ some r
    → (s : BudgetSettlementRecord) × (b' k ≡ some s) × Advances r s

write-IsNamed : (r : BudgetSettlementRecord) (b : Book) → IsNamed b → IsNamed (write r b)
write-IsNamed r b n k s h = elim (Bool-cases (str_eq r.settlement_id k)) [
  | inl hit ↦
      let e : some r ≡ some s = sym (rw hit refl) ∙ h in
      let same : r ≡ s = cc in
      ap (λ (x : BudgetSettlementRecord). x.settlement_id) (sym same)
      ∙ (str_eq_iff r.settlement_id k).0 hit
  | inr miss ↦ n k s (sym (rw miss refl) ∙ h)
]

write-Grows :
    (r : BudgetSettlementRecord) (b : Book)
    → ((o : BudgetSettlementRecord) → b r.settlement_id ≡ some o → Advances o r)
    → Grows b (write r b)
write-Grows r b a k s h = elim (Bool-cases (str_eq r.settlement_id k)) [
  | inl hit ↦
      let e : k ≡ r.settlement_id = sym ((str_eq_iff r.settlement_id k).0 hit) in
      (r, rw hit refl, a s (subst (λ j. b j ≡ some s) e h))
  | inr miss ↦ (s, rw miss h, Advances-refl s)
]

abbrev Keeps : Book → Book → Type 0
Keeps b b' = IsNamed b' × Grows b b'

Keeps-refl : (b : Book) → IsNamed b → Keeps b b
Keeps-refl b n = (n, λ k r h. (r, h, Advances-refl r))

Keeps-after :
    (b : Book) (x y : Result SettlementError (BudgetSettlementRecord × Book))
    → x ≡ y
    → Keeps b (after y b)
    → Keeps b (after x b)
Keeps-after b x y e h = subst (λ z. Keeps b (after z b)) (sym e) h

prepare-Keeps :
    (r : BudgetSettlementRecord) (b : Book) (o : Option BudgetSettlementRecord)
    → b r.settlement_id ≡ o
    → IsNamed b
    → Keeps b (after (book_prepare r b) b)
unfolding book_prepare
prepare-Keeps r b none e n =
    Keeps-after b (book_prepare r b) (ok (r, write r b)) (rw (e, book_prepare) refl)
      (write-IsNamed r b n, write-Grows r b (λ o at. cc))
prepare-Keeps r b (some current) e n =
    elim (Bool-cases (
      not (str_eq current.parent_reservation_id r.parent_reservation_id)
      || not (fields_eq current.child_handle r.child_handle))) [
        | inl other ↦
            Keeps-after b (book_prepare r b) (err other_authority)
              (rw (e, book_prepare) (rw other refl)) (Keeps-refl b n)
        | inr same ↦
            Keeps-after b (book_prepare r b) (ok (current, b)) (rw (e, book_prepare) (rw same refl))
              (Keeps-refl b n)
      ]

changed-Keeps :
    (now : ℤ) (ch : Change) (usage error : Fields) (k : String) (r : BudgetSettlementRecord)
    (b : Book)
    → b k ≡ some r
    → is_terminal r.status ≡ false
    → IsNamed b
    → Keeps b (write (changed now ch usage error r) b)
changed-Keeps now ch usage error k r b e live n = (
  write-IsNamed (changed now ch usage error r) b n,
  write-Grows (changed now ch usage error r) b (λ o at.
      let here : b r.settlement_id ≡ some r = subst (λ j. b j ≡ some r) (sym (n k r e)) e in
      let same : some o ≡ some r = sym at ∙ here in
      let eq : r ≡ o = cc in
      subst (λ x. Advances x (changed now ch usage error r)) eq
        (changed-Advances now ch usage error r live)),
)

transition-Keeps :
    (now : ℤ) (k : String) (ch : Change) (b : Book) (o : Option BudgetSettlementRecord)
    → b k ≡ o
    → IsNamed b
    → Keeps b (after (book_transition now k ch b) b)
unfolding book_transition
transition-Keeps now k ch b none e n =
    Keeps-after b (book_transition now k ch b) (err unknown_settlement)
      (rw (e, book_transition) refl) (Keeps-refl b n)
transition-Keeps now k ch b (some r) e n = elim (Bool-cases (is_terminal r.status)) [
  | inl done ↦
      Keeps-after b (book_transition now k ch b) (ok (r, b))
        (rw (e, book_transition) (rw done refl)) (Keeps-refl b n)
  | inr live ↦ elim (Result-cases (plain_fields (or_fields ch.usage r.usage))) [
    | inr (x, bad) ↦
        Keeps-after b (book_transition now k ch b) (err x)
          (rw (e, book_transition) (rw (live, bad) refl)) (Keeps-refl b n)
    | inl (usage, p) ↦ elim (Result-cases (plain_fields ch.error)) [
      | inr (x, bad) ↦
          Keeps-after b (book_transition now k ch b) (err x)
            (rw (e, book_transition) (rw (live, p, bad) refl)) (Keeps-refl b n)
      | inl (error, q) ↦
          Keeps-after b (book_transition now k ch b)
            (ok (changed now ch usage error r, write (changed now ch usage error r) b))
            (rw (e, book_transition) (rw (live, p, q) refl))
            (changed-Keeps now ch usage error k r b e live n)
    ]
  ]
]

book_step-Keeps :
    (now : ℤ) (call : SettlementCall) (b : Book)
    → IsNamed b
    → Keeps b (after (book_step now call b) b)
unfolding book_step
book_step-Keeps now (prepares r) b n = prepare-Keeps r b (b r.settlement_id) refl n
book_step-Keeps now (settles k usage) b n =
    transition-Keeps now k (settled_change usage) b (b k) refl n
book_step-Keeps now (reserves k) b n = transition-Keeps now k reserved_change b (b k) refl n
book_step-Keeps now (readies k usage) b n =
    transition-Keeps now k (ready_change usage) b (b k) refl n
book_step-Keeps now (retries k e usage) b n =
    transition-Keeps now k (retry_change e usage) b (b k) refl n
book_step-Keeps now (reclaims k e usage) b n =
    transition-Keeps now k (reclaimed_change e usage) b (b k) refl n

book_run-Keeps :
    (calls : List (ℤ × SettlementCall)) (b : Book) → IsNamed b → Keeps b (book_run calls b).1
unfolding book_run
book_run-Keeps [] b n = Keeps-refl b n
book_run-Keeps ((now, call) ∷ calls) b n =
    let (n', g) = book_step-Keeps now call b n in
    let (m, g') = book_run-Keeps calls (after (book_step now call b) b) n' in
    (
      m,
      λ k r h.
          let (s, at, a) = g k r h in
          let (u, at', a') = g' k s at in (u, at', Advances-trans r s u a a'),
    )

-- Take a table that represents a book, and any calls, each at a clock that is not at zero and with every
-- prepared record as its constructor builds it. A settlement that the table has is still there after the
-- calls: if its record was settled or reclaimed, it is that record; its attempts are no fewer; and its
-- reservation, authority, child, amount and time of creation are those that it had.
pub run-Advances :
    (c : Conversions) (calls : List (ℤ × SettlementCall)) (t : Dict Row) (b : Book) (k : String)
    (r : BudgetSettlementRecord)
    → All IsCall calls
    → Represents t b
    → b k ≡ some r
    → (s : BudgetSettlementRecord) × (lookup k t ≡ some (row_of r))
      × (lookup k (run c calls t).1 ≡ some (row_of s))
      × Advances r s
run-Advances c calls t b k r good h at =
    let (same, h') = run-refines c calls t b good h in
    let (n, g) = book_run-Keeps calls b (Represents-consistent t b h) in
    let (s, at', a) = g k r at in
    (
      s,
      row-Represents t b h k r at,
      row-Represents (run c calls t).1 (book_run calls b).1 h' k s at',
      a,
    )
