-- ===== src/Budget/Transactions.antt =====
-- Every transaction of src/blackbase/resources/budget.py keeps the ledger balanced.
use blackbase.Prelude.{
  ℕ, ◌+◌, ◌-◌, ◌≤◌, ◌≡◌, refl, sym, ap, ◌∙◌, subst, inl, inr, Bool, false, ◌&&◌, ◌||◌, ◌==◌, not,
  String, Option, none, some, arith, ltb, str_eq, str_eq_iff, Dict, lookup, insert, lookup-insert,
  total, total-insert_new, total-zero, AllValues, AllValues-insert, AllValues-weaken, ok, raise_if,
  >>-ok, >>=-ok, ok-injective, Bool-cases, Option-cases, if-elim,
}
use blackbase.Budget.{
  Reservation, BudgetRow, BudgetDb, is_open, is_completed, held, reserved, budget_row,
  fence_current, exceeded, inactive, over_reservation, under_consumed, not_fenced, completed,
  cancelled,
}
use blackbase.Budget.Operations.{admit, commit_units, complete_row, consume_row, cancel_row}
use blackbase.Budget.{configure_row}
use blackbase.Budget.Ledger.{
  used, IsFunded, IsBalanced, Charges, Charges-nothing, commit_units-Charges, spend-IsBalanced,
}

pub complete_row-IsBalanced :
    (o : Option Reservation) (k : String) (count now : ℕ) (db : BudgetDb) {r : Reservation}
    {db' : BudgetDb}
    → IsBalanced db
    → lookup k db.reservations ≡ o
    → complete_row o k count now db ≡ ok (r, db')
    → IsBalanced db'
unfolding commit_units
complete_row-IsBalanced none k count now db v e h = cc
complete_row-IsBalanced (some r) k count now db v e h =
    if-elim (is_completed r.status && r.completed == count) _ _ h
      (λ replay h₁. subst (λ (p : Reservation × BudgetDb). IsBalanced p.1) (ok-injective h₁) v)
      (λ fresh h₁.
        let (opened, h₂) = >>-ok (raise_if (not (is_open r.status)) inactive) _ h₁ in
        let (room, h₃) = >>-ok (raise_if (ltb r.amount count) over_reservation) _ h₂ in
        let (up, h₄) = >>-ok (raise_if (ltb count r.completed) under_consumed) _ h₃ in
        let h₅ = (>>-ok (raise_if (not (fence_current now db.leases r)) not_fenced) _ h₄).1 in
        let done = record r { status = completed; completed = count; updated_at = now } in
        let spend =
          λ (rows : Dict BudgetRow) (c : Charges r.budget (count - r.completed) db.budgets rows).
            spend-IsBalanced db k r done (count - r.completed) rows v e (ground arith) refl refl
              (ground arith) (ground arith) c in
        subst (λ (p : Reservation × BudgetDb). IsBalanced p.1) (ok-injective h₅)
          (elim (Bool-cases (count - r.completed == 0)) [
            | inl same ↦ rw same (
                spend db.budgets (
                  subst (λ d. Charges r.budget d db.budgets db.budgets) (ground arith)
                    (Charges-nothing r.budget db.budgets)))
            | inr more ↦ rw more (
                spend (commit_units r.budget (count - r.completed) now db).budgets
                  (commit_units-Charges r.budget (count - r.completed) now db))
          ]))

pub consume_row-IsBalanced :
    (o : Option Reservation) (k : String) (delta now : ℕ) (db : BudgetDb) {r : Reservation}
    {db' : BudgetDb}
    → IsBalanced db
    → lookup k db.reservations ≡ o
    → consume_row o k delta now db ≡ ok (r, db')
    → IsBalanced db'
unfolding commit_units
consume_row-IsBalanced none k delta now db v e h = cc
consume_row-IsBalanced (some r) k delta now db v e h =
    let (opened, h₁) = >>-ok (raise_if (not (is_open r.status)) inactive) _ h in
    let (room, h₂) = >>-ok (raise_if (ltb r.amount (r.completed + delta)) over_reservation) _ h₁ in
    let h₃ = (>>-ok (raise_if (not (fence_current now db.leases r)) not_fenced) _ h₂).1 in
    subst (λ (p : Reservation × BudgetDb). IsBalanced p.1) (ok-injective h₃)
      (spend-IsBalanced db k r (record r { completed = r.completed + delta; updated_at = now })
        delta (commit_units r.budget delta now db).budgets v e (ground arith) refl refl refl
        (ground arith) (commit_units-Charges r.budget delta now db))

pub cancel_row-IsBalanced :
    (o : Option Reservation) (k : String) (now : ℕ) (db : BudgetDb)
    → IsBalanced db
    → lookup k db.reservations ≡ o
    → IsBalanced (cancel_row o k now db).1
cancel_row-IsBalanced none k now db v e = v
cancel_row-IsBalanced (some r) k now db v e =
    if-elim (not (is_open r.status) || not (fence_current now db.leases r)) _ _ refl
      (λ kept h. subst (λ (p : Bool × BudgetDb). IsBalanced p.1) h v)
      (λ ended h.
        subst (λ (p : Bool × BudgetDb). IsBalanced p.1) h
          (spend-IsBalanced db k r (record r { status = cancelled; updated_at = now }) 0 db.budgets
            v e (ground arith) refl refl (omega arith) (omega (arith, v.within k r e))
            (Charges-nothing r.budget db.budgets)))

-- A new reservation that fits into what remains.
module _ (db : BudgetDb) (k : String) (r : Reservation) (row : BudgetRow) (v : IsBalanced db)
    (unused : lookup k db.reservations ≡ none) (found : lookup r.budget db.budgets ≡ some row)
    (untouched : r.completed ≡ 0)
    (fits : row.committed + total (held r.budget) db.reservations + r.amount ≤ row.limit) where
  held-amount : held r.budget r ≤ r.amount
  held-amount = ground arith

  used-new : (name : String) → used name r ≡ 0
  used-new name = ground (arith, untouched)

  held-new :
      (name : String) (b : BudgetRow)
      → lookup name db.budgets ≡ some b
      → b.committed + total (held name) db.reservations + held name r ≤ b.limit
  held-new name b h = elim (Bool-cases (str_eq r.budget name)) [
    | inl hit ↦
        subst
          (λ n.
            (b : BudgetRow)
            → lookup n db.budgets ≡ some b
            → b.committed + total (held n) db.reservations + held n r ≤ b.limit)
          ((str_eq_iff r.budget name).0 hit)
          (λ b' h'.
            let e : some row ≡ some b' = sym found ∙ h' in
            let c : row.committed ≡ b'.committed = cc in
            let l : row.limit ≡ b'.limit = cc in omega (arith, fits, c, l, held-amount))
          b h
    | inr miss ↦ rw miss (omega (arith, v.bounded name b h))
  ]

  admitted-IsBalanced : IsBalanced (record db { reservations = insert k r db.reservations })
  admitted-IsBalanced = record {
    within = λ j q h. ground (arith, lookup-insert k j r db.reservations, v.within j q);
    funded = AllValues-insert (IsFunded db.budgets) k r db.reservations v.funded (row, found);
    conserved = λ name b h. omega (
      arith,
      v.conserved name b h,
      used-new name,
      total-insert_new (used name) k r db.reservations unused,
    );
    bounded = λ name b h.
        omega (arith, held-new name b h, total-insert_new (held name) k r db.reservations unused);
  }

pub budget_row-ok :
    (name : String) (db : BudgetDb) {row : BudgetRow}
    → budget_row name db ≡ ok row
    → lookup name db.budgets ≡ some row
unfolding budget_row
budget_row-ok name db h = elim (Option-cases (lookup name db.budgets)) [
  | inl e ↦ cc
  | inr (b, e) ↦ cc
]

pub admit-IsBalanced :
    (o : Option Reservation) (r : Reservation) (db : BudgetDb) {r' : Reservation} {db' : BudgetDb}
    → IsBalanced db
    → lookup r.reservation_id db.reservations ≡ o
    → r.completed ≡ 0
    → admit o r db ≡ ok (r', db')
    → IsBalanced db'
unfolding reserved
admit-IsBalanced (some old) r db v e z h =
    if-elim
      (str_eq old.budget r.budget
        && old.amount == r.amount
        && str_eq old.lease_id r.lease_id
        && old.fencing_token == r.fencing_token)
      _ _ h (λ same h₁. subst (λ (p : Reservation × BudgetDb). IsBalanced p.1) (ok-injective h₁) v)
      (λ other h₁. cc)
admit-IsBalanced none r db v e z h =
    let (row, found, h₁) = >>=-ok (budget_row r.budget db) _ h in
    let (fits, h₂) =
      >>-ok
        (raise_if (ltb (row.limit - row.committed - total (held r.budget) db.reservations) r.amount)
          exceeded)
        _ h₁ in
    let hrow = budget_row-ok r.budget db found in
    subst (λ (p : Reservation × BudgetDb). IsBalanced p.1) (ok-injective h₂)
      (admitted-IsBalanced db r.reservation_id r row v e hrow z
        (ground (arith, v.bounded r.budget row hrow, fits)))

-- A budget nobody has a reservation of starts at nothing.
module _ (db : BudgetDb) (name : String) (maximum now : ℕ) (v : IsBalanced db)
    (unused : lookup name db.budgets ≡ none) where
  others : AllValues (λ r. str_eq r.budget name ≡ false) db.reservations
  others =
      AllValues-weaken (IsFunded db.budgets) (λ r. str_eq r.budget name ≡ false) db.reservations
        (λ r f. elim (Bool-cases (str_eq r.budget name)) [
          | inl hit ↦
              absurd (cc (ap (λ x. lookup x db.budgets) ((str_eq_iff r.budget name).0 hit), f.1))
          | inr miss ↦ miss
        ])
        v.funded

  nothing_used : total (used name) db.reservations ≡ 0
  nothing_used = total-zero (used name) db.reservations (
      AllValues-weaken (λ r. str_eq r.budget name ≡ false) (λ r. used name r ≡ 0) db.reservations
        (λ r miss. ground arith) others)

  nothing_held : total (held name) db.reservations ≡ 0
  nothing_held = total-zero (held name) db.reservations (
      AllValues-weaken (λ r. str_eq r.budget name ≡ false) (λ r. held name r ≡ 0) db.reservations
        (λ r miss. ground arith) others)

  abbrev new_row : BudgetRow
  new_row = record { limit = maximum; committed = 0; updated_at = now }

  new_budget-IsBalanced : IsBalanced (record db { budgets = insert name new_row db.budgets })
  new_budget-IsBalanced = record {
    within = v.within;
    funded =
        AllValues-weaken (IsFunded db.budgets) (IsFunded (insert name new_row db.budgets))
          db.reservations
          (λ r f. elim (Bool-cases (str_eq name r.budget)) [
            | inl hit ↦ (new_row, rw lookup-insert (rw hit))
            | inr miss ↦ (f.0, rw lookup-insert (rw miss f.1))
          ])
          v.funded;
    conserved = λ n b h. elim (Bool-cases (str_eq name n)) [
      | inl hit ↦
          subst (λ x. b.committed ≡ total (used x) db.reservations) ((str_eq_iff name n).0 hit)
            (ground (arith, nothing_used, lookup-insert name n new_row db.budgets))
      | inr miss ↦ v.conserved n b (ground (arith, lookup-insert name n new_row db.budgets))
    ];
    bounded = λ n b h. elim (Bool-cases (str_eq name n)) [
      | inl hit ↦
          subst (λ x. b.committed + total (held x) db.reservations ≤ b.limit)
            ((str_eq_iff name n).0 hit)
            (ground (arith, nothing_held, lookup-insert name n new_row db.budgets))
      | inr miss ↦ v.bounded n b (ground (arith, lookup-insert name n new_row db.budgets))
    ];
  }

pub configure_row-IsBalanced :
    (o : Option BudgetRow) (name : String) (maximum now : ℕ) (db : BudgetDb) {db' : BudgetDb}
    → IsBalanced db
    → lookup name db.budgets ≡ o
    → configure_row o name maximum now db ≡ ok db'
    → IsBalanced db'
configure_row-IsBalanced (some row) name maximum now db v e h =
    if-elim (row.limit == maximum) _ _ h (λ same h₁. subst IsBalanced (ok-injective h₁) v)
      (λ other h₁. cc)
configure_row-IsBalanced none name maximum now db v e h =
    subst IsBalanced (ok-injective h) (new_budget-IsBalanced db name maximum now v e)
