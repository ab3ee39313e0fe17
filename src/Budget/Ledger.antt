-- ===== src/Budget/Ledger.antt =====
-- The conservation law of src/blackbase/resources/budget.py: what a budget has committed is what its
-- reservations consumed, and with what active reservations hold back it stays within the limit.
use blackbase.Prelude.{
  ℕ, ◌+◌, ◌≤◌, ◌≡◌, refl, sym, ap, ◌∙◌, subst, inl, inr, true, String, Option, none, some, arith,
  if◌then◌else◌, str_eq, str_eq_iff, Dict, lookup, insert, lookup-insert, lookup-map_values, total,
  total-insert, total-map_values, total-map_values-le, AllValues, AllValues-lookup,
  AllValues-insert, AllValues-map_values, AllValues-weaken, Bool-cases,
}
use blackbase.Lease.{LeaseTable}
use blackbase.Budget.{Reservation, BudgetRow, BudgetDb, is_open, reclaim, reclaim_stale, held}
use blackbase.Budget.Operations.{commit_units, add_committed}

-- What a reservation has consumed of a budget.
abbrev pub used : String → Reservation → ℕ
used name r = if str_eq r.budget name then r.completed else 0

abbrev pub IsFunded : Dict BudgetRow → Reservation → Type 0
IsFunded rows r = (b : BudgetRow) × (lookup r.budget rows ≡ some b)

pub record IsBalanced (db : BudgetDb) : Type 0 where
  -- No reservation consumed more than it holds.
  pub within :
      (k : String) (r : Reservation) → lookup k db.reservations ≡ some r → r.completed ≤ r.amount
  -- Every reservation is of a configured budget.
  pub funded : AllValues (IsFunded db.budgets) db.reservations
  -- Committed units are the consumed ones.
  pub conserved :
      (name : String) (b : BudgetRow)
      → lookup name db.budgets ≡ some b
      → b.committed ≡ total (used name) db.reservations
  -- Committed and held units fit into the limit.
  pub bounded :
      (name : String) (b : BudgetRow)
      → lookup name db.budgets ≡ some b
      → b.committed + total (held name) db.reservations ≤ b.limit

used-reclaim :
    (now : ℕ) (t : LeaseTable) (name : String) (r : Reservation)
    → used name (reclaim now t r) ≡ used name r
unfolding reclaim
used-reclaim now t name r = ground arith

held-reclaim :
    (now : ℕ) (t : LeaseTable) (name : String) (r : Reservation)
    → held name (reclaim now t r) ≤ held name r
unfolding reclaim
held-reclaim now t name r = ground arith

budget-reclaim : (now : ℕ) (t : LeaseTable) (r : Reservation) → (reclaim now t r).budget ≡ r.budget
unfolding reclaim
budget-reclaim now t r = ground arith

-- The row behind a reclaimed one has the same budget and units.
reclaimed_row :
    (now : ℕ) (t : LeaseTable) (o : Option Reservation) (r' : Reservation)
    → Path (Option Reservation) (elim o [ none ↦ none | some r ↦ some (reclaim now t r) ]) (some r')
    → (r : Reservation) × (o ≡ some r)
      × (r'.budget ≡ r.budget)
      × (r'.amount ≡ r.amount)
      × (r'.completed ≡ r.completed)
unfolding reclaim
reclaimed_row now t none r' h = cc
reclaimed_row now t (some r) r' h =
    let e : reclaim now t r ≡ r' = cc in (r, refl, ground arith, ground arith, ground arith)

pub reclaim_stale-IsBalanced :
    (now : ℕ) (db : BudgetDb) → IsBalanced db → IsBalanced (reclaim_stale now db).0
unfolding reclaim_stale
reclaim_stale-IsBalanced now db v = record {
  within = λ k r h.
      let (q, hq, b, a, c) =
        reclaimed_row now db.leases (lookup k db.reservations) r
          (sym (lookup-map_values _ k db.reservations) ∙ h) in
      let w = v.within k q hq in omega arith;
  funded =
      AllValues-map_values (IsFunded db.budgets) (reclaim now db.leases) db.reservations
        (λ r f.
          subst (λ x. (b : BudgetRow) × (lookup x db.budgets ≡ some b))
            (sym (budget-reclaim now db.leases r)) f)
        v.funded;
  conserved = λ name b h.
      v.conserved name b h
      ∙ sym (
          total-map_values (used name) (reclaim now db.leases) db.reservations
            (used-reclaim now db.leases name));
  bounded = λ name b h. omega (
    arith,
    v.bounded name b h,
    total-map_values-le (held name) (reclaim now db.leases) db.reservations
        (held-reclaim now db.leases name),
  );
}

-- `rows'` is `rows` with `delta` more units committed under `name`.
pub record Charges (name : String) (delta : ℕ) (rows rows' : Dict BudgetRow) : Type 0 where
  pub back :
      (n : String) (b' : BudgetRow)
      → lookup n rows' ≡ some b'
      → (b : BudgetRow) × (lookup n rows ≡ some b)
        × (b'.limit ≡ b.limit)
        × (b'.committed ≡ b.committed + (if str_eq name n then delta else 0))
  pub forth :
      (n : String) (b : BudgetRow)
      → lookup n rows ≡ some b
      → (b' : BudgetRow) × (lookup n rows' ≡ some b')

pub Charges-nothing : (name : String) (rows : Dict BudgetRow) → Charges name 0 rows rows
Charges-nothing name rows = record {
  back = λ n b h. (b, h, refl, ground arith);
  forth = λ n b h. (b, h);
}

add_committed-back :
    (o : Option BudgetRow) (name : String) (delta now : ℕ) (rows : Dict BudgetRow) (n : String)
    (b' : BudgetRow)
    → lookup name rows ≡ o
    → lookup n (add_committed o name delta now rows) ≡ some b'
    → (b : BudgetRow) × (lookup n rows ≡ some b)
      × (b'.limit ≡ b.limit)
      × (b'.committed ≡ b.committed + (if str_eq name n then delta else 0))
add_committed-back none name delta now rows n b' e h = elim (Bool-cases (str_eq name n)) [
  | inl hit ↦ absurd (cc (ap (λ x. lookup x rows) ((str_eq_iff name n).0 hit)))
  | inr miss ↦ (b', h, refl, rw miss (omega arith))
]
add_committed-back (some row) name delta now rows n b' e h = elim (Bool-cases (str_eq name n)) [
  | inl hit ↦ (
    row,
    ap (λ x. lookup x rows) (sym ((str_eq_iff name n).0 hit)) ∙ e,
    ground (
      arith,
      lookup-insert name n (record row { committed = row.committed + delta; updated_at = now })
          rows,
    ),
    ground (
      arith,
      lookup-insert name n (record row { committed = row.committed + delta; updated_at = now })
          rows,
    ),
  )
  | inr miss ↦ (
    b',
    ground (
      arith,
      lookup-insert name n (record row { committed = row.committed + delta; updated_at = now })
          rows,
    ),
    refl,
    rw miss (omega arith),
  )
]

add_committed-forth :
    (o : Option BudgetRow) (name : String) (delta now : ℕ) (rows : Dict BudgetRow) (n : String)
    (b : BudgetRow)
    → lookup n rows ≡ some b
    → (b' : BudgetRow) × (lookup n (add_committed o name delta now rows) ≡ some b')
add_committed-forth none name delta now rows n b h = (b, h)
add_committed-forth (some row) name delta now rows n b h = elim (Bool-cases (str_eq name n)) [
  | inl hit ↦ (
    record row { committed = row.committed + delta; updated_at = now },
    rw lookup-insert (rw hit),
  )
  | inr miss ↦ (b, rw lookup-insert (rw miss h))
]

pub commit_units-Charges :
    (name : String) (delta now : ℕ) (db : BudgetDb)
    → Charges name delta db.budgets (commit_units name delta now db).budgets
unfolding commit_units
commit_units-Charges name delta now db = record {
  back =
      λ n b' h. add_committed-back (lookup name db.budgets) name delta now db.budgets n b' refl h;
  forth = λ n b h. add_committed-forth (lookup name db.budgets) name delta now db.budgets n b h;
}

-- Consuming `delta` units of an active reservation, which may end it.
module _ (db : BudgetDb) (k : String) (r r' : Reservation) (delta : ℕ) (rows : Dict BudgetRow)
    (v : IsBalanced db) (stored : lookup k db.reservations ≡ some r)
    (opened : is_open r.status ≡ true) (same_budget : r'.budget ≡ r.budget)
    (same_amount : r'.amount ≡ r.amount) (grown : r'.completed ≡ r.completed + delta)
    (room : r.completed + delta ≤ r.amount) (charged : Charges r.budget delta db.budgets rows) where
  used-grown :
      (name : String) → used name r' ≡ used name r + (if str_eq r.budget name then delta else 0)
  used-grown name = rw (same_budget, grown) (ground arith)

  held-grown :
      (name : String) → held name r' + (if str_eq r.budget name then delta else 0) ≤ held name r
  held-grown name = rw (same_budget, same_amount, grown, opened) (ground arith)

  pub spend-IsBalanced :
      IsBalanced (record db { budgets = rows; reservations = insert k r' db.reservations })
  spend-IsBalanced = record {
    within = λ j q h. ground (arith, lookup-insert k j r' db.reservations, v.within j q);
    funded =
        let refund =
          λ (q : Reservation) (f : IsFunded db.budgets q). charged.forth q.budget f.0 f.1 in
        AllValues-insert (IsFunded rows) k r' db.reservations
          (AllValues-weaken (IsFunded db.budgets) (IsFunded rows) db.reservations refund v.funded)
          (subst (λ x. (b : BudgetRow) × (lookup x rows ≡ some b)) (sym same_budget)
            (refund r
              (AllValues-lookup (IsFunded db.budgets) k r db.reservations v.funded stored)));
    conserved = λ name b' h.
        let (b, hb, lim, comm) = charged.back name b' h in
        omega (
          arith,
          comm,
          v.conserved name b hb,
          used-grown name,
          total-insert (used name) k r' r db.reservations stored,
        );
    bounded = λ name b' h.
        let (b, hb, lim, comm) = charged.back name b' h in
        omega (
          arith,
          comm,
          lim,
          v.bounded name b hb,
          held-grown name,
          total-insert (held name) k r' r db.reservations stored,
        );
  }
