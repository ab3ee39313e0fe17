-- ===== src/Budget/History.antt =====
-- Whole histories of the calls of `SQLiteBudgetAuthority` (src/blackbase/resources/budget.py), between which
-- the lease authority writes its own rows of the database.
use blackbase.Prelude.{
  ℕ, ◌+◌, ◌≡◌, refl, ap, ◌∙◌, subst, inl, inr, Bool, not, String, List, [], ◌∷◌, Option, arith,
  lookup, total, Result, ok, err, raise_if, >>-ok, >>=-ok, ok-injective, ◌>>=◌, Result-cases, ℤ,
  pos_part,
}
use blackbase.Lease.{LeaseTable, is_current}
use blackbase.Budget.{
  Reservation, BudgetDb, BudgetError, reclaim_stale, reserved, budget_row, configure, status_of,
  reservation, Snapshot, budget_name, budget_limit, reservation_amount, checked_id, not_fenced,
  remaining,
}
use blackbase.Budget.Operations.{
  ReserveArgs, reserve, complete, consume, cancel, new_reservation, identifier_of,
}
use blackbase.Budget.Ledger.{used, IsBalanced, reclaim_stale-IsBalanced}
use blackbase.Budget.Transactions.{
  complete_row-IsBalanced, consume_row-IsBalanced, cancel_row-IsBalanced, admit-IsBalanced,
  configure_row-IsBalanced, budget_row-ok,
}

-- A call of the authority, or a commit of the lease authority.
pub data BudgetCall : Type 0 where
  configure_call : String → ℤ → BudgetCall
  reserve_call : ReserveArgs → BudgetCall
  complete_call consume_call : String → ℤ → BudgetCall
  cancel_call reservation_call status_call : String → BudgetCall
  leases_written : LeaseTable → BudgetCall

-- The database after a call that returned, or the error of one that raised.
unfoldable pub run_call : BudgetCall → ℕ → BudgetDb → Result BudgetError BudgetDb
run_call (configure_call name limit) now db = configure name limit now db
run_call (reserve_call a) now db = do p ← reserve a now db; ok p.1
run_call (complete_call i count) now db = do p ← complete i count now db; ok p.1
run_call (consume_call i amount) now db = do p ← consume i amount now db; ok p.1
run_call (cancel_call i) now db = do p ← cancel i now db; ok p.1
run_call (reservation_call i) now db = do p ← reservation i now db; ok p.1
run_call (status_call name) now db = do p ← status_of name now db; ok p.1
run_call (leases_written t) now db = ok (record db { leases = t })

-- A transaction that raises is rolled back.
abbrev pub kept : BudgetDb → Result BudgetError BudgetDb → BudgetDb
kept db (ok db') = db'
kept db (err e) = db

abbrev pub play : List (ℕ × BudgetCall) → BudgetDb → BudgetDb
play [] db = db
play ((now, c) ∷ cs) db = play cs (kept db (run_call c now db))

reserve-IsBalanced :
    (a : ReserveArgs) (now : ℕ) (db : BudgetDb) {r : Reservation} {db' : BudgetDb}
    → IsBalanced db
    → reserve a now db ≡ ok (r, db')
    → IsBalanced db'
unfolding reserve
reserve-IsBalanced a now db v h =
    let (name, n, h₁) = >>=-ok (budget_name a.budget) _ h in
    let (amount, m, h₂) = >>=-ok (reservation_amount a.amount) _ h₁ in
    let (f, h₃) =
      >>-ok (raise_if (not (is_current a.lease_id a.fencing_token now db.leases)) not_fenced) _
        h₂ in
    admit-IsBalanced
      (lookup (identifier_of a.reservation_id a.fresh) (reclaim_stale now db).0.reservations)
      (new_reservation a name amount now) (reclaim_stale now db).0
      (reclaim_stale-IsBalanced now db v) refl refl h₃

pub run_call-IsBalanced :
    (c : BudgetCall) (now : ℕ) (db : BudgetDb) {db' : BudgetDb}
    → IsBalanced db
    → run_call c now db ≡ ok db'
    → IsBalanced db'
unfolding run_call configure complete consume cancel reservation status_of
run_call-IsBalanced (configure_call name limit) now db v h =
    let (n, hn, h₁) = >>=-ok (budget_name name) _ h in
    let (m, hm, h₂) = >>=-ok (budget_limit limit) _ h₁ in
    configure_row-IsBalanced (lookup n db.budgets) n m now db v refl h₂
run_call-IsBalanced (reserve_call a) now db v h =
    let (p, hp, h₁) = >>=-ok (reserve a now db) _ h in
    subst IsBalanced (ok-injective h₁) (reserve-IsBalanced a now db v hp)
run_call-IsBalanced (complete_call i count) now db v h =
    let (p, hp, h₁) = >>=-ok (complete i count now db) _ h in
    let (k, hk, h₂) = >>=-ok (checked_id i) _ hp in
    subst IsBalanced (ok-injective h₁)
      (complete_row-IsBalanced (lookup k db.reservations) k (pos_part count) now db v refl h₂)
run_call-IsBalanced (consume_call i amount) now db v h =
    let (p, hp, h₁) = >>=-ok (consume i amount now db) _ h in
    let (k, hk, h₂) = >>=-ok (checked_id i) _ hp in
    let (d, hd, h₃) = >>=-ok (reservation_amount amount) _ h₂ in
    subst IsBalanced (ok-injective h₁)
      (consume_row-IsBalanced (lookup k db.reservations) k d now db v refl h₃)
run_call-IsBalanced (cancel_call i) now db v h =
    let (p, hp, h₁) = >>=-ok (cancel i now db) _ h in
    let (k, hk, h₂) = >>=-ok (checked_id i) _ hp in
    subst IsBalanced (ap (λ (q : Bool × BudgetDb). q.1) (ok-injective h₂) ∙ ok-injective h₁)
      (cancel_row-IsBalanced (lookup k db.reservations) k now db v refl)
run_call-IsBalanced (reservation_call i) now db v h =
    let (p, hp, h₁) = >>=-ok (reservation i now db) _ h in
    let (k, hk, h₂) = >>=-ok (checked_id i) _ hp in
    subst IsBalanced
      (ap (λ (q : Option Reservation × BudgetDb). q.1) (ok-injective h₂) ∙ ok-injective h₁)
      (reclaim_stale-IsBalanced now db v)
run_call-IsBalanced (status_call name) now db v h =
    let (p, hp, h₁) = >>=-ok (status_of name now db) _ h in
    let (k, hk, h₂) = >>=-ok (budget_name name) _ hp in
    let (row, hr, h₃) = >>=-ok (budget_row k (reclaim_stale now db).0) _ h₂ in
    subst IsBalanced (ap (λ (q : Snapshot × BudgetDb). q.1) (ok-injective h₃) ∙ ok-injective h₁)
      (reclaim_stale-IsBalanced now db v)
run_call-IsBalanced (leases_written t) now db v h =
    subst IsBalanced (ok-injective h) (record {
      within = v.within;
      funded = v.funded;
      conserved = v.conserved;
      bounded = v.bounded;
    })

-- From a balanced database, every history of calls ends in a balanced one: no reservation has consumed
-- more than its amount, every one is of a configured budget, each budget's committed units are what its
-- reservations consumed, and with the units that active ones hold they stay within the limit. Calls that
-- raise are rolled back, and the lease rows may be rewritten in any way between the calls.
pub play-IsBalanced :
    (cs : List (ℕ × BudgetCall)) (db : BudgetDb) → IsBalanced db → IsBalanced (play cs db)
play-IsBalanced [] db v = v
play-IsBalanced ((now, c) ∷ cs) db v =
    play-IsBalanced cs (kept db (run_call c now db)) (elim (Result-cases (run_call c now db)) [
      | inl (db', e) ↦ rw e (run_call-IsBalanced c now db v e)
      | inr (x, e) ↦ rw e v
    ])

-- The status of a budget of a balanced database is exact: the limit is what remains, what is committed
-- and what active reservations hold, and the committed units are those that reservations consumed.
pub status-exact :
    (name : String) (now : ℕ) (db : BudgetDb) {s : Snapshot} {db' : BudgetDb}
    → IsBalanced db
    → status_of name now db ≡ ok (s, db')
    → (remaining s + s.committed + s.reserved_amount ≡ s.limit)
      × (s.committed ≡ total (used s.budget) db'.reservations)
unfolding status_of remaining reserved
status-exact name now db v h =
    let (k, hk, h₁) = >>=-ok (budget_name name) _ h in
    let (row, hr, h₂) = >>=-ok (budget_row k (reclaim_stale now db).0) _ h₁ in
    let w = reclaim_stale-IsBalanced now db v in
    let e = budget_row-ok k (reclaim_stale now db).0 hr in
    subst
      (λ (p : Snapshot × BudgetDb).
        (remaining p.0 + p.0.committed + p.0.reserved_amount ≡ p.0.limit)
        × (p.0.committed ≡ total (used p.0.budget) p.1.reservations))
      (ok-injective h₂) (omega (arith, w.bounded k row e), w.conserved k row e)
