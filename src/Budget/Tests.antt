-- ===== src/Budget/Tests.antt =====
-- The budgets of src/blackbase/resources/budget.py: one budget, from which two units of five are consumed.
use blackbase.Prelude.{
  ℕ, ◌+◌, ◌≡◌, refl, List, [], ◌∷◌, some, total, ok, value_or, ℤ, is_empty, strip,
}
use blackbase.Lease.{Lease, LeaseStatus, is_current}
use blackbase.Budget.{
  Reservation, ReservationStatus, BudgetDb, Snapshot, status_of, remaining, configure,
}
use blackbase.Budget.Retry.{complete-again}
use blackbase.Budget.Operations.{complete, ReserveArgs, reserve, consume}
use blackbase.Budget.Ledger.{IsBalanced, used}
use blackbase.Budget.History.{BudgetCall, run_call, play, play-IsBalanced, status-exact}

abbrev worker_lease : Lease
worker_lease = record {
  lease_id = "lease-a";
  owner_id = "worker";
  scope = "project";
  resources = [];
  status = LeaseStatus.active;
  created_at = 0;
  updated_at = 0;
  expires_at = 1000;
  fencing_token = 1;
  metadata = [];
}

abbrev empty_db : BudgetDb
empty_db = record {
  leases = record { rows = ("lease-a", worker_lease) ∷ []; next_fencing_token = 2 };
  budgets = [];
  reservations = [];
}

empty_db-IsBalanced : IsBalanced empty_db
empty_db-IsBalanced = record {
  within = λ k r h. cc;
  funded = tt;
  conserved = λ n b h. cc;
  bounded = λ n b h. cc;
}

abbrev request : ReserveArgs
request = record {
  budget = "evaluations";
  amount = ℤ.pos 3;
  lease_id = "lease-a";
  fencing_token = 1;
  reservation_id = some "r-1";
  fresh = "budget-0";
}

abbrev calls : List (ℕ × BudgetCall)
calls =
    (10, BudgetCall.configure_call "evaluations" (ℤ.pos 5))
    ∷ (20, BudgetCall.reserve_call request)
    ∷ (30, BudgetCall.consume_call "r-1" (ℤ.pos 2))
    ∷ (40, BudgetCall.reserve_call (record request { reservation_id = some "r-2" }))
    ∷ []

play-IsBalanced_example : IsBalanced (play calls empty_db)
play-IsBalanced_example = play-IsBalanced calls empty_db empty_db-IsBalanced

abbrev no_snapshot : Snapshot
no_snapshot = record {
  budget = "";
  limit = 0;
  committed = 0;
  reserved_amount = 0;
  reclaimed_count = 0;
}

abbrev report : Snapshot × BudgetDb
report = value_or (no_snapshot, empty_db) (status_of "evaluations" 50 (play calls empty_db))

report_run : status_of "evaluations" 50 (play calls empty_db) ≡ ok report
unfolding status_of is_empty strip run_call reserve is_current consume configure
report_run = refl

report_numbers :
    (report.0.committed ≡ 2) × (report.0.reserved_amount ≡ 1) × (remaining report.0 ≡ 2)
unfolding status_of is_empty strip run_call reserve is_current consume configure remaining
report_numbers = (refl, refl, refl)

status-exact_example :
    (remaining report.0 + report.0.committed + report.0.reserved_amount ≡ report.0.limit)
    × (report.0.committed ≡ total (used report.0.budget) report.1.reservations)
status-exact_example =
    status-exact "evaluations" 50 (play calls empty_db) play-IsBalanced_example report_run

abbrev no_reservation : Reservation
no_reservation = record {
  reservation_id = "";
  budget = "";
  amount = 0;
  lease_id = "";
  fencing_token = 0;
  status = ReservationStatus.cancelled;
  completed = 0;
  created_at = 0;
  updated_at = 0;
}

abbrev finished : Reservation × BudgetDb
finished = value_or (no_reservation, empty_db) (complete "r-1" (ℤ.pos 3) 60 (play calls empty_db))

finished_run : complete "r-1" (ℤ.pos 3) 60 (play calls empty_db) ≡ ok finished
unfolding complete is_empty run_call reserve strip is_current consume configure
finished_run = refl

-- The lease has run out at the time of the retry.
complete-again_example : complete "r-1" (ℤ.pos 3) 2000 finished.1 ≡ ok finished
complete-again_example = complete-again "r-1" (ℤ.pos 3) 60 2000 (play calls empty_db) finished_run
