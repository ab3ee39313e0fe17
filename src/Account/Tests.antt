-- ===== src/Account/Tests.antt =====
-- Accounts of src/blackbase/resources/budget_account.py with and without a shared authority.
use blackbase.Prelude.{◌≤◌, ℕ, ◌+◌, ◌≡◌, refl, List, [], ◌∷◌, none, All, arith, pos}
use blackbase.Budget.{BudgetDb, configure}
use blackbase.Lease.{Lease, LeaseStatus, is_current}
use blackbase.Budget.Ledger.{IsBalanced}
use blackbase.Budget.History.{BudgetCall, run_call, play, play-IsBalanced}
use blackbase.Account.{Account, AccountConfig}
use blackbase.Account.Ledger.{ledger, IsWithin}
use blackbase.Account.History.{
  AccountCall, run, step, reserves, consumes, completes, cancels, cancels_all, allows, run-ledger,
}
use blackbase.Account.Limit.{limited, fresh_account, double_use, double_use-exceeds}
use blackbase.Budget.Charged.{charged}
use blackbase.Account.Shared.{Moment, Shared, reserve_args, sqlite_authority, serve, serve-charged}

abbrev calls : List AccountCall
calls =
    reserves "a" (pos 4) none
    ∷ consumes 0 (pos 3)
    ∷ reserves "b" (pos 2) none
    ∷ consumes 1 (pos 5)
    ∷ completes 0
    ∷ allows (pos 9) none
    ∷ cancels 1
    ∷ cancels_all
    ∷ []

run-ledger_example :
    (ledger (run none (limited 9) calls fresh_account).1
      ≡ ledger fresh_account + (run none (limited 9) calls fresh_account).0)
    × All IsWithin (run none (limited 9) calls fresh_account).1.heap
run-ledger_example = run-ledger none (limited 9) calls fresh_account tt

consumed_run : (run none (limited 9) calls fresh_account).0 ≡ 3
unfolding run
consumed_run = refl

double_use-exceeds_example : (run none (limited 5) (double_use 5) fresh_account).1.spent ≡ 5 + 5
double_use-exceeds_example = double_use-exceeds 5 (omega arith)

abbrev worker_lease : Lease
worker_lease = record {
  lease_id = "lease-a";
  owner_id = "worker";
  scope = "project";
  resources = [];
  status = LeaseStatus.active;
  created_at = 0;
  updated_at = 0;
  expires_at = 1000;
  fencing_token = 1;
  metadata = [];
}

abbrev empty_db : BudgetDb
empty_db = record {
  leases = record { rows = ("lease-a", worker_lease) ∷ []; next_fencing_token = 2 };
  budgets = [];
  reservations = [];
}

empty_db-IsBalanced : IsBalanced empty_db
empty_db-IsBalanced = record {
  within = λ k r h. cc;
  funded = tt;
  conserved = λ n b h. cc;
  bounded = λ n b h. cc;
}

abbrev configured : BudgetDb
configured = play ((1, BudgetCall.configure_call "evaluations" (pos 10)) ∷ []) empty_db

configured-IsBalanced : IsBalanced configured
configured-IsBalanced =
    play-IsBalanced ((1, BudgetCall.configure_call "evaluations" (pos 10)) ∷ []) empty_db
      empty_db-IsBalanced

abbrev unlimited : AccountConfig
unlimited = record {
  budget = "evaluations";
  authority_budget = "evaluations";
  limit = none;
  account_id = "account";
}

abbrev opened : Account Shared
opened = record { spent = 0; claims = []; heap = []; shared = record { db = configured; turn = 0 } }

-- Another process reserves and consumes two units before each call of the authority.
abbrev busy : ℕ → Moment
busy turn = record {
  before =
      (5, BudgetCall.reserve_call (reserve_args "lease-a" 1 "other" "evaluations" 2 none))
      ∷ (6, BudgetCall.consume_call "other" (pos 1))
      ∷ [];
  now = 7 + turn;
  fresh = "fresh";
}

abbrev session : List ((ℕ → Moment) × AccountCall)
session = (busy, reserves "c-1" (pos 5) none) ∷ (busy, consumes 0 (pos 3)) ∷ []

serve-charged_example :
    (ledger (serve "lease-a" 1 unlimited session opened) + charged configured
      ≤ ledger opened + charged (serve "lease-a" 1 unlimited session opened).shared.db)
    × IsBalanced (serve "lease-a" 1 unlimited session opened).shared.db
serve-charged_example =
    serve-charged "lease-a" 1 unlimited session opened configured-IsBalanced tt tt

spent_and_charged :
    (ledger (serve "lease-a" 1 unlimited session opened) ≡ 3)
    × (charged (serve "lease-a" 1 unlimited session opened).shared.db ≡ 5)
unfolding serve step sqlite_authority is_current run_call configure ledger charged
spent_and_charged = (refl, refl)
