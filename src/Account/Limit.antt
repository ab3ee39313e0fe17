-- ===== src/Account/Limit.antt =====
-- The limit of an account of src/blackbase/resources/budget_account.py.
use blackbase.Prelude.{
  ℕ, ◌+◌, ◌<◌, ◌≡◌, ap, ◌∙◌, String, List, [], ◌∷◌, Dict, none, some, strip, is_empty, pos, arith,
}
use blackbase.Account.{
  Account, AccountConfig, BudgetClaim, ClaimStatus, active, completed, make_claim, reserve, consume,
  complete, remaining_limit, active_reserved, require_owned, require_active,
}
use blackbase.Account.History.{AccountCall, run, step, reserves, consumes, completes}

-- A new account with a limit and no shared authority.
abbrev pub limited : ℕ → AccountConfig
limited n = record {
  budget = "evaluations";
  authority_budget = "evaluations";
  limit = some n;
  account_id = "account";
}

abbrev pub fresh_account : Account (Unit {0})
fresh_account = record { spent = 0; claims = []; heap = []; shared = tt }

-- Two claims of the whole limit, the second made when the first is consumed and not yet completed.
abbrev pub double_use : ℕ → List AccountCall
double_use n =
    reserves "a" (pos n) none
    ∷ consumes 0 (pos n)
    ∷ reserves "b" (pos n) none
    ∷ consumes 1 (pos n)
    ∷ completes 0
    ∷ completes 1
    ∷ []

-- The claims and the accounts on the way.
abbrev claim_of : String → ℕ → ℕ → ClaimStatus → BudgetClaim
claim_of claim_id n consumed status = record {
  claim_id = claim_id;
  budget = "evaluations";
  amount = n;
  account_id = "account";
  shared = none;
  consumed = consumed;
  status = status;
}

abbrev account_at : ℕ → Dict ℕ → List BudgetClaim → Account (Unit {0})
account_at spent claims heap = record { spent = spent; claims = claims; heap = heap; shared = tt }

abbrev first_reserved : ℕ → Account (Unit {0})
first_reserved n = account_at 0 (("a", 0) ∷ []) (claim_of "a" n 0 active ∷ [])

abbrev first_consumed : ℕ → Account (Unit {0})
first_consumed n = account_at 0 (("a", 0) ∷ []) (claim_of "a" n n active ∷ [])

abbrev second_reserved : ℕ → Account (Unit {0})
second_reserved n =
    account_at 0 (("a", 0) ∷ ("b", 1) ∷ []) (claim_of "a" n n active ∷ claim_of "b" n 0 active ∷ [])

abbrev second_consumed : ℕ → Account (Unit {0})
second_consumed n =
    account_at 0 (("a", 0) ∷ ("b", 1) ∷ []) (claim_of "a" n n active ∷ claim_of "b" n n active ∷ [])

abbrev first_completed : ℕ → Account (Unit {0})
first_completed n =
    account_at n (("b", 1) ∷ []) (claim_of "a" n n completed ∷ claim_of "b" n n active ∷ [])

abbrev second_completed : ℕ → Account (Unit {0})
second_completed n =
    account_at (n + n) [] (claim_of "a" n n completed ∷ claim_of "b" n n completed ∷ [])

module _ (n : ℕ) (h : 0 < n) where
  reserve_first :
      step none (limited n) (reserves "a" (pos n) none) fresh_account ≡ (0, first_reserved n)
  unfolding step reserve remaining_limit active_reserved make_claim strip is_empty
  reserve_first = ground arith

  consume_first :
      step none (limited n) (consumes 0 (pos n)) (first_reserved n) ≡ (n, first_consumed n)
  unfolding step consume require_active require_owned
  consume_first = ground arith

  reserve_second :
      step none (limited n) (reserves "b" (pos n) none) (first_consumed n) ≡ (0, second_reserved n)
  unfolding step reserve remaining_limit active_reserved make_claim strip is_empty
  reserve_second = ground arith

  consume_second :
      step none (limited n) (consumes 1 (pos n)) (second_reserved n) ≡ (n, second_consumed n)
  unfolding step consume require_active require_owned
  consume_second = ground arith

  complete_first : step none (limited n) (completes 0) (second_consumed n) ≡ (0, first_completed n)
  unfolding step complete require_active require_owned
  complete_first = ground arith

  complete_second :
      step none (limited n) (completes 1) (first_completed n) ≡ (0, second_completed n)
  unfolding step complete require_active require_owned
  complete_second = ground arith

run-next :
    (cfg : AccountConfig) (call : AccountCall) (calls : List AccountCall) (w v : Account (Unit {0}))
    (k : ℕ)
    → step none cfg call w ≡ (k, v)
    → (run none cfg (call ∷ calls) w).1 ≡ (run none cfg calls v).1
unfolding run
run-next cfg call calls w v k h = ap (λ (x : ℕ × Account (Unit {0})). (run none cfg calls x.1).1) h

-- For every limit above zero: an account with that limit and no shared authority spends twice the limit,
-- when its whole limit is reserved and consumed, and again before the first claim is completed.
pub double_use-exceeds :
    (n : ℕ) → 0 < n → (run none (limited n) (double_use n) fresh_account).1.spent ≡ n + n
unfolding run
double_use-exceeds n h =
    ap (λ (w : Account (Unit {0})). w.spent)
      (run-next (limited n) (reserves "a" (pos n) none)
          (consumes 0 (pos n)
            ∷ reserves "b" (pos n) none
            ∷ consumes 1 (pos n)
            ∷ completes 0
            ∷ completes 1
            ∷ [])
          fresh_account (first_reserved n) 0 (reserve_first n h)
        ∙ run-next (limited n) (consumes 0 (pos n))
            (reserves "b" (pos n) none ∷ consumes 1 (pos n) ∷ completes 0 ∷ completes 1 ∷ [])
            (first_reserved n) (first_consumed n) n (consume_first n h)
        ∙ run-next (limited n) (reserves "b" (pos n) none)
            (consumes 1 (pos n) ∷ completes 0 ∷ completes 1 ∷ []) (first_consumed n)
            (second_reserved n) 0 (reserve_second n h)
        ∙ run-next (limited n) (consumes 1 (pos n)) (completes 0 ∷ completes 1 ∷ [])
            (second_reserved n) (second_consumed n) n (consume_second n h)
        ∙ run-next (limited n) (completes 0) (completes 1 ∷ []) (second_consumed n)
            (first_completed n) 0 (complete_first n h)
        ∙ run-next (limited n) (completes 1) ([]) (first_completed n) (second_completed n) 0
            (complete_second n h))
