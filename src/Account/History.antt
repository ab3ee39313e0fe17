-- ===== src/Account/History.antt =====
-- Runs of the calls of an account of src/blackbase/resources/budget_account.py.
use blackbase.Prelude.{
  ℕ, ◌+◌, ◌≡◌, inl, inr, String, List, [], ◌∷◌, Option, All, Result, ok, err, Result-cases, ℤ,
  pos_part, arith,
}
use blackbase.Account.{
  Account, AccountConfig, AccountError, Authority, reserve, consume, complete, cancel, cancel_all,
  allowance,
}
use blackbase.Account.Ledger.{
  ledger, IsWithin, Spends, reserve-ledger, consume-ledger, complete-ledger, cancel-ledger,
  cancel_all-ledger, allowance-ledger,
}

pub data AccountCall : Type 0 where
  reserves : String → ℤ → Option String → AccountCall
  consumes : ℕ → ℤ → AccountCall
  completes cancels : ℕ → AccountCall
  cancels_all : AccountCall
  allows : ℤ → Option ℤ → AccountCall

-- The units that a call consumed, and the account after it: a call that raises leaves the account as it was,
-- but for what `reserve` returns.
abbrev pub consumed_step :
    {S : Type 0} → Account S → ℕ → Result AccountError (Account S) → ℕ × Account S
consumed_step w n (ok v) = (n, v)
consumed_step w n (err e) = (0, w)

abbrev pub answered_step :
    {S A : Type 0} → Account S → Result AccountError (A × Account S) → ℕ × Account S
answered_step w (ok (answer, v)) = (0, v)
answered_step w (err e) = (0, w)

module _ {S : Type 0} (authority : Option (Authority S)) (cfg : AccountConfig) where
  unfoldable pub step : AccountCall → Account S → ℕ × Account S
  unfolding reserve consume complete cancel cancel_all allowance
  step (reserves fresh amount reservation_id) w =
      (0, (reserve authority cfg fresh amount reservation_id w).1)
  step (consumes a amount) w = consumed_step w (pos_part amount) (consume authority cfg a amount w)
  step (completes a) w = consumed_step w 0 (complete authority cfg a w)
  step (cancels a) w = answered_step w (cancel authority cfg a w)
  step cancels_all w = (0, (cancel_all authority cfg w).1)
  step (allows requested local) w = answered_step w (allowance authority cfg requested local w)

  -- The units that the calls consumed, and the account after them.
  unfoldable pub run : List AccountCall → Account S → ℕ × Account S
  unfolding step
  run [] w = (0, w)
  run (call ∷ calls) w =
      ((step call w).0 + (run calls (step call w).1).0, (run calls (step call w).1).1)

  pub step-Spends :
      (call : AccountCall) (w : Account S)
      → All IsWithin w.heap
      → Spends (step call w).0 w (step call w).1
  unfolding step ledger
  step-Spends (reserves fresh amount reservation_id) w b =
      reserve-ledger authority cfg fresh amount reservation_id w b
  step-Spends (consumes a amount) w b = elim (Result-cases (consume authority cfg a amount w)) [
    | inl (v, done) ↦ rw done (consume-ledger authority cfg a amount w v b done)
    | inr (e, bad) ↦ rw bad (omega arith, b)
  ]
  step-Spends (completes a) w b = elim (Result-cases (complete authority cfg a w)) [
    | inl (v, done) ↦ rw done (complete-ledger authority cfg a w v b done)
    | inr (e, bad) ↦ rw bad (omega arith, b)
  ]
  step-Spends (cancels a) w b = elim (Result-cases (cancel authority cfg a w)) [
    | inl ((d, v), done) ↦ rw done (cancel-ledger authority cfg a w (d, v) b done)
    | inr (e, bad) ↦ rw bad (omega arith, b)
  ]
  step-Spends cancels_all w b = cancel_all-ledger authority cfg w b
  step-Spends (allows requested local) w b =
      elim (Result-cases (allowance authority cfg requested local w)) [
        | inl ((n, v), done) ↦
            rw done (allowance-ledger authority cfg requested local w (n, v) b done)
        | inr (e, bad) ↦ rw bad (omega arith, b)
      ]

  -- Whatever the authority does and whatever the calls of an account: the units that it has
  -- spent, with those consumed of the claims still active, grow by exactly the units of the calls of `consume`
  -- that returned, and no claim has consumed more than its amount.
  pub run-ledger :
      (calls : List AccountCall) (w : Account S)
      → All IsWithin w.heap
      → (ledger (run calls w).1 ≡ ledger w + (run calls w).0) × All IsWithin (run calls w).1.heap
  unfolding run ledger
  run-ledger [] w b = (omega arith, b)
  run-ledger (call ∷ calls) w b =
      let (units, within) = step-Spends call w b in
      let (rest, last) = run-ledger calls (step call w).1 within in (omega arith, last)
