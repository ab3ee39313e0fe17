-- ===== src/Account/Shared.antt =====
-- Accounts of src/blackbase/resources/budget_account.py over `SQLiteBudgetAuthority` of
-- src/blackbase/resources/budget.py, whose database other processes write too.
use blackbase.Prelude.{
  ℕ, suc, Bool, ◌+◌, ◌≤◌, ◌≡◌, ap, ◌∙◌, String, List, [], ◌∷◌, Option, some, All, Result, ok, subst,
  ◌>>=◌, >>=-ok, ok-injective, pos, arith,
}
use blackbase.Budget.{Reservation, BudgetDb, BudgetError, Snapshot, status_of}
use blackbase.Budget as Budget
use blackbase.Budget.Operations.{ReserveArgs}
use blackbase.Budget.Operations as Operations
use blackbase.Budget.Ledger.{IsBalanced}
use blackbase.Budget.History.{BudgetCall, run_call, play, play-IsBalanced, run_call-IsBalanced}
use blackbase.Budget.Charged.{charged, consume-charged, run_call-charged, play-charged}
use blackbase.Account.{Account, AccountConfig, Authority}
use blackbase.Account.Ledger.{ledger, IsWithin}
use blackbase.Account.Kept.{Keeps}
use blackbase.Account.Attached.{IsAttached, Charges, step-charges}
use blackbase.Account.History.{AccountCall, step, step-Spends}

-- What a call of the authority meets: the calls of other processes and the writes of the lease authority
-- since the one before it, its reading of the clock, and the id that `uuid4` gives.
pub record Moment : Type 0 where
  pub before : List (ℕ × BudgetCall)
  pub now : ℕ
  pub fresh : String

-- The database, and how many calls of the authority have returned since the account was called.
pub record Shared : Type 0 where
  pub db : BudgetDb
  pub turn : ℕ

abbrev pub reserve_args : String → ℕ → String → String → ℕ → Option String → ReserveArgs
reserve_args lease_id fencing_token fresh budget amount i = record {
  budget = budget;
  amount = pos amount;
  lease_id = lease_id;
  fencing_token = fencing_token;
  reservation_id = i;
  fresh = fresh;
}

-- A call of the authority in its turn.
abbrev pub in_turn :
    {A : Type 0}
    → (ℕ → Moment)
    → (Moment → BudgetDb → Result BudgetError (A × BudgetDb))
    → Shared
    → Result BudgetError (A × Shared)
in_turn moments call s = call (moments s.turn) (play (moments s.turn).before s.db) >>= λ (a, db).
    ok (a, record { db = db; turn = suc s.turn })

abbrev reserving :
    String
    → ℕ
    → String
    → ℕ
    → Option String
    → Moment
    → BudgetDb
    → Result BudgetError (Reservation × BudgetDb)
unfolding Operations.reserve
reserving lease_id fencing_token budget amount i at db =
    Operations.reserve (reserve_args lease_id fencing_token at.fresh budget amount i) at.now db

abbrev consuming : String → ℕ → Moment → BudgetDb → Result BudgetError (Reservation × BudgetDb)
unfolding Operations.consume
consuming i n at db = Operations.consume i (pos n) at.now db

abbrev completing : String → ℕ → Moment → BudgetDb → Result BudgetError (Reservation × BudgetDb)
unfolding Operations.complete
completing i n at db = Operations.complete i (pos n) at.now db

abbrev cancelling : String → Moment → BudgetDb → Result BudgetError (Bool × BudgetDb)
unfolding Operations.cancel
cancelling i at db = Operations.cancel i at.now db

abbrev viewing : String → Moment → BudgetDb → Result BudgetError (Snapshot × BudgetDb)
unfolding status_of
viewing budget at db = status_of budget at.now db

-- The database as an authority for one lease. An error ends the account's call, so only calls that
-- return take a turn.
unfoldable pub sqlite_authority : String → ℕ → (ℕ → Moment) → Authority Shared
unfolding reserving consuming completing cancelling viewing
sqlite_authority lease_id fencing_token moments = record {
  reserve = λ budget amount i. in_turn moments (reserving lease_id fencing_token budget amount i);
  consume = λ r n. in_turn moments (consuming r.reservation_id n);
  complete = λ r n. in_turn moments (completing r.reservation_id n);
  cancel = λ r s. in_turn moments (cancelling r.reservation_id) s >>= λ (d, t). ok t;
  units_left = λ budget s.
      in_turn moments (viewing budget) s >>= λ (snapshot, t). ok (Budget.remaining snapshot, t);
}

-- A call of the authority that returned, as a call of a history.
returned :
    {A : Type 0} (x : Result BudgetError (A × BudgetDb)) {a : A} {t : BudgetDb}
    → x ≡ ok (a, t)
    → Path (Result BudgetError BudgetDb) (x >>= λ p. ok p.1) (ok t)
returned x h = ap (λ (y : Result BudgetError (_ × BudgetDb)). y >>= λ p. ok p.1) h

-- A balanced database that has been charged at least so much.
abbrev Holds : ℕ → Shared → Type 0
Holds k s = IsBalanced s.db × (k ≤ charged s.db)

-- A call in its turn, by what the call does on the database that the others left.
in_turn-db :
    {A : Type 0} (moments : ℕ → Moment)
    (call : Moment → BudgetDb → Result BudgetError (A × BudgetDb)) (s : Shared) {a : A} {t : Shared}
    → in_turn moments call s ≡ ok (a, t)
    → call (moments s.turn) (play (moments s.turn).before s.db) ≡ ok (a, t.db)
in_turn-db moments call s h =
    let ((b, db), q, q') = >>=-ok (call (moments s.turn) (play (moments s.turn).before s.db)) _ h in
    let same = ok-injective q' in q ∙ ap (λ (p : _ × Shared). ok (p.0, p.1.db)) same

module _ (moments : ℕ → Moment) (k : ℕ) (s : Shared) (p : Holds k s) where
  others_db : BudgetDb
  others_db = play (moments s.turn).before s.db

  others-Holds : Holds k (record s { db = others_db })
  unfolding others_db
  others-Holds = (
    play-IsBalanced (moments s.turn).before s.db p.0,
    omega (arith, p.1, play-charged (moments s.turn).before s.db),
  )

  call-Holds :
      (c : BudgetCall) (now : ℕ) (t : Shared) → run_call c now others_db ≡ ok t.db → Holds k t
  call-Holds c now t h =
      let (b, n) = others-Holds in
      (
        run_call-IsBalanced c now others_db b h,
        omega (arith, n, run_call-charged c now others_db h),
      )

sqlite_authority-Keeps :
    (lease_id : String) (fencing_token : ℕ) (moments : ℕ → Moment) (k : ℕ)
    → Keeps
        (λ s. IsBalanced s.db × (k ≤ charged s.db))
        (sqlite_authority lease_id fencing_token moments)
unfolding sqlite_authority run_call others_db reserving consuming completing cancelling viewing
sqlite_authority-Keeps lease_id fencing_token moments k = record {
  reserve = λ budget amount i s r t p h.
      let at = moments s.turn in
      let a = reserve_args lease_id fencing_token at.fresh budget amount i in
      call-Holds moments k s p (BudgetCall.reserve_call a) at.now t
        (returned _ (in_turn-db moments (reserving lease_id fencing_token budget amount i) s h));
  consume = λ r n s r' t p h.
      call-Holds moments k s p (BudgetCall.consume_call r.reservation_id (pos n))
        (moments s.turn).now t (returned _ (in_turn-db moments (consuming r.reservation_id n) s h));
  complete = λ r n s r' t p h.
      call-Holds moments k s p (BudgetCall.complete_call r.reservation_id (pos n))
        (moments s.turn).now t
        (returned _ (in_turn-db moments (completing r.reservation_id n) s h));
  cancel = λ r s t p h.
      let ((d, t'), q, q') = >>=-ok (in_turn moments (cancelling r.reservation_id) s) _ h in
      subst (λ s. IsBalanced s.db × (k ≤ charged s.db)) (ok-injective q')
        (call-Holds moments k s p (BudgetCall.cancel_call r.reservation_id) (moments s.turn).now t'
          (returned _ (in_turn-db moments (cancelling r.reservation_id) s q)));
  units_left = λ budget s n t p h.
      let ((snapshot, t'), q, q') = >>=-ok (in_turn moments (viewing budget) s) _ h in
      subst (λ s. IsBalanced s.db × (k ≤ charged s.db))
        (ap (λ (x : ℕ × Shared). x.1) (ok-injective q'))
        (call-Holds moments k s p (BudgetCall.status_call budget) (moments s.turn).now t'
          (returned _ (in_turn-db moments (viewing budget) s q)));
}

sqlite_authority-Charges :
    (lease_id : String) (fencing_token : ℕ) (moments : ℕ → Moment)
    → Charges
        (λ s. IsBalanced s.db)
        (λ s. charged s.db)
        (sqlite_authority lease_id fencing_token moments)
unfolding sqlite_authority run_call consuming
sqlite_authority-Charges lease_id fencing_token moments = record {
  never_falls = λ k. sqlite_authority-Keeps lease_id fencing_token moments k;
  raised = λ r n s r' t b h.
      let at = moments s.turn in
      let db = play at.before s.db in
      let q = in_turn-db moments (consuming r.reservation_id n) s h in
      let more = consume-charged r.reservation_id n at.now db q in
      let others = play-charged at.before s.db in
      (
        run_call-IsBalanced (BudgetCall.consume_call r.reservation_id (pos n)) at.now db
            (play-IsBalanced at.before s.db b) (returned _ q),
        omega (arith, more, others),
      );
}

-- An account before its next call.
abbrev pub at_start : Account Shared → Account Shared
at_start w = record w { shared = record { db = w.shared.db; turn = 0 } }

module _ (lease_id : String) (fencing_token : ℕ) (cfg : AccountConfig) where
  -- The calls of an account, each with the moments at which it calls the authority.
  unfoldable pub serve : List ((ℕ → Moment) × AccountCall) → Account Shared → Account Shared
  unfolding step sqlite_authority
  serve [] w = w
  serve ((moments, call) ∷ calls) w =
      serve calls
        ((step (some (sqlite_authority lease_id fencing_token moments)) cfg call (at_start w)).1)

  -- Over a balanced database, which other processes and the lease authority write in any way that its calls
  -- allow between the calls of an account, at any times: what the account has spent, with what its active claims
  -- have consumed, grows by no more than the units charged to reservations of the database, and the database
  -- stays balanced. The account starts with claims within their amounts, of which each active one has a
  -- reservation.
  pub serve-charged :
      (calls : List ((ℕ → Moment) × AccountCall)) (w : Account Shared)
      → IsBalanced w.shared.db
      → All IsWithin w.heap
      → All IsAttached w.heap
      → (ledger (serve calls w) + charged w.shared.db
          ≤ ledger w + charged (serve calls w).shared.db)
        × IsBalanced (serve calls w).shared.db
  unfolding serve ledger
  serve-charged [] w b i a = (omega arith, b)
  serve-charged ((moments, call) ∷ calls) w b i a =
      let authority = sqlite_authority lease_id fencing_token moments in
      let next = (step (some authority) cfg call (at_start w)).1 in
      let (spent, within) = step-Spends (some authority) cfg call (at_start w) i in
      let (attached, balanced, more) =
        step-charges (λ s. IsBalanced s.db) (λ s. charged s.db) authority
          (sqlite_authority-Charges lease_id fencing_token moments) cfg call (at_start w) b a in
      let (rest, last) = serve-charged calls next balanced within attached in
      (omega (arith, spent, more, rest), last)
