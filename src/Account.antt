-- ===== src/Account.antt =====
-- `BudgetAccount` and `BudgetClaim` of src/blackbase/resources/budget_account.py. A claim is an object that the
-- caller and the account share: claims stand in a heap, and an address is the object's identity. The
-- shared authority is a parameter, with its own state; `Account.Shared` fills it from `Budget`.
pub mod Ledger
pub mod History
pub mod Limit
pub mod Kept
pub mod Attached
pub mod Shared
mod Tests
use blackbase.Prelude.{
  ℕ, zero, suc, ◌+◌, ◌-◌, ◌≤◌, Bool, true, false, ◌&&◌, ◌||◌, not, String, List, [], ◌∷◌, ◌++◌,
  Option, none, some, if◌then◌else◌, ltb, ◌==◌, str_eq, is_empty, strip, length, get_elem?, min,
  Dict, lookup, insert, erase, values, Result, ok, err, raise_if, ◌>>=◌, ◌>>◌, ℤ, is_negative,
  pos_part,
}
use blackbase.Budget.{Reservation, BudgetError}

pub data AccountError : Type 0 where
  no_budget negative_limit no_lease no_fencing_token : AccountError
  negative_amount exceeds_handle other_amount exceeds_claim detached no_claim_id : AccountError
  not_a_claim other_account not_active already_closed : AccountError
  authority_error : BudgetError → AccountError

pub data ClaimStatus : Type 0 where
  active completed cancelled : ClaimStatus

abbrev pub is_active : ClaimStatus → Bool
is_active active = true
is_active completed = false
is_active cancelled = false

abbrev pub is_completed : ClaimStatus → Bool
is_completed active = false
is_completed completed = true
is_completed cancelled = false

pub record BudgetClaim : Type 0 where
  pub claim_id : String
  pub budget : String
  pub amount : ℕ
  pub account_id : String
  pub shared : Option Reservation
  pub consumed : ℕ
  pub status : ClaimStatus

-- `BudgetClaim.remaining`.
abbrev pub remaining : BudgetClaim → ℕ
remaining c = c.amount - c.consumed

-- What the account calls of a budget authority.
pub record Authority (S : Type 0) : Type 0 where
  pub reserve : String → ℕ → Option String → S → Result BudgetError (Reservation × S)
  pub consume : Reservation → ℕ → S → Result BudgetError (Reservation × S)
  pub complete : Reservation → ℕ → S → Result BudgetError (Reservation × S)
  pub cancel : Reservation → S → Result BudgetError S
  pub units_left : String → S → Result BudgetError (ℕ × S)

-- What `BudgetAccount.__init__` fixes.
pub record AccountConfig : Type 0 where
  pub budget : String
  pub authority_budget : String
  pub limit : Option ℕ
  pub account_id : String

-- What changes: `_spent`, `_claims` with the claims' addresses, the claims, and the authority's state.
pub record Account (S : Type 0) : Type 0 where
  pub spent : ℕ
  pub claims : Dict ℕ
  pub heap : List BudgetClaim
  pub shared : S

abbrev pub set_at {ℓ} : {A : Type ℓ} → ℕ → A → List A → List A
set_at i x [] = []
set_at zero x (y ∷ ys) = x ∷ ys
set_at (suc i) x (y ∷ ys) = y ∷ set_at i x ys

abbrev pub checked_limit : Option ℤ → Result AccountError (Option ℕ)
checked_limit none = ok none
checked_limit (some i) = raise_if (is_negative i) negative_limit >> ok (some (pos_part i))

-- `BudgetAccount.__init__`: whether it is shared, its lease and its token are what the authority is opened with.
unfoldable pub make_account :
    String → String → Bool → String → ℤ → Option ℤ → String → Result AccountError AccountConfig
unfolding strip is_empty
make_account budget authority_budget is_shared lease_id fencing_token limit account_id = do
  raise_if (is_empty (strip budget)) no_budget
  limit' ← checked_limit limit
  raise_if (is_shared && is_empty lease_id) no_lease
  raise_if (is_shared && pos_part fencing_token == 0) no_fencing_token
  ok (record {
    budget = strip budget;
    authority_budget = strip (if is_empty authority_budget then strip budget else authority_budget);
    limit = limit';
    account_id = account_id;
  })

-- `BudgetClaim.__post_init__` on the claims that the account makes.
unfoldable pub make_claim : BudgetClaim → Result AccountError BudgetClaim
unfolding strip is_empty
make_claim c = do
  raise_if (is_empty (strip c.claim_id)) no_claim_id
  raise_if (is_empty (strip c.budget)) no_budget
  ok (record c { claim_id = strip c.claim_id; budget = strip c.budget })

abbrev pub from_authority : {A : Type 0} → Result BudgetError A → Result AccountError A
from_authority (ok a) = ok a
from_authority (err e) = err (authority_error e)

-- `reservation_id or ...`.
abbrev or_fresh : Option String → String → String
unfolding is_empty
or_fresh none fresh = fresh
or_fresh (some s) fresh = if is_empty s then fresh else s

abbrev open_units : Option BudgetClaim → ℕ
open_units none = 0
open_units (some c) = if is_active c.status then remaining c else 0

abbrev pub units_of : List BudgetClaim → List ℕ → ℕ
units_of heap [] = 0
units_of heap (a ∷ addresses) = open_units (get_elem? heap a) + units_of heap addresses

-- `active_reserved`.
unfoldable pub active_reserved : {S : Type 0} → Account S → ℕ
active_reserved w = units_of w.heap (values w.claims)

-- `sum(1 for claim in self._claims.values() if claim.active)`.
abbrev pub is_open_at : List BudgetClaim → ℕ → Bool
is_open_at heap a = elim (get_elem? heap a) [ none ↦ false | some c ↦ is_active c.status ]

unfoldable pub active_claim_count : {S : Type 0} → Account S → ℕ
active_claim_count w = counted w.heap (values w.claims)
  where
    counted : List BudgetClaim → List ℕ → ℕ
    counted heap [] = 0
    counted heap (a ∷ rest) = (if is_open_at heap a then 1 else 0) + counted heap rest

abbrev pub is_same : Option ℕ → ℕ → Bool
is_same none a = false
is_same (some b) a = b == a

-- The calls of the authority for a claim, and the writes that close one.
module _ {S : Type 0} where
  abbrev pub shared_consume :
      Option (Authority S)
      → Option Reservation
      → ℕ
      → S
      → Result AccountError (Option Reservation × S)
  shared_consume au none delta s = ok (none, s)
  shared_consume none (some r) delta s = err detached
  shared_consume (some au) (some r) delta s =
      from_authority (au.consume r delta s) >>= λ (r', s'). ok (some r', s')

  abbrev pub shared_complete :
      Option (Authority S)
      → Option Reservation
      → ℕ
      → S
      → Result AccountError (Option Reservation × S)
  shared_complete au none count s = ok (none, s)
  shared_complete none (some r) count s = err detached
  shared_complete (some au) (some r) count s =
      from_authority (au.complete r count s) >>= λ (r', s'). ok (some r', s')

  abbrev pub shared_cancel : Option (Authority S) → Option Reservation → S → Result AccountError S
  shared_cancel au none s = ok s
  shared_cancel none (some r) s = err detached
  shared_cancel (some au) (some r) s = from_authority (au.cancel r s)

  -- The writes that close a claim.
  abbrev pub closed : ℕ → BudgetClaim → Account S → S → Account S
  closed a c w s = record {
    spent = w.spent + c.consumed;
    claims = erase c.claim_id w.claims;
    heap = set_at a c w.heap;
    shared = s;
  }

module _ {S : Type 0} (authority : Option (Authority S)) (cfg : AccountConfig) where
  unfoldable pub remaining_limit : Account S → Option ℕ
  unfolding active_reserved
  remaining_limit w = elim cfg.limit [
    | none ↦ none
    | some n ↦ some (n - w.spent - active_reserved w)
  ]

  abbrev exceeds : ℕ → Account S → Bool
  unfolding remaining_limit
  exceeds amount w = elim (remaining_limit w) [ none ↦ false | some n ↦ ltb n amount ]

  -- A new claim object. What `__post_init__` raises leaves the account as it was.
  abbrev allocated :
      BudgetClaim → Account S → (ℕ → Account S → Account S) → Result AccountError ℕ × Account S
  unfolding make_claim
  allocated c w keep = elim (make_claim c) [
    | err e ↦ (err e, w)
    | ok made ↦
        (ok (length w.heap), keep (length w.heap) (record w { heap = w.heap ++ (made ∷ []) }))
  ]

  abbrev new_claim : String → ℕ → Option Reservation → ClaimStatus → BudgetClaim
  new_claim claim_id amount shared status = record {
    claim_id = claim_id;
    budget = cfg.budget;
    amount = amount;
    account_id = cfg.account_id;
    shared = shared;
    consumed = 0;
    status = status;
  }

  -- The call of the authority's `reserve`, where there is one.
  abbrev shared_reserve :
      Option (Authority S) → ℕ → Option String → S → Result AccountError (Option Reservation × S)
  shared_reserve none amount reservation_id s = ok (none, s)
  shared_reserve (some au) amount reservation_id s =
      from_authority (au.reserve cfg.authority_budget amount reservation_id s) >>= λ (r, s').
      ok (some r, s')

  abbrev claim_id_of : Option Reservation → Option String → String → String
  claim_id_of (some r) reservation_id fresh = r.reservation_id
  claim_id_of none reservation_id fresh = or_fresh reservation_id fresh

  -- The claim of an id: the one that the account has, or a new one.
  abbrev claimed : String → ℕ → Option Reservation → Account S → Result AccountError ℕ × Account S
  claimed claim_id amount shared w = elim (lookup claim_id w.claims) [
    | none ↦
        allocated (new_claim claim_id amount shared active) w
          (λ a v. record v { claims = insert claim_id a v.claims })
    | some a ↦ elim (get_elem? w.heap a) [
      | none ↦ (err not_a_claim, w)
      | some c ↦ if c.amount == amount then (ok a, w) else (err other_amount, w)
    ]
  ]

  -- `reserve`, with the id that `uuid4` would give. What the authority has granted stays granted when
  -- the account then raises, so the state is returned with errors too.
  unfoldable pub reserve :
      String → ℤ → Option String → Account S → Result AccountError ℕ × Account S
  unfolding remaining_limit make_claim
  reserve fresh amount reservation_id w =
      if is_negative amount
      then (err negative_amount, w)
      else if exceeds (pos_part amount) w
      then (err exceeds_handle, w)
      else if pos_part amount == 0
      then allocated (new_claim (or_fresh reservation_id fresh) 0 none completed) w (λ a v. v)
      else (elim (shared_reserve authority (pos_part amount) reservation_id w.shared) [
        | err e ↦ (err e, w)
        | ok (r, s) ↦
            claimed (claim_id_of r reservation_id fresh) (pos_part amount) r
              (record w { shared = s })
      ])

  -- `_require_owned`.
  unfoldable pub require_owned : ℕ → Account S → Result AccountError BudgetClaim
  require_owned a w = elim (get_elem? w.heap a) [
    | none ↦ err not_a_claim
    | some c ↦
        raise_if (not (str_eq c.account_id cfg.account_id) || not (str_eq c.budget cfg.budget))
          other_account
        >> ok c
  ]

  -- `_require_active`.
  unfoldable pub require_active : ℕ → Account S → Result AccountError BudgetClaim
  unfolding require_owned
  require_active a w = do
    c ← require_owned a w
    raise_if (not (is_same (lookup c.claim_id w.claims) a)) not_active
    raise_if (not (is_active c.status)) already_closed
    ok c

  -- `consume`.
  unfoldable pub consume : ℕ → ℤ → Account S → Result AccountError (Account S)
  unfolding require_active
  consume a amount w =
      if is_negative amount then err negative_amount else if pos_part amount == 0 then ok w else do
        c ← require_active a w
        raise_if (ltb (remaining c) (pos_part amount)) exceeds_claim
        (r, s) ← shared_consume authority c.shared (pos_part amount) w.shared
        ok (record w {
          heap = set_at a (record c { shared = r; consumed = c.consumed + pos_part amount }) w.heap;
          shared = s;
        })

  -- `complete`.
  unfoldable pub complete : ℕ → Account S → Result AccountError (Account S)
  unfolding require_owned require_active
  complete a w = require_owned a w >>= λ c. if is_completed c.status then ok w else do
    current ← require_active a w
    (r, s) ← shared_complete authority current.shared current.consumed w.shared
    ok (closed a (record current { shared = r; status = completed }) w s)

  -- `cancel`.
  unfoldable pub cancel : ℕ → Account S → Result AccountError (Bool × Account S)
  unfolding require_owned require_active
  cancel a w = require_owned a w >>= λ c. if not (is_active c.status) then ok (false, w) else do
    current ← require_active a w
    s ← shared_cancel authority current.shared w.shared
    ok (true, closed a (record current { status = cancelled }) w s)

  abbrev pub cancel_each : List ℕ → Account S → Result AccountError (Unit {0}) × Account S
  unfolding cancel
  cancel_each [] w = (ok tt, w)
  cancel_each (a ∷ addresses) w =
      let rest = cancel_each addresses w in
      if not (is_open_at w.heap a)
      then rest
      else elim (cancel a w) [ err e ↦ (err e, w) | ok (done, v) ↦ cancel_each addresses v ]

  -- `cancel_all`: what it raises leaves the claims cancelled before it so.
  unfoldable pub cancel_all : Account S → Result AccountError (Unit {0}) × Account S
  unfolding cancel
  cancel_all w = cancel_each (values w.claims) w

  -- `allowance`.
  unfoldable pub allowance : ℤ → Option ℤ → Account S → Result AccountError (ℕ × Account S)
  unfolding remaining_limit
  allowance requested local_limit w = do
    raise_if (is_negative requested) negative_amount
    local ← checked_limit local_limit
    let allowed = capped (remaining_limit w) (capped local (pos_part requested))
    elim authority [
      | none ↦ ok (allowed, w)
      | some au ↦ from_authority (au.units_left cfg.authority_budget w.shared) >>= λ (n, s).
          ok (min allowed n, record w { shared = s })
    ]
    where
      capped : Option ℕ → ℕ → ℕ
      capped none n = n
      capped (some limit) n = min n limit
