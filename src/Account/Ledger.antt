-- ===== src/Account/Ledger.antt =====
-- The units that an account of src/blackbase/resources/budget_account.py has consumed, over runs of its calls.
use blackbase.Prelude.{
  ℕ, zero, suc, ◌+◌, ◌≤◌, ◌≡◌, refl, sym, ap, ◌∙◌, subst, inl, inr, Bool, true, false, ◌||◌, not,
  String, List, [], ◌∷◌, ◌++◌, Option, none, some, if◌then◌else◌, ltb, ◌==◌, length, get_elem?,
  values, str_eq, lookup, insert, All, All-append, Bool-cases, Option-cases, Result-cases, ok, err,
  raise_if, ◌>>=◌, ◌>>◌, >>=-ok, >>-ok, raise_if-ok, ok-injective, if-elim, ℤ, is_negative,
  pos_part, arith,
}
use blackbase.Budget.{Reservation}
use blackbase.Account.{
  Account, AccountConfig, Authority, BudgetClaim, ClaimStatus, is_active, is_completed, remaining,
  set_at, make_claim, allocated, new_claim, shared_reserve, claim_id_of, claimed, exceeds, or_fresh,
  reserve, require_owned, is_same, require_active, shared_consume, consume, shared_complete,
  shared_cancel, closed, complete, cancel, cancel_each, cancel_all, is_open_at, allowance,
  checked_limit, from_authority, active, completed, cancelled, negative_amount, not_a_claim,
  other_account, not_active, already_closed, exceeds_claim,
}

-- The units of a claim that the account has not yet added to `spent`.
abbrev pub open_consumed : BudgetClaim → ℕ
open_consumed c = if is_active c.status then c.consumed else 0

abbrev pub sum_open : List BudgetClaim → ℕ
sum_open [] = 0
sum_open (c ∷ heap) = open_consumed c + sum_open heap

-- The units consumed of all claims, closed or active.
unfoldable pub ledger : {S : Type 0} → Account S → ℕ
ledger w = w.spent + sum_open w.heap

-- A claim whose consumption stays within its amount.
abbrev pub IsWithin : BudgetClaim → Type 0
IsWithin c = c.consumed ≤ c.amount

sum_open-set_at :
    (i : ℕ) (x y : BudgetClaim) (heap : List BudgetClaim)
    → get_elem? heap i ≡ some y
    → sum_open (set_at i x heap) + open_consumed y ≡ sum_open heap + open_consumed x
sum_open-set_at i x y [] h = cc
sum_open-set_at zero x y (c ∷ heap) h =
    let e : some c ≡ some y = h in let e' : c ≡ y = cc in let k = ap open_consumed e' in omega arith
sum_open-set_at (suc i) x y (c ∷ heap) h = let k = sum_open-set_at i x y heap h in omega arith

module _ (Q : BudgetClaim → Type 0) where
  pub All-set_at :
      (i : ℕ) (x : BudgetClaim) (heap : List BudgetClaim)
      → All Q heap
      → Q x
      → All Q (set_at i x heap)
  All-set_at i x [] a p = tt
  All-set_at zero x (c ∷ heap) a p = (p, a.1)
  All-set_at (suc i) x (c ∷ heap) a p = (a.0, All-set_at i x heap a.1 p)

  pub All-get_elem? :
      (i : ℕ) (c : BudgetClaim) (heap : List BudgetClaim)
      → All Q heap
      → get_elem? heap i ≡ some c
      → Q c
  All-get_elem? i c [] a h = cc
  All-get_elem? zero c (d ∷ heap) a h =
      let e : some d ≡ some c = h in let e' : d ≡ c = cc in subst Q e' a.0
  All-get_elem? (suc i) c (d ∷ heap) a h = All-get_elem? i c heap a.1 h

sum_open-append :
    (xs : List BudgetClaim) (c : BudgetClaim)
    → sum_open (xs ++ (c ∷ [])) ≡ sum_open xs + open_consumed c
sum_open-append [] c = omega arith
sum_open-append (x ∷ xs) c = let k = sum_open-append xs c in omega arith

-- A second account has consumed so many units more than a first, and its claims are within their amounts.
abbrev pub Spends : {S : Type 0} → ℕ → Account S → Account S → Type 0
unfolding ledger
Spends n w v = (ledger v ≡ ledger w + n) × All IsWithin v.heap

-- `allowance` may change the authority's state, and nothing else.
pub allowance-same :
    {S : Type 0} (authority : Option (Authority S)) (cfg : AccountConfig) (requested : ℤ)
    (local_limit : Option ℤ) (w : Account S) (v : ℕ × Account S)
    → allowance authority cfg requested local_limit w ≡ ok v
    → (v.1.spent ≡ w.spent) × (v.1.heap ≡ w.heap)
unfolding allowance
allowance-same none cfg requested local_limit w v h =
    let (p, q) = >>-ok _ _ h in
    let (local, r, t) = >>=-ok (checked_limit local_limit) _ q in
    let e = sym (ok-injective t) in
    (ap (λ (x : ℕ × Account _). x.1.spent) e, ap (λ (x : ℕ × Account _). x.1.heap) e)
allowance-same (some au) cfg requested local_limit w v h =
    let (p, q) = >>-ok _ _ h in
    let (local, r, t) = >>=-ok (checked_limit local_limit) _ q in
    let ((n, s), d, d') =
      >>=-ok (from_authority (au.units_left cfg.authority_budget w.shared)) _ t in
    let e = sym (ok-injective d') in
    (ap (λ (x : ℕ × Account _). x.1.spent) e, ap (λ (x : ℕ × Account _). x.1.heap) e)

module _ {S : Type 0} (authority : Option (Authority S)) (cfg : AccountConfig) where
  require_owned-found :
      (a : ℕ) (w : Account S) {c : BudgetClaim}
      → require_owned authority cfg a w ≡ ok c
      → get_elem? w.heap a ≡ some c
  unfolding require_owned
  require_owned-found a w {c} h = elim (Option-cases (get_elem? w.heap a)) [
    | inl absent ↦ let e : err not_a_claim ≡ ok c = sym (rw (absent, require_owned) refl) ∙ h in cc
    | inr (d, here) ↦
        let e : (raise_if
                (not (str_eq d.account_id cfg.account_id) || not (str_eq d.budget cfg.budget))
                other_account
              >> ok d)
            ≡ ok c =
          sym (rw (here, require_owned) refl) ∙ h in
        let (p, q) = >>-ok _ _ e in here ∙ ap some (ok-injective q)
  ]

  pub require_active-found :
      (a : ℕ) (w : Account S) {c : BudgetClaim}
      → require_active authority cfg a w ≡ ok c
      → (get_elem? w.heap a ≡ some c) × (is_active c.status ≡ true)
  unfolding require_active
  require_active-found a w h =
      let (d, p, q) = >>=-ok (require_owned authority cfg a w) _ h in
      let (r, s) = >>-ok (raise_if (not (is_same (lookup d.claim_id w.claims) a)) not_active) _ q in
      let (t, u) = >>-ok (raise_if (not (is_active d.status)) already_closed) _ s in
      let same = ok-injective u in
      (
        require_owned-found a w p ∙ ap some same,
        subst (λ (c : BudgetClaim). is_active c.status ≡ true) same
            (let f = raise_if-ok (not (is_active d.status)) already_closed t in ground (arith, f)),
      )

  -- Writing a claim back with more units consumed.
  consumed-Spends :
      (a n : ℕ) (c : BudgetClaim) (r : Option Reservation) (s : S) (w : Account S)
      → All IsWithin w.heap
      → get_elem? w.heap a ≡ some c
      → is_active c.status ≡ true
      → ltb (remaining c) n ≡ false
      → Spends n w (record w {
        heap = set_at a (record c { shared = r; consumed = c.consumed + n }) w.heap;
        shared = s;
      })
  unfolding ledger
  consumed-Spends a n c r s w b at live few =
      let within = All-get_elem? IsWithin a c w.heap b at in
      let moved =
        sum_open-set_at a (record c { shared = r; consumed = c.consumed + n }) c w.heap at in
      (
        ground (arith, live, moved),
        All-set_at IsWithin a (record c { shared = r; consumed = c.consumed + n }) w.heap b
            (ground (arith, few, within)),
      )

  closed-Spends :
      (a : ℕ) (c : BudgetClaim) (r : Option Reservation) (st : ClaimStatus) (s : S) (w : Account S)
      → All IsWithin w.heap
      → get_elem? w.heap a ≡ some c
      → is_active c.status ≡ true
      → is_active st ≡ false
      → Spends 0 w (closed a (record c { shared = r; status = st }) w s)
  unfolding ledger
  closed-Spends a c r st s w b at live done =
      let moved = sum_open-set_at a (record c { shared = r; status = st }) c w.heap at in
      (
        ground (arith, live, done, moved),
        All-set_at IsWithin a (record c { shared = r; status = st }) w.heap b
            (All-get_elem? IsWithin a c w.heap b at),
      )

  pub consume-ledger :
      (a : ℕ) (amount : ℤ) (w v : Account S)
      → All IsWithin w.heap
      → consume authority cfg a amount w ≡ ok v
      → Spends (pos_part amount) w v
  unfolding consume ledger
  consume-ledger a amount w v b h = elim (Bool-cases (is_negative amount)) [
    | inl negative ↦ let e : err negative_amount ≡ ok v = sym (rw negative refl) ∙ h in cc
    | inr fine ↦ elim (Bool-cases (pos_part amount == 0)) [
      | inl nothing ↦
          let e : ok w ≡ ok v = sym (rw (fine, nothing) refl) ∙ h in
          let e' : w ≡ v = ok-injective e in
          subst (λ v. Spends (pos_part amount) w v) e' (ground arith, b)
      | inr positive ↦ used (sym (rw (fine, positive) refl) ∙ h)
    ]
  ]
    where
      used :
          (require_active authority cfg a w >>= λ c.
          raise_if (ltb (remaining c) (pos_part amount)) exceeds_claim
          >> (shared_consume authority c.shared (pos_part amount) w.shared >>= λ (r, s).
              ok (record w {
                heap =
                    set_at a
                      (record c { shared = r; consumed = c.consumed + pos_part amount })
                      w.heap;
                shared = s;
              })))
            ≡ ok v
          → Spends (pos_part amount) w v
      used h =
          let (c, p, q) = >>=-ok (require_active authority cfg a w) _ h in
          let (at, live) = require_active-found a w p in
          let (few, q') =
            >>-ok (raise_if (ltb (remaining c) (pos_part amount)) exceeds_claim) _ q in
          let few' = raise_if-ok (ltb (remaining c) (pos_part amount)) exceeds_claim few in
          let ((r, s), p', q'') =
            >>=-ok (shared_consume authority c.shared (pos_part amount) w.shared) _ q' in
          subst (λ v. Spends (pos_part amount) w v) (ok-injective q'')
            (consumed-Spends a (pos_part amount) c r s w b at live few')

  pub complete-ledger :
      (a : ℕ) (w v : Account S)
      → All IsWithin w.heap
      → complete authority cfg a w ≡ ok v
      → Spends 0 w v
  unfolding complete ledger
  complete-ledger a w v b h =
      let (c, p, q) = >>=-ok (require_owned authority cfg a w) _ h in
      if-elim (is_completed c.status) (ok w) _ q
        (λ done e. subst (λ v. Spends 0 w v) (ok-injective e) (omega arith, b))
        (λ undone e.
          let (current, p', q') = >>=-ok (require_active authority cfg a w) _ e in
          let (at, live) = require_active-found a w p' in
          let ((r, s), p'', q'') =
            >>=-ok (shared_complete authority current.shared current.consumed w.shared) _ q' in
          subst (λ v. Spends 0 w v) (ok-injective q'')
            (closed-Spends a current r completed s w b at live refl))

  pub cancel-ledger :
      (a : ℕ) (w : Account S) (v : Bool × Account S)
      → All IsWithin w.heap
      → cancel authority cfg a w ≡ ok v
      → Spends 0 w v.1
  unfolding cancel ledger
  cancel-ledger a w v b h =
      let (c, p, q) = >>=-ok (require_owned authority cfg a w) _ h in
      if-elim (not (is_active c.status)) (ok (false, w)) _ q
        (λ done e. subst (λ v. Spends 0 w v.1) (ok-injective e) (omega arith, b))
        (λ undone e.
          let (current, p', q') = >>=-ok (require_active authority cfg a w) _ e in
          let (at, live) = require_active-found a w p' in
          let (s, p'', q'') = >>=-ok (shared_cancel authority current.shared w.shared) _ q' in
          subst (λ v. Spends 0 w v.1) (ok-injective q'')
            (closed-Spends a current current.shared cancelled s w b at live refl))

  make_claim-consumed :
      (c : BudgetClaim) {made : BudgetClaim} → make_claim c ≡ ok made → made.consumed ≡ c.consumed
  unfolding make_claim
  make_claim-consumed c h =
      let (p, q) = >>-ok _ _ h in
      let (p', q') = >>-ok _ _ q in sym (ap (λ (d : BudgetClaim). d.consumed) (ok-injective q'))

  -- A new claim has consumed nothing.
  allocated-Spends :
      (c : BudgetClaim) (w : Account S) (keep : ℕ → Account S → Account S)
      → c.consumed ≡ 0
      → All IsWithin w.heap
      → ((a : ℕ) (v : Account S) → (ledger (keep a v) ≡ ledger v) × ((keep a v).heap ≡ v.heap))
      → Spends 0 w (allocated authority cfg c w keep).1
  unfolding ledger allocated
  allocated-Spends c w keep none_yet b kept = elim (Result-cases (make_claim c)) [
    | inr (e, bad) ↦ rw (bad, allocated) (omega arith, b)
    | inl (made, good) ↦
        let free : made.consumed ≡ 0 = make_claim-consumed c good ∙ none_yet in
        let more = sum_open-append w.heap made in
        let (units, heap) = kept (length w.heap) (record w { heap = w.heap ++ (made ∷ []) }) in
        rw (good, allocated)
          (
            units ∙ ground (arith, more, free),
            subst (All IsWithin) (sym heap)
                (All-append IsWithin w.heap (made ∷ []) b (omega arith, tt)),
          )
  ]

  claimed-Spends :
      (claim_id : String) (amount : ℕ) (r : Option Reservation) (w : Account S)
      → All IsWithin w.heap
      → Spends 0 w (claimed authority cfg claim_id amount r w).1
  unfolding ledger
  claimed-Spends claim_id amount r w b = elim (Option-cases (lookup claim_id w.claims)) [
    | inl new ↦
        rw (new, claimed)
          (allocated-Spends (new_claim authority cfg claim_id amount r active) w
            (λ a v. record v { claims = insert claim_id a v.claims }) refl b (λ a v. (refl, refl)))
    | inr (a, known) ↦ elim (Option-cases (get_elem? w.heap a)) [
      | inl absent ↦ rw (known, claimed) (rw absent (omega arith, b))
      | inr (c, here) ↦ elim (Bool-cases (c.amount == amount)) [
        | inl same ↦ rw (known, claimed) (rw (here, same) (omega arith, b))
        | inr other ↦ rw (known, claimed) (rw (here, other) (omega arith, b))
      ]
    ]
  ]

  pub reserve-ledger :
      (fresh : String) (amount : ℤ) (reservation_id : Option String) (w : Account S)
      → All IsWithin w.heap
      → Spends 0 w (reserve authority cfg fresh amount reservation_id w).1
  unfolding reserve ledger
  reserve-ledger fresh amount reservation_id w b = elim (Bool-cases (is_negative amount)) [
    | inl negative ↦ rw (negative, reserve) (omega arith, b)
    | inr fine ↦ elim (Bool-cases (exceeds authority cfg (pos_part amount) w)) [
      | inl over ↦ rw (fine, over, reserve) (omega arith, b)
      | inr fits ↦ elim (Bool-cases (pos_part amount == 0)) [
        | inl nothing ↦
            rw (fine, fits, nothing, reserve)
              (allocated-Spends
                (new_claim authority cfg (or_fresh reservation_id fresh) 0 none completed) w
                (λ a v. v) refl b (λ a v. (refl, refl)))
        | inr some_units ↦
            elim (Result-cases
              (shared_reserve authority cfg authority (pos_part amount) reservation_id w.shared)) [
                | inr (e, bad) ↦ rw (fine, fits, some_units, reserve) (rw bad (omega arith, b))
                | inl ((r, s), good) ↦
                    rw (fine, fits, some_units, reserve)
                      (rw good (
                        claimed-Spends (claim_id_of authority cfg r reservation_id fresh)
                          (pos_part amount) r (record w { shared = s }) b))
              ]
      ]
    ]
  ]

  cancel_each-Spends :
      (addresses : List ℕ) (w : Account S)
      → All IsWithin w.heap
      → Spends 0 w (cancel_each authority cfg addresses w).1
  unfolding ledger cancel_each
  cancel_each-Spends [] w b = (omega arith, b)
  cancel_each-Spends (a ∷ addresses) w b = elim (Bool-cases (is_open_at w.heap a)) [
    | inr shut ↦ rw shut (cancel_each-Spends addresses w b)
    | inl live ↦ elim (Result-cases (cancel authority cfg a w)) [
      | inr (e, bad) ↦ rw live (rw bad (omega arith, b))
      | inl ((d, v), good) ↦
          let (same, within) = cancel-ledger a w (d, v) b good in
          let (rest, last) = cancel_each-Spends addresses v within in
          rw live (rw good (omega arith, last))
    ]
  ]

  pub cancel_all-ledger :
      (w : Account S) → All IsWithin w.heap → Spends 0 w (cancel_all authority cfg w).1
  unfolding ledger cancel_all
  cancel_all-ledger w b = cancel_each-Spends (values w.claims) w b

  pub allowance-ledger :
      (requested : ℤ) (local_limit : Option ℤ) (w : Account S) (v : ℕ × Account S)
      → All IsWithin w.heap
      → allowance authority cfg requested local_limit w ≡ ok v
      → Spends 0 w v.1
  unfolding ledger
  allowance-ledger requested local_limit w v b h =
      let (units, heap) = allowance-same authority cfg requested local_limit w v h in
      (rw (units, heap) (omega arith), subst (All IsWithin) (sym heap) b)
