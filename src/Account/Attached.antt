-- ===== src/Account/Attached.antt =====
-- Every unit that an account of src/blackbase/resources/budget_account.py consumes is one that its authority
-- charges: the claims that are active are attached to a reservation.
use blackbase.Prelude.{
  ℕ, ◌+◌, ◌≤◌, ◌≡◌, refl, sym, ap, subst, inl, inr, Bool, true, false, not, String, List, [], ◌∷◌,
  ◌++◌, Option, none, some, lookup, insert, length, get_elem?, values, ltb, ◌==◌, Bool-cases,
  Option-cases, All, All-append, Result-cases, ok, raise_if, >>=-ok, >>-ok, ok-injective, if-elim,
  ℤ, is_negative, pos_part, arith,
}
use blackbase.Budget.{Reservation}
use blackbase.Account.{
  Account, AccountConfig, Authority, BudgetClaim, is_active, is_completed, remaining, make_claim,
  allocated, new_claim, claim_id_of, claimed, exceeds, or_fresh, from_authority, reserve,
  require_owned, require_active, shared_consume, consume, shared_complete, shared_cancel, complete,
  cancel, cancel_each, cancel_all, is_open_at, allowance, active, completed, cancelled,
  exceeds_claim,
}
use blackbase.Account.Ledger.{All-set_at, All-get_elem?, require_active-found, allowance-same}
use blackbase.Account.Kept.{Keeps, from_authority-ok, step-keeps}
use blackbase.Account.History.{
  AccountCall, step, reserves, consumes, completes, cancels, cancels_all, allows,
}

-- An active claim has a reservation of the authority.
abbrev pub IsAttached : BudgetClaim → Type 0
IsAttached c = is_active c.status ≡ true → (r : Reservation) × (c.shared ≡ some r)

-- A measure of the authority's state that never falls, and that `consume` raises by the units consumed.
pub record Charges {S : Type 0} (P : S → Type 0) (m : S → ℕ) (au : Authority S) : Type 0 where
  pub never_falls : (k : ℕ) → Keeps (λ s. P s × (k ≤ m s)) au
  pub raised :
      (r : Reservation) (n : ℕ) (s : S) (r' : Reservation) (t : S)
      → P s
      → au.consume r n s ≡ ok (r', t)
      → P t × (m s + n ≤ m t)

module _ {S : Type 0} (P : S → Type 0) (m : S → ℕ) (au : Authority S) (laws : Charges P m au)
    (cfg : AccountConfig) where
  consume-charges :
      (a : ℕ) (amount : ℤ) (w v : Account S)
      → P w.shared
      → All IsAttached w.heap
      → consume (some au) cfg a amount w ≡ ok v
      → All IsAttached v.heap × P v.shared × (m w.shared + pos_part amount ≤ m v.shared)
  unfolding consume
  consume-charges a amount w v p b h =
      if-elim (is_negative amount) _ _ h (λ n e. cc)
        (λ n e.
          if-elim (pos_part amount == 0) (ok w) _ e
            (λ z e'.
              subst
                (λ (v : Account S).
                  All IsAttached v.heap × P v.shared × (m w.shared + pos_part amount ≤ m v.shared))
                (ok-injective e') (b, p, ground (arith, z)))
            (λ z e'.
              let (c, q, q') = >>=-ok (require_active (some au) cfg a w) _ e' in
              let (at, live) = require_active-found (some au) cfg a w q in
              let (r, attached) = All-get_elem? IsAttached a c w.heap b at live in
              let (f, q₁) =
                >>-ok (raise_if (ltb (remaining c) (pos_part amount)) exceeds_claim) _ q' in
              let ((o, s), q₂, q₃) =
                >>=-ok (shared_consume (some au) c.shared (pos_part amount) w.shared) _ q₁ in
              let ((r', t), d, d') =
                >>=-ok (from_authority (au.consume r (pos_part amount) w.shared)) _ (
                  subst (λ x. shared_consume (some au) x (pos_part amount) w.shared ≡ ok (o, s))
                    attached q₂) in
              let (kept, more) =
                laws.raised r (pos_part amount) w.shared r' t p
                  (from_authority-ok (au.consume r (pos_part amount) w.shared) d) in
              let same : (some r', t) ≡ (o, s) = ok-injective d' in
              let here = ap (λ (x : Option Reservation × S). x.0) same in
              let there = ap (λ (x : Option Reservation × S). x.1) same in
              let (kept', more') =
                subst (λ x. P x × (m w.shared + pos_part amount ≤ m x)) there (kept, more) in
              subst
                (λ (v : Account S).
                  All IsAttached v.heap × P v.shared × (m w.shared + pos_part amount ≤ m v.shared))
                (ok-injective q₃)
                (
                  All-set_at IsAttached a
                      (record c { shared = o; consumed = c.consumed + pos_part amount }) w.heap b
                      (λ on. (r', sym here)),
                  kept',
                  more',
                )))

  complete-attached :
      (a : ℕ) (w v : Account S)
      → All IsAttached w.heap
      → complete (some au) cfg a w ≡ ok v
      → All IsAttached v.heap
  unfolding complete
  complete-attached a w v b h =
      let (c, q, q') = >>=-ok (require_owned (some au) cfg a w) _ h in
      if-elim (is_completed c.status) (ok w) _ q'
        (λ z e. subst (λ (v : Account S). All IsAttached v.heap) (ok-injective e) b)
        (λ z e.
          let (current, q₁, q₂) = >>=-ok (require_active (some au) cfg a w) _ e in
          let ((r, s), q₃, q₄) =
            >>=-ok (shared_complete (some au) current.shared current.consumed w.shared) _ q₂ in
          subst (λ (v : Account S). All IsAttached v.heap) (ok-injective q₄)
            (All-set_at IsAttached a (record current { shared = r; status = completed }) w.heap b
              (λ on. cc)))

  cancel-attached :
      (a : ℕ) (w : Account S) (v : Bool × Account S)
      → All IsAttached w.heap
      → cancel (some au) cfg a w ≡ ok v
      → All IsAttached v.1.heap
  unfolding cancel
  cancel-attached a w v b h =
      let (c, q, q') = >>=-ok (require_owned (some au) cfg a w) _ h in
      if-elim (not (is_active c.status)) (ok (false, w)) _ q'
        (λ z e. subst (λ (v : Bool × Account S). All IsAttached v.1.heap) (ok-injective e) b)
        (λ z e.
          let (current, q₁, q₂) = >>=-ok (require_active (some au) cfg a w) _ e in
          let (s, q₃, q₄) = >>=-ok (shared_cancel (some au) current.shared w.shared) _ q₂ in
          subst (λ (v : Bool × Account S). All IsAttached v.1.heap) (ok-injective q₄)
            (All-set_at IsAttached a (record current { status = cancelled }) w.heap b (λ on. cc)))

  make_claim-IsAttached :
      (c : BudgetClaim) {made : BudgetClaim}
      → IsAttached c
      → make_claim c ≡ ok made
      → IsAttached made
  unfolding make_claim
  make_claim-IsAttached c at h =
      let (p, q) = >>-ok _ _ h in
      let (p', q') = >>-ok _ _ q in subst IsAttached (ok-injective q') at

  allocated-attached :
      (c : BudgetClaim) (w : Account S) (keep : ℕ → Account S → Account S)
      → IsAttached c
      → All IsAttached w.heap
      → ((a : ℕ) (v : Account S) → (keep a v).heap ≡ v.heap)
      → All IsAttached (allocated (some au) cfg c w keep).1.heap
  unfolding allocated
  allocated-attached c w keep at b kept = elim (Result-cases (make_claim c)) [
    | inr (e, bad) ↦ rw (bad, allocated) b
    | inl (made, good) ↦
        rw (good, allocated)
          (subst (All IsAttached)
            (sym (kept (length w.heap) (record w { heap = w.heap ++ (made ∷ []) })))
            (All-append IsAttached w.heap (made ∷ []) b (make_claim-IsAttached c at good, tt)))
  ]

  claimed-attached :
      (claim_id : String) (amount : ℕ) (r : Reservation) (w : Account S)
      → All IsAttached w.heap
      → All IsAttached (claimed (some au) cfg claim_id amount (some r) w).1.heap
  claimed-attached claim_id amount r w b = elim (Option-cases (lookup claim_id w.claims)) [
    | inl new ↦
        rw (new, claimed)
          (allocated-attached (new_claim (some au) cfg claim_id amount (some r) active) w
            (λ a v. record v { claims = insert claim_id a v.claims }) (λ on. (r, refl)) b
            (λ a v. refl))
    | inr (a, known) ↦ elim (Option-cases (get_elem? w.heap a)) [
      | inl absent ↦ rw (known, claimed) (rw absent b)
      | inr (c, here) ↦ elim (Bool-cases (c.amount == amount)) [
        | inl same ↦ rw (known, claimed) (rw (here, same) b)
        | inr other ↦ rw (known, claimed) (rw (here, other) b)
      ]
    ]
  ]

  reserve-attached :
      (fresh : String) (amount : ℤ) (i : Option String) (w : Account S)
      → All IsAttached w.heap
      → All IsAttached (reserve (some au) cfg fresh amount i w).1.heap
  unfolding reserve
  reserve-attached fresh amount i w b = elim (Bool-cases (is_negative amount)) [
    | inl negative ↦ rw (negative, reserve) b
    | inr fine ↦ elim (Bool-cases (exceeds (some au) cfg (pos_part amount) w)) [
      | inl over ↦ rw (fine, over, reserve) b
      | inr fits ↦ elim (Bool-cases (pos_part amount == 0)) [
        | inl nothing ↦
            rw (fine, fits, nothing, reserve)
              (allocated-attached (new_claim (some au) cfg (or_fresh i fresh) 0 none completed) w
                (λ a v. v) (λ on. cc) b (λ a v. refl))
        | inr units ↦
            elim (Result-cases (au.reserve cfg.authority_budget (pos_part amount) i w.shared)) [
              | inr (e, bad) ↦ rw (fine, fits, units, reserve) (rw bad b)
              | inl ((r, s), good) ↦
                  rw (fine, fits, units, reserve)
                    (rw good (
                      claimed-attached (claim_id_of (some au) cfg (some r) i fresh)
                        (pos_part amount) r (record w { shared = s }) b))
            ]
      ]
    ]
  ]

  cancel_each-attached :
      (addresses : List ℕ) (w : Account S)
      → All IsAttached w.heap
      → All IsAttached (cancel_each (some au) cfg addresses w).1.heap
  unfolding cancel_each
  cancel_each-attached [] w b = b
  cancel_each-attached (a ∷ addresses) w b = elim (Bool-cases (is_open_at w.heap a)) [
    | inr shut ↦ rw shut (cancel_each-attached addresses w b)
    | inl live ↦ elim (Result-cases (cancel (some au) cfg a w)) [
      | inr (e, bad) ↦ rw live (rw bad b)
      | inl ((d, v), good) ↦
          rw live (rw good (cancel_each-attached addresses v (cancel-attached a w (d, v) b good)))
    ]
  ]

  step-attached :
      (call : AccountCall) (w : Account S)
      → P w.shared
      → All IsAttached w.heap
      → All IsAttached (step (some au) cfg call w).1.heap
  unfolding step cancel_all
  step-attached (reserves fresh amount i) w p b = reserve-attached fresh amount i w b
  step-attached (consumes a amount) w p b = elim (Result-cases (consume (some au) cfg a amount w)) [
    | inl (v, done) ↦ rw done (consume-charges a amount w v p b done).0
    | inr (e, bad) ↦ rw bad b
  ]
  step-attached (completes a) w p b = elim (Result-cases (complete (some au) cfg a w)) [
    | inl (v, done) ↦ rw done (complete-attached a w v b done)
    | inr (e, bad) ↦ rw bad b
  ]
  step-attached (cancels a) w p b = elim (Result-cases (cancel (some au) cfg a w)) [
    | inl ((d, v), done) ↦ rw done (cancel-attached a w (d, v) b done)
    | inr (e, bad) ↦ rw bad b
  ]
  step-attached cancels_all w p b = cancel_each-attached (values w.claims) w b
  step-attached (allows requested local) w p b =
      elim (Result-cases (allowance (some au) cfg requested local w)) [
        | inl ((n, v), done) ↦ rw done (
            subst (All IsAttached)
              (sym (allowance-same (some au) cfg requested local w (n, v) done).1) b)
        | inr (e, bad) ↦ rw bad b
      ]

  -- A call that consumed nothing.
  idle :
      (call : AccountCall) (w : Account S)
      → P w.shared
      → All IsAttached w.heap
      → (step (some au) cfg call w).0 ≡ 0
      → All IsAttached (step (some au) cfg call w).1.heap
        × P (step (some au) cfg call w).1.shared
        × (m w.shared + (step (some au) cfg call w).0 ≤ m (step (some au) cfg call w).1.shared)
  idle call w p b zero =
      let (kept, more) =
        step-keeps (λ s. P s × (m w.shared ≤ m s)) au (laws.never_falls (m w.shared)) cfg call w
          (p, omega arith) in
      (step-attached call w p b, kept, omega (arith, more, zero))

  -- A call raises the measure by at least the units that it consumed.
  pub step-charges :
      (call : AccountCall) (w : Account S)
      → P w.shared
      → All IsAttached w.heap
      → All IsAttached (step (some au) cfg call w).1.heap
        × P (step (some au) cfg call w).1.shared
        × (m w.shared + (step (some au) cfg call w).0 ≤ m (step (some au) cfg call w).1.shared)
  unfolding step
  step-charges (consumes a amount) w p b = elim (Result-cases (consume (some au) cfg a amount w)) [
    | inl (v, done) ↦ rw done (consume-charges a amount w v p b done)
    | inr (e, bad) ↦ rw bad (b, p, omega arith)
  ]
  step-charges (reserves fresh amount i) w p b = idle (reserves fresh amount i) w p b refl
  step-charges (completes a) w p b = elim (Result-cases (complete (some au) cfg a w)) [
    | inl (v, done) ↦ idle (completes a) w p b (rw done refl)
    | inr (e, bad) ↦ rw bad (b, p, omega arith)
  ]
  step-charges (cancels a) w p b = elim (Result-cases (cancel (some au) cfg a w)) [
    | inl ((d, v), done) ↦ idle (cancels a) w p b (rw done refl)
    | inr (e, bad) ↦ rw bad (b, p, omega arith)
  ]
  step-charges cancels_all w p b = idle cancels_all w p b refl
  step-charges (allows requested local) w p b =
      elim (Result-cases (allowance (some au) cfg requested local w)) [
        | inl ((n, v), done) ↦ idle (allows requested local) w p b (rw done refl)
        | inr (e, bad) ↦ rw bad (b, p, omega arith)
      ]
