-- ===== src/Account/Kept.antt =====
-- What the calls of an account of src/blackbase/resources/budget_account.py keep of its authority's state.
use blackbase.Prelude.{
  ℕ, ◌≡◌, refl, sym, ap, subst, inl, inr, Bool, false, not, String, List, [], ◌∷◌, ◌++◌, Option,
  none, some, lookup, insert, length, get_elem?, values, ◌==◌, Bool-cases, Option-cases,
  Result-cases, Result, ok, err, >>=-ok, >>-ok, ok-injective, if-elim, ℤ, is_negative, pos_part,
}
use blackbase.Budget.{Reservation, BudgetError}
use blackbase.Account.{
  Account, AccountConfig, Authority, BudgetClaim, is_active, is_completed, make_claim, allocated,
  new_claim, shared_reserve, claim_id_of, claimed, exceeds, or_fresh, from_authority, reserve,
  require_owned, require_active, shared_consume, consume, shared_complete, shared_cancel, complete,
  cancel, cancel_each, cancel_all, is_open_at, allowance, checked_limit, active, completed,
}
use blackbase.Account.History.{
  AccountCall, step, reserves, consumes, completes, cancels, cancels_all, allows,
}

-- A property of the authority's state that its operations keep.
pub record Keeps {S : Type 0} (P : S → Type 0) (au : Authority S) : Type 0 where
  pub reserve :
      (budget : String) (amount : ℕ) (i : Option String) (s : S) (r : Reservation) (t : S)
      → P s
      → au.reserve budget amount i s ≡ ok (r, t)
      → P t
  pub consume :
      (r : Reservation) (n : ℕ) (s : S) (r' : Reservation) (t : S)
      → P s
      → au.consume r n s ≡ ok (r', t)
      → P t
  pub complete :
      (r : Reservation) (n : ℕ) (s : S) (r' : Reservation) (t : S)
      → P s
      → au.complete r n s ≡ ok (r', t)
      → P t
  pub cancel : (r : Reservation) (s : S) (t : S) → P s → au.cancel r s ≡ ok t → P t
  pub units_left :
      (budget : String) (s : S) (n : ℕ) (t : S) → P s → au.units_left budget s ≡ ok (n, t) → P t

pub from_authority-ok :
    {A : Type 0} (x : Result BudgetError A) {a : A} → from_authority x ≡ ok a → x ≡ ok a
from_authority-ok (ok b) h = let e : ok b ≡ ok _ = h in ap ok (ok-injective e)
from_authority-ok (err e) h = cc

module _ {S : Type 0} (P : S → Type 0) (au : Authority S) (laws : Keeps P au)
    (cfg : AccountConfig) where
  consume-keeps :
      (a : ℕ) (amount : ℤ) (w v : Account S)
      → P w.shared
      → consume (some au) cfg a amount w ≡ ok v
      → P v.shared
  unfolding consume
  consume-keeps a amount w v p h =
      if-elim (is_negative amount) _ _ h (λ n e. cc)
        (λ n e.
          if-elim (pos_part amount == 0) (ok w) _ e
            (λ z e'. subst (λ (v : Account S). P v.shared) (ok-injective e') p)
            (λ z e'.
              let (c, q, q') = >>=-ok (require_active (some au) cfg a w) _ e' in
              let (f, q₁) = >>-ok _ _ q' in
              let ((r, s), q₂, q₃) =
                >>=-ok (shared_consume (some au) c.shared (pos_part amount) w.shared) _ q₁ in
              subst (λ (v : Account S). P v.shared) (ok-injective q₃) (kept c.shared r s q₂)))
    where
      kept :
          (o r : Option Reservation) (s : S)
          → shared_consume (some au) o (pos_part amount) w.shared ≡ ok (r, s)
          → P s
      kept none r s e = subst P (ap (λ (x : Option Reservation × S). x.1) (ok-injective e)) p
      kept (some q) r s e =
          let ((q', t), d, d') =
            >>=-ok (from_authority (au.consume q (pos_part amount) w.shared)) _ e in
          subst P (ap (λ (x : Option Reservation × S). x.1) (ok-injective d')) (
            laws.consume q (pos_part amount) w.shared q' t p
              (from_authority-ok (au.consume q (pos_part amount) w.shared) d))

  complete-keeps :
      (a : ℕ) (w v : Account S) → P w.shared → complete (some au) cfg a w ≡ ok v → P v.shared
  unfolding complete
  complete-keeps a w v p h =
      let (c, q, q') = >>=-ok (require_owned (some au) cfg a w) _ h in
      if-elim (is_completed c.status) (ok w) _ q'
        (λ z e. subst (λ (v : Account S). P v.shared) (ok-injective e) p)
        (λ z e.
          let (current, q₁, q₂) = >>=-ok (require_active (some au) cfg a w) _ e in
          let ((r, s), q₃, q₄) =
            >>=-ok (shared_complete (some au) current.shared current.consumed w.shared) _ q₂ in
          subst (λ (v : Account S). P v.shared) (ok-injective q₄)
            (kept current.shared current.consumed r s q₃))
    where
      kept :
          (o : Option Reservation) (n : ℕ) (r : Option Reservation) (s : S)
          → shared_complete (some au) o n w.shared ≡ ok (r, s)
          → P s
      kept none n r s e = subst P (ap (λ (x : Option Reservation × S). x.1) (ok-injective e)) p
      kept (some q) n r s e =
          let ((q', t), d, d') = >>=-ok (from_authority (au.complete q n w.shared)) _ e in
          subst P (ap (λ (x : Option Reservation × S). x.1) (ok-injective d'))
            (laws.complete q n w.shared q' t p (from_authority-ok (au.complete q n w.shared) d))

  cancel-keeps :
      (a : ℕ) (w : Account S) (v : Bool × Account S)
      → P w.shared
      → cancel (some au) cfg a w ≡ ok v
      → P v.1.shared
  unfolding cancel
  cancel-keeps a w v p h =
      let (c, q, q') = >>=-ok (require_owned (some au) cfg a w) _ h in
      if-elim (not (is_active c.status)) (ok (false, w)) _ q'
        (λ z e. subst (λ (v : Bool × Account S). P v.1.shared) (ok-injective e) p)
        (λ z e.
          let (current, q₁, q₂) = >>=-ok (require_active (some au) cfg a w) _ e in
          let (s, q₃, q₄) = >>=-ok (shared_cancel (some au) current.shared w.shared) _ q₂ in
          subst (λ (v : Bool × Account S). P v.1.shared) (ok-injective q₄)
            (kept current.shared s q₃))
    where
      kept : (o : Option Reservation) (s : S) → shared_cancel (some au) o w.shared ≡ ok s → P s
      kept none s e = subst P (ok-injective e) p
      kept (some q) s e = laws.cancel q w.shared s p (from_authority-ok (au.cancel q w.shared) e)

  allowance-keeps :
      (requested : ℤ) (local_limit : Option ℤ) (w : Account S) (v : ℕ × Account S)
      → P w.shared
      → allowance (some au) cfg requested local_limit w ≡ ok v
      → P v.1.shared
  unfolding allowance
  allowance-keeps requested local_limit w v p h =
      let (q, q') = >>-ok _ _ h in
      let (local, r, t) = >>=-ok (checked_limit local_limit) _ q' in
      let ((n, s), d, d') =
        >>=-ok (from_authority (au.units_left cfg.authority_budget w.shared)) _ t in
      subst (λ (v : ℕ × Account S). P v.1.shared) (ok-injective d')
        (laws.units_left cfg.authority_budget w.shared n s p
          (from_authority-ok (au.units_left cfg.authority_budget w.shared) d))

  allocated-shared :
      (c : BudgetClaim) (w : Account S) (keep : ℕ → Account S → Account S)
      → ((a : ℕ) (v : Account S) → (keep a v).shared ≡ v.shared)
      → (allocated (some au) cfg c w keep).1.shared ≡ w.shared
  unfolding allocated
  allocated-shared c w keep kept = elim (Result-cases (make_claim c)) [
    | inr (e, bad) ↦ rw (bad, allocated) refl
    | inl (made, good) ↦
        rw (good, allocated) (kept (length w.heap) (record w { heap = w.heap ++ (made ∷ []) }))
  ]

  claimed-shared :
      (claim_id : String) (amount : ℕ) (r : Option Reservation) (w : Account S)
      → (claimed (some au) cfg claim_id amount r w).1.shared ≡ w.shared
  claimed-shared claim_id amount r w = elim (Option-cases (lookup claim_id w.claims)) [
    | inl new ↦
        rw (new, claimed)
          (allocated-shared (new_claim (some au) cfg claim_id amount r active) w
            (λ a v. record v { claims = insert claim_id a v.claims }) (λ a v. refl))
    | inr (a, known) ↦ elim (Option-cases (get_elem? w.heap a)) [
      | inl absent ↦ rw (known, claimed) (rw absent refl)
      | inr (c, here) ↦ elim (Bool-cases (c.amount == amount)) [
        | inl same ↦ rw (known, claimed) (rw (here, same) refl)
        | inr other ↦ rw (known, claimed) (rw (here, other) refl)
      ]
    ]
  ]

  reserve-keeps :
      (fresh : String) (amount : ℤ) (i : Option String) (w : Account S)
      → P w.shared
      → P (reserve (some au) cfg fresh amount i w).1.shared
  unfolding reserve
  reserve-keeps fresh amount i w p = elim (Bool-cases (is_negative amount)) [
    | inl negative ↦ rw (negative, reserve) p
    | inr fine ↦ elim (Bool-cases (exceeds (some au) cfg (pos_part amount) w)) [
      | inl over ↦ rw (fine, over, reserve) p
      | inr fits ↦ elim (Bool-cases (pos_part amount == 0)) [
        | inl nothing ↦
            rw (fine, fits, nothing, reserve)
              (subst P
                (sym (
                  allocated-shared (new_claim (some au) cfg (or_fresh i fresh) 0 none completed) w
                    (λ a v. v) (λ a v. refl)))
                p)
        | inr units ↦
            elim (Result-cases
              (shared_reserve (some au) cfg (some au) (pos_part amount) i w.shared)) [
                | inr (e, bad) ↦ rw (fine, fits, units, reserve) (rw bad p)
                | inl ((r, s), good) ↦
                    rw (fine, fits, units, reserve)
                      (rw good (
                        subst P
                          (sym (
                            claimed-shared (claim_id_of (some au) cfg r i fresh) (pos_part amount) r
                              (record w { shared = s })))
                          (granted r s good)))
              ]
      ]
    ]
  ]
    where
      granted :
          (r : Option Reservation) (s : S)
          → shared_reserve (some au) cfg (some au) (pos_part amount) i w.shared ≡ ok (r, s)
          → P s
      granted r s e =
          let ((q, t), d, d') =
            >>=-ok (from_authority (au.reserve cfg.authority_budget (pos_part amount) i w.shared)) _
              e in
          subst P (ap (λ (x : Option Reservation × S). x.1) (ok-injective d')) (
            laws.reserve cfg.authority_budget (pos_part amount) i w.shared q t p
              (from_authority-ok (au.reserve cfg.authority_budget (pos_part amount) i w.shared) d))

  cancel_each-keeps :
      (addresses : List ℕ) (w : Account S)
      → P w.shared
      → P (cancel_each (some au) cfg addresses w).1.shared
  unfolding cancel_each
  cancel_each-keeps [] w p = p
  cancel_each-keeps (a ∷ addresses) w p = elim (Bool-cases (is_open_at w.heap a)) [
    | inr shut ↦ rw shut (cancel_each-keeps addresses w p)
    | inl live ↦ elim (Result-cases (cancel (some au) cfg a w)) [
      | inr (e, bad) ↦ rw live (rw bad p)
      | inl ((d, v), good) ↦
          rw live (rw good (cancel_each-keeps addresses v (cancel-keeps a w (d, v) p good)))
    ]
  ]

  -- What the authority's operations keep is kept by every call of an account.
  pub step-keeps :
      (call : AccountCall) (w : Account S) → P w.shared → P (step (some au) cfg call w).1.shared
  unfolding step cancel_all
  step-keeps (reserves fresh amount i) w p = reserve-keeps fresh amount i w p
  step-keeps (consumes a amount) w p = elim (Result-cases (consume (some au) cfg a amount w)) [
    | inl (v, done) ↦ rw done (consume-keeps a amount w v p done)
    | inr (e, bad) ↦ rw bad p
  ]
  step-keeps (completes a) w p = elim (Result-cases (complete (some au) cfg a w)) [
    | inl (v, done) ↦ rw done (complete-keeps a w v p done)
    | inr (e, bad) ↦ rw bad p
  ]
  step-keeps (cancels a) w p = elim (Result-cases (cancel (some au) cfg a w)) [
    | inl ((d, v), done) ↦ rw done (cancel-keeps a w (d, v) p done)
    | inr (e, bad) ↦ rw bad p
  ]
  step-keeps cancels_all w p = cancel_each-keeps (values w.claims) w p
  step-keeps (allows requested local) w p =
      elim (Result-cases (allowance (some au) cfg requested local w)) [
        | inl ((n, v), done) ↦ rw done (allowance-keeps requested local w (n, v) p done)
        | inr (e, bad) ↦ rw bad p
      ]
