-- ===== src/Settlement/Roundtrip.antt =====
-- Writing a record of src/blackbase/resources/budget_settlement.py as a payload and reading it back.
use blackbase.Prelude.{
  ◌≡◌, refl, sym, ◌∙◌, subst, inl, inr, false, String, if◌then◌else◌, strip, strip_idem, is_empty,
  ok, err, ◌>>=◌, >>=-ok, >>-ok, ok-injective, ℤ, pos, negsuc, int_eq, Bool-cases, arith,
}
use blackbase.Settlement.Wire.{
  number, plain_fields, plain_fields-plain_fields, get, get_or, or_value, is_true, Conversions,
  text_of, int_of, float_of, dict_of, missing_name,
}
use blackbase.Settlement.Record.{
  Status, BudgetSettlementRecord, SettlementArgs, status_text, required, parse_status, make_record,
  as_dict, from_dict, or_now,
}

-- What the constructor establishes of all fields but the usage and the last error.
pub record IsFramed (r : BudgetSettlementRecord) : Type 0 where
  pub settlement_id : required r.settlement_id ≡ ok r.settlement_id
  pub project_run_id : required r.project_run_id ≡ ok r.project_run_id
  pub parent_case_run_id : required r.parent_case_run_id ≡ ok r.parent_case_run_id
  pub child_case_run_id : required r.child_case_run_id ≡ ok r.child_case_run_id
  pub budget : required r.budget ≡ ok r.budget
  pub parent_reservation_id : required r.parent_reservation_id ≡ ok r.parent_reservation_id
  pub parent_authority_ref : plain_fields r.parent_authority_ref ≡ ok r.parent_authority_ref
  pub child_handle : plain_fields r.child_handle ≡ ok r.child_handle
  pub created_at : int_eq r.created_at (pos 0) ≡ false
  pub updated_at : int_eq r.updated_at (pos 0) ≡ false

pub record IsBuilt (r : BudgetSettlementRecord) : Type 0 where
  pub frame : IsFramed r
  pub usage : plain_fields r.usage ≡ ok r.usage
  pub last_error : plain_fields r.last_error ≡ ok r.last_error

pub required_idem : (s : String) {t : String} → required s ≡ ok t → required t ≡ ok t
unfolding required
required_idem s {t} h = elim (Bool-cases (is_empty (strip s))) [
  | inl blank ↦
      let e : (if is_empty (strip s) then err missing_name else ok (strip s)) ≡ ok t = h in cc
  | inr solid ↦
      let e : strip s ≡ t = ok-injective (sym (rw solid refl) ∙ h) in
      subst (λ u. (if is_empty (strip u) then err missing_name else ok (strip u)) ≡ ok u) e
        (rw (strip_idem s, solid) refl)
]

parse_status-status_text : (s : Status) → parse_status (status_text s) ≡ ok s
unfolding parse_status status_text
parse_status-status_text Status.reserve_intent = refl
parse_status-status_text Status.prepared = refl
parse_status-status_text Status.settlement_ready = refl
parse_status-status_text Status.retry_required = refl
parse_status-status_text Status.settled = refl
parse_status-status_text Status.reclaimed = refl

or_now_set : (now t : ℤ) → int_eq now (pos 0) ≡ false → int_eq (or_now now t) (pos 0) ≡ false
or_now_set now t h = elim (Bool-cases (int_eq t (pos 0))) [
  | inl zero ↦ rw zero h
  | inr set ↦ rw set set
]

-- The constructor builds such a record, at a clock that is not at zero.
pub make_record-IsBuilt :
    (now : ℤ) (a : SettlementArgs) {r : BudgetSettlementRecord}
    → int_eq now (pos 0) ≡ false
    → make_record now a ≡ ok r
    → IsBuilt r
unfolding make_record
make_record-IsBuilt now a {r} set h =
    let (i₁, p₁, h₁) = >>=-ok (required a.settlement_id) _ h in
    let (i₂, p₂, h₂) = >>=-ok (required a.project_run_id) _ h₁ in
    let (i₃, p₃, h₃) = >>=-ok (required a.parent_case_run_id) _ h₂ in
    let (i₄, p₄, h₄) = >>=-ok (required a.child_case_run_id) _ h₃ in
    let (i₅, p₅, h₅) = >>=-ok (required a.budget) _ h₄ in
    let (i₆, p₆, h₆) = >>=-ok (required a.parent_reservation_id) _ h₅ in
    let (s, p₇, h₇) = >>=-ok (parse_status a.status) _ h₆ in
    let (f₁, q₁, g₁) = >>=-ok (plain_fields a.parent_authority_ref) _ h₇ in
    let (f₂, q₂, g₂) = >>=-ok (plain_fields a.child_handle) _ g₁ in
    let (f₃, q₃, g₃) = >>=-ok (plain_fields a.usage) _ g₂ in
    let (f₄, q₄, g₄) = >>=-ok (plain_fields a.last_error) _ g₃ in
    let (n, e) = >>-ok _ _ g₄ in
    subst IsBuilt (ok-injective e) (record {
      frame = record {
        settlement_id = required_idem a.settlement_id p₁;
        project_run_id = required_idem a.project_run_id p₂;
        parent_case_run_id = required_idem a.parent_case_run_id p₃;
        child_case_run_id = required_idem a.child_case_run_id p₄;
        budget = required_idem a.budget p₅;
        parent_reservation_id = required_idem a.parent_reservation_id p₆;
        parent_authority_ref = plain_fields-plain_fields a.parent_authority_ref q₁;
        child_handle = plain_fields-plain_fields a.child_handle q₂;
        created_at = or_now_set now a.created_at set;
        updated_at = or_now_set now a.updated_at set;
      };
      usage = plain_fields-plain_fields a.usage q₃;
      last_error = plain_fields-plain_fields a.last_error q₄;
    })

module _ (c : Conversions) where
  or_value_zero : (i : ℤ) → or_value (number i) (number (pos 0)) ≡ number i
  unfolding is_true
  or_value_zero (pos n) = elim (Bool-cases (int_eq (pos n) (pos 0))) [
    | inl zero ↦ let e : n ≡ 0 = ground arith in rw (zero, e) refl
    | inr set ↦ rw set refl
  ]
  or_value_zero (negsuc n) = refl

  -- Reading the payload of a record, whose usage and error may hold any value.
  pub from_dict-framed :
      (now : ℤ) (r : BudgetSettlementRecord)
      → IsFramed r
      → from_dict c now (as_dict r) ≡ (
          plain_fields r.usage >>= λ usage. plain_fields r.last_error >>= λ last_error.
          ok (record r { usage = usage; last_error = last_error }))
  unfolding from_dict as_dict make_record get_or get dict_of text_of int_of float_of
  from_dict-framed now r b =
      rw
        (
          or_value_zero (pos r.requested_amount),
          or_value_zero (pos r.attempts),
          or_value_zero r.created_at,
          or_value_zero r.updated_at,
          b.settlement_id,
          b.project_run_id,
          b.parent_case_run_id,
          b.child_case_run_id,
          b.budget,
          b.parent_reservation_id,
          parse_status-status_text r.status,
          b.parent_authority_ref,
          b.child_handle,
          b.created_at,
          b.updated_at,
        )
        refl

  pub from_dict-as_dict :
      (now : ℤ) (r : BudgetSettlementRecord) → IsBuilt r → from_dict c now (as_dict r) ≡ ok r
  from_dict-as_dict now r b = from_dict-framed now r b.frame ∙ rw (b.usage, b.last_error) refl

-- A record that the constructor built, at a clock that is not at zero, is read back from its payload
-- as it was, whatever the clock then shows.
pub make_record-roundtrip :
    (c : Conversions) (now later : ℤ) (a : SettlementArgs) (r : BudgetSettlementRecord)
    → int_eq now (pos 0) ≡ false
    → make_record now a ≡ ok r
    → from_dict c later (as_dict r) ≡ ok r
make_record-roundtrip c now later a r set h =
    from_dict-as_dict c later r (make_record-IsBuilt now a set h)
