-- ===== src/Settlement/Record.antt =====
-- `BudgetSettlementRecord` of src/blackbase/resources/budget_settlement.py: its validation and its payload.
use blackbase.Prelude.{
  ℕ, true, false, ◌||◌, not, String, none, some, if◌then◌else◌, str_eq, strip, lower, is_empty,
  Result, ok, err, raise_if, ◌>>=◌, ◌>>◌, ℤ, pos, is_negative, pos_part, int_eq,
}
use blackbase.Settlement.Wire.{
  SettlementError, Fields, text, number, mapping, end, field, plain_fields, get, get_or, or_value,
  Conversions, text_of, int_of, float_of, dict_of, missing_name, bad_status, negative_amount,
  bad_schema,
}

pub data Status : Type 0 where
  reserve_intent prepared settlement_ready retry_required settled reclaimed : Status

unfoldable pub status_text : Status → String
status_text reserve_intent = "reserve_intent"
status_text prepared = "prepared"
status_text settlement_ready = "settlement_ready"
status_text retry_required = "retry_required"
status_text settled = "settled"
status_text reclaimed = "reclaimed"

pub record BudgetSettlementRecord : Type 0 where
  pub settlement_id : String
  pub project_run_id : String
  pub parent_case_run_id : String
  pub child_case_run_id : String
  pub budget : String
  pub parent_reservation_id : String
  pub parent_authority_ref : Fields
  pub child_handle : Fields
  pub requested_amount : ℕ
  pub status : Status
  pub usage : Fields
  pub attempts : ℕ
  pub last_error : Fields
  pub created_at : ℤ
  pub updated_at : ℤ

-- What the constructor is given.
pub record SettlementArgs : Type 0 where
  pub settlement_id : String
  pub project_run_id : String
  pub parent_case_run_id : String
  pub child_case_run_id : String
  pub budget : String
  pub parent_reservation_id : String
  pub parent_authority_ref : Fields
  pub child_handle : Fields
  pub requested_amount : ℤ
  pub status : String
  pub usage : Fields
  pub attempts : ℤ
  pub last_error : Fields
  pub created_at : ℤ
  pub updated_at : ℤ

unfoldable pub required : String → Result SettlementError String
unfolding strip is_empty
required s = if is_empty (strip s) then err missing_name else ok (strip s)

parse : String → Result SettlementError Status
unfolding status_text
parse s =
    if str_eq s "reserve_intent"
    then ok reserve_intent
    else if str_eq s "prepared"
    then ok prepared
    else if str_eq s "settlement_ready"
    then ok settlement_ready
    else if str_eq s "retry_required"
    then ok retry_required
    else if str_eq s "settled"
    then ok settled
    else if str_eq s "reclaimed"
    then ok reclaimed
    else err bad_status

-- `str(status or "prepared").strip().lower()`, one of the six names.
unfoldable pub parse_status : String → Result SettlementError Status
unfolding parse strip lower is_empty
parse_status s = parse (lower (strip (if is_empty s then "prepared" else s)))

-- `time or now`.
abbrev pub or_now : ℤ → ℤ → ℤ
or_now now t = if int_eq t (pos 0) then now else t

-- `BudgetSettlementRecord.__post_init__` at the clock's time `now`.
unfoldable pub make_record : ℤ → SettlementArgs → Result SettlementError BudgetSettlementRecord
unfolding required parse_status plain_fields
make_record now a = do
  settlement_id ← required a.settlement_id
  project_run_id ← required a.project_run_id
  parent_case_run_id ← required a.parent_case_run_id
  child_case_run_id ← required a.child_case_run_id
  budget ← required a.budget
  parent_reservation_id ← required a.parent_reservation_id
  status ← parse_status a.status
  parent_authority_ref ← plain_fields a.parent_authority_ref
  child_handle ← plain_fields a.child_handle
  usage ← plain_fields a.usage
  last_error ← plain_fields a.last_error
  raise_if (is_negative a.requested_amount) negative_amount
  ok (record {
    settlement_id = settlement_id;
    project_run_id = project_run_id;
    parent_case_run_id = parent_case_run_id;
    child_case_run_id = child_case_run_id;
    budget = budget;
    parent_reservation_id = parent_reservation_id;
    parent_authority_ref = parent_authority_ref;
    child_handle = child_handle;
    requested_amount = pos_part a.requested_amount;
    status = status;
    usage = usage;
    attempts = pos_part a.attempts;
    last_error = last_error;
    created_at = or_now now a.created_at;
    updated_at = or_now now a.updated_at;
  })

unfoldable pub as_dict : BudgetSettlementRecord → Fields
unfolding status_text
as_dict r = field "schema" (text "blackbase.budget_settlement/v2") (
    field "settlement_id" (text r.settlement_id) (
      field "project_run_id" (text r.project_run_id) (
        field "parent_case_run_id" (text r.parent_case_run_id) (
          field "child_case_run_id" (text r.child_case_run_id) (
            field "budget" (text r.budget) (
              field "parent_reservation_id" (text r.parent_reservation_id) (
                field "parent_authority_ref" (mapping r.parent_authority_ref) (
                  field "child_handle" (mapping r.child_handle) (
                    field "requested_amount" (number (pos r.requested_amount)) (
                      field "status" (text (status_text r.status)) (
                        field "usage" (mapping r.usage) (
                          field "attempts" (number (pos r.attempts)) (
                            field "last_error" (mapping r.last_error) (
                              field "created_at" (number r.created_at)
                                (field "updated_at" (number r.updated_at) end)))))))))))))))

-- The fields of the authority that are kept, in order.
abbrev copy_key : Fields → String → Fields → Fields
unfolding get
copy_key source k rest = elim (get k source) [ none ↦ rest | some v ↦ field k v rest ]

module _ (c : Conversions) where
  unfoldable pub minimal_budget_authority_ref : Fields → Result SettlementError Fields
  unfolding get_or get dict_of text_of int_of
  minimal_budget_authority_ref context = do
    lease ← dict_of c (get_or "lease" context (mapping end))
    metadata ← dict_of c (get_or "metadata" context (mapping end))
    authority ← dict_of c (get_or "budget_authority" metadata (mapping end))
    let allowed = copy_key authority "backend" (
        copy_key authority "namespace" (
          copy_key authority "scope"
            (copy_key authority "path" (copy_key authority "redis_url_env" end))))
    token ← int_of c (or_value (get_or "fencing_token" lease (number (pos 0))) (number (pos 0)))
    ok (
        field "lease"
          (mapping (
            field "lease_id" (text (text_of c (get_or "lease_id" lease (text ""))))
              (field "fencing_token" (number token) end)))
          (field "metadata" (mapping (field "budget_authority" (mapping allowed) end)) end))

  -- The reference of the parent's authority, of which the first schema kept the whole context.
  abbrev pub authority_ref : String → Fields → Result SettlementError Fields
  unfolding get_or get dict_of minimal_budget_authority_ref
  authority_ref schema payload = do
    reference ← dict_of c (get_or "parent_authority_ref" payload (mapping end))
    elim (str_eq schema "blackbase.budget_settlement/v1") [
      | false ↦ ok reference
      | true ↦ dict_of c (get_or "parent_resource_context" payload (mapping end)) >>= λ context.
          minimal_budget_authority_ref context
    ]

  abbrev text_at : String → String → Fields → String
  unfolding get_or text_of
  text_at k default payload = text_of c (get_or k payload (text default))

  abbrev dict_at : String → Fields → Result SettlementError Fields
  unfolding get_or dict_of
  dict_at k payload = dict_of c (get_or k payload (mapping end))

  abbrev int_at : String → Fields → Result SettlementError ℤ
  unfolding get_or int_of
  int_at k payload = int_of c (or_value (get_or k payload (number (pos 0))) (number (pos 0)))

  abbrev time_at : String → Fields → Result SettlementError ℤ
  unfolding get_or float_of
  time_at k payload = float_of c (or_value (get_or k payload (number (pos 0))) (number (pos 0)))

  unfoldable pub from_dict : ℤ → Fields → Result SettlementError BudgetSettlementRecord
  unfolding get_or get dict_of text_of int_of float_of make_record minimal_budget_authority_ref
  from_dict now payload = do
    let schema = text_at "schema" "" payload
    raise_if
        (not (
          str_eq schema "blackbase.budget_settlement/v1"
          || str_eq schema "blackbase.budget_settlement/v2"))
        bad_schema
    parent_authority_ref ← authority_ref schema payload
    child_handle ← dict_at "child_handle" payload
    requested_amount ← int_at "requested_amount" payload
    usage ← dict_at "usage" payload
    attempts ← int_at "attempts" payload
    last_error ← dict_at "last_error" payload
    created_at ← time_at "created_at" payload
    updated_at ← time_at "updated_at" payload
    make_record now (record {
      settlement_id = text_at "settlement_id" "" payload;
      project_run_id = text_at "project_run_id" "" payload;
      parent_case_run_id = text_at "parent_case_run_id" "" payload;
      child_case_run_id = text_at "child_case_run_id" "" payload;
      budget = text_at "budget" "" payload;
      parent_reservation_id = text_at "parent_reservation_id" "" payload;
      parent_authority_ref = parent_authority_ref;
      child_handle = child_handle;
      requested_amount = requested_amount;
      status = text_at "status" "prepared" payload;
      usage = usage;
      attempts = attempts;
      last_error = last_error;
      created_at = created_at;
      updated_at = updated_at;
    })
