-- ===== src/Evidence/Journal.antt =====
-- The operations of `EvaluationEvidenceJournal` over `InMemoryEvaluationEvidenceJournal`, in
-- src/blackbase/evaluation/journal.py. An operation that raises leaves the journal as it was.
use blackbase.Prelude.{
  ℕ, Bool, false, ◌&&◌, not, String, [], ◌∷◌, Option, none, some, if◌then◌else◌, ◌==◌, str_eq, Dict,
  lookup, insert, dict_eq, update, is_empty, strip, Result, ok, err, raise_if, ◌>>=◌, ◌>>◌,
}
use blackbase.Settlement.Wire.{Fields, fields_eq}
use blackbase.Evidence.Wire.{freeze_wire_mapping, thaw_wire_mapping}
use blackbase.Evidence.Event.{Disposition, Receipt, is_committed}
use blackbase.Evidence.Record.{
  Status, preparing, pending, deciding, abandoned, status_of, status_eq, is_decided, EvidenceError,
  EvidenceRecord, terminal, Changes, expected, next, make_record, detach, not_reserved,
  other_identity, other_snapshot, other_intent, replaces_terminal, wrong_status, other_event,
  other_event_snapshot, other_destination, other_digest, other_verification, status_disagrees,
  no_reason,
}

abbrev pub Journal : Type 0
Journal = Dict EvidenceRecord

abbrev pub Updater : Type 0
Updater = Option EvidenceRecord → Result EvidenceError EvidenceRecord

-- `dict(current.disposition or {}) == payload`: the disposition that a record carries is frozen again from its
-- wire dict, while `payload` is the wire dict itself, whose lists equal no tuple.
unfoldable pub frozen_eq : Disposition → Disposition → Bool
unfolding status_of freeze_wire_mapping thaw_wire_mapping fields_eq
frozen_eq a b =
    str_eq a.event_id b.event_id
    && status_eq (status_of a.status) (status_of b.status)
    && str_eq a.disposition_codec b.disposition_codec
    && is_frozen_of a.disposition_payload b.disposition_payload
    && str_eq a.event_snapshot_key b.event_snapshot_key
    && str_eq a.authority_snapshot_key b.authority_snapshot_key
    && is_frozen_of a.identity b.identity
    && is_frozen_of a.metadata b.metadata
  where
    is_frozen_of : Fields → Fields → Bool
    is_frozen_of f g = fields_eq (freeze_wire_mapping (thaw_wire_mapping f)) (thaw_wire_mapping g)

abbrev pub carries : Option Disposition → Disposition → Bool
carries none d = false
carries (some c) d = frozen_eq c d

-- Two receipts with the same wire dict.
unfoldable pub receipt_eq : Receipt → Receipt → Bool
receipt_eq a b =
    str_eq a.event_id b.event_id
    && str_eq a.event_snapshot_key b.event_snapshot_key
    && a.event_snapshot_revision == b.event_snapshot_revision
    && str_eq a.event_snapshot_digest b.event_snapshot_digest
    && str_eq a.event_snapshot_schema b.event_snapshot_schema
    && str_eq a.destination_snapshot_key b.destination_snapshot_key
    && a.destination_snapshot_revision == b.destination_snapshot_revision
    && str_eq a.destination_snapshot_digest b.destination_snapshot_digest
    && str_eq a.destination_snapshot_schema b.destination_snapshot_schema
    && str_eq a.disposition_digest b.disposition_digest
    && str_eq a.verifier b.verifier
    && a.verified_at == b.verified_at
    && dict_eq a.metadata b.metadata

abbrev pub same_receipt :
    EvidenceRecord
    → Option Receipt
    → Receipt
    → Result EvidenceError EvidenceRecord
    → Result EvidenceError EvidenceRecord
same_receipt current none v fresh = fresh
same_receipt current (some old) v fresh =
    if receipt_eq old v then ok current else err other_verification

-- Where a verified disposition must have been written.
unfoldable pub expected_destination : EvidenceRecord → Disposition → String
unfolding is_committed
expected_destination current d =
    if is_committed d.status then d.authority_snapshot_key else current.disposition_snapshot_key

-- The `update` of `reserve`.
unfoldable pub reserve_update : EvidenceRecord → Updater
reserve_update requested none = ok requested
reserve_update requested (some current) =
    if str_eq current.run_id requested.run_id
      && str_eq current.event_snapshot_key requested.event_snapshot_key
      && dict_eq current.identity requested.identity
    then ok current
    else err other_identity

-- The keyword arguments with which each `update` calls `_next`.
abbrev pub durable_change : Changes
durable_change = record {
  to_status = pending;
  to_disposition = none;
  to_disposition_key = none;
  to_verification = none;
  to_metadata = [];
}

abbrev pub intent_change : Disposition → String → Changes
intent_change d key = record {
  to_status = deciding;
  to_disposition = some d;
  to_disposition_key = some key;
  to_verification = none;
  to_metadata = [];
}

abbrev pub verified_change : Status → Receipt → Changes
verified_change s v = record {
  to_status = s;
  to_disposition = none;
  to_disposition_key = none;
  to_verification = some v;
  to_metadata = [];
}

abbrev pub abandon_change : String → Dict String → Changes
abandon_change reason metadata = record {
  to_status = abandoned;
  to_disposition = none;
  to_disposition_key = none;
  to_verification = none;
  to_metadata = update (("abandon_reason", reason) ∷ []) metadata;
}

module _ (digest : Disposition → String) where
  -- `InMemoryEvaluationEvidenceJournal._atomic_update`.
  unfoldable pub atomic_update :
      String → Updater → Journal → Result EvidenceError (EvidenceRecord × Journal)
  atomic_update event_id updater journal = do
    updated ← updater (lookup event_id journal)
    stored ← detach digest updated
    ok (stored, insert updated.event_id stored journal)

  -- The `update` of `mark_event_durable`.
  unfoldable pub durable_update : Option ℕ → ℕ → Updater
  durable_update revision now none = err not_reserved
  durable_update revision now (some current) = do
    expected current revision
    if status_eq current.status preparing
        then next digest now current durable_change
        else ok current

  -- The `update` of `prepare_disposition`.
  unfoldable pub prepare_update : Disposition → String → Option ℕ → ℕ → Updater
  unfolding terminal status_of
  prepare_update d key revision now none = err not_reserved
  prepare_update d key revision now (some current) = do
    expected current revision
    raise_if (not (str_eq d.event_snapshot_key current.event_snapshot_key)) other_snapshot
    if status_eq current.status pending
        then next digest now current (intent_change d key)
        else if status_eq current.status deciding
        then (if carries current.disposition d && str_eq current.disposition_snapshot_key key
            then ok current
            else err other_intent)
        else if status_eq current.status (status_of d.status) && carries current.disposition d
        then ok current
        else if terminal current
        then err replaces_terminal
        else err wrong_status

  -- The tests of `settle` on the receipt.
  unfoldable pub settle_checks :
      EvidenceRecord → Disposition → Receipt → Result EvidenceError (Unit {0})
  unfolding expected_destination
  settle_checks current d v = do
    raise_if (not (str_eq v.event_id current.event_id)) other_event
    raise_if (not (str_eq v.event_snapshot_key current.event_snapshot_key)) other_event_snapshot
    raise_if (not (str_eq v.destination_snapshot_key (expected_destination current d)))
        other_destination
    raise_if (not (str_eq v.disposition_digest (digest d))) other_digest

  -- The rest of the `update` of `settle`, by the status.
  unfoldable pub settle_write :
      EvidenceRecord → Disposition → Receipt → ℕ → Result EvidenceError EvidenceRecord
  unfolding status_of
  settle_write current d v now =
      if is_decided current.status
      then (if not (status_eq current.status (status_of d.status))
          then err status_disagrees
          else same_receipt current current.verification v
              (next digest now current (verified_change current.status v)))
      else if not (status_eq current.status deciding)
      then err wrong_status
      else next digest now current (verified_change (status_of d.status) v)

  -- Without a disposition `settle` refuses the status.
  unfoldable pub settle_carried :
      EvidenceRecord → Option Disposition → Receipt → ℕ → Result EvidenceError EvidenceRecord
  unfolding settle_checks settle_write
  settle_carried current none v now = err wrong_status
  settle_carried current (some d) v now = settle_checks current d v >> settle_write current d v now

  -- The `update` of `settle`.
  unfoldable pub settle_update : Receipt → Option ℕ → ℕ → Updater
  unfolding settle_carried
  settle_update v revision now none = err not_reserved
  settle_update v revision now (some current) = do
    expected current revision
    settle_carried current current.disposition v now

  -- The `update` of `abandon`.
  unfoldable pub abandon_update : String → Dict String → Option ℕ → ℕ → Updater
  unfolding terminal
  abandon_update reason metadata revision now none = err not_reserved
  abandon_update reason metadata revision now (some current) = do
    expected current revision
    if status_eq current.status abandoned
        then ok current
        else if terminal current
        then err replaces_terminal
        else next digest now current (abandon_change reason metadata)

-- What `reserve` is given; the two times are the readings of the clock for the two default fields.
pub record ReserveArgs : Type 0 where
  pub event_id : String
  pub run_id : String
  pub event_snapshot_key : String
  pub identity : Dict String
  pub metadata : Dict String
  pub created_at : ℕ
  pub updated_at : ℕ

abbrev pub requested_record : ReserveArgs → EvidenceRecord
requested_record a = record {
  event_id = a.event_id;
  run_id = a.run_id;
  event_snapshot_key = a.event_snapshot_key;
  status = preparing;
  disposition = none;
  disposition_snapshot_key = "";
  verification = none;
  identity = a.identity;
  metadata = a.metadata;
  revision = 1;
  created_at = a.created_at;
  updated_at = a.updated_at;
}

-- A call of the journal, with the readings of the clock that it makes.
pub data Call : Type 0 where
  reserve : ReserveArgs → Call
  mark_event_durable : String → Option ℕ → ℕ → Call
  prepare_disposition : Disposition → String → Option ℕ → ℕ → Call
  settle : String → Receipt → Option ℕ → ℕ → Call
  abandon : String → String → Dict String → Option ℕ → ℕ → Call

module _ (digest : Disposition → String) where
  unfoldable pub run_call : Call → Journal → Result EvidenceError (EvidenceRecord × Journal)
  run_call (reserve a) j = do
    requested ← make_record digest (requested_record a)
    atomic_update digest requested.event_id (reserve_update requested) j
  run_call (mark_event_durable event_id revision now) j =
      atomic_update digest event_id (durable_update digest revision now) j
  run_call (prepare_disposition d key revision now) j =
      atomic_update digest d.event_id (prepare_update digest d key revision now) j
  run_call (settle event_id v revision now) j =
      atomic_update digest event_id (settle_update digest v revision now) j
  run_call (abandon event_id reason metadata revision now) j = do
    let reason_text = strip reason
    raise_if (is_empty reason_text) no_reason
    atomic_update digest event_id (abandon_update digest reason_text metadata revision now) j
