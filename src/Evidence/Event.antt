-- ===== src/Evidence/Event.antt =====
-- src/blackbase/evaluation/event.py: the disposition of an Evaluation Event and the receipt that
-- verifies it. The metadata of a receipt is a dict from keys to the canonical encodings of its values.
use blackbase.Prelude.{
  ℕ, Bool, true, false, ◌&&◌, ◌||◌, not, String, Option, none, some, if◌then◌else◌, ◌==◌, str_eq,
  Dict, is_empty, strip, lower, Result, ok, err, raise_if, ◌>>=◌, ◌>>◌, ℤ, pos_part,
}
use blackbase.Settlement.Wire.{Fields}
use blackbase.Evidence.Wire.{has_wire_safe, freeze_wire_mapping}
use Prim.Native.String.{len}
use text.Mathlib.Text.{starts_with}

pub data Verdict : Type 0 where
  committed rejected failed : Verdict

pub data EventError : Type 0 where
  no_event_id bad_status no_codec no_event_snapshot no_authority not_wire_safe : EventError
  no_keys bad_revision bad_snapshot_digest no_schema bad_digest no_verifier bad_time : EventError

unfoldable pub parse_verdict : String → Option Verdict
parse_verdict s =
    if str_eq s "committed"
    then some committed
    else if str_eq s "rejected"
    then some rejected
    else if str_eq s "failed"
    then some failed
    else none

-- `EvaluationDispositionEnvelope`, after its `__post_init__`.
pub record Disposition : Type 0 where
  pub event_id : String
  pub status : Verdict
  pub disposition_codec : String
  pub disposition_payload : Fields
  pub event_snapshot_key : String
  pub authority_snapshot_key : String
  pub identity : Fields
  pub metadata : Fields

-- What the caller passes to `EvaluationDispositionEnvelope(...)`.
pub record DispositionArgs : Type 0 where
  pub event_id : String
  pub status : String
  pub disposition_codec : String
  pub disposition_payload : Fields
  pub event_snapshot_key : String
  pub authority_snapshot_key : String
  pub identity : Fields
  pub metadata : Fields

unfoldable pub is_committed : Verdict → Bool
is_committed committed = true
is_committed rejected = false
is_committed failed = false

or_bad_status : Option Verdict → Result EventError Verdict
or_bad_status none = err bad_status
or_bad_status (some v) = ok v

-- `EvaluationDispositionEnvelope.__post_init__`.
unfoldable pub make_disposition : DispositionArgs → Result EventError Disposition
unfolding or_bad_status parse_verdict is_committed has_wire_safe freeze_wire_mapping
make_disposition a = do
  let event_id = strip a.event_id
  let codec = strip a.disposition_codec
  let event_key = strip a.event_snapshot_key
  let authority_key = strip a.authority_snapshot_key
  raise_if (is_empty event_id) no_event_id
  status ← or_bad_status (parse_verdict (lower (strip a.status)))
  raise_if (is_empty codec) no_codec
  raise_if (is_empty event_key) no_event_snapshot
  raise_if (is_committed status && is_empty authority_key) no_authority
  raise_if
      (not (
        has_wire_safe a.disposition_payload
        && has_wire_safe a.identity
        && has_wire_safe a.metadata))
      not_wire_safe
  ok (record {
    event_id = event_id;
    status = status;
    disposition_codec = codec;
    disposition_payload = freeze_wire_mapping a.disposition_payload;
    event_snapshot_key = event_key;
    authority_snapshot_key = authority_key;
    identity = freeze_wire_mapping a.identity;
    metadata = freeze_wire_mapping a.metadata;
  })

-- `EvaluationDispositionVerificationReceipt`, after its `__post_init__`.
pub record Receipt : Type 0 where
  pub event_id : String
  pub event_snapshot_key : String
  pub event_snapshot_revision : ℕ
  pub event_snapshot_digest : String
  pub event_snapshot_schema : String
  pub destination_snapshot_key : String
  pub destination_snapshot_revision : ℕ
  pub destination_snapshot_digest : String
  pub destination_snapshot_schema : String
  pub disposition_digest : String
  pub verifier : String
  pub verified_at : ℕ
  pub metadata : Dict String

-- What the caller passes: revisions and the time are signed.
pub record ReceiptArgs : Type 0 where
  pub event_id : String
  pub event_snapshot_key : String
  pub event_snapshot_revision : ℤ
  pub event_snapshot_digest : String
  pub event_snapshot_schema : String
  pub destination_snapshot_key : String
  pub destination_snapshot_revision : ℤ
  pub destination_snapshot_digest : String
  pub destination_snapshot_schema : String
  pub disposition_digest : String
  pub verifier : String
  pub verified_at : ℤ
  pub metadata : Dict String

-- `not value.startswith("sha256:") or len(value) != 71`; a digest is ASCII text.
is_bad_digest : String → Bool
is_bad_digest s = not (starts_with s "sha256:") || not (len s == 71)

-- `int(i) <= 0`.
is_not_positive : ℤ → Bool
is_not_positive i = pos_part i == 0

-- `EvaluationDispositionVerificationReceipt.__post_init__`.
unfoldable pub make_receipt : ReceiptArgs → Result EventError Receipt
unfolding is_bad_digest is_not_positive
make_receipt a = do
  let event_id = strip a.event_id
  let event_key = strip a.event_snapshot_key
  let destination_key = strip a.destination_snapshot_key
  let event_digest = lower (strip a.event_snapshot_digest)
  let destination_digest = lower (strip a.destination_snapshot_digest)
  let event_schema = strip a.event_snapshot_schema
  let destination_schema = strip a.destination_snapshot_schema
  let digest = lower (strip a.disposition_digest)
  let verifier = strip a.verifier
  raise_if (is_empty event_id || is_empty event_key || is_empty destination_key) no_keys
  raise_if
      (is_not_positive a.event_snapshot_revision || is_not_positive a.destination_snapshot_revision)
      bad_revision
  raise_if (is_bad_digest event_digest || is_bad_digest destination_digest) bad_snapshot_digest
  raise_if (is_empty event_schema || is_empty destination_schema) no_schema
  raise_if (is_bad_digest digest) bad_digest
  raise_if (is_empty verifier) no_verifier
  raise_if (is_not_positive a.verified_at) bad_time
  ok (record {
    event_id = event_id;
    event_snapshot_key = event_key;
    event_snapshot_revision = pos_part a.event_snapshot_revision;
    event_snapshot_digest = event_digest;
    event_snapshot_schema = event_schema;
    destination_snapshot_key = destination_key;
    destination_snapshot_revision = pos_part a.destination_snapshot_revision;
    destination_snapshot_digest = destination_digest;
    destination_snapshot_schema = destination_schema;
    disposition_digest = digest;
    verifier = verifier;
    verified_at = pos_part a.verified_at;
    metadata = a.metadata;
  })
