-- ===== src/Evidence/Record.antt =====
-- `EvaluationEvidenceRecord` of src/blackbase/evaluation/journal.py: its validation, and the helpers
-- `_expected`, `_next` and `_detach`. Times are counted in whole ticks. The digest of a disposition
-- (SHA-256 of its canonical JSON) is a parameter.
use blackbase.Prelude.{
  ℕ, ◌+◌, Bool, true, false, ◌&&◌, ◌||◌, not, String, Option, none, some, if◌then◌else◌, ltb, ◌==◌,
  str_eq, Dict, update, is_empty, strip, Result, ok, err, raise_if, ◌>>◌,
}
use blackbase.Evidence.Event.{Verdict, Disposition, Receipt}

pub data Status : Type 0 where
  preparing pending deciding committed rejected failed abandoned : Status

-- The errors of the journal: those of `__post_init__`, then `EvaluationEvidenceRevisionConflict` and
-- the reasons of `EvaluationEvidenceConflict`.
pub data EvidenceError : Type 0 where
  missing_identity bad_revision bad_timestamps disposition_event no_intent no_disposition :
      EvidenceError
  status_disagrees carries_disposition no_verified_disposition : EvidenceError
  verified_event verified_snapshot verified_digest not_decision_terminal : EvidenceError
  stale_revision : EvidenceError
  not_reserved other_identity other_snapshot other_intent replaces_terminal wrong_status :
      EvidenceError
  other_event other_event_snapshot other_destination other_digest other_verification : EvidenceError
  no_reason : EvidenceError

pub record EvidenceRecord : Type 0 where
  pub event_id : String
  pub run_id : String
  pub event_snapshot_key : String
  pub status : Status
  pub disposition : Option Disposition
  pub disposition_snapshot_key : String
  pub verification : Option Receipt
  pub identity : Dict String
  pub metadata : Dict String
  pub revision : ℕ
  pub created_at : ℕ
  pub updated_at : ℕ

unfoldable pub status_of : Verdict → Status
status_of Verdict.committed = committed
status_of Verdict.rejected = rejected
status_of Verdict.failed = failed

abbrev rank : Status → ℕ
rank preparing = 0
rank pending = 1
rank deciding = 2
rank committed = 3
rank rejected = 4
rank failed = 5
rank abandoned = 6

abbrev pub status_eq : Status → Status → Bool
status_eq a b = rank a == rank b

-- `status in {"committed", "rejected", "failed"}`.
abbrev pub is_decided : Status → Bool
is_decided s = status_eq s committed || status_eq s rejected || status_eq s failed

-- `status in EVALUATION_EVIDENCE_TERMINAL_STATUSES`.
abbrev pub is_terminal : Status → Bool
is_terminal s = is_decided s || status_eq s abandoned

-- `EvaluationEvidenceRecord.terminal`.
unfoldable pub terminal : EvidenceRecord → Bool
terminal r = is_terminal r.status

abbrev pub is_some : {A : Type 0} → Option A → Bool
is_some none = false
is_some (some a) = true

-- `EvaluationEvidenceRecord.terminal_verified`.
unfoldable pub terminal_verified : EvidenceRecord → Bool
terminal_verified r = is_decided r.status && is_some r.verification

-- The tests on the disposition: its event, and that the status may and must carry one.
unfoldable pub check_disposition :
    String → Status → Option Disposition → Result EvidenceError (Unit {0})
unfolding status_of
check_disposition event_id status none =
    if status_eq status deciding
    then err no_intent
    else if is_decided status
    then err no_disposition
    else ok tt
check_disposition event_id status (some d) = do
  raise_if (not (str_eq d.event_id event_id)) disposition_event
  raise_if (is_decided status && not (status_eq (status_of d.status) status)) status_disagrees
  raise_if (status_eq status preparing || status_eq status pending) carries_disposition

-- The texts as `__post_init__` stores them.
abbrev pub normalized : EvidenceRecord → EvidenceRecord
normalized r = record r {
  event_id = strip r.event_id;
  run_id = strip r.run_id;
  event_snapshot_key = strip r.event_snapshot_key;
  disposition_snapshot_key = strip r.disposition_snapshot_key;
}

abbrev pub lacks_name : EvidenceRecord → Bool
lacks_name s = is_empty s.event_id || is_empty s.run_id || is_empty s.event_snapshot_key

abbrev pub has_bad_times : EvidenceRecord → Bool
has_bad_times r = r.created_at == 0 || r.updated_at == 0 || ltb r.updated_at r.created_at

module _ (digest : Disposition → String) where
  -- The tests on the verification receipt: it is bound to the event, its Snapshot and the disposition.
  unfoldable pub check_verification :
      String
      → String
      → Status
      → Option Disposition
      → Option Receipt
      → Result EvidenceError (Unit {0})
  check_verification event_id event_key status disposition none = ok tt
  check_verification event_id event_key status none (some v) = err no_verified_disposition
  check_verification event_id event_key status (some d) (some v) = do
    raise_if (not (str_eq v.event_id event_id)) verified_event
    raise_if (not (str_eq v.event_snapshot_key event_key)) verified_snapshot
    raise_if (not (str_eq v.disposition_digest (digest d))) verified_digest
    raise_if (not (is_decided status)) not_decision_terminal

  -- `EvaluationEvidenceRecord.__post_init__`; the argument holds the values passed.
  unfoldable pub make_record : EvidenceRecord → Result EvidenceError EvidenceRecord
  make_record r = do
    let s = normalized r
    raise_if (lacks_name s) missing_identity
    raise_if (ltb r.revision 1) bad_revision
    raise_if (has_bad_times r) bad_timestamps
    check_disposition s.event_id r.status r.disposition
    check_verification s.event_id s.event_snapshot_key r.status r.disposition r.verification
    ok s

  -- `InMemoryEvaluationEvidenceJournal._detach`: a copy through `as_dict` and `from_dict`.
  unfoldable pub detach : EvidenceRecord → Result EvidenceError EvidenceRecord
  unfolding make_record
  detach r = make_record r

abbrev pub or_current : {A : Type 0} → Option A → Option A → Option A
or_current none current = current
or_current (some a) current = some a

abbrev pub key_or_current : Option String → String → String
key_or_current none current = current
key_or_current (some k) current = k

-- What `_next` is given: `none` keeps the current value.
pub record Changes : Type 0 where
  pub to_status : Status
  pub to_disposition : Option Disposition
  pub to_disposition_key : Option String
  pub to_verification : Option Receipt
  pub to_metadata : Dict String

-- `_expected`; `none` is no expectation.
abbrev pub expected : EvidenceRecord → Option ℕ → Result EvidenceError (Unit {0})
expected current none = ok tt
expected current (some r) = raise_if (not (current.revision == r)) stale_revision

-- The values that `_next` passes to the constructor.
abbrev pub changed : ℕ → EvidenceRecord → Changes → EvidenceRecord
changed now current c = record current {
  status = c.to_status;
  disposition = or_current c.to_disposition current.disposition;
  disposition_snapshot_key = key_or_current c.to_disposition_key current.disposition_snapshot_key;
  verification = or_current c.to_verification current.verification;
  metadata = update current.metadata c.to_metadata;
  revision = current.revision + 1;
  updated_at = now;
}

module _ (digest : Disposition → String) where
  -- `_next`; `now` is the reading of the clock.
  unfoldable pub next : ℕ → EvidenceRecord → Changes → Result EvidenceError EvidenceRecord
  unfolding make_record
  next now current c = make_record digest (changed now current c)
