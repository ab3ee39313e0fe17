-- ===== src/Evidence/Tests.antt =====
-- The journal of src/blackbase/evaluation/journal.py on one event that is reserved, written, evaluated
-- and settled.
use blackbase.Prelude.{
  ℤ, true, false, ◌≡◌, refl, String, List, [], ◌∷◌, none, some, lookup, ok, value_or, strip,
  is_empty,
}
use blackbase.Settlement.Wire.{end, field, tuple, cons, nil, number}
use blackbase.Evidence.Event.{Disposition, Receipt, Verdict}
use blackbase.Evidence.Record.{
  EvidenceRecord, Status, make_record, check_verification, next, detach, check_disposition,
}
use blackbase.Evidence.Journal.{
  Journal, ReserveArgs, Call, carries, frozen_eq, run_call, reserve, mark_event_durable,
  prepare_disposition, settle, abandon, prepare_update, settle_update, reserve_update,
  atomic_update, durable_update,
}
use blackbase.Evidence.Invariant.{IsSound, IsSound-empty, Stores, run_call-Stores}
use blackbase.Evidence.History.{play, play-Kept, play-IsSound, Later}
use blackbase.Evidence.Verified.{Proves, settle-Proves}

abbrev sample_digest : Disposition → String
sample_digest d = "sha256:0123456789abcdef0123456789abcdef0123456789abcdef0123456789abcdef"

abbrev event_args : ReserveArgs
event_args = record {
  event_id = "event-1";
  run_id = "run-1";
  event_snapshot_key = "snapshot-1";
  identity = [];
  metadata = [];
  created_at = 100;
  updated_at = 100;
}

abbrev verdict : Disposition
verdict = record {
  event_id = "event-1";
  status = Verdict.committed;
  disposition_codec = "json";
  disposition_payload = end;
  event_snapshot_key = "snapshot-1";
  authority_snapshot_key = "snapshot-2";
  identity = end;
  metadata = end;
}

abbrev receipt : Receipt
receipt = record {
  event_id = "event-1";
  event_snapshot_key = "snapshot-1";
  event_snapshot_revision = 1;
  event_snapshot_digest = "sha256:0123456789abcdef0123456789abcdef0123456789abcdef0123456789abcdef";
  event_snapshot_schema = "schema";
  destination_snapshot_key = "snapshot-2";
  destination_snapshot_revision = 1;
  destination_snapshot_digest =
      "sha256:0123456789abcdef0123456789abcdef0123456789abcdef0123456789abcdef";
  destination_snapshot_schema = "schema";
  disposition_digest = "sha256:0123456789abcdef0123456789abcdef0123456789abcdef0123456789abcdef";
  verifier = "verifier";
  verified_at = 130;
  metadata = [];
}

abbrev calls : List Call
calls =
    reserve event_args
    ∷ mark_event_durable "event-1" none 110
    ∷ prepare_disposition verdict "snapshot-2" none 120
    ∷ []

abbrev prepared : Journal
unfolding play run_call
prepared = play sample_digest calls []

prepared-IsSound : IsSound sample_digest prepared
unfolding play run_call
prepared-IsSound = play-IsSound sample_digest calls [] (IsSound-empty sample_digest)

abbrev undecided : EvidenceRecord
undecided = record {
  event_id = "event-1";
  run_id = "run-1";
  event_snapshot_key = "snapshot-1";
  status = Status.pending;
  disposition = none;
  disposition_snapshot_key = "";
  verification = none;
  identity = [];
  metadata = [];
  revision = 2;
  created_at = 100;
  updated_at = 110;
}

abbrev settled : EvidenceRecord × Journal
unfolding play run_call
settled =
    value_or (undecided, []) (run_call sample_digest (settle "event-1" receipt none 140) prepared)

settled_run : run_call sample_digest (settle "event-1" receipt none 140) prepared ≡ ok settled
unfolding play run_call atomic_update settle_update prepare_update durable_update make_record
    is_empty strip check_disposition check_verification reserve_update detach next
settled_run = refl

settled_status : settled.0.status ≡ Status.committed
unfolding play run_call atomic_update settle_update prepare_update durable_update make_record
    is_empty strip check_disposition check_verification reserve_update detach next
settled_status = refl

run_call-Stores_example : Stores sample_digest prepared settled.0 settled.1
run_call-Stores_example =
    run_call-Stores sample_digest (settle "event-1" receipt none 140) prepared prepared-IsSound
      settled_run

settle-Proves_example : (d : Disposition) × Proves sample_digest receipt d settled.0
settle-Proves_example =
    settle-Proves sample_digest "event-1" receipt none 140 prepared prepared-IsSound settled_run

settled_lookup : lookup "event-1" settled.1 ≡ some settled.0
unfolding play run_call atomic_update settle_update prepare_update durable_update make_record
    is_empty strip check_disposition check_verification reserve_update detach next
settled_lookup = refl

settled-IsSound : IsSound sample_digest settled.1
settled-IsSound = run_call-Stores_example.sound

abbrev late_calls : List Call
late_calls = abandon "event-1" "too late" [] none 150 ∷ mark_event_durable "event-1" none 160 ∷ []

play-Kept_example :
    IsSound sample_digest (play sample_digest late_calls settled.1)
    × ((r : EvidenceRecord) × (lookup "event-1" (play sample_digest late_calls settled.1) ≡ some r)
        × Later settled.0 r)
play-Kept_example =
    play-Kept sample_digest late_calls settled.1 "event-1" settled.0 settled-IsSound settled_lookup

abbrev listed : Disposition
listed = record verdict {
  disposition_payload = field "scores" (tuple (cons (number (ℤ.pos 1)) nil)) end;
}

listed_not_carried : carries (some listed) listed ≡ false
unfolding frozen_eq
listed_not_carried = refl

verdict_carried : carries (some verdict) verdict ≡ true
unfolding frozen_eq
verdict_carried = refl
