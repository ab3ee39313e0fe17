-- ===== src/Evidence/Validity.antt =====
-- What the validation of a journal record guarantees, for
-- src/blackbase/evaluation/journal.py.
use blackbase.Prelude.{
  ℕ, ◌≤◌, ◌≡◌, refl, ◌≢◌, ◌↔◌, true, false, String, Option, none, some, arith, str_eq_iff, is_empty,
  strip, strip_idem, ok, raise_if, ltb, subst, >>-ok, ok-injective,
}
use blackbase.Evidence.Event.{Disposition, Receipt}
use blackbase.Evidence.Record.{
  Status, preparing, pending, deciding, status_of, status_eq, is_decided, EvidenceRecord, Changes,
  make_record, detach, next, check_disposition, check_verification, normalized, lacks_name,
  has_bad_times, changed, missing_identity, bad_revision, bad_timestamps,
}

-- The dispositions that a record in a status may carry.
abbrev pub Carries : String → Status → Option Disposition → Type 0
Carries event_id s none = (s ≢ deciding) × (is_decided s ≡ false)
Carries event_id s (some d) =
    (d.event_id ≡ event_id)
    × (is_decided s ≡ true → status_of d.status ≡ s)
    × (s ≢ preparing)
    × (s ≢ pending)

-- A verification receipt is bound to its event, the event's Snapshot and the disposition.
abbrev pub Binds :
    (Disposition → String) → String → String → Status → Option Disposition → Option Receipt → Type 0
Binds digest event_id key s d none = Unit {0}
Binds digest event_id key s none (some v) = ⊥
Binds digest event_id key s (some d) (some v) =
    (v.event_id ≡ event_id)
    × (v.event_snapshot_key ≡ key)
    × (v.disposition_digest ≡ digest d)
    × (is_decided s ≡ true)

-- A text that is stripped already, and not empty.
pub record IsName (s : String) : Type 0 where
  pub stripped : strip s ≡ s
  pub filled : is_empty s ≡ false

pub record IsValid (digest : Disposition → String) (r : EvidenceRecord) : Type 0 where
  pub event : IsName r.event_id
  pub run : IsName r.run_id
  pub snapshot : IsName r.event_snapshot_key
  pub destination : strip r.disposition_snapshot_key ≡ r.disposition_snapshot_key
  pub revised : 1 ≤ r.revision
  pub born : 1 ≤ r.created_at
  pub aged : r.created_at ≤ r.updated_at
  pub disposed : Carries r.event_id r.status r.disposition
  pub verified : Binds digest r.event_id r.event_snapshot_key r.status r.disposition r.verification

status_eq→eq : (a b : Status) → status_eq a b ≡ true → a ≡ b
status_eq→eq a b h = ground arith

pub check_disposition_iff :
    (e : String) (s : Status) (o : Option Disposition)
    → (check_disposition e s o ≡ ok tt) ↔ Carries e s o
unfolding check_disposition
check_disposition_iff e s none = (λ h. ground arith, λ h. ground arith)
check_disposition_iff e s (some d) = (
  λ h. ground (arith, str_eq_iff d.event_id e, status_eq→eq (status_of d.status) s),
  λ h. ground (arith, str_eq_iff d.event_id e),
)

module _ (digest : Disposition → String) where
  pub check_verification_iff :
      (e k : String) (s : Status) (o : Option Disposition) (v : Option Receipt)
      → (check_verification digest e k s o v ≡ ok tt) ↔ Binds digest e k s o v
  unfolding check_verification
  check_verification_iff e k s o none = (λ h. tt, λ h. refl)
  check_verification_iff e k s none (some v) = (λ h. cc, λ h. absurd h)
  check_verification_iff e k s (some d) (some v) = (
    λ h. ground (
      arith,
      str_eq_iff v.event_id e,
      str_eq_iff v.event_snapshot_key k,
      str_eq_iff v.disposition_digest (digest d),
    ),
    λ h. ground (
      arith,
      str_eq_iff v.event_id e,
      str_eq_iff v.event_snapshot_key k,
      str_eq_iff v.disposition_digest (digest d),
    ),
  )

  -- What `__post_init__` accepts is well formed.
  pub make_record-IsValid :
      (r : EvidenceRecord) {r' : EvidenceRecord} → make_record digest r ≡ ok r' → IsValid digest r'
  unfolding make_record
  make_record-IsValid r h =
      let (named, h₁) = >>-ok (raise_if (lacks_name (normalized r)) missing_identity) _ h in
      let (revised, h₂) = >>-ok (raise_if (ltb r.revision 1) bad_revision) _ h₁ in
      let (timed, h₃) = >>-ok (raise_if (has_bad_times r) bad_timestamps) _ h₂ in
      let (disposed, h₄) = >>-ok _ _ h₃ in
      let (verified, h₅) = >>-ok _ _ h₄ in
      subst (IsValid digest) {x = normalized r} (ok-injective h₅) (record {
        event = record { stripped = strip_idem r.event_id; filled = ground arith };
        run = record { stripped = strip_idem r.run_id; filled = ground arith };
        snapshot = record { stripped = strip_idem r.event_snapshot_key; filled = ground arith };
        destination = strip_idem r.disposition_snapshot_key;
        revised = ground arith;
        born = ground arith;
        aged = ground arith;
        disposed = (check_disposition_iff _ r.status r.disposition).0 disposed;
        verified = (check_verification_iff _ _ r.status r.disposition r.verification).0 verified;
      })

  -- A well-formed record passes `__post_init__` unchanged.
  pub make_record_self : (r : EvidenceRecord) → IsValid digest r → make_record digest r ≡ ok r
  unfolding make_record
  make_record_self r v =
      let d = (check_disposition_iff r.event_id r.status r.disposition).1 v.disposed in
      let b =
        (check_verification_iff r.event_id r.event_snapshot_key r.status r.disposition
            r.verification).1
          v.verified in
      rw (v.event.stripped, v.run.stripped, v.snapshot.stripped, v.destination, d, b) (ground arith)

  -- Copying a well-formed record gives the record back.
  pub detach_self : (r : EvidenceRecord) → IsValid digest r → detach digest r ≡ ok r
  unfolding detach
  detach_self r v = make_record_self r v

  pub next-IsValid :
      (now : ℕ) (r : EvidenceRecord) (c : Changes) {r' : EvidenceRecord}
      → next digest now r c ≡ ok r'
      → IsValid digest r'
  unfolding next
  next-IsValid now r c h = make_record-IsValid (changed now r c) h
