-- ===== src/Lease/Tests.antt =====
-- The lease table of src/blackbase/resources/lease_store.py on two leases, one of them released.
use blackbase.Prelude.{
  if◌then◌else◌, str_eq, true, ◌<◌, ◌≡◌, ◌≢◌, refl, false, ◌&&◌, not, ltb→lt, List, [], ◌∷◌, none,
  some, lookup, Result, ok, value_or, ℤ, arith,
}
use blackbase.Lease.{
  Lease, LeaseTable, LeaseError, LeaseStatus, acquire_lease, is_current, renew_lease, release_lease,
  redis_release_lease,
}
use blackbase.Lease.Fencing.{IsFenced, is_granted, renew-eq-is_current}
use blackbase.Lease.Backends.{
  is_held, is_overdue_row, released_row, expired_row, release-redis_release,
}
use blackbase.Lease.History.{
  LeaseCall, step, run, run-IsFenced, acquire-token-fresh, IsEnded, run-ended-not-current,
}

abbrev request_a : Lease
request_a = record {
  lease_id = "lease-a";
  owner_id = "worker";
  scope = "project";
  resources = [];
  status = LeaseStatus.active;
  created_at = 0;
  updated_at = 0;
  expires_at = 0;
  fencing_token = 0;
  metadata = [];
}

abbrev request_b : Lease
request_b = record request_a { lease_id = "lease-b" }

abbrev accept_all : List Lease → Result LeaseError (Unit {0})
accept_all rows = ok tt

abbrev empty_table : LeaseTable
empty_table = record { rows = []; next_fencing_token = 1 }

empty_table-IsFenced : IsFenced empty_table
empty_table-IsFenced = record {
  own = λ k l h. cc;
  below = λ k l h. cc;
  distinct = λ k j l m h g e. cc;
}

abbrev setup : List LeaseCall
setup =
    LeaseCall.acquires accept_all request_a (ℤ.pos 30) 100
    ∷ LeaseCall.releases "lease-a" none 110
    ∷ []

abbrev used_table : LeaseTable
used_table = run setup empty_table

run-IsFenced_example : IsFenced used_table
run-IsFenced_example = run-IsFenced setup empty_table empty_table-IsFenced

abbrev held_a : Lease
held_a =
    (value_or (request_a, empty_table)
      (acquire_lease accept_all request_a (ℤ.pos 30) 100 empty_table)).0

abbrev released_a : Lease
released_a = record held_a { status = LeaseStatus.released; updated_at = 110 }

released_lookup : lookup "lease-a" used_table.rows ≡ some released_a
unfolding run step release_lease acquire_lease
released_lookup = refl

abbrev granted_b : Lease × LeaseTable
granted_b =
    value_or (request_b, empty_table) (acquire_lease accept_all request_b (ℤ.pos 30) 120 used_table)

granted_run : acquire_lease accept_all request_b (ℤ.pos 30) 120 used_table ≡ ok granted_b
unfolding acquire_lease run step release_lease
granted_run = refl

acquire-token-fresh_example :
    (released_a.fencing_token < granted_b.0.fencing_token) × ("lease-a" ≢ granted_b.0.lease_id)
acquire-token-fresh_example =
    acquire-token-fresh accept_all request_b (ℤ.pos 30) 120 used_table "lease-a" released_a
      run-IsFenced_example granted_run released_lookup

used_table-IsEnded : IsEnded "lease-a" 1 used_table
unfolding run step release_lease acquire_lease
used_table-IsEnded = record { issued = ltb→lt 1 2 refl; inactive = λ l h tok. ground arith }

abbrev later_calls : List LeaseCall
later_calls =
    LeaseCall.renews "lease-a" 1 (ℤ.pos 60) 130
    ∷ LeaseCall.acquires accept_all request_a (ℤ.pos 30) 140
    ∷ []

run-ended-not-current_example : is_current "lease-a" 1 150 (run later_calls used_table) ≡ false
run-ended-not-current_example =
    run-ended-not-current "lease-a" 1 150 later_calls used_table used_table-IsEnded

renew-eq-is_current_example :
    is_granted (renew_lease "lease-b" 2 (ℤ.pos 60) 130 granted_b.1).0
    ≡ is_current "lease-b" 2 130 granted_b.1
renew-eq-is_current_example = renew-eq-is_current "lease-b" 2 (ℤ.pos 60) 130 granted_b.1

release-redis_release_example :
    ((release_lease "lease-b" (some 2) 200 granted_b.1).0
      ≡ is_held (some 2) (lookup "lease-b" granted_b.1.rows))
    × (lookup "lease-b" (release_lease "lease-b" (some 2) 200 granted_b.1).1.rows ≡ (
        if is_held (some 2) (lookup "lease-b" granted_b.1.rows) && str_eq "lease-b" "lease-b"
        then released_row 200 (lookup "lease-b" granted_b.1.rows)
        else lookup "lease-b" granted_b.1.rows))
    × ((redis_release_lease "lease-b" (some 2) 200 granted_b.1).0 ≡ (
        is_held (some 2) (lookup "lease-b" granted_b.1.rows)
        && not (is_overdue_row 200 (lookup "lease-b" granted_b.1.rows))))
    × (lookup "lease-b" (redis_release_lease "lease-b" (some 2) 200 granted_b.1).1.rows ≡ (
        if is_held (some 2) (lookup "lease-b" granted_b.1.rows)
          && not (is_overdue_row 200 (lookup "lease-b" granted_b.1.rows))
          && str_eq "lease-b" "lease-b"
        then released_row 200 (lookup "lease-b" granted_b.1.rows)
        else expired_row 200 (lookup "lease-b" granted_b.1.rows)))
release-redis_release_example = release-redis_release "lease-b" "lease-b" (some 2) 200 granted_b.1

answers_apart :
    ((release_lease "lease-b" (some 2) 200 granted_b.1).0 ≡ true)
    × ((redis_release_lease "lease-b" (some 2) 200 granted_b.1).0 ≡ false)
unfolding release_lease redis_release_lease acquire_lease run step
answers_apart = (refl, refl)
