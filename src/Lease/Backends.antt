-- ===== src/Lease/Backends.antt =====
-- What the two stores of src/blackbase/resources/lease_store.py release, and the rows that they leave.
use blackbase.Prelude.{
  ℕ, ◌≡◌, refl, ◌∙◌, ap, sym, inl, inr, Bool, false, ◌&&◌, not, String, Option, none, some,
  if◌then◌else◌, str_eq, str_eq_iff, Bool-cases, arith, lookup, lookup-insert,
}
use blackbase.Lease.{
  Lease, LeaseTable, is_active, is_overdue, expire, expire_locked, release_row, release_lease,
  redis_release_lease, token_fits, released,
}
use blackbase.Lease.Fencing.{lookup-expire_locked}

-- A stored lease that is active and has the token, where one is asked for; its time may have run out.
abbrev pub is_held : Option ℕ → Option Lease → Bool
is_held token none = false
is_held token (some l) = is_active l.status && token_fits token l

abbrev pub is_overdue_row : ℕ → Option Lease → Bool
is_overdue_row now none = false
is_overdue_row now (some l) = is_overdue now l

abbrev pub released_row : ℕ → Option Lease → Option Lease
released_row now none = none
released_row now (some l) = some (record l { status = released; updated_at = now })

abbrev pub expired_row : ℕ → Option Lease → Option Lease
expired_row now none = none
expired_row now (some l) = some (expire now l)

release_row-held :
    (lease_id : String) (o : Option Lease) (token : Option ℕ) (now : ℕ) (t : LeaseTable)
    → (release_row lease_id o token now t).0 ≡ is_held token o
release_row-held lease_id none token now t = refl
release_row-held lease_id (some l) token now t =
    elim (Bool-cases (is_active l.status && token_fits token l)) [
      | inl hit ↦ rw hit refl
      | inr miss ↦ rw miss refl
    ]

release_row-lookup :
    (lease_id k : String) (o : Option Lease) (token : Option ℕ) (now : ℕ) (t : LeaseTable)
    → lookup lease_id t.rows ≡ o
    → lookup k (release_row lease_id o token now t).1.rows ≡ (
        if is_held token o && str_eq lease_id k
        then released_row now (lookup k t.rows)
        else lookup k t.rows)
release_row-lookup lease_id k none token now t h = refl
release_row-lookup lease_id k (some l) token now t h =
    elim (Bool-cases (is_active l.status && token_fits token l)) [
      | inr miss ↦ rw miss refl
      | inl hit ↦ elim (Bool-cases (str_eq lease_id k)) [
        | inr other ↦
            rw (hit, other)
              (lookup-insert lease_id k (record l { status = released; updated_at = now }) t.rows
                ∙ rw other refl)
        | inl same ↦
            let here : lookup k t.rows ≡ some l =
              ap (λ j. lookup j t.rows) (sym ((str_eq_iff lease_id k).0 same)) ∙ h in
            rw (hit, same, here)
              (lookup-insert lease_id k (record l { status = released; updated_at = now }) t.rows
                ∙ rw same refl)
      ]
    ]

is_held-expire :
    (token : Option ℕ) (now : ℕ) (o : Option Lease)
    → is_held token (expired_row now o) ≡ (is_held token o && not (is_overdue_row now o))
is_held-expire token now none = refl
is_held-expire none now (some l) = ground arith
is_held-expire (some k) now (some l) = ground arith

expired_row-lookup :
    (now : ℕ) (t : LeaseTable) (k : String)
    → lookup k (expire_locked now t).0.rows ≡ expired_row now (lookup k t.rows)
expired_row-lookup now t k = lookup-expire_locked now t k ∙ same (lookup k t.rows)
  where
    same :
        (o : Option Lease)
        → Path
            (Option Lease)
            (elim o [ none ↦ none | some l ↦ some (expire now l) ])
            (expired_row now o)
    same none = refl
    same (some l) = refl

-- The row of a released lease is not overdue, so the sweep has not changed it.
swept_release :
    (lease_id k : String) (token : Option ℕ) (now : ℕ) (t : LeaseTable)
    → Path
        (Option Lease)
        (if is_held token (expired_row now (lookup lease_id t.rows)) && str_eq lease_id k
          then released_row now (expired_row now (lookup k t.rows))
          else expired_row now (lookup k t.rows))
        (if is_held token (lookup lease_id t.rows)
            && not (is_overdue_row now (lookup lease_id t.rows))
            && str_eq lease_id k
          then released_row now (lookup k t.rows)
          else expired_row now (lookup k t.rows))
swept_release lease_id k token now t =
    rw (is_held-expire token now (lookup lease_id t.rows)) (elim (Bool-cases (str_eq lease_id k)) [
      | inr other ↦ rw other (ground arith)
      | inl same ↦ rw (sym ((str_eq_iff lease_id k).0 same)) (at (lookup lease_id t.rows))
    ])
  where
    at :
        (o : Option Lease)
        → Path
            (Option Lease)
            (if (is_held token o && not (is_overdue_row now o)) && str_eq lease_id lease_id
              then released_row now (expired_row now o)
              else expired_row now o)
            (if is_held token o && not (is_overdue_row now o) && str_eq lease_id lease_id
              then released_row now o
              else expired_row now o)
    at none = refl
    at (some l) = elim (Bool-cases (is_overdue now l)) [
      | inl over ↦ rw over (ground arith)
      | inr fresh ↦ rw fresh (ground arith)
    ]

-- `SQLiteLeaseStore.release_lease` answers true exactly when the lease is stored active with the token that is
-- asked for, even when its time has run out; it then marks that row released, and changes nothing else.
-- `RedisLeaseStore.release_lease` also wants that the time has not run out; every row that it does not
-- release is as the sweep leaves it, so that one that has run out is expired.
pub release-redis_release :
    (lease_id k : String) (token : Option ℕ) (now : ℕ) (t : LeaseTable)
    → ((release_lease lease_id token now t).0 ≡ is_held token (lookup lease_id t.rows))
      × (lookup k (release_lease lease_id token now t).1.rows ≡ (
          if is_held token (lookup lease_id t.rows) && str_eq lease_id k
          then released_row now (lookup k t.rows)
          else lookup k t.rows))
      × ((redis_release_lease lease_id token now t).0 ≡ (
          is_held token (lookup lease_id t.rows)
          && not (is_overdue_row now (lookup lease_id t.rows))))
      × (lookup k (redis_release_lease lease_id token now t).1.rows ≡ (
          if is_held token (lookup lease_id t.rows)
            && not (is_overdue_row now (lookup lease_id t.rows))
            && str_eq lease_id k
          then released_row now (lookup k t.rows)
          else expired_row now (lookup k t.rows)))
unfolding redis_release_lease release_lease
release-redis_release lease_id k token now t =
    let swept = (expire_locked now t).0 in
    let o = lookup lease_id t.rows in
    (
      release_row-held lease_id o token now t,
      release_row-lookup lease_id k o token now t refl,
      release_row-held lease_id (lookup lease_id swept.rows) token now swept
          ∙ rw (expired_row-lookup now t lease_id) (is_held-expire token now o),
      release_row-lookup lease_id k (lookup lease_id swept.rows) token now swept refl
          ∙ rw (expired_row-lookup now t lease_id, expired_row-lookup now t k)
              (swept_release lease_id k token now t),
    )
