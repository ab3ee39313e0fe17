-- ===== src/Lease.antt =====
-- The Project L0 lease authority: `SQLiteLeaseStore` of src/blackbase/resources/lease_store.py, for one
-- namespace. A transaction that raises rolls back; `now` is the reading of the clock, in ticks.
pub mod Fencing
pub mod History
pub mod Backends
mod Tests
use blackbase.Prelude.{
  ◌-◌, ℕ, ◌+◌, Bool, true, false, ◌&&◌, ◌||◌, not, String, List, [], ◌∷◌, Option, none, some,
  if◌then◌else◌, ltb, leb, ◌==◌, Dict, lookup, insert, map_values, count_values, values, keep,
  Result, ok, err, ◌>>=◌, ◌>>◌, ℤ, pos_part,
}

pub data LeaseStatus : Type 0 where
  active released expired : LeaseStatus

-- `ResourceLease` of src/blackbase/resources/model.py; `expires_at = 0` is no expiry.
pub record Lease : Type 0 where
  pub lease_id : String
  pub owner_id : String
  pub scope : String
  pub resources : Dict String
  pub status : LeaseStatus
  pub created_at : ℕ
  pub updated_at : ℕ
  pub expires_at : ℕ
  pub fencing_token : ℕ
  pub metadata : Dict String

-- The tables `resource_leases`, by its primary key, and `resource_lease_counters`.
pub record LeaseTable : Type 0 where
  pub rows : Dict Lease
  pub next_fencing_token : ℕ

-- What `validate_active` raises, a primary key that is taken, and `KeyError`.
pub data LeaseError : Type 0 where
  refused duplicate unknown_lease : LeaseError

abbrev pub is_active : LeaseStatus → Bool
is_active active = true
is_active released = false
is_active expired = false

-- The `WHERE` clause of `_expire_locked`.
abbrev pub is_overdue : ℕ → Lease → Bool
is_overdue now l = is_active l.status && ltb 0 l.expires_at && leb l.expires_at now

abbrev pub expire : ℕ → Lease → Lease
expire now l = if is_overdue now l then record l { status = expired; updated_at = now } else l

-- `_expire_locked`; the second part is the row count.
unfoldable pub expire_locked : ℕ → LeaseTable → LeaseTable × ℕ
expire_locked now t =
    (record t { rows = map_values (expire now) t.rows }, count_values (is_overdue now) t.rows)

-- `ORDER BY fencing_token`: a stable insertion.
abbrev place : Lease → List Lease → List Lease
place l [] = l ∷ []
place l (m ∷ ms) = if leb l.fencing_token m.fencing_token then l ∷ m ∷ ms else m ∷ place l ms

abbrev by_token : List Lease → List Lease
by_token [] = []
by_token (l ∷ ls) = place l (by_token ls)

unfoldable pub active_rows : LeaseTable → List Lease
active_rows t = by_token (keep (λ l. is_active l.status) (values t.rows))

-- `now + ttl if ttl > 0 else 0.0`.
abbrev pub expiry : ℕ → ℤ → ℕ
expiry now ttl = if ltb 0 (pos_part ttl) then now + pos_part ttl else 0

-- The row that `acquire_lease` inserts.
abbrev pub issued : ℕ → ℤ → ℕ → Lease → Lease
issued now ttl token lease = record lease {
  status = active;
  created_at = now;
  updated_at = now;
  expires_at = expiry now ttl;
  fencing_token = token;
}

-- `INSERT INTO resource_leases`: a taken primary key raises.
abbrev pub insert_row : Option Lease → Lease → LeaseTable → Result LeaseError (Lease × LeaseTable)
insert_row (some old) l t = err duplicate
insert_row none l t = ok (l, record t { rows = insert l.lease_id l t.rows })

-- `acquire_lease`; the callback `validate_active` is an argument.
unfoldable pub acquire_lease :
    (List Lease → Result LeaseError (Unit {0}))
    → Lease
    → ℤ
    → ℕ
    → LeaseTable
    → Result LeaseError (Lease × LeaseTable)
unfolding expire_locked active_rows
acquire_lease validate_active lease ttl now t = do
  let swept = (expire_locked now t).0
  validate_active (active_rows swept)
  let counted = record swept { next_fencing_token = swept.next_fencing_token + 1 }
  insert_row (lookup lease.lease_id counted.rows) (issued now ttl swept.next_fencing_token lease)
      counted

-- `get`.
unfoldable pub get : String → ℕ → LeaseTable → Option Lease × LeaseTable
unfolding expire_locked
get lease_id now t = let swept = (expire_locked now t).0 in (lookup lease_id swept.rows, swept)

-- `list`: the active leases.
unfoldable pub list : ℕ → LeaseTable → List Lease × LeaseTable
unfolding expire_locked active_rows
list now t = let swept = (expire_locked now t).0 in (active_rows swept, swept)

-- `list_all`.
unfoldable pub list_all : LeaseTable → List Lease
list_all t = by_token (values t.rows)

abbrev pub renew_row : String → Option Lease → ℕ → ℤ → ℕ → LeaseTable → Option Lease × LeaseTable
renew_row lease_id none token ttl now t = (none, t)
renew_row lease_id (some l) token ttl now t =
    if l.fencing_token == token && is_active l.status
    then (let renewed = record l { updated_at = now; expires_at = expiry now ttl } in
        (some renewed, record t { rows = insert lease_id renewed t.rows }))
    else (none, t)

-- `renew_lease`.
unfoldable pub renew_lease : String → ℕ → ℤ → ℕ → LeaseTable → Option Lease × LeaseTable
unfolding expire_locked
renew_lease lease_id token ttl now t =
    let swept = (expire_locked now t).0 in
    renew_row lease_id (lookup lease_id swept.rows) token ttl now swept

abbrev pub token_fits : Option ℕ → Lease → Bool
token_fits none l = true
token_fits (some token) l = l.fencing_token == token

abbrev pub release_row : String → Option Lease → Option ℕ → ℕ → LeaseTable → Bool × LeaseTable
release_row lease_id none token now t = (false, t)
release_row lease_id (some l) token now t =
    if is_active l.status && token_fits token l
    then (
      true,
      record t { rows = insert lease_id (record l { status = released; updated_at = now }) t.rows },
    )
    else (false, t)

-- `release_lease`: it does not sweep first.
unfoldable pub release_lease : String → Option ℕ → ℕ → LeaseTable → Bool × LeaseTable
release_lease lease_id token now t = release_row lease_id (lookup lease_id t.rows) token now t

-- `RedisLeaseStore.release_lease` over the same table: it sweeps first.
unfoldable pub redis_release_lease : String → Option ℕ → ℕ → LeaseTable → Bool × LeaseTable
unfolding expire_locked
redis_release_lease lease_id token now t =
    let swept = (expire_locked now t).0 in
    release_row lease_id (lookup lease_id swept.rows) token now swept

-- `expires_at <= 0 OR expires_at > now`.
abbrev pub not_expired : ℕ → Lease → Bool
not_expired now l = l.expires_at == 0 || ltb now l.expires_at

abbrev pub fence_row : Option Lease → ℕ → ℕ → Bool
fence_row none token now = false
fence_row (some l) token now = l.fencing_token == token && is_active l.status && not_expired now l

-- `is_current`, and `_fence_current_locked` of src/blackbase/resources/budget.py.
unfoldable pub is_current : String → ℕ → ℕ → LeaseTable → Bool
is_current lease_id token now t = fence_row (lookup lease_id t.rows) token now

-- `recover_expired`.
unfoldable pub recover_expired : ℕ → LeaseTable → ℕ × LeaseTable
unfolding expire_locked
recover_expired now t = let (swept, count) = expire_locked now t in (count, swept)

abbrev pub accept_all : List Lease → Result LeaseError (Unit {0})
accept_all active_leases = ok tt

-- `create`, which drops the row that it gets.
unfoldable pub create : Lease → ℕ → LeaseTable → Result LeaseError (Lease × LeaseTable)
unfolding acquire_lease
create lease now t = acquire_lease accept_all lease (ℤ.pos (lease.expires_at - now)) now t

-- `delete`, which drops the answer.
unfoldable pub delete : String → ℕ → LeaseTable → LeaseTable
unfolding release_lease
delete lease_id now t = (release_lease lease_id none now t).1

abbrev update_row : Option Lease → Lease → LeaseTable → Result LeaseError LeaseTable
update_row none lease t = err unknown_lease
update_row (some old) lease t = ok (record t { rows = insert lease.lease_id lease t.rows })

-- `update`: the row is overwritten, its token included.
unfoldable pub update : Lease → LeaseTable → Result LeaseError LeaseTable
update lease t = update_row (lookup lease.lease_id t.rows) lease t
