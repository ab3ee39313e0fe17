-- ===== src/Lease/History.antt =====
-- Histories of the lease authority of src/blackbase/resources/lease_store.py.
use blackbase.Prelude.{
  ◌-◌, ℕ, ◌+◌, ◌<◌, ◌≡◌, refl, sym, ◌∙◌, subst, ◌≢◌, ◌⊎◌, inl, inr, false, String, List, [], ◌∷◌,
  Option, none, some, arith, str_eq_iff, lookup, insert, lookup-insert, Option-cases, Result, ok,
  err, >>-ok, ok-injective, ℤ,
}
use blackbase.Lease.{
  Lease, LeaseTable, LeaseError, is_active, expire, expire_locked, active_rows, issued, insert_row,
  acquire_lease, get, list, renew_lease, release_lease, is_current, recover_expired, create, delete,
  accept_all,
}
use blackbase.Lease.Fencing.{
  lookup-expire_locked, IsFenced, KeepsTokens, KeepsTokens-IsFenced, expire_locked-KeepsTokens,
  renew-KeepsTokens, release-KeepsTokens,
}

-- A call of the authority with the reading of the clock, but for `update`, which may write any
-- row and token.
pub data LeaseCall : Type 0 where
  acquires : (List Lease → Result LeaseError (Unit {0})) → Lease → ℤ → ℕ → LeaseCall
  gets : String → ℕ → LeaseCall
  lists : ℕ → LeaseCall
  renews : String → ℕ → ℤ → ℕ → LeaseCall
  releases : String → Option ℕ → ℕ → LeaseCall
  recovers : ℕ → LeaseCall
  creates : Lease → ℕ → LeaseCall
  deletes : String → ℕ → LeaseCall

abbrev table_or : LeaseTable → Result LeaseError (Lease × LeaseTable) → LeaseTable
table_or t (ok (l, t')) = t'
table_or t (err e) = t

-- The table after a call.
unfoldable pub step : LeaseCall → LeaseTable → LeaseTable
unfolding get list recover_expired create delete
step (acquires validate lease ttl now) t = table_or t (acquire_lease validate lease ttl now t)
step (gets k now) t = (get k now t).1
step (lists now) t = (list now t).1
step (renews k token ttl now) t = (renew_lease k token ttl now t).1
step (releases k token now) t = (release_lease k token now t).1
step (recovers now) t = (recover_expired now t).1
step (creates lease now) t = table_or t (create lease now t)
step (deletes k now) t = delete k now t

unfoldable pub run : List LeaseCall → LeaseTable → LeaseTable
run [] t = t
run (c ∷ cs) t = run cs (step c t)

-- The row that a successful `acquire_lease` adds to the swept table.
pub record Adds (t : LeaseTable) (l : Lease) (t' : LeaseTable) : Type 0 where
  pub absent : lookup l.lease_id t.rows ≡ none
  pub token : l.fencing_token ≡ t.next_fencing_token
  pub counter : t'.next_fencing_token ≡ t.next_fencing_token + 1
  pub rows : (k : String) → lookup k t'.rows ≡ lookup k (insert l.lease_id l t.rows)

insert_row-Adds :
    (o : Option Lease) (l : Lease) (t : LeaseTable) {r : Lease} {t' : LeaseTable}
    → lookup l.lease_id t.rows ≡ o
    → l.fencing_token ≡ t.next_fencing_token
    → insert_row o l (record t { next_fencing_token = t.next_fencing_token + 1 }) ≡ ok (r, t')
    → Adds t r t'
insert_row-Adds (some old) l t e tok h = cc
insert_row-Adds none l t e tok h =
    subst (λ (p : Lease × LeaseTable). Adds t p.0 p.1) (ok-injective h)
      (record { absent = e; token = tok; counter = refl; rows = λ k. refl })

acquire-Adds :
    (validate : List Lease → Result LeaseError (Unit {0})) (lease : Lease) (ttl : ℤ) (now : ℕ)
    (t : LeaseTable) {r : Lease} {t' : LeaseTable}
    → acquire_lease validate lease ttl now t ≡ ok (r, t')
    → Adds (expire_locked now t).0 r t'
unfolding acquire_lease
acquire-Adds validate lease ttl now t h =
    let swept = (expire_locked now t).0 in
    insert_row-Adds (lookup lease.lease_id swept.rows)
      (issued now ttl swept.next_fencing_token lease) swept refl refl
      (>>-ok (validate (active_rows swept)) _ h).1

Adds-row :
    {t t' : LeaseTable} {l : Lease} (k : String) (m : Lease)
    → Adds t l t'
    → lookup k t'.rows ≡ some m
    → ((k ≡ l.lease_id) × (m ≡ l)) ⊎ (lookup k t.rows ≡ some m)
Adds-row {t} {t'} {l} k m a h =
    ground (arith, a.rows k, lookup-insert l.lease_id k l t.rows, str_eq_iff l.lease_id k)

Adds-IsFenced : {t t' : LeaseTable} {l : Lease} → Adds t l t' → IsFenced t → IsFenced t'
Adds-IsFenced {t} {t'} {l} a f = record {
  own = λ k m h. ground (arith, Adds-row k m a h, f.own k m);
  below = λ k m h. ground (arith, Adds-row k m a h, f.below k m, a.token, a.counter);
  distinct = λ k j m n hm hn e. ground (
    arith,
    Adds-row k m a hm,
    Adds-row j n a hn,
    a.token,
    f.below k m,
    f.below j n,
    f.distinct k j m n,
  );
}

acquire-IsFenced :
    (t : LeaseTable) (now : ℕ) (res : Result LeaseError (Lease × LeaseTable))
    → ((r : Lease) (t' : LeaseTable) → res ≡ ok (r, t') → Adds (expire_locked now t).0 r t')
    → IsFenced t
    → IsFenced (table_or t res)
acquire-IsFenced t now (ok (r, t')) adds f =
    Adds-IsFenced (adds r t' refl) (KeepsTokens-IsFenced (expire_locked-KeepsTokens now t) f)
acquire-IsFenced t now (err e) adds f = f

-- Every call keeps the tokens distinct and below the counter.
pub step-IsFenced : (c : LeaseCall) (t : LeaseTable) → IsFenced t → IsFenced (step c t)
unfolding step create delete
step-IsFenced (acquires validate lease ttl now) t f =
    acquire-IsFenced t now _ (λ r t' e. acquire-Adds validate lease ttl now t e) f
step-IsFenced (gets k now) t f = KeepsTokens-IsFenced (expire_locked-KeepsTokens now t) f
step-IsFenced (lists now) t f = KeepsTokens-IsFenced (expire_locked-KeepsTokens now t) f
step-IsFenced (renews k token ttl now) t f =
    KeepsTokens-IsFenced (renew-KeepsTokens k token ttl now t) f
step-IsFenced (releases k token now) t f =
    KeepsTokens-IsFenced (release-KeepsTokens k token now t) f
step-IsFenced (recovers now) t f = KeepsTokens-IsFenced (expire_locked-KeepsTokens now t) f
step-IsFenced (creates lease now) t f =
    acquire-IsFenced t now _
      (λ r t' e. acquire-Adds accept_all lease (ℤ.pos (lease.expires_at - now)) now t e) f
step-IsFenced (deletes k now) t f = KeepsTokens-IsFenced (release-KeepsTokens k none now t) f

-- Whatever calls but `update` are made on a table in which leases stand under their ids with distinct tokens below the
-- counter, the table stays so.
pub run-IsFenced : (cs : List LeaseCall) (t : LeaseTable) → IsFenced t → IsFenced (run cs t)
unfolding run
run-IsFenced [] t f = f
run-IsFenced (c ∷ cs) t f = run-IsFenced cs (step c t) (step-IsFenced c t f)

expired-row :
    (now : ℕ) (t : LeaseTable) (k : String) (l : Lease)
    → lookup k t.rows ≡ some l
    → lookup k (expire_locked now t).0.rows ≡ some (expire now l)
expired-row now t k l e = rw lookup-expire_locked (rw e refl)

-- On a table whose leases stand under their own ids, with distinct tokens below the counter: when
-- `acquire_lease` returns, the token of the new lease is above that of every lease stored before, and its id
-- is none of their keys.
pub acquire-token-fresh :
    (validate : List Lease → Result LeaseError (Unit {0})) (lease : Lease) (ttl : ℤ) (now : ℕ)
    (t : LeaseTable) {r : Lease} {t' : LeaseTable} (k : String) (l : Lease)
    → IsFenced t
    → acquire_lease validate lease ttl now t ≡ ok (r, t')
    → lookup k t.rows ≡ some l
    → (l.fencing_token < r.fencing_token) × (k ≢ r.lease_id)
acquire-token-fresh validate lease ttl now t {r} k l f h e =
    let a = acquire-Adds validate lease ttl now t h in
    let c = (expire_locked-KeepsTokens now t).counter in
    let b = f.below k l e in
    let found = expired-row now t k l e in
    (omega (arith, a.token, c), λ same. cc (found, a.absent, same))

-- A lease that was granted this token is not active any more, or never was under this id.
pub record IsEnded (k : String) (token : ℕ) (t : LeaseTable) : Type 0 where
  pub issued : token < t.next_fencing_token
  pub inactive :
      (l : Lease) → lookup k t.rows ≡ some l → l.fencing_token ≡ token → is_active l.status ≡ false

KeepsTokens-IsEnded :
    {k : String} {token : ℕ} {t t' : LeaseTable}
    → KeepsTokens t t'
    → IsEnded k token t
    → IsEnded k token t'
KeepsTokens-IsEnded {k} {token} {t} {t'} c e = record {
  issued = omega (arith, c.counter, e.issued);
  inactive = λ l h tok.
      let (m, hm, i, mt, a) = c.rows k l h in
      let off = e.inactive m hm (sym mt ∙ tok) in ground arith;
}

Adds-IsEnded :
    {k : String} {token : ℕ} {t t' : LeaseTable} {r : Lease}
    → Adds t r t'
    → IsEnded k token t
    → IsEnded k token t'
Adds-IsEnded {k} {token} {t} {t'} {r} a e = record {
  issued = omega (arith, a.counter, e.issued);
  inactive = λ l h tok. ground (arith, Adds-row k l a h, a.token, e.issued, e.inactive l);
}

acquire-IsEnded :
    {k : String} {token : ℕ} (t : LeaseTable) (now : ℕ)
    (res : Result LeaseError (Lease × LeaseTable))
    → ((r : Lease) (t' : LeaseTable) → res ≡ ok (r, t') → Adds (expire_locked now t).0 r t')
    → IsEnded k token t
    → IsEnded k token (table_or t res)
acquire-IsEnded t now (ok (r, t')) adds f =
    Adds-IsEnded (adds r t' refl) (KeepsTokens-IsEnded (expire_locked-KeepsTokens now t) f)
acquire-IsEnded t now (err e) adds f = f

step-IsEnded :
    {k : String} {token : ℕ} (c : LeaseCall) (t : LeaseTable)
    → IsEnded k token t
    → IsEnded k token (step c t)
unfolding step create delete
step-IsEnded (acquires validate lease ttl now) t f =
    acquire-IsEnded t now _ (λ r t' e. acquire-Adds validate lease ttl now t e) f
step-IsEnded (gets j now) t f = KeepsTokens-IsEnded (expire_locked-KeepsTokens now t) f
step-IsEnded (lists now) t f = KeepsTokens-IsEnded (expire_locked-KeepsTokens now t) f
step-IsEnded (renews j tok ttl now) t f = KeepsTokens-IsEnded (renew-KeepsTokens j tok ttl now t) f
step-IsEnded (releases j tok now) t f = KeepsTokens-IsEnded (release-KeepsTokens j tok now t) f
step-IsEnded (recovers now) t f = KeepsTokens-IsEnded (expire_locked-KeepsTokens now t) f
step-IsEnded (creates lease now) t f =
    acquire-IsEnded t now _
      (λ r t' e. acquire-Adds accept_all lease (ℤ.pos (lease.expires_at - now)) now t e) f
step-IsEnded (deletes k now) t f = KeepsTokens-IsEnded (release-KeepsTokens k none now t) f

IsEnded-not-current :
    (k : String) (token now : ℕ) (t : LeaseTable)
    → IsEnded k token t
    → is_current k token now t ≡ false
unfolding is_current
IsEnded-not-current k token now t e = elim (Option-cases (lookup k t.rows)) [
  | inl gone ↦ rw gone
  | inr (l, h) ↦ rw h (ground (arith, e.inactive l h))
]

-- Once no row with an id and an issued token is active, no later calls but `update` bring them back: at
-- every time
-- `is_current` is false of that id and token.
pub run-ended-not-current :
    (k : String) (token now : ℕ) (cs : List LeaseCall) (t : LeaseTable)
    → IsEnded k token t
    → is_current k token now (run cs t) ≡ false
unfolding run
run-ended-not-current k token now [] t e = IsEnded-not-current k token now t e
run-ended-not-current k token now (c ∷ cs) t e =
    run-ended-not-current k token now cs (step c t) (step-IsEnded c t e)
