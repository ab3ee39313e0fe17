-- ===== src/Lease/Fencing.antt =====
-- The fencing tokens of src/blackbase/resources/lease_store.py: they only grow, no two leases share
-- one, and a lease that has ended is never current again.
use blackbase.Prelude.{
  ℕ, ◌<◌, ◌≡◌, refl, sym, ap, ◌∙◌, inl, inr, Bool, true, false, ◌&&◌, String, ◌==◌, Option, none,
  some, arith, str_eq, str_eq_iff, lookup, insert, lookup-insert, lookup-map_values, Bool-cases, ℤ,
}
use blackbase.Lease.{
  Lease, LeaseTable, is_active, expire, expire_locked, renew_row, renew_lease, release_row,
  release_lease, fence_row, is_current, token_fits,
}

-- Every row stands under its own id, below the counter, and no two rows share a token.
pub record IsFenced (t : LeaseTable) : Type 0 where
  pub own : (k : String) (l : Lease) → lookup k t.rows ≡ some l → l.lease_id ≡ k
  pub below :
      (k : String) (l : Lease) → lookup k t.rows ≡ some l → l.fencing_token < t.next_fencing_token
  pub distinct :
      (k j : String) (l m : Lease)
      → lookup k t.rows ≡ some l
      → lookup j t.rows ≡ some m
      → l.fencing_token ≡ m.fencing_token
      → k ≡ j

-- The row that `expire_locked` leaves under a key.
pub lookup-expire_locked :
    (now : ℕ) (t : LeaseTable) (k : String)
    → lookup k (expire_locked now t).0.rows
      ≡ elim (lookup k t.rows) [ none ↦ none | some l ↦ some (expire now l) ]
unfolding expire_locked
lookup-expire_locked now t k = lookup-map_values (expire now) k t.rows

abbrev pub is_granted : Option Lease → Bool
is_granted none = false
is_granted (some l) = true

renew_row-expire :
    (o : Option Lease) (lease_id : String) (token : ℕ) (ttl : ℤ) (now : ℕ) (t : LeaseTable)
    → is_granted
        (renew_row lease_id
          (elim o [ none ↦ none | some l ↦ some (expire now l) ])
          token
          ttl
          now
          t).0
      ≡ fence_row o token now
renew_row-expire none lease_id token ttl now t = refl
renew_row-expire (some l) lease_id token ttl now t = ground arith

-- `renew_lease` grants a renewal exactly where `is_current` holds of the lease and its token.
pub renew-eq-is_current :
    (lease_id : String) (token : ℕ) (ttl : ℤ) (now : ℕ) (t : LeaseTable)
    → is_granted (renew_lease lease_id token ttl now t).0 ≡ is_current lease_id token now t
unfolding renew_lease is_current
renew-eq-is_current lease_id token ttl now t =
    rw (lookup-expire_locked now t lease_id)
      (renew_row-expire (lookup lease_id t.rows) lease_id token ttl now (expire_locked now t).0)

-- Each row of `t'` is a row of `t` under the same id, with the same token; the counter stays.
pub record KeepsTokens (t t' : LeaseTable) : Type 0 where
  pub counter : t'.next_fencing_token ≡ t.next_fencing_token
  pub rows :
      (k : String) (l' : Lease)
      → lookup k t'.rows ≡ some l'
      → (l : Lease) × (lookup k t.rows ≡ some l)
        × (l'.lease_id ≡ l.lease_id)
        × (l'.fencing_token ≡ l.fencing_token)
        × (is_active l'.status ≡ true → is_active l.status ≡ true)

KeepsTokens-refl : (t : LeaseTable) → KeepsTokens t t
KeepsTokens-refl t = record { counter = refl; rows = λ k l h. (l, h, refl, refl, λ a. a) }

KeepsTokens-trans : {t u v : LeaseTable} → KeepsTokens t u → KeepsTokens u v → KeepsTokens t v
KeepsTokens-trans a b = record {
  counter = b.counter ∙ a.counter;
  rows = λ k l h.
      let (m, hm, im, tm, am) = b.rows k l h in
      let (n, hn, in', tn, an) = a.rows k m hm in (n, hn, im ∙ in', tm ∙ tn, λ x. an (am x));
}

expire_row :
    (now : ℕ) (o : Option Lease) (l' : Lease)
    → Path (Option Lease) (elim o [ none ↦ none | some l ↦ some (expire now l) ]) (some l')
    → (l : Lease) × (o ≡ some l)
      × (l'.lease_id ≡ l.lease_id)
      × (l'.fencing_token ≡ l.fencing_token)
      × (is_active l'.status ≡ true → is_active l.status ≡ true)
expire_row now none l' h = cc
expire_row now (some l) l' h =
    let e : expire now l ≡ l' = cc in (l, refl, ground arith, ground arith, λ a. ground arith)

pub expire_locked-KeepsTokens : (now : ℕ) (t : LeaseTable) → KeepsTokens t (expire_locked now t).0
unfolding expire_locked
expire_locked-KeepsTokens now t = record {
  counter = refl;
  rows = λ k l' h.
      expire_row now (lookup k t.rows) l' (sym (lookup-map_values (expire now) k t.rows) ∙ h);
}

-- A write to one row that keeps its id and token, and does not revive it.
rewrite-KeepsTokens :
    (lease_id : String) (l new : Lease) (t : LeaseTable)
    → lookup lease_id t.rows ≡ some l
    → (new.lease_id ≡ l.lease_id)
      × (new.fencing_token ≡ l.fencing_token)
      × (is_active new.status ≡ true → is_active l.status ≡ true)
    → KeepsTokens t (record t { rows = insert lease_id new t.rows })
rewrite-KeepsTokens lease_id l new t e (i, tok, a) = record {
  counter = refl;
  rows = λ k l' h. elim (Bool-cases (str_eq lease_id k)) [
    | inl hit ↦
        let s : new ≡ l' = ground (arith, lookup-insert lease_id k new t.rows) in
        (
          l,
          ap (λ x. lookup x t.rows) (sym ((str_eq_iff lease_id k).0 hit)) ∙ e,
          ap (λ (x : Lease). x.lease_id) (sym s) ∙ i,
          ap (λ (x : Lease). x.fencing_token) (sym s) ∙ tok,
          λ b. a (ap (λ (x : Lease). is_active x.status) s ∙ b),
        )
    | inr miss ↦ (l', ground (arith, lookup-insert lease_id k new t.rows), refl, refl, λ b. b)
  ];
}

renew_row-KeepsTokens :
    (lease_id : String) (o : Option Lease) (token : ℕ) (ttl : ℤ) (now : ℕ) (t : LeaseTable)
    → lookup lease_id t.rows ≡ o
    → KeepsTokens t (renew_row lease_id o token ttl now t).1
renew_row-KeepsTokens lease_id none token ttl now t e = KeepsTokens-refl t
renew_row-KeepsTokens lease_id (some l) token ttl now t e =
    elim (Bool-cases (l.fencing_token == token && is_active l.status)) [
      | inl pass ↦ rw pass (rewrite-KeepsTokens lease_id l _ t e (refl, refl, λ a. a))
      | inr fail ↦ rw fail (KeepsTokens-refl t)
    ]

release_row-KeepsTokens :
    (lease_id : String) (o : Option Lease) (token : Option ℕ) (now : ℕ) (t : LeaseTable)
    → lookup lease_id t.rows ≡ o
    → KeepsTokens t (release_row lease_id o token now t).1
release_row-KeepsTokens lease_id none token now t e = KeepsTokens-refl t
release_row-KeepsTokens lease_id (some l) token now t e =
    elim (Bool-cases (is_active l.status && token_fits token l)) [
      | inl pass ↦ rw pass (rewrite-KeepsTokens lease_id l _ t e (refl, refl, λ a. cc))
      | inr fail ↦ rw fail (KeepsTokens-refl t)
    ]

pub renew-KeepsTokens :
    (lease_id : String) (token : ℕ) (ttl : ℤ) (now : ℕ) (t : LeaseTable)
    → KeepsTokens t (renew_lease lease_id token ttl now t).1
unfolding renew_lease
renew-KeepsTokens lease_id token ttl now t =
    KeepsTokens-trans (expire_locked-KeepsTokens now t)
      (renew_row-KeepsTokens lease_id _ token ttl now (expire_locked now t).0 refl)

pub release-KeepsTokens :
    (lease_id : String) (token : Option ℕ) (now : ℕ) (t : LeaseTable)
    → KeepsTokens t (release_lease lease_id token now t).1
unfolding release_lease
release-KeepsTokens lease_id token now t = release_row-KeepsTokens lease_id _ token now t refl

pub KeepsTokens-IsFenced : {t t' : LeaseTable} → KeepsTokens t t' → IsFenced t → IsFenced t'
KeepsTokens-IsFenced {t} {t'} c f = record {
  own = λ k l h. let (m, hm, i, tok, a) = c.rows k l h in i ∙ f.own k m hm;
  below = λ k l h.
      let (m, hm, i, tok, a) = c.rows k l h in let b = f.below k m hm in omega (arith, c.counter);
  distinct = λ k j l m hl hm e.
      let (l₀, hl₀, il, tl, al) = c.rows k l hl in
      let (m₀, hm₀, im, tm, am) = c.rows j m hm in f.distinct k j l₀ m₀ hl₀ hm₀ (sym tl ∙ e ∙ tm);
}
