-- ===== src/Grants/History.antt =====
-- The pools that grants and releases of src/blackbase/resources/grant_pool.py can reach.
use blackbase.Prelude.{
  insert-KeysApart, ℕ, ◌+◌, ◌-◌, ◌≤◌, ◌≡◌, ◌≢◌, refl, sym, ap, ◌∙◌, subst, inl, inr, Bool, true,
  false, ◌&&◌, String, List, [], ◌∷◌, none, some, ltb, leb, str_eq, str_eq_iff, contains, length,
  Bool-cases, Result-cases, lookup, insert, total-insert_new, lookup-insert, Result, ok, err,
  raise_if, ◌>>◌, arith,
}
use blackbase.Grants.{
  PoolConfig, Pool, Resources, Subgrant, Attempt, GrantError, fits, initial, requested_resources,
  has_repeat, is_subset, validate_static, can_allocate, allocated_tokens, granted, taken, acquire,
  release, zip_with, raised, waits, grants, repeated_tokens, token_not_available, deadline_expired,
  over_total, tokens_outside, capabilities_outside, other_backend, other_compute_backend, cpu_only,
  device_outside,
}
use blackbase.Grants.Counts.{
  count_of, count_of-take, remove_tokens-count, subset-count, contains-count, not_contains-count,
}
use blackbase.Grants.Invariant.{total-two, IsConserved, initial-IsConserved, release-IsConserved}

-- What `can_allocate` establishes of the tokens that are then taken.
allocated-free :
    (cfg : PoolConfig) (r : Resources) (p : Pool) (t : String)
    → has_repeat r.device_tokens ≡ false
    → can_allocate cfg r p ≡ true
    → count_of t (allocated_tokens cfg r p) ≤ count_of t p.available_tokens
unfolding can_allocate
allocated-free cfg r p t n h = elim (Bool-cases (ltb 0 (length r.device_tokens))) [
  | inl named ↦
      let inside : is_subset r.device_tokens p.available_tokens ≡ true = ground (arith, h, named) in
      rw named (subset-count r.device_tokens p.available_tokens t n inside)
  | inr unnamed ↦ elim (Bool-cases (ltb 0 r.quantities.gpus)) [
    | inl some_gpus ↦ rw (unnamed, some_gpus) (count_of-take t r.quantities.gpus p.available_tokens)
    | inr no_gpus ↦ rw (unnamed, no_gpus) (omega arith)
  ]
]

-- The pool after a grant.
abbrev pub after_grant : PoolConfig → String → Resources → Pool → List String → Pool
after_grant cfg grant_id r p left = record {
  available = zip_with (λ a b. a - b) p.available r.quantities;
  available_tokens = left;
  active = insert grant_id (granted cfg grant_id r (allocated_tokens cfg r p)) p.active;
}

granted-IsConserved :
    (cfg : PoolConfig) (grant_id : String) (r : Resources) (p : Pool) (left : List String)
    → IsConserved cfg p
    → lookup grant_id p.active ≡ none
    → fits r.quantities p.available ≡ true
    → ((t : String)
        → count_of t left + count_of t (allocated_tokens cfg r p) ≡ count_of t p.available_tokens)
    → IsConserved cfg (after_grant cfg grant_id r p left)
unfolding granted
granted-IsConserved cfg grant_id r p left v new fit counts =
    let more = λ (f : Subgrant → ℕ).
      total-insert_new f grant_id (granted cfg grant_id r (allocated_tokens cfg r p)) p.active
        new in
    let workers_fit : r.quantities.workers ≤ p.available.workers = ground (arith, fit) in
    let threads_fit : r.quantities.threads ≤ p.available.threads = ground (arith, fit) in
    let gpus_fit : r.quantities.gpus ≤ p.available.gpus = ground (arith, fit) in
    let memory_fit : r.quantities.memory_mb ≤ p.available.memory_mb = ground (arith, fit) in
    let gpu_memory_fit : r.quantities.gpu_memory_mb ≤ p.available.gpu_memory_mb =
      ground (arith, fit) in
    record {
      workers = let b = more (λ g. g.quantities.workers) in omega (arith, v.workers);
      threads = let b = more (λ g. g.quantities.threads) in omega (arith, v.threads);
      gpus = let b = more (λ g. g.quantities.gpus) in omega (arith, v.gpus);
      memory_mb = let b = more (λ g. g.quantities.memory_mb) in omega (arith, v.memory_mb);
      gpu_memory_mb =
          let b = more (λ g. g.quantities.gpu_memory_mb) in omega (arith, v.gpu_memory_mb);
      tokens = λ t.
          let b = more (λ g. count_of t g.device_tokens) in
          let c = counts t in let w = v.tokens t in omega arith;
      apart =
          insert-KeysApart grant_id (granted cfg grant_id r (allocated_tokens cfg r p)) p.active
            v.apart;
      named = λ j u at. elim (Bool-cases (str_eq grant_id j)) [
        | inl same ↦
            let e : some (granted cfg grant_id r (allocated_tokens cfg r p)) ≡ some u =
              sym (
                lookup-insert grant_id j (granted cfg grant_id r (allocated_tokens cfg r p))
                  p.active
                ∙ rw same refl)
              ∙ at in
            let e' : granted cfg grant_id r (allocated_tokens cfg r p) ≡ u = cc in
            ap (λ (g : Subgrant). g.grant_id) (sym e') ∙ (str_eq_iff grant_id j).0 same
        | inr other ↦ v.named j u (
            sym (
              lookup-insert grant_id j (granted cfg grant_id r (allocated_tokens cfg r p)) p.active
              ∙ rw other refl)
            ∙ at)
      ];
    }

can_allocate-fits :
    (cfg : PoolConfig) (r : Resources) (p : Pool)
    → can_allocate cfg r p ≡ true
    → fits r.quantities p.available ≡ true
unfolding can_allocate
can_allocate-fits cfg r p h = elim (Bool-cases (fits r.quantities p.available)) [
  | inl fit ↦ fit
  | inr over ↦ let e : false ≡ true = sym (rw over refl) ∙ h in cc
]

abbrev pool_of : Pool → Attempt → Pool
pool_of p (raised e) = p
pool_of p waits = p
pool_of p (grants g q) = q

-- A round that is past its checks.
taken-grants :
    (cfg : PoolConfig) (grant_id : String) (r : Resources) (p : Pool)
    → has_repeat r.device_tokens ≡ false
    → can_allocate cfg r p ≡ true
    → (left : List String) × (taken cfg grant_id r p
        ≡ grants
            (granted cfg grant_id r (allocated_tokens cfg r p))
            (after_grant cfg grant_id r p left))
      × ((t : String)
          → count_of t left + count_of t (allocated_tokens cfg r p) ≡ count_of t p.available_tokens)
taken-grants cfg grant_id r p n h =
    let (left, at, counts) =
      remove_tokens-count (allocated_tokens cfg r p) p.available_tokens
        (λ t. allocated-free cfg r p t n h) in
    (left, rw (at, taken) refl, counts)

raise-other :
    (b : Bool) (x t : GrantError) (k : Result GrantError (Unit {0}))
    → x ≢ t
    → k ≢ err t
    → (raise_if b x >> k) ≢ err t
raise-other true x t k n m = λ e. n (err-injective e)
  where
    err-injective : {x t : GrantError} → Path (Result GrantError (Unit {0})) (err x) (err t) → x ≡ t
    err-injective e = cc
raise-other false x t k n m = m

ok-other : (t : GrantError) → Path (Result GrantError (Unit {0})) (ok tt) (err t) → ⊥
ok-other t e = cc

validate_static-other :
    (cfg : PoolConfig) (r : Resources) → validate_static cfg r ≢ err token_not_available
unfolding validate_static
validate_static-other cfg r =
    raise-other _ over_total _ _ (λ e. cc)
      (raise-other _ tokens_outside _ _ (λ e. cc)
        (raise-other _ capabilities_outside _ _ (λ e. cc)
          (raise-other _ other_backend _ _ (λ e. cc)
            (raise-other _ other_compute_backend _ _ (λ e. cc)
              (raise-other _ cpu_only _ _ (λ e. cc)
                (raise-other _ device_outside _ _ (λ e. cc) (ok-other token_not_available)))))))

-- A round raises one of the errors of its checks, waits, or grants what fits.
data Outcome (cfg : PoolConfig) (grant_id : String) (request : Resources) (p : Pool) (a : Attempt)
    : Type 0 where
  raises :
      (e : GrantError) → e ≢ token_not_available → a ≡ raised e → Outcome cfg grant_id request p a
  idles : a ≡ waits → Outcome cfg grant_id request p a
  gives :
      (left : List String)
      → fits (requested_resources request).quantities p.available ≡ true
      → ((t : String)
          → count_of t left + count_of t (allocated_tokens cfg (requested_resources request) p)
            ≡ count_of t p.available_tokens)
      → a
        ≡ grants
            (granted cfg grant_id
              (requested_resources request)
              (allocated_tokens cfg (requested_resources request) p))
            (after_grant cfg grant_id (requested_resources request) p left)
      → Outcome cfg grant_id request p a

same_tokens :
    (request : Resources) → (requested_resources request).device_tokens ≡ request.device_tokens
unfolding requested_resources
same_tokens request = refl

acquire-Outcome :
    (cfg : PoolConfig) (now deadline_at : ℕ) (grant_id : String) (request : Resources) (p : Pool)
    → Outcome cfg grant_id request p (acquire cfg now deadline_at grant_id request p)
unfolding acquire
acquire-Outcome cfg now deadline_at grant_id request p =
    elim (Bool-cases (has_repeat request.device_tokens)) [
      | inl twice ↦ raises repeated_tokens (λ e. cc) (rw (twice, acquire) refl)
      | inr once ↦ elim (Result-cases (validate_static cfg (requested_resources request))) [
        | inr (e, bad) ↦
            raises e
              (λ same. validate_static-other cfg (requested_resources request) (bad ∙ ap err same))
              (rw (once, acquire) (rw bad refl))
        | inl (u, good) ↦ elim (Bool-cases (ltb 0 deadline_at && leb deadline_at now)) [
          | inl late ↦ raises deadline_expired (λ e. cc) (rw (once, acquire) (rw (good, late) refl))
          | inr early ↦ elim (Bool-cases (can_allocate cfg (requested_resources request) p)) [
            | inr full ↦ idles (rw (once, acquire) (rw (good, early, full) refl))
            | inl room ↦
                let (left, at, counts) =
                  taken-grants cfg grant_id (requested_resources request) p
                    (ap has_repeat (same_tokens request) ∙ once) room in
                gives left (can_allocate-fits cfg (requested_resources request) p room) counts
                  (rw (once, acquire) (rw (good, early, room) at))
          ]
        ]
      ]
    ]

-- The pools that an execution reaches: `uuid4` gives each grant an id that no active grant has, and a grant is
-- given back once, at the exit of its `with` block.
pub data Reachable (cfg : PoolConfig) : Pool → Type 0 where
  start : (p : Pool) → p ≡ initial cfg → Reachable cfg p
  grant :
      (p : Pool) (now deadline_at : ℕ) (grant_id : String) (request : Resources) (g : Subgrant)
      (q : Pool)
      → Reachable cfg p
      → lookup grant_id p.active ≡ none
      → acquire cfg now deadline_at grant_id request p ≡ grants g q
      → Reachable cfg q
  give_back :
      (p : Pool) (grant_id : String) (g : Subgrant) (q : Pool)
      → Reachable cfg p
      → lookup grant_id p.active ≡ some g
      → q ≡ release cfg g p
      → Reachable cfg q

acquire-IsConserved :
    (cfg : PoolConfig) (now deadline_at : ℕ) (grant_id : String) (request : Resources) (p : Pool)
    (g : Subgrant) (q : Pool)
    → IsConserved cfg p
    → lookup grant_id p.active ≡ none
    → acquire cfg now deadline_at grant_id request p ≡ grants g q
    → IsConserved cfg q
acquire-IsConserved cfg now deadline_at grant_id request p g q v new h =
    elim (acquire-Outcome cfg now deadline_at grant_id request p) [
      | raises e n at ↦ let c : raised e ≡ grants g q = sym at ∙ h in cc
      | idles at ↦ let c : waits ≡ grants g q = sym at ∙ h in cc
      | gives left fit counts at ↦
          subst (IsConserved cfg) (ap (pool_of p) (sym at ∙ h))
            (granted-IsConserved cfg grant_id (requested_resources request) p left v new fit counts)
    ]

-- In every pool that an execution reaches, what is free and what the active grants hold add up to the parent's
-- totals, for each quantity and for each device token, and the active grants stand once each under their ids.
pub Reachable-IsConserved : (cfg : PoolConfig) (p : Pool) → Reachable cfg p → IsConserved cfg p
Reachable-IsConserved cfg p (start _ e) = subst (IsConserved cfg) (sym e) (initial-IsConserved cfg)
Reachable-IsConserved cfg q (grant p now deadline_at grant_id request g _ r new h) =
    acquire-IsConserved cfg now deadline_at grant_id request p g q (Reachable-IsConserved cfg p r)
      new h
Reachable-IsConserved cfg q (give_back p grant_id g _ r at e) =
    subst (IsConserved cfg) (sym e)
      (release-IsConserved cfg p grant_id g (Reachable-IsConserved cfg p r) at)

has_repeat-count : (t : String) (ts : List String) → has_repeat ts ≡ false → count_of t ts ≤ 1
has_repeat-count t [] h = omega arith
has_repeat-count t (s ∷ ss) h = elim (Bool-cases (str_eq s t)) [
  | inl same ↦
      let e = (str_eq_iff s t).0 same in
      let absent : count_of t ss ≡ 0 =
        subst (λ u. count_of u ss ≡ 0) e (not_contains-count s ss (ground (arith, h))) in
      ground (arith, absent, same)
  | inr other ↦ let k = has_repeat-count t ss (ground (arith, h)) in ground (arith, k, other)
]

-- In every pool that an execution reaches from a parent grant whose tokens are distinct, two active grants
-- of different ids share no device token.
pub Reachable-exclusive :
    (cfg : PoolConfig) (p : Pool) (j k t : String) (g h : Subgrant)
    → Reachable cfg p
    → has_repeat cfg.tokens ≡ false
    → lookup j p.active ≡ some g
    → lookup k p.active ≡ some h
    → str_eq j k ≡ false
    → contains t g.device_tokens ≡ true
    → contains t h.device_tokens ≡ false
Reachable-exclusive cfg p j k t g h r once at at' n there =
    elim (Bool-cases (contains t h.device_tokens)) [
      | inr absent ↦ absent
      | inl too ↦
          let v = Reachable-IsConserved cfg p r in
          let w = v.tokens t in
          let two = total-two (λ g. count_of t g.device_tokens) j k g h p.active at at' n in
          let a = contains-count t g.device_tokens there in
          let b = contains-count t h.device_tokens too in
          let c = has_repeat-count t cfg.tokens once in absurd (omega arith)
    ]
