-- ===== src/Grants/Invariant.antt =====
-- What every pool of src/blackbase/resources/grant_pool.py keeps, over the grants that are made and given back.
use blackbase.Prelude.{
  KeysApart, erase-KeysApart, ℕ, ◌+◌, ◌≤◌, ◌≡◌, refl, sym, ap, ◌∙◌, subst, inl, inr, false, String,
  [], ◌∷◌, ◌++◌, none, some, str_eq, str_eq_iff, Bool-cases, Dict, lookup, erase, total,
  lookup-erase, le-total, arith,
}
use blackbase.Grants.{PoolConfig, Pool, Subgrant, initial, release}
use blackbase.Grants.Counts.{count_of, count_of-append, count_of-sort_tokens}

total-erase_absent :
    (f : Subgrant → ℕ) (k : String) (d : Dict Subgrant)
    → lookup k d ≡ none
    → total f (erase k d) ≡ total f d
total-erase_absent f k [] h = refl
total-erase_absent f k ((j, v) ∷ d) h = elim (Bool-cases (str_eq j k)) [
  | inl same ↦ let e : some v ≡ none = sym (rw same refl) ∙ h in cc
  | inr other ↦
      let ih = total-erase_absent f k d (sym (rw other refl) ∙ h) in rw other (omega arith)
]

total-erase :
    (f : Subgrant → ℕ) (k : String) (g : Subgrant) (d : Dict Subgrant)
    → KeysApart d
    → lookup k d ≡ some g
    → total f (erase k d) + f g ≡ total f d
total-erase f k g [] a h = cc
total-erase f k g ((j, v) ∷ d) a h = elim (Bool-cases (str_eq j k)) [
  | inl same ↦
      let e : some v ≡ some g = sym (rw same refl) ∙ h in
      let e' : v ≡ g = cc in
      let absent : lookup k d ≡ none =
        subst (λ i. lookup i d ≡ none) ((str_eq_iff j k).0 same) a.0 in
      let ih = total-erase_absent f k d absent in let same_value = ap f e' in rw same (omega arith)
  | inr other ↦ let ih = total-erase f k g d a.1 (sym (rw other refl) ∙ h) in rw other (omega arith)
]

pub total-two :
    (f : Subgrant → ℕ) (j k : String) (g h : Subgrant) (d : Dict Subgrant)
    → lookup j d ≡ some g
    → lookup k d ≡ some h
    → str_eq j k ≡ false
    → f g + f h ≤ total f d
total-two f j k g h [] p q n = cc
total-two f j k g h ((i, v) ∷ d) p q n = elim (Bool-cases (str_eq i j)) [
  | inl first ↦
      let e : some v ≡ some g = sym (rw first refl) ∙ p in
      let same = ap f (let e' : v ≡ g = cc in e') in
      let miss : str_eq i k ≡ false =
        subst (λ l. str_eq l k ≡ false) (sym ((str_eq_iff i j).0 first)) n in
      let rest = le-total f k h d (sym (rw miss refl) ∙ q) in omega arith
  | inr other ↦ elim (Bool-cases (str_eq i k)) [
    | inl second ↦
        let e : some v ≡ some h = sym (rw second refl) ∙ q in
        let same = ap f (let e' : v ≡ h = cc in e') in
        let rest = le-total f j g d (sym (rw other refl) ∙ p) in omega arith
    | inr miss ↦
        let ih = total-two f j k g h d (sym (rw other refl) ∙ p) (sym (rw miss refl) ∙ q) n in
        omega arith
  ]
]

-- What is free and what the active grants hold, by quantity and by token, are the totals of the parent.
pub record IsConserved (cfg : PoolConfig) (p : Pool) : Type 0 where
  pub workers :
      p.available.workers + total (λ g. g.quantities.workers) p.active ≡ cfg.totals.workers
  pub threads :
      p.available.threads + total (λ g. g.quantities.threads) p.active ≡ cfg.totals.threads
  pub gpus : p.available.gpus + total (λ g. g.quantities.gpus) p.active ≡ cfg.totals.gpus
  pub memory_mb :
      p.available.memory_mb + total (λ g. g.quantities.memory_mb) p.active ≡ cfg.totals.memory_mb
  pub gpu_memory_mb :
      p.available.gpu_memory_mb + total (λ g. g.quantities.gpu_memory_mb) p.active
      ≡ cfg.totals.gpu_memory_mb
  pub tokens :
      (t : String)
      → count_of t p.available_tokens + total (λ g. count_of t g.device_tokens) p.active
        ≡ count_of t cfg.tokens
  pub apart : KeysApart p.active
  pub named : (k : String) (g : Subgrant) → lookup k p.active ≡ some g → g.grant_id ≡ k

pub initial-IsConserved : (cfg : PoolConfig) → IsConserved cfg (initial cfg)
unfolding initial
initial-IsConserved cfg = record {
  workers = omega arith;
  threads = omega arith;
  gpus = omega arith;
  memory_mb = omega arith;
  gpu_memory_mb = omega arith;
  tokens = λ t. omega arith;
  apart = tt;
  named = λ k g h. cc;
}

pub release-IsConserved :
    (cfg : PoolConfig) (p : Pool) (k : String) (g : Subgrant)
    → IsConserved cfg p
    → lookup k p.active ≡ some g
    → IsConserved cfg (release cfg g p)
unfolding release
release-IsConserved cfg p k g v h =
    let own : lookup g.grant_id p.active ≡ some g =
      subst (λ i. lookup i p.active ≡ some g) (sym (v.named k g h)) h in
    let back = λ (f : Subgrant → ℕ). total-erase f g.grant_id g p.active v.apart own in
    record {
      workers = let b = back (λ g. g.quantities.workers) in omega (arith, v.workers);
      threads = let b = back (λ g. g.quantities.threads) in omega (arith, v.threads);
      gpus = let b = back (λ g. g.quantities.gpus) in omega (arith, v.gpus);
      memory_mb = let b = back (λ g. g.quantities.memory_mb) in omega (arith, v.memory_mb);
      gpu_memory_mb =
          let b = back (λ g. g.quantities.gpu_memory_mb) in omega (arith, v.gpu_memory_mb);
      tokens = λ t.
          let b = back (λ g. count_of t g.device_tokens) in
          let s = count_of-sort_tokens cfg t (p.available_tokens ++ g.device_tokens) in
          let a = count_of-append t p.available_tokens g.device_tokens in
          let w = v.tokens t in omega arith;
      apart = erase-KeysApart g.grant_id p.active v.apart;
      named = λ j u at. elim (Bool-cases (str_eq g.grant_id j)) [
        | inl same ↦
            let e : none ≡ some u = sym (lookup-erase g.grant_id j p.active ∙ rw same refl) ∙ at in
            cc
        | inr other ↦ v.named j u (sym (lookup-erase g.grant_id j p.active ∙ rw other refl) ∙ at)
      ];
    }
