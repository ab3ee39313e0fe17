-- ===== src/Context/Visible.antt =====
-- The entries of a store of src/blackbase/context/context_store.py that a reader sees.
use blackbase.Prelude.{
  ℕ, ◌≤◌, ◌≡◌, refl, ◌∙◌, subst, inl, inr, Bool, true, false, String, List, [], ◌∷◌, Option, none,
  some, if◌then◌else◌, leb, str_eq, str_eq_iff, contains, Dict, lookup, erase, lookup-insert,
  lookup-erase, KeysApart, insert-KeysApart, erase-KeysApart, Bool-cases, Option-cases, arith,
}
use blackbase.Context.{ContextStore, expired, erase_all, set_expiry, sweep, write, delete}

-- Whether a time is up.
abbrev pub is_up : ℕ → Option ℕ → Bool
is_up now none = false
is_up now (some t) = leb t now

-- What a store shows under a key at a time.
abbrev pub visible : {V : Type 0} → ℕ → String → ContextStore V → Option V
visible now k m = if is_up now (lookup k m.expires_at) then none else lookup k m.values

lookup-erase_all :
    {V : Type 0} (j : String) (ks : List String) (d : Dict V)
    → lookup j (erase_all ks d) ≡ (if contains j ks then none else lookup j d)
lookup-erase_all j [] d = refl
lookup-erase_all j (k ∷ ks) d =
    ground (arith, lookup-erase_all j ks (erase k d), lookup-erase k j d)

absent-expired :
    (now : ℕ) (k : String) (d : Dict ℕ) → lookup k d ≡ none → contains k (expired now d) ≡ false
absent-expired now k [] h = refl
absent-expired now k ((j, t) ∷ d) h = ground (arith, absent-expired now k d)

contains-expired :
    (now : ℕ) (k : String) (d : Dict ℕ)
    → KeysApart d
    → contains k (expired now d) ≡ is_up now (lookup k d)
contains-expired now k [] a = refl
contains-expired now k ((j, t) ∷ d) a = elim (Bool-cases (str_eq j k)) [
  | inl same ↦
      let absent : lookup k d ≡ none =
        subst (λ i. lookup i d ≡ none) ((str_eq_iff j k).0 same) a.0 in
      let rest = absent-expired now k d absent in ground (arith, same, rest)
  | inr other ↦ let ih = contains-expired now k d a.1 in ground (arith, other, ih)
]

erase_all-KeysApart : (ks : List String) (d : Dict ℕ) → KeysApart d → KeysApart (erase_all ks d)
erase_all-KeysApart [] d a = a
erase_all-KeysApart (k ∷ ks) d a = erase_all-KeysApart ks (erase k d) (erase-KeysApart k d a)

pub set_expiry-KeysApart :
    (k : String) (t : Option ℕ) (d : Dict ℕ) → KeysApart d → KeysApart (set_expiry k t d)
set_expiry-KeysApart k none d a = erase-KeysApart k d a
set_expiry-KeysApart k (some t) d a = insert-KeysApart k t d a

set_expiry-lookup :
    (k j : String) (t : Option ℕ) (d : Dict ℕ)
    → lookup j (set_expiry k t d) ≡ (if str_eq k j then t else lookup j d)
set_expiry-lookup k j none d = lookup-erase k j d
set_expiry-lookup k j (some t) d = lookup-insert k j t d

module _ {V : Type 0} where
  pub sweep-values :
      (now : ℕ) (k : String) (m : ContextStore V)
      → KeysApart m.expires_at
      → lookup k (sweep now m).values ≡ visible now k m
  unfolding sweep
  sweep-values now k m a =
      lookup-erase_all k (expired now m.expires_at) m.values
      ∙ rw (contains-expired now k m.expires_at a) refl

  -- Sweeping changes nothing that is seen then or later.
  pub sweep-visible :
      (now later : ℕ) (k : String) (m : ContextStore V)
      → KeysApart m.expires_at
      → now ≤ later
      → visible later k (sweep now m) ≡ visible later k m
  unfolding sweep
  sweep-visible now later k m a le =
      let e = lookup-erase_all k (expired now m.expires_at) m.expires_at in
      let v = lookup-erase_all k (expired now m.expires_at) m.values in
      let c = contains-expired now k m.expires_at a in
      rw (e, v, c)
        (elim (Option-cases (lookup k m.expires_at)) [
          | inl lasting ↦ rw lasting refl
          | inr (t, at) ↦ elim (Bool-cases (leb t now)) [
            | inl up ↦ let up' : leb t later ≡ true = ground (arith, up) in rw (at, up, up') refl
            | inr live ↦ rw (at, live) refl
          ]
        ])

  pub sweep-KeysApart :
      (now : ℕ) (m : ContextStore V) → KeysApart m.expires_at → KeysApart (sweep now m).expires_at
  unfolding sweep
  sweep-KeysApart now m a = erase_all-KeysApart (expired now m.expires_at) m.expires_at a

  pub write-visible :
      (later : ℕ) (k j : String) (v : V) (t : Option ℕ) (m : ContextStore V)
      → visible later j (write k v t m)
        ≡ (if str_eq k j then (if is_up later t then none else some v) else visible later j m)
  write-visible later k j v t m =
      rw (set_expiry-lookup k j t m.expires_at, lookup-insert k j v m.values)
        (elim (Bool-cases (str_eq k j)) [ inl same ↦ rw same refl | inr other ↦ rw other refl ])

  pub delete-visible :
      (later : ℕ) (k j : String) (m : ContextStore V)
      → visible later j (delete k m) ≡ (if str_eq k j then none else visible later j m)
  unfolding delete
  delete-visible later k j m =
      rw (lookup-erase k j m.expires_at, lookup-erase k j m.values)
        (elim (Bool-cases (str_eq k j)) [ inl same ↦ rw same refl | inr other ↦ rw other refl ])
