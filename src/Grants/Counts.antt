-- ===== src/Grants/Counts.antt =====
-- How often a token stands in a list, for the free tokens of src/blackbase/resources/grant_pool.py.
use blackbase.Prelude.{
  ℕ, zero, suc, ◌+◌, ◌≤◌, ◌≡◌, refl, subst, inl, inr, true, false, String, List, [], ◌∷◌, ◌++◌,
  some, if◌then◌else◌, str_eq, str_eq_iff, contains, take, Bool-cases, arith,
}
use blackbase.Grants.{
  PoolConfig, insert_token, sort_tokens, remove_token, remove_tokens, has_repeat, is_subset,
}

abbrev pub count_of : String → List String → ℕ
count_of t [] = 0
count_of t (s ∷ ss) = (if str_eq s t then 1 else 0) + count_of t ss

pub count_of-append :
    (t : String) (xs ys : List String) → count_of t (xs ++ ys) ≡ count_of t xs + count_of t ys
count_of-append t [] ys = omega arith
count_of-append t (x ∷ xs) ys = omega (arith, count_of-append t xs ys)

count_of-insert_token :
    (cfg : PoolConfig) (t x : String) (xs : List String)
    → count_of t (insert_token cfg x xs) ≡ (if str_eq x t then 1 else 0) + count_of t xs
count_of-insert_token cfg t x [] = refl
count_of-insert_token cfg t x (y ∷ ys) = ground (arith, count_of-insert_token cfg t x ys)

pub count_of-sort_tokens :
    (cfg : PoolConfig) (t : String) (xs : List String)
    → count_of t (sort_tokens cfg xs) ≡ count_of t xs
count_of-sort_tokens cfg t [] = refl
count_of-sort_tokens cfg t (x ∷ xs) =
    omega (arith, count_of-insert_token cfg t x (sort_tokens cfg xs), count_of-sort_tokens cfg t xs)

pub count_of-take : (t : String) (n : ℕ) (xs : List String) → count_of t (take n xs) ≤ count_of t xs
count_of-take t zero xs = omega arith
count_of-take t (suc n) [] = omega arith
count_of-take t (suc n) (x ∷ xs) = omega (arith, count_of-take t n xs)

-- Removing a token that is there.
remove_token-count :
    (x : String) (xs : List String)
    → 1 ≤ count_of x xs
    → (left : List String) × (remove_token x xs ≡ some left)
      × ((t : String) → count_of t left + (if str_eq x t then 1 else 0) ≡ count_of t xs)
remove_token-count x [] h = absurd (omega arith)
remove_token-count x (y ∷ ys) h = elim (Bool-cases (str_eq y x)) [
  | inl same ↦
      let e : y ≡ x = (str_eq_iff y x).0 same in (ys, rw same refl, λ t. rw e (omega arith))
  | inr other ↦
      let (left, at, counts) = remove_token-count x ys (ground arith) in
      (y ∷ left, rw (other, at) refl, λ t. let c = counts t in omega arith)
]

pub remove_tokens-count :
    (xs free : List String)
    → ((t : String) → count_of t xs ≤ count_of t free)
    → (left : List String) × (remove_tokens xs free ≡ some left)
      × ((t : String) → count_of t left + count_of t xs ≡ count_of t free)
remove_tokens-count [] free h = (free, refl, λ t. omega arith)
remove_tokens-count (x ∷ xs) free h =
    let self : str_eq x x ≡ true = (str_eq_iff x x).1 refl in
    let (next, at, counts) = remove_token-count x free (let k = h x in ground (arith, k, self)) in
    let (left, at', counts') =
      remove_tokens-count xs next (λ t. let k = h t in let c = counts t in omega arith) in
    (left, rw (at, remove_tokens) at', λ t. let c = counts t in let c' = counts' t in omega arith)

-- Tokens without repeats that are all in a list.
pub contains-count : (x : String) (xs : List String) → contains x xs ≡ true → 1 ≤ count_of x xs
contains-count x [] h = cc
contains-count x (y ∷ ys) h = ground (arith, contains-count x ys)

pub not_contains-count : (x : String) (xs : List String) → contains x xs ≡ false → count_of x xs ≡ 0
not_contains-count x [] h = refl
not_contains-count x (y ∷ ys) h = ground (arith, not_contains-count x ys)

pub subset-count :
    (xs free : List String) (t : String)
    → has_repeat xs ≡ false
    → is_subset xs free ≡ true
    → count_of t xs ≤ count_of t free
subset-count [] free t r s = omega arith
subset-count (x ∷ xs) free t r s = elim (Bool-cases (str_eq x t)) [
  | inl same ↦
      let e : x ≡ t = (str_eq_iff x t).0 same in
      let none_left : count_of x xs ≡ 0 = not_contains-count x xs (ground (arith, r)) in
      let there : 1 ≤ count_of x free = contains-count x free (ground (arith, s)) in
      subst (λ u. count_of u (x ∷ xs) ≤ count_of u free) e
        (let self : str_eq x x ≡ true = (str_eq_iff x x).1 refl in
          ground (arith, none_left, there, self))
  | inr other ↦
      let k = subset-count xs free t (ground (arith, r)) (ground (arith, s)) in ground (arith, k)
]
