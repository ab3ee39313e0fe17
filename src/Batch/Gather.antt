-- ===== src/Batch/Gather.antt =====
-- Selecting the items at a list of indices, as src/blackbase/contracts/batch.py does, and increasing
-- lists of indices.
use blackbase.Prelude.{
  ℕ, zero, suc, ◌<◌, ◌≡◌, refl, sym, ap, subst, List, [], ◌∷◌, Option, none, some, arith, length,
  get_elem?, All,
}
use blackbase.Batch.{cons?, gather}

-- Strictly increasing.
abbrev pub Increasing : List ℕ → Type 0
Increasing [] = Unit
Increasing (i ∷ is) = All (λ j. i < j) is × Increasing is

abbrev pub Below : ℕ → List ℕ → Type 0
Below n is = All (λ i. i < n) is

All-weaken : {P Q : ℕ → Type 0} (is : List ℕ) → ((i : ℕ) → P i → Q i) → All P is → All Q is
All-weaken [] w a = tt
All-weaken (i ∷ is) w a = (w i a.0, All-weaken is w a.1)

pub All-get_elem? :
    (P : ℕ → Type 0) (is : List ℕ) (k : ℕ) {i : ℕ} → All P is → get_elem? is k ≡ some i → P i
All-get_elem? P [] k a h = cc
All-get_elem? P (j ∷ is) zero a h = subst P (cc) a.0
All-get_elem? P (j ∷ is) (suc k) a h = All-get_elem? P is k a.1 h

-- An index below the length finds an item.
pub get_elem?-found {ℓ} :
    {A : Type ℓ} (xs : List A) (i : ℕ) → i < length xs → (x : A) × (get_elem? xs i ≡ some x)
get_elem?-found [] i h = absurd (omega arith)
get_elem?-found (x ∷ xs) zero h = (x, refl)
get_elem?-found (x ∷ xs) (suc i) h = get_elem?-found xs i (omega arith)

-- Selecting below the length succeeds, and selects one item for each index.
pub gather-found {ℓ} :
    {A : Type ℓ} (xs : List A) (is : List ℕ)
    → Below (length xs) is
    → (ys : List A) × (gather xs is ≡ some ys) × (length ys ≡ length is)
gather-found xs [] b = ([], refl, refl)
gather-found xs (i ∷ is) b =
    let (x, at) = get_elem?-found xs i b.0 in
    let (ys, rest, same) = gather-found xs is b.1 in (x ∷ ys, rw (at, rest) refl, ap suc same)

cons?-some {ℓ} :
    {A : Type ℓ} (o : Option A) (r : Option (List A)) {ys : List A}
    → cons? o r ≡ some ys
    → (x : A) × (zs : List A) × (o ≡ some x) × (r ≡ some zs) × (x ∷ zs ≡ ys)
cons?-some none r h = cc
cons?-some (some x) none h = cc
cons?-some (some x) (some zs) h = (x, zs, refl, refl, cc)

-- The k-th selected item is the item at the k-th index.
pub gather-get_elem? {ℓ} :
    {A : Type ℓ} (xs : List A) (is : List ℕ) {ys : List A} (k : ℕ) {i : ℕ}
    → gather xs is ≡ some ys
    → get_elem? is k ≡ some i
    → get_elem? ys k ≡ get_elem? xs i
gather-get_elem? xs [] k g h = cc
gather-get_elem? xs (j ∷ is) zero {i} g h =
    let (x, zs, at, rest, e) = cons?-some (get_elem? xs j) (gather xs is) g in
    let f : j ≡ i = cc in
    subst (λ l. get_elem? l 0 ≡ get_elem? xs i) e (subst (λ k. some x ≡ get_elem? xs k) f (sym at))
gather-get_elem? xs (j ∷ is) (suc k) {i} g h =
    let (x, zs, at, rest, e) = cons?-some (get_elem? xs j) (gather xs is) g in
    subst (λ l. get_elem? l (suc k) ≡ get_elem? xs i) e (gather-get_elem? xs is k rest h)

-- Selecting twice is selecting by the selected indices.
pub gather-gather {ℓ} :
    {A : Type ℓ} (xs : List A) (is js : List ℕ) {ys : List A} {ks : List ℕ}
    → gather xs is ≡ some ys
    → gather is js ≡ some ks
    → gather xs ks ≡ gather ys js
gather-gather xs is [] g h = let e : [] ≡ _ = cc in subst (λ l. gather xs l ≡ some []) e refl
gather-gather xs is (j ∷ js) {ys} g h =
    let (k, ks', at, rest, e) = cons?-some (get_elem? is j) (gather is js) h in
    subst (λ l. gather xs l ≡ gather ys (j ∷ js)) e
      (rw (gather-get_elem? xs is j g at, gather-gather xs is js g rest) refl)

-- What is selected at indices that satisfy a predicate.
pub gather-All :
    (P : ℕ → Type 0) (is js : List ℕ) {ks : List ℕ} → All P is → gather is js ≡ some ks → All P ks
gather-All P is [] a h = let e : [] ≡ _ = cc in subst (All P) e tt
gather-All P is (j ∷ js) a h =
    let (k, ks', at, rest, e) = cons?-some (get_elem? is j) (gather is js) h in
    subst (All P) e (All-get_elem? P is j a at, gather-All P is js a rest)

-- Later places of an increasing list hold larger numbers.
Increasing-lt :
    (is : List ℕ) (j k : ℕ) {x y : ℕ}
    → Increasing is
    → j < k
    → get_elem? is j ≡ some x
    → get_elem? is k ≡ some y
    → x < y
Increasing-lt [] j k inc l hj hk = cc
Increasing-lt (i ∷ is) zero zero inc l hj hk = absurd (omega arith)
Increasing-lt (i ∷ is) (suc j) zero inc l hj hk = absurd (omega arith)
Increasing-lt (i ∷ is) zero (suc k) {x} {y} inc l hj hk =
    let e : i ≡ x = cc in subst (λ z. z < y) e (All-get_elem? (λ z. i < z) is k inc.0 hk)
Increasing-lt (i ∷ is) (suc j) (suc k) inc l hj hk = Increasing-lt is j k inc.1 (omega arith) hj hk

gather-above :
    (is : List ℕ) (j : ℕ) (js : List ℕ) {x : ℕ} {ks : List ℕ}
    → Increasing is
    → get_elem? is j ≡ some x
    → All (λ l. j < l) js
    → gather is js ≡ some ks
    → All (λ y. x < y) ks
gather-above is j [] {x} inc at above h = let e : [] ≡ _ = cc in subst (All (λ y. x < y)) e tt
gather-above is j (l ∷ js) {x} inc at above h =
    let (k, ks', there, rest, e) = cons?-some (get_elem? is l) (gather is js) h in
    subst (All (λ y. x < y)) e
      (Increasing-lt is j l inc above.0 at there, gather-above is j js inc at above.1 rest)

-- Selecting at increasing places of an increasing list gives an increasing list.
pub gather-Increasing :
    (is js : List ℕ) {ks : List ℕ}
    → Increasing is
    → Increasing js
    → gather is js ≡ some ks
    → Increasing ks
gather-Increasing is [] inc jnc h = let e : [] ≡ _ = cc in subst Increasing e tt
gather-Increasing is (j ∷ js) inc jnc h =
    let (k, ks', at, rest, e) = cons?-some (get_elem? is j) (gather is js) h in
    subst Increasing e
      (gather-above is j js inc at jnc.0 rest, gather-Increasing is js inc jnc.1 rest)
