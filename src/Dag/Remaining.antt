-- ===== src/Dag/Remaining.antt =====
-- What a round of the topological sort of src/blackbase/project/dag.py leaves.
use blackbase.Prelude.{
  ◌≤◌, ◌<◌, ◌≡◌, refl, sym, ap, ◌∙◌, inl, inr, Bool, true, false, ◌&&◌, ◌||◌, not, String, List, [],
  ◌∷◌, ◌++◌, Option, none, some, arith, if◌then◌else◌, str_eq, str_eq_iff, str_eq_refl, contains,
  keep, length, Dict, lookup, erase, map_values, lookup-erase, lookup-map_values, Bool-cases,
}
use blackbase.Dag.{is_ready, ready_cases, erase_all, difference, after_round}

-- Erasing a present key makes the dict smaller.
length-erase-le : (k : String) (d : Dict (List String)) → length (erase k d) ≤ length d
length-erase-le k [] = omega arith
length-erase-le k ((j, v) ∷ d) = ground (arith, length-erase-le k d)

length-erase-lt :
    (k : String) (d : Dict (List String)) {v : List String}
    → lookup k d ≡ some v
    → length (erase k d) < length d
length-erase-lt k [] h = cc
length-erase-lt k ((j, w) ∷ d) {v} h =
    ground (arith, length-erase-le k d, length-erase-lt k d {v = v})

length-erase_all-le :
    (ks : List String) (d : Dict (List String)) → length (erase_all ks d) ≤ length d
length-erase_all-le [] d = omega arith
length-erase_all-le (k ∷ ks) d =
    omega (arith, length-erase_all-le ks (erase k d), length-erase-le k d)

length-map_values :
    (f : List String → List String) (d : Dict (List String)) → length (map_values f d) ≡ length d
length-map_values f [] = refl
length-map_values f ((k, v) ∷ d) = omega (arith, length-map_values f d)

lookup-erase_all :
    (ks : List String) (j : String) (d : Dict (List String))
    → lookup j (erase_all ks d) ≡ (if contains j ks then none else lookup j d)
lookup-erase_all [] j d = refl
lookup-erase_all (k ∷ ks) j d =
    ground (arith, lookup-erase_all ks j (erase k d), lookup-erase k j d)

pub contains-keep :
    (p : String → Bool) (x : String) (xs : List String)
    → contains x (keep p xs) ≡ (contains x xs && p x)
contains-keep p x [] = refl
contains-keep p x (y ∷ ys) = elim (Bool-cases (str_eq y x)) [
  | inl hit ↦
      (let e : p y ≡ p x = ap p ((str_eq_iff y x).0 hit) in ground (arith, contains-keep p x ys))
  | inr miss ↦ ground (arith, contains-keep p x ys)
]

pub contains-append :
    (x : String) (xs ys : List String) → contains x (xs ++ ys) ≡ (contains x xs || contains x ys)
contains-append x [] ys = refl
contains-append x (y ∷ xs) ys = ground (arith, contains-append x xs ys)

-- A Case is ready when it waits for nothing more.
pub ready-empty :
    (cases : List String) (d : Dict (List String)) (n : String)
    → contains n (ready_cases cases d) ≡ true
    → lookup n d ≡ some []
ready-empty cases d n h =
    waiting (lookup n d) refl (ground (arith, contains-keep (λ m. is_ready (lookup m d)) n cases))
  where
    waiting : (o : Option (List String)) → lookup n d ≡ o → is_ready o ≡ true → lookup n d ≡ some []
    waiting none e r = cc
    waiting (some []) e r = e
    waiting (some (x ∷ xs)) e r = cc

-- A round in which something is ready leaves less.
pub after_round-lt :
    (cases : List String) (d : Dict (List String)) (r : String) (rs : List String)
    → ready_cases cases d ≡ r ∷ rs
    → length (after_round (r ∷ rs) d) < length d
after_round-lt cases d r rs h =
    let at : contains r (ready_cases cases d) ≡ true = rw h (rw str_eq_refl) in
    omega (
      arith,
      length-map_values (difference (r ∷ rs)) (erase_all rs (erase r d)),
      length-erase_all-le rs (erase r d),
      length-erase-lt r d (ready-empty cases d r at),
    )

lookup-after_round :
    (ready : List String) (j : String) (d : Dict (List String))
    → lookup j (after_round ready d) ≡ elim (if contains j ready then none else lookup j d) [
      | none ↦ none
      | some v ↦ some (difference ready v)
    ]
lookup-after_round ready j d = rw lookup-map_values (rw (lookup-erase_all ready j d) refl)

-- What remains of a Case after a round.
pub remaining_row :
    (ready : List String) (j : String) (d : Dict (List String)) (rs' : List String)
    → lookup j (after_round ready d) ≡ some rs'
    → (contains j ready ≡ false)
      × ((rs : List String) × (lookup j d ≡ some rs) × (rs' ≡ difference ready rs))
remaining_row ready j d rs' h =
    found (contains j ready) (lookup j d) refl refl (sym (lookup-after_round ready j d) ∙ h)
  where
    found :
        (b : Bool) (o : Option (List String))
        → contains j ready ≡ b
        → lookup j d ≡ o
        → Path
            (Option (List String))
            (elim (if b then none else o) [ none ↦ none | some v ↦ some (difference ready v) ])
            (some rs')
        → (contains j ready ≡ false)
          × ((rs : List String) × (lookup j d ≡ some rs) × (rs' ≡ difference ready rs))
    found true o e f g = cc
    found false none e f g = cc
    found false (some rs) e f g = (e, (rs, f, cc))

pub remaining_left :
    (ready : List String) (j : String) (d : Dict (List String)) (rs : List String)
    → contains j ready ≡ false
    → lookup j d ≡ some rs
    → lookup j (after_round ready d) ≡ some (difference ready rs)
remaining_left ready j d rs e f = rw lookup-after_round (rw (e, f) refl)

pub contains-difference :
    (ready : List String) (x : String) (rs : List String)
    → contains x rs ≡ true
    → (contains x (difference ready rs) || contains x ready) ≡ true
contains-difference ready x rs h = ground (arith, contains-keep (λ d. not (contains d ready)) x rs)
