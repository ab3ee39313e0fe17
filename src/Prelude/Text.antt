-- ===== src/Prelude/Text.antt =====
-- `str.strip`, `str.lower`, `len`, and dict equality. `lower` maps the letters A to Z; other letters
-- with case are left alone.
use Prim.Native.Nat.{ℕ, zero, suc, ◌-◌}
use Prim.Native.Char.{Char, code}
use Prim.Native.String.{String, compare}
use Prim.Native.Nat.{Ordering}
use mathlib.Core.Path.{◌≡◌, refl, ap}
use mathlib.Core.Logic.{inl, inr}
use mathlib.Core.Bool.{Bool, true, false, ◌&&◌, ◌||◌}
use mathlib.Core.Option.{Option, none, some}
use mathlib.Core.List.{List, [], ◌∷◌}
use native.Mathlib.Omega.{arith}
use blackbase.Prelude.Tests.{if◌then◌else◌, leb, ◌==◌, str_eq, str_eq_refl, Bool-cases}
use blackbase.Prelude.Dicts.{Dict, lookup, insert}

-- The code points for which Python's `str.isspace` holds.
is_space : ℕ → Bool
is_space c =
    leb 9 c && leb c 13
    || leb 28 c && leb c 32
    || c == 133
    || c == 160
    || c == 5760
    || leb 8192 c && leb c 8202
    || c == 8232
    || c == 8233
    || c == 8239
    || c == 8287
    || c == 12288

unfoldable pub is_empty : String → Bool
is_empty String.[] = true
is_empty (String.◌∷◌ c s) = false

trim_start : String → String
unfolding is_space
trim_start String.[] = String.[]
trim_start (String.◌∷◌ c s) =
    let rest = trim_start s in if is_space (code c) then rest else String.◌∷◌ c s

end_char : Char → String → String
unfolding is_space
end_char c String.[] = if is_space (code c) then String.[] else String.◌∷◌ c String.[]
end_char c (String.◌∷◌ d s) = String.◌∷◌ c (String.◌∷◌ d s)

trim_end : String → String
unfolding end_char
trim_end String.[] = String.[]
trim_end (String.◌∷◌ c s) = end_char c (trim_end s)

unfoldable pub strip : String → String
unfolding trim_start trim_end
strip s = trim_end (trim_start s)

pick : ℕ → String → Char → Char
pick n String.[] d = d
pick zero (String.◌∷◌ c s) d = c
pick (suc n) (String.◌∷◌ c s) d = pick n s d

lower_char : Char → Char
unfolding pick
lower_char c =
    if leb 65 (code c) && leb (code c) 90
    then pick (code c - 65) "abcdefghijklmnopqrstuvwxyz" c
    else c

unfoldable pub lower : String → String
unfolding lower_char
lower String.[] = String.[]
lower (String.◌∷◌ c s) = String.◌∷◌ (lower_char c) (lower s)

strip_sample : strip "  ok go " ≡ "ok go"
unfolding strip
strip_sample = refl

lower_sample : lower "Sha256:AbZ" ≡ "sha256:abz"
unfolding lower
lower_sample = refl

lead : Char → List String → List String
lead c [] = String.◌∷◌ c String.[] ∷ []
lead c (p ∷ ps) = String.◌∷◌ c p ∷ ps

-- `s.split(".")`.
unfoldable pub split_dots : String → List String
unfolding lead
split_dots String.[] = String.[] ∷ []
split_dots (String.◌∷◌ c s) =
    let rest = split_dots s in if code c == 46 then String.[] ∷ rest else lead c rest

-- `":" in s`.
unfoldable pub has_colon : String → Bool
has_colon String.[] = false
has_colon (String.◌∷◌ c s) = code c == 58 || has_colon s

-- `s < t` on texts, by code points.
abbrev pub str_ltb : String → String → Bool
str_ltb s t = elim (compare s t) [ Ordering.lt ↦ true | _ ↦ false ]

option_eq : Option String → Option String → Bool
option_eq none none = true
option_eq none (some b) = false
option_eq (some a) none = false
option_eq (some a) (some b) = str_eq a b

-- `a` has under each of its keys what `b` has there.
agrees : Dict String → Dict String → Dict String → Bool
unfolding option_eq
agrees [] a b = true
agrees ((k, v) ∷ rest) a b = option_eq (lookup k a) (lookup k b) && agrees rest a b

-- `dict(a) == dict(b)`: the order of the keys does not count.
unfoldable pub dict_eq : Dict String → Dict String → Bool
unfolding agrees
dict_eq a b = agrees a a b && agrees b a b

-- `a.update(b)`.
unfoldable pub update : {V : Type 0} → Dict V → Dict V → Dict V
update a [] = a
update a ((k, v) ∷ b) = update (insert k v a) b

option_eq_refl : (a : Option String) → option_eq a a ≡ true
unfolding option_eq
option_eq_refl none = refl
option_eq_refl (some a) = str_eq_refl a

agrees_refl : (rest a : Dict String) → agrees rest a a ≡ true
unfolding agrees
agrees_refl [] a = refl
agrees_refl ((k, v) ∷ rest) a = ground (arith, option_eq_refl (lookup k a), agrees_refl rest a)

pub dict_eq_refl : (a : Dict String) → dict_eq a a ≡ true
unfolding dict_eq
dict_eq_refl a = ground (arith, agrees_refl a a)

abbrev IsStart : String → Type 0
IsStart String.[] = Unit {0}
IsStart (String.◌∷◌ c s) = is_space (code c) ≡ false

trim_start-IsStart : (s : String) → IsStart (trim_start s)
unfolding trim_start
trim_start-IsStart String.[] = tt
trim_start-IsStart (String.◌∷◌ c s) = elim (Bool-cases (is_space (code c))) [
  | inl blank ↦ rw blank (trim_start-IsStart s)
  | inr solid ↦ rw solid solid
]

trim_start_self : (s : String) → IsStart s → trim_start s ≡ s
unfolding trim_start
trim_start_self String.[] h = refl
trim_start_self (String.◌∷◌ c s) h = rw h

end_char-IsStart : (c : Char) (s : String) → is_space (code c) ≡ false → IsStart (end_char c s)
unfolding end_char
end_char-IsStart c String.[] h = rw h h
end_char-IsStart c (String.◌∷◌ d s) h = h

trim_end-IsStart : (s : String) → IsStart s → IsStart (trim_end s)
unfolding trim_end
trim_end-IsStart String.[] h = tt
trim_end-IsStart (String.◌∷◌ c s) h = end_char-IsStart c (trim_end s) h

trim_end-end_char :
    (c : Char) (s : String) → trim_end s ≡ s → trim_end (end_char c s) ≡ end_char c s
unfolding trim_end
trim_end-end_char c String.[] h = elim (Bool-cases (is_space (code c))) [
  | inl blank ↦ rw blank
  | inr solid ↦ rw solid (rw solid)
]
trim_end-end_char c (String.◌∷◌ d s) h = ap (end_char c) h

trim_end_idem : (s : String) → trim_end (trim_end s) ≡ trim_end s
unfolding trim_end
trim_end_idem String.[] = refl
trim_end_idem (String.◌∷◌ c s) = trim_end-end_char c (trim_end s) (trim_end_idem s)

pub strip_idem : (s : String) → strip (strip s) ≡ strip s
unfolding strip
strip_idem s =
    rw (trim_start_self _ (trim_end-IsStart _ (trim_start-IsStart s)))
      (trim_end_idem (trim_start s))
