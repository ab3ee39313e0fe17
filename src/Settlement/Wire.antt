-- ===== src/Settlement/Wire.antt =====
-- The values that src/blackbase/resources/budget_settlement.py writes as JSON: `_plain_wire`, and the reads
-- and conversions of a payload. Numbers are whole; Python's conversions of values of another type
-- than the wanted one are parameters.
use blackbase.Prelude.{
  ℕ, suc, ◌≡◌, refl, Bool, true, false, ◌&&◌, not, String, Option, none, some, if◌then◌else◌, ◌==◌,
  str_eq, is_empty, Result, ok, err, ◌>>=◌, >>=-ok, ok-injective, ℤ, pos, int_eq, sym,
}

pub data SettlementError : Type 0 where
  missing_name bad_status not_transport_safe negative_amount bad_schema bad_conversion :
      SettlementError
  other_authority unknown_settlement : SettlementError

-- A Python value: `wired v` is an object whose `as_dict()` returns `v`, `other` any other object.
mutual
  pub data Value : Type 0 where
    null other : Value
    truth : Bool → Value
    number : ℤ → Value
    text : String → Value
    items tuple : Items → Value
    mapping : Fields → Value
    wired : Value → Value

  pub data Items : Type 0 where
    nil : Items
    cons : Value → Items → Items

  pub data Fields : Type 0 where
    end : Fields
    field : String → Value → Fields → Fields

-- `_plain_wire`.
unfoldable mutual
  pub plain_wire : Value → Result SettlementError Value
  plain_wire null = ok null
  plain_wire other = err not_transport_safe
  plain_wire (truth b) = ok (truth b)
  plain_wire (number i) = ok (number i)
  plain_wire (text s) = ok (text s)
  plain_wire (items xs) = do ys ← plain_items xs; ok (items ys)
  plain_wire (tuple xs) = do ys ← plain_items xs; ok (items ys)
  plain_wire (mapping f) = do g ← plain_fields f; ok (mapping g)
  plain_wire (wired v) = plain_wire v

  pub plain_items : Items → Result SettlementError Items
  plain_items nil = ok nil
  plain_items (cons x xs) = do y ← plain_wire x; ys ← plain_items xs; ok (cons y ys)

  pub plain_fields : Fields → Result SettlementError Fields
  plain_fields end = ok end
  plain_fields (field k v f) = do w ← plain_wire v; g ← plain_fields f; ok (field k w g)

-- What `_plain_wire` returns is left alone by it.
mutual
  unfolding plain_wire plain_items plain_fields

  plain_wire_idem : (v : Value) {w : Value} → plain_wire v ≡ ok w → plain_wire w ≡ ok w
  plain_wire_idem null h = let e : null ≡ _ = ok-injective h in cc
  plain_wire_idem other h = cc
  plain_wire_idem (truth b) h = let e : truth b ≡ _ = ok-injective h in cc
  plain_wire_idem (number i) h = let e : number i ≡ _ = ok-injective h in cc
  plain_wire_idem (text s) h = let e : text s ≡ _ = ok-injective h in cc
  plain_wire_idem (items xs) h =
      let (ys, p, q) = >>=-ok (plain_items xs) (λ ys. ok (items ys)) h in
      let r = plain_items_idem xs p in let e = ok-injective q in rw (sym e, r) refl
  plain_wire_idem (tuple xs) h =
      let (ys, p, q) = >>=-ok (plain_items xs) (λ ys. ok (items ys)) h in
      let r = plain_items_idem xs p in let e = ok-injective q in rw (sym e, r) refl
  plain_wire_idem (mapping f) h =
      let (g, p, q) = >>=-ok (plain_fields f) (λ g. ok (mapping g)) h in
      let r = plain_fields_idem f p in let e = ok-injective q in rw (sym e, r) refl
  plain_wire_idem (wired v) h = plain_wire_idem v h

  plain_items_idem : (xs : Items) {ys : Items} → plain_items xs ≡ ok ys → plain_items ys ≡ ok ys
  plain_items_idem nil h = let e : nil ≡ _ = ok-injective h in cc
  plain_items_idem (cons x xs) h =
      let (y, p, q) = >>=-ok (plain_wire x) (λ y. plain_items xs >>= λ ys. ok (cons y ys)) h in
      let (ys, p', q') = >>=-ok (plain_items xs) (λ ys. ok (cons y ys)) q in
      let r = plain_wire_idem x p in
      let r' = plain_items_idem xs p' in let e = ok-injective q' in rw (sym e, r, r') refl

  plain_fields_idem : (f : Fields) {g : Fields} → plain_fields f ≡ ok g → plain_fields g ≡ ok g
  plain_fields_idem end h = let e : end ≡ _ = ok-injective h in cc
  plain_fields_idem (field k v f) h =
      let (w, p, q) = >>=-ok (plain_wire v) (λ w. plain_fields f >>= λ g. ok (field k w g)) h in
      let (g, p', q') = >>=-ok (plain_fields f) (λ g. ok (field k w g)) q in
      let r = plain_wire_idem v p in
      let r' = plain_fields_idem f p' in let e = ok-injective q' in rw (sym e, r, r') refl

pub plain_fields-plain_fields :
    (f : Fields) {g : Fields} → plain_fields f ≡ ok g → plain_fields g ≡ ok g
plain_fields-plain_fields f h = plain_fields_idem f h

-- `f.get(k)`, and with a default.
unfoldable pub get : String → Fields → Option Value
get k end = none
get k (field j v f) = if str_eq j k then some v else get k f

unfoldable pub get_or : String → Fields → Value → Value
unfolding get
get_or k f default = elim (get k f) [ none ↦ default | some v ↦ v ]

-- `f[k] = v`.
unfoldable pub put : String → Value → Fields → Fields
put k v end = field k v end
put k v (field j w f) = if str_eq j k then field j v f else field j w (put k v f)

abbrev pub is_end : Fields → Bool
is_end end = true
is_end (field k v f) = false

-- `bool(v)`.
unfoldable pub is_true : Value → Bool
unfolding is_empty
is_true null = false
is_true other = true
is_true (truth b) = b
is_true (number i) = not (int_eq i (pos 0))
is_true (text s) = not (is_empty s)
is_true (items nil) = false
is_true (items (cons x xs)) = true
is_true (tuple nil) = false
is_true (tuple (cons x xs)) = true
is_true (mapping f) = not (is_end f)
is_true (wired v) = true

-- `v or default`.
abbrev pub or_value : Value → Value → Value
unfolding is_true
or_value v default = if is_true v then v else default

-- Python's conversions `str`, `int`, `float` and `dict` of values that are not already of that type.
pub record Conversions : Type 0 where
  pub str : Value → String
  pub int : Value → Result SettlementError ℤ
  pub float : Value → Result SettlementError ℤ
  pub dict : Value → Result SettlementError Fields

module _ (c : Conversions) where
  unfoldable pub text_of : Value → String
  text_of (text s) = s
  text_of v = c.str v

  unfoldable pub int_of : Value → Result SettlementError ℤ
  int_of (number i) = ok i
  int_of v = c.int v

  unfoldable pub float_of : Value → Result SettlementError ℤ
  float_of (number i) = ok i
  float_of v = c.float v

  -- `dict(v or {})`.
  unfoldable pub dict_of : Value → Result SettlementError Fields
  unfolding is_true
  dict_of (mapping f) = ok f
  dict_of v = if is_true v then c.dict v else ok end

-- `len(f)`.
abbrev size : Fields → ℕ
size end = 0
size (field k v f) = suc (size f)

-- `==` on Python values; a mapping's order of keys does not count.
unfoldable mutual
  unfolding get

  pub value_eq : Value → Value → Bool
  value_eq null null = true
  value_eq (truth a) (truth b) = if a then b else not b
  value_eq (truth a) (number i) = int_eq (if a then pos 1 else pos 0) i
  value_eq (number i) (truth a) = int_eq (if a then pos 1 else pos 0) i
  value_eq (number i) (number j) = int_eq i j
  value_eq (text s) (text t) = str_eq s t
  value_eq (items xs) (items ys) = items_eq xs ys
  value_eq (tuple xs) (tuple ys) = items_eq xs ys
  value_eq (mapping f) (mapping g) = fields_in f g && size f == size g
  value_eq v w = false

  pub items_eq : Items → Items → Bool
  items_eq nil nil = true
  items_eq nil (cons y ys) = false
  items_eq (cons x xs) nil = false
  items_eq (cons x xs) (cons y ys) = value_eq x y && items_eq xs ys

  pub fields_in : Fields → Fields → Bool
  fields_in end g = true
  fields_in (field k v f) g =
      elim (get k g) [ none ↦ false | some w ↦ value_eq v w ] && fields_in f g

unfoldable pub fields_eq : Fields → Fields → Bool
unfolding fields_in
fields_eq f g = fields_in f g && size f == size g
