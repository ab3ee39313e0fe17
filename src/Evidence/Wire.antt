-- ===== src/Evidence/Wire.antt =====
-- src/blackbase/wire.py: a frozen value holds tuples where the wire value holds lists, and Python's `==`
-- tells a tuple from a list. A mapping proxy equals the dict behind it, so both are a mapping here.
use blackbase.Prelude.{Bool, true, false, ◌&&◌}
use blackbase.Settlement.Wire.{
  Value, Items, Fields, null, other, truth, number, text, items, tuple, mapping, wired, nil, cons,
  end, field,
}

-- Whether `freeze_wire_value` returns: an object of any other type raises `TypeError`.
unfoldable mutual
  pub is_wire_safe : Value → Bool
  is_wire_safe null = true
  is_wire_safe other = false
  is_wire_safe (truth b) = true
  is_wire_safe (number i) = true
  is_wire_safe (text s) = true
  is_wire_safe (items xs) = are_wire_safe xs
  is_wire_safe (tuple xs) = are_wire_safe xs
  is_wire_safe (mapping f) = has_wire_safe f
  is_wire_safe (wired v) = false

  pub are_wire_safe : Items → Bool
  are_wire_safe nil = true
  are_wire_safe (cons x xs) = is_wire_safe x && are_wire_safe xs

  pub has_wire_safe : Fields → Bool
  has_wire_safe end = true
  has_wire_safe (field k v f) = is_wire_safe v && has_wire_safe f

-- What `freeze_wire_value` and `freeze_wire_mapping` return on a wire-safe value.
unfoldable mutual
  pub freeze_wire_value : Value → Value
  freeze_wire_value null = null
  freeze_wire_value other = other
  freeze_wire_value (truth b) = truth b
  freeze_wire_value (number i) = number i
  freeze_wire_value (text s) = text s
  freeze_wire_value (items xs) = tuple (freeze_wire_items xs)
  freeze_wire_value (tuple xs) = tuple (freeze_wire_items xs)
  freeze_wire_value (mapping f) = mapping (freeze_wire_mapping f)
  freeze_wire_value (wired v) = wired v

  pub freeze_wire_items : Items → Items
  freeze_wire_items nil = nil
  freeze_wire_items (cons x xs) = cons (freeze_wire_value x) (freeze_wire_items xs)

  pub freeze_wire_mapping : Fields → Fields
  freeze_wire_mapping end = end
  freeze_wire_mapping (field k v f) = field k (freeze_wire_value v) (freeze_wire_mapping f)

-- `thaw_wire_value` and `thaw_wire_mapping`: a list is returned as it is.
unfoldable mutual
  pub thaw_wire_value : Value → Value
  thaw_wire_value null = null
  thaw_wire_value other = other
  thaw_wire_value (truth b) = truth b
  thaw_wire_value (number i) = number i
  thaw_wire_value (text s) = text s
  thaw_wire_value (items xs) = items xs
  thaw_wire_value (tuple xs) = items (thaw_wire_items xs)
  thaw_wire_value (mapping f) = mapping (thaw_wire_mapping f)
  thaw_wire_value (wired v) = wired v

  pub thaw_wire_items : Items → Items
  thaw_wire_items nil = nil
  thaw_wire_items (cons x xs) = cons (thaw_wire_value x) (thaw_wire_items xs)

  pub thaw_wire_mapping : Fields → Fields
  thaw_wire_mapping end = end
  thaw_wire_mapping (field k v f) = field k (thaw_wire_value v) (thaw_wire_mapping f)
