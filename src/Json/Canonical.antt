-- ===== src/Json/Canonical.antt =====
-- core/session.py and core/pairing.py: `json.dumps(payload, sort_keys=True)`, as far as the order goes.
use Prim.Native.Nat.{Ordering}
use Prim.Native.String.{compare as compare_text}
use mesh_direct.Prelude.{String, Bool, true, false, if◌then◌else◌, ◌==◌, eq_string}
use mesh_direct.Json.{Value, Items, Fields, array, object, nil, cons, end, field}

-- by code points, which is the order of Python's texts
abbrev pub text_le : String → String → Bool
text_le a b = elim (compare_text a b) [ Ordering.gt ↦ false | _ ↦ true ]

unfoldable pub insert_field : String → Value → Fields → Fields
insert_field k v end = field k v end
insert_field k v (field j w fields) =
    if text_le k j then field k v (field j w fields) else field j w (insert_field k v fields)

unfoldable mutual
  -- an object with its names in order, at every level
  pub sort_value : Value → Value
  sort_value (array items) = array (sort_items items)
  sort_value (object fields) = object (sort_fields fields)
  sort_value value = value

  pub sort_items : Items → Items
  sort_items nil = nil
  sort_items (cons v items) = cons (sort_value v) (sort_items items)

  pub sort_fields : Fields → Fields
  sort_fields end = end
  sort_fields (field k v fields) = insert_field k (sort_value v) (sort_fields fields)

-- `{key: value for key, value in payload.items() if key != name}`
unfoldable pub drop_field : String → Fields → Fields
drop_field name end = end
drop_field name (field k v fields) =
    let rest = drop_field name fields in if k == name then rest else field k v rest
