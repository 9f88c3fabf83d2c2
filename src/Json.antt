-- ===== src/Json.antt =====
-- What `json.loads` returns, and the tests that the program makes on it.
pub mod Laws
pub mod Canonical
use Prim.Native.Char.{code}
use Prim.Native.String.{count}
use mesh_direct.Prelude.{
  ℕ, suc, ◌+◌, ◌≡◌, refl, String, Bool, true, false, ◌&&◌, Option, none, some, List, [], ◌∷◌,
  length, ◌==◌, eq_nat, eq_string, eq_option, if◌then◌else◌,
}
use mesh_direct.Prelude.Int.{ℤ, pos, negsuc, is_nat}

-- A JSON number with a fraction or an exponent is a float. The program tells floats apart from
-- integers, and compares them with integers: `whole` is the integer that the float equals.
pub record Float : Type 0 where
  pub bits : ℕ
  pub whole : Option ℕ

-- An object has at most one field of a name, as a dict does.
mutual
  pub data Value : Type 0 where
    null : Value
    bool : Bool → Value
    int : ℤ → Value
    float : Float → Value
    str : String → Value
    array : Items → Value
    object : Fields → Value

  pub data Items : Type 0 where
    nil : Items
    cons : Value → Items → Items

  pub data Fields : Type 0 where
    end : Fields
    field : String → Value → Fields → Fields

-- `isinstance(value, dict)`
abbrev pub as_object : Value → Option Fields
as_object (object fields) = some fields
as_object _ = none

abbrev pub as_array : Value → Option Items
as_array (array items) = some items
as_array _ = none

abbrev pub as_string : Value → Option String
as_string (str s) = some s
as_string _ = none

abbrev pub as_bool : Value → Option Bool
as_bool (bool b) = some b
as_bool _ = none

-- an `int` that is no `bool`
abbrev pub as_int : Value → Option ℤ
as_int (int z) = some z
as_int _ = none

-- `payload.get(name)`: None, for a field that is not there, is null.
unfoldable pub get : String → Fields → Value
get name end = null
get name (field n value fields) = if n == name then value else get name fields

abbrev pub count_fields : Fields → ℕ
count_fields end = 0
count_fields (field n value fields) = suc (count_fields fields)

abbrev pub count_items : Items → ℕ
count_items nil = 0
count_items (cons value items) = suc (count_items items)

-- `value == "s"`
abbrev pub is_string : Value → String → Bool
is_string (str t) s = t == s
is_string _ s = false

-- `value == n`, where Python takes True for 1 and a whole float for its integer
abbrev pub is_number : Value → ℕ → Bool
is_number (int z) n = is_nat z n
is_number (bool b) n = (if b then 1 else 0) == n
is_number (float f) n = f.whole == some n
is_number _ n = false

-- What the program writes into a frame: a dict of texts and numbers.
pub data Literal : Type 0 where
  text : String → Literal
  number : ℕ → Literal

abbrev pub is_literal : Value → Literal → Bool
is_literal value (text s) = is_string value s
is_literal value (number n) = is_number value n

abbrev pub to_value : Literal → Value
to_value (text s) = str s
to_value (number n) = int (pos n)

abbrev pub to_fields : List (String × Literal) → Fields
to_fields [] = end
to_fields ((name, literal) ∷ rest) = field name (to_value literal) (to_fields rest)

has_fields : List (String × Literal) → Fields → Bool
has_fields [] fields = true
has_fields ((name, literal) ∷ rest) fields =
    is_literal (get name fields) literal && has_fields rest fields

-- `payload == {...}`, for a dict of texts and numbers
unfoldable pub is_dict : Value → List (String × Literal) → Bool
unfolding has_fields
is_dict (object fields) expected =
    count_fields fields == length expected && has_fields expected fields
is_dict _ expected = false
