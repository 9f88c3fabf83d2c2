-- ===== src/Json/Laws.antt =====
-- What the tests on a JSON value say of it.
use mesh_direct.Prelude.{ℕ, ◌≡◌, String, true, some, arith, eq_iff, ap}
use mesh_direct.Prelude.Int.{ℤ, pos, negsuc, is_nat}
use mesh_direct.Json.{
  Value, null, bool, int, float, str, array, object, Fields, Items, as_int, as_string, as_object,
  as_array, is_string,
}

pub eq_of_is_string : (v : Value) (s : String) → is_string v s ≡ true → v ≡ str s
eq_of_is_string (str t) s h = ap str ((eq_iff t s).0 h)
eq_of_is_string null s h = cc
eq_of_is_string (bool b) s h = cc
eq_of_is_string (int z) s h = cc
eq_of_is_string (float f) s h = cc
eq_of_is_string (array i) s h = cc
eq_of_is_string (object o) s h = cc

pub eq_of_as_int : (v : Value) (z : ℤ) → as_int v ≡ some z → v ≡ int z
eq_of_as_int (int y) z h = ground arith
eq_of_as_int v z h = cc

pub eq_of_as_string : (v : Value) (s : String) → as_string v ≡ some s → v ≡ str s
eq_of_as_string (str t) s h = ground arith
eq_of_as_string v s h = cc

pub eq_of_as_object : (v : Value) (fields : Fields) → as_object v ≡ some fields → v ≡ object fields
eq_of_as_object (object f) fields h = ground arith
eq_of_as_object v fields h = cc

pub eq_of_as_array : (v : Value) (items : Items) → as_array v ≡ some items → v ≡ array items
eq_of_as_array (array f) items h = ground arith
eq_of_as_array v items h = cc

pub eq_of_is_nat : (z : ℤ) (n : ℕ) → is_nat z n ≡ true → z ≡ pos n
eq_of_is_nat (pos m) n h = ground arith
eq_of_is_nat (negsuc m) n h = cc
