-- ===== src/Protocol/Checks.antt =====
-- The tests that core/protocol.py and core/resume.py make on the fields of a message, each with
-- what it means that a field passes.
use mesh_direct.Prelude.{
  ℕ, ◌≡◌, ◌≤◌, String, Option, none, some, arith, eq_iff, eq_nat, ◌↔◌, if◌then◌else◌,
}
use mesh_direct.Prelude.Int.{pos, negsuc, is_nat, between}
use mesh_direct.Prelude.Python.{Result, ok, raise, protocol_error}
use mesh_direct.Json.{
  Value, Items, Fields, int, str, array, object, as_object, as_array, as_string, is_string,
}

-- `if not isinstance(value, ...): raise ProtocolError(message)`
unfoldable pub required {ℓ} : {A : Type ℓ} → Option A → String → Result A
required none message = raise (protocol_error message)
required (some a) message = ok a

-- `value != s` raises.
unfoldable pub same_text : Value → String → String → Result (Unit {0})
same_text value s message = if is_string value s then ok tt else raise (protocol_error message)

-- An `int`, no `bool`, equal to `n`; all else raises.
unfoldable pub same_int : Value → ℕ → String → Result (Unit {0})
same_int (int z) n message = if is_nat z n then ok tt else raise (protocol_error message)
same_int _ n message = raise (protocol_error message)

-- An `int`, no `bool`, from `lo` to `hi`; all else raises.
unfoldable pub int_between : ℕ → ℕ → Value → String → Result ℕ
unfolding required
int_between lo hi (int z) message = required (between lo hi z) message
int_between lo hi _ message = raise (protocol_error message)

unfoldable pub text_of : Value → String → Result String
unfolding required
text_of value message = required (as_string value) message

pub same_text_iff : (v : Value) (s m : String) → (same_text v s m ≡ ok tt) ↔ (v ≡ str s)
unfolding same_text
same_text_iff (str t) s m = ground (arith, eq_iff t s)
same_text_iff v s m = ground arith

pub same_int_iff : (v : Value) (n : ℕ) (m : String) → (same_int v n m ≡ ok tt) ↔ (v ≡ int (pos n))
unfolding same_int
same_int_iff (int (pos k)) n m = ground arith
same_int_iff (int (negsuc k)) n m = ground arith
same_int_iff v n m = ground arith

pub int_between_iff :
    (lo hi : ℕ) (v : Value) (m : String) (n : ℕ)
    → (int_between lo hi v m ≡ ok n) ↔ ((v ≡ int (pos n)) × (lo ≤ n) × (n ≤ hi))
unfolding int_between
int_between_iff lo hi (int (pos k)) m n = ground arith
int_between_iff lo hi (int (negsuc k)) m n = ground arith
int_between_iff lo hi v m n = ground arith

pub text_of_iff : (v : Value) (m s : String) → (text_of v m ≡ ok s) ↔ (v ≡ str s)
unfolding text_of
text_of_iff (str t) m s = ground arith
text_of_iff v m s = ground arith

pub object_of_iff :
    (v : Value) (m : String) (f : Fields) → (required (as_object v) m ≡ ok f) ↔ (v ≡ object f)
unfolding required
object_of_iff (object g) m f = ground arith
object_of_iff v m f = ground arith

pub array_of_iff :
    (v : Value) (m : String) (i : Items) → (required (as_array v) m ≡ ok i) ↔ (v ≡ array i)
unfolding required
array_of_iff (array j) m i = ground arith
array_of_iff v m i = ground arith

-- For a test that runs the validators: `unfolding checks` opens the tests above.
unfoldable pub checks : Unit {0}
unfolding required same_text same_int int_between text_of
checks = tt
