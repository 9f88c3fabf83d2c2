-- ===== src/Prelude/Python.antt =====
-- Python's exceptions as values. An exception keeps its class and its message.
use Prim.Native.String.{String}
use mathlib.Core.Path.{◌≡◌, refl}
use mathlib.Core.Bool.{Bool, true, false}
use mathlib.Core.Logic.{◌⊎◌, inl, inr}
use native.Mathlib.Omega.{arith}

pub data Error : Type 0 where
  endpoint_error value_error type_error key_error unicode_error : String → Error
  invalid_transition inbox_capacity file_exists : String → Error
  protocol_error authentication_error connection_error os_error timeout : String → Error
  database_error invalid_signature struct_error invalid_tag transfer_rejected approval_timeout
        transfer_cancelled :
      String → Error

pub data Result {ℓ} (A : Type ℓ) : Type ℓ where
  ok : A → Result A
  raise : Error → Result A

-- `if test: raise error`
abbrev pub raise_if : Bool → Error → Result (Unit {0})
raise_if true e = raise e
raise_if false e = ok tt

module _ {ℓ κ} {A : Type ℓ} {B : Type κ} where
  infixl 5 ◌>>=◌
  -- A raise ends the block.
  abbrev pub ◌>>=◌ : Result A → (A → Result B) → Result B
  raise e >>= rest = raise e
  ok a >>= rest = rest a

  -- Inversion of a block that returns.
  pub >>=-eq-ok :
      (first : Result A) (rest : A → Result B) {b : B}
      → (first >>= rest) ≡ ok b
      → (a : A) × (first ≡ ok a) × (rest a ≡ ok b)
  >>=-eq-ok (raise e) rest h = cc
  >>=-eq-ok (ok a) rest h = (a, refl, h)

-- The same, for a proof that goes on with what was returned.
pub by_return {ℓ κ μ} :
    {A : Type ℓ} {B : Type κ} {P : Type μ} (first : Result A) (rest : A → Result B) {b : B}
    → (first >>= rest) ≡ ok b
    → ((a : A) → first ≡ ok a → rest a ≡ ok b → P)
    → P
by_return (raise e) rest h k = absurd (cc)
by_return (ok a) rest h k = k a refl h

module _ {ℓ} {B : Type ℓ} where
  infixl 5 ◌>>◌
  abbrev pub ◌>>◌ : Result (Unit {0}) → Result B → Result B
  first >> rest = first >>= λ _. rest

  -- Inversion of a check that passed.
  pub >>-eq-ok :
      (first : Result (Unit {0})) {rest : Result B} {b : B}
      → (first >>= λ _. rest) ≡ ok b
      → (first ≡ ok tt) × (rest ≡ ok b)
  >>-eq-ok (raise e) h = cc
  >>-eq-ok (ok _) h = (refl, h)

pub raise_if-eq-ok : (b : Bool) (e : Error) {u : Unit {0}} → raise_if b e ≡ ok u → b ≡ false
raise_if-eq-ok b e h = ground arith

-- For a split on a computed result: its value or its exception, with the equation.
pub Result-cases {ℓ} :
    {A : Type ℓ} (r : Result A) → ((a : A) × (r ≡ ok a)) ⊎ ((e : Error) × (r ≡ raise e))
Result-cases (ok a) = inl (a, refl)
Result-cases (raise e) = inr (e, refl)
