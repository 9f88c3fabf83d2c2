-- ===== src/Prelude/Equality.antt =====
-- Boolean equality of options and lists, from that of their elements.
use mathlib.Core.Path.{◌≡◌}
use mathlib.Core.Logic.{◌↔◌}
use mathlib.Core.Bool.{Bool, true, false, ◌&&◌}
use mathlib.Core.Option.{Option, none, some}
use mathlib.Core.List.{List, [], ◌∷◌}
use native.Mathlib.Omega.{arith}
use mesh_direct.Prelude.Tests.{Eq, ◌==◌}

module _ {ℓ} {A : Type ℓ} ⦃e : Eq A⦄ where
  abbrev pub option_eq : Option A → Option A → Bool
  option_eq none none = true
  option_eq (some a) (some b) = a == b
  option_eq _ _ = false

  pub option_eq_iff : (a b : Option A) → (option_eq a b ≡ true) ↔ (a ≡ b)
  option_eq_iff none none = ground arith
  option_eq_iff (some a) (some b) = ground (arith, e.beq_iff a b)
  option_eq_iff none (some b) = ground arith
  option_eq_iff (some a) none = ground arith

  abbrev pub list_eq : List A → List A → Bool
  list_eq [] [] = true
  list_eq (a ∷ as') (b ∷ bs) = a == b && list_eq as' bs
  list_eq _ _ = false

  pub list_eq_iff : (xs ys : List A) → (list_eq xs ys ≡ true) ↔ (xs ≡ ys)
  list_eq_iff [] [] = ground arith
  list_eq_iff (a ∷ xs) (b ∷ ys) = ground (arith, e.beq_iff a b, list_eq_iff xs ys)
  list_eq_iff [] (b ∷ ys) = ground arith
  list_eq_iff (a ∷ xs) [] = ground arith

instance abbrev pub eq_option {ℓ} : {A : Type ℓ} ⦃e : Eq A⦄ → Eq (Option A)
eq_option = record { equal = option_eq; beq_iff = option_eq_iff }

instance abbrev pub eq_list {ℓ} : {A : Type ℓ} ⦃e : Eq A⦄ → Eq (List A)
eq_list = record { equal = list_eq; beq_iff = list_eq_iff }
