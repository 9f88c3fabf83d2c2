-- ===== src/Prelude/Sorting.antt =====
-- `sorted(items, key=..., reverse=True)`: stable, the greatest key first.
use Prim.Native.Nat.{ℕ, ◌≤◌, ◌+◌}
use mathlib.Core.List.{List, [], ◌∷◌, Perm}
use mathlib.Core.List.Perm
use mathlib.Core.Path.{◌≡◌, refl}
use native.Mathlib.Omega.{arith}
use mesh_direct.Prelude.Tests.{leb, if◌then◌else◌, Bool-cases}
use mesh_direct.Prelude.Lists.{All, sum_by}
use mathlib.Core.Logic.{inl, inr}

module _ {ℓ} {A : Type ℓ} (key : A → ℕ) where
  -- Among equal keys the one that stood first stays first.
  insert_desc : A → List A → List A
  insert_desc x [] = x ∷ []
  insert_desc x (y ∷ ys) = if leb (key y) (key x) then x ∷ y ∷ ys else y ∷ insert_desc x ys

  unfoldable pub sorted_desc : List A → List A
  unfolding insert_desc
  sorted_desc [] = []
  sorted_desc (x ∷ xs) = insert_desc x (sorted_desc xs)

  abbrev pub IsDescending : List A → Type 0
  IsDescending [] = Unit
  IsDescending (x ∷ xs) = All (λ y. key y ≤ key x) xs × IsDescending xs

  perm-insert_desc : (x : A) (ys : List A) → Perm (insert_desc x ys) (x ∷ ys)
  unfolding insert_desc
  perm-insert_desc x [] = Perm.refl (x ∷ [])
  perm-insert_desc x (y ∷ ys) = elim (Bool-cases (leb (key y) (key x))) [
    | inl le ↦ rw le (Perm.refl (x ∷ y ∷ ys))
    | inr gt ↦ rw gt (Perm.trans (Perm.cons y (perm-insert_desc x ys)) (Perm.swap x y ys))
  ]

  -- Nothing is lost or added by sorting.
  pub perm-sorted_desc : (xs : List A) → Perm (sorted_desc xs) xs
  unfolding sorted_desc
  perm-sorted_desc [] = Perm.refl []
  perm-sorted_desc (x ∷ xs) =
      Perm.trans (perm-insert_desc x (sorted_desc xs)) (Perm.cons x (perm-sorted_desc xs))

  All-weaken :
      (x y : A) (ys : List A)
      → key y ≤ key x
      → All (λ z. key z ≤ key y) ys
      → All (λ z. key z ≤ key x) ys
  All-weaken x y [] h a = tt
  All-weaken x y (z ∷ zs) h a = (omega arith, All-weaken x y zs h a.1)

  All-insert_desc :
      (b x : A) (ys : List A)
      → key x ≤ key b
      → All (λ z. key z ≤ key b) ys
      → All (λ z. key z ≤ key b) (insert_desc x ys)
  unfolding insert_desc
  All-insert_desc b x [] h a = (h, tt)
  All-insert_desc b x (y ∷ ys) h a = elim (Bool-cases (leb (key y) (key x))) [
    | inl le ↦ rw le (h, a)
    | inr gt ↦ rw gt (a.0, All-insert_desc b x ys h a.1)
  ]

  insert_desc-IsDescending :
      (x : A) (ys : List A) → IsDescending ys → IsDescending (insert_desc x ys)
  unfolding insert_desc
  insert_desc-IsDescending x [] d = (tt, tt)
  insert_desc-IsDescending x (y ∷ ys) d = elim (Bool-cases (leb (key y) (key x))) [
    | inl le ↦ rw le ((ground arith, All-weaken x y ys (ground arith) d.0), d)
    | inr gt ↦ rw gt (All-insert_desc y x ys (ground arith) d.0, insert_desc-IsDescending x ys d.1)
  ]

  pub sorted_desc-IsDescending : (xs : List A) → IsDescending (sorted_desc xs)
  unfolding sorted_desc
  sorted_desc-IsDescending [] = tt
  sorted_desc-IsDescending (x ∷ xs) =
      insert_desc-IsDescending x (sorted_desc xs) (sorted_desc-IsDescending xs)

  All-inserted {κ} :
      (P : A → Type κ) (x : A) (ys : List A) → P x → All P ys → All P (insert_desc x ys)
  unfolding insert_desc
  All-inserted P x [] h a = (h, tt)
  All-inserted P x (y ∷ ys) h a = elim (Bool-cases (leb (key y) (key x))) [
    | inl le ↦ rw le (h, a)
    | inr gt ↦ rw gt (a.0, All-inserted P x ys h a.1)
  ]

  pub All-sorted_desc {κ} : (P : A → Type κ) (xs : List A) → All P xs → All P (sorted_desc xs)
  unfolding sorted_desc
  All-sorted_desc P [] a = tt
  All-sorted_desc P (x ∷ xs) a = All-inserted P x (sorted_desc xs) a.0 (All-sorted_desc P xs a.1)

  sum_by-insert_desc :
      (f : A → ℕ) (x : A) (ys : List A) → sum_by f (insert_desc x ys) ≡ f x + sum_by f ys
  unfolding insert_desc
  sum_by-insert_desc f x [] = refl
  sum_by-insert_desc f x (y ∷ ys) = elim (Bool-cases (leb (key y) (key x))) [
    | inl le ↦ rw le refl
    | inr gt ↦ rw gt (omega (arith, sum_by-insert_desc f x ys))
  ]

  pub sum_by-sorted_desc : (f : A → ℕ) (xs : List A) → sum_by f (sorted_desc xs) ≡ sum_by f xs
  unfolding sorted_desc
  sum_by-sorted_desc f [] = refl
  sum_by-sorted_desc f (x ∷ xs) =
      omega (arith, sum_by-insert_desc f x (sorted_desc xs), sum_by-sorted_desc f xs)
