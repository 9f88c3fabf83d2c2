-- ===== src/Prelude/Dicts.antt =====
-- A Python dict as an association list in insertion order, with at most one pair to a key.
use mathlib.Core.Path.{◌≡◌, refl}
use mathlib.Core.Option.{Option, none, some}
use mathlib.Core.List.{List, [], ◌∷◌}
use native.Mathlib.Omega.{arith}
use mathlib.Core.Logic.{inl, inr}
use mathlib.Core.Bool.{Bool, true}
use mesh_direct.Prelude.Tests.{Bool-cases, Eq, ◌==◌, if◌then◌else◌}

abbrev pub Dict {ℓ} : Type ℓ → Type ℓ → Type ℓ
Dict K V = List (K × V)

module _ {ℓ} {K V : Type ℓ} ⦃e : Eq K⦄ where
  -- `d.get(k)`
  unfoldable pub lookup : K → Dict K V → Option V
  lookup k [] = none
  lookup k ((j, v) ∷ d) = if j == k then some v else lookup k d

  -- `d[k] = v`: a key that is there keeps its place
  unfoldable pub insert : K → V → Dict K V → Dict K V
  insert k v [] = (k, v) ∷ []
  insert k v ((j, w) ∷ d) = if j == k then (j, v) ∷ d else (j, w) ∷ insert k v d

  -- `d.pop(k, None)`, the dict that stays
  unfoldable pub without : K → Dict K V → Dict K V
  without k [] = []
  without k ((j, v) ∷ d) = let rest = without k d in if j == k then rest else (j, v) ∷ rest

  pub lookup-insert :
      (k j : K) (v : V) (d : Dict K V)
      → lookup j (insert k v d) ≡ (if k == j then some v else lookup j d)
  unfolding lookup insert
  lookup-insert k j v [] = refl
  lookup-insert k j v ((i, w) ∷ d) =
      ground (arith, e.beq_iff k j, e.beq_iff i k, e.beq_iff i j, lookup-insert k j v d)

  pub lookup-without :
      (k j : K) (d : Dict K V) → lookup j (without k d) ≡ (if k == j then none else lookup j d)
  unfolding lookup without
  lookup-without k j [] = ground arith
  lookup-without k j ((i, v) ∷ d) =
      ground (arith, e.beq_iff i k, e.beq_iff i j, e.beq_iff k j, lookup-without k j d)

module _ {ℓ} {V : Type ℓ} where
  abbrev pub keep_if : (V → Bool) → Option V → Option V
  keep_if p none = none
  keep_if p (some v) = if p v then some v else none

  pub keep_if-eq-some :
      (p : V → Bool) (o : Option V) (v : V) → keep_if p o ≡ some v → (o ≡ some v) × (p v ≡ true)
  keep_if-eq-some p none v h = ground arith
  keep_if-eq-some p (some w) v h = ground arith

module _ {ℓ} {K V : Type ℓ} where
  -- `{k: v for k, v in d.items() if p(v)}`
  unfoldable pub filter_values : (V → Bool) → Dict K V → Dict K V
  filter_values p [] = []
  filter_values p ((k, v) ∷ d) = let rest = filter_values p d in if p v then (k, v) ∷ rest else rest

module _ {ℓ} {K V : Type ℓ} ⦃e : Eq K⦄ where
  -- At most one pair to a key.
  abbrev pub IsDict : Dict K V → Type ℓ
  IsDict [] = Unit
  IsDict ((k, v) ∷ d) = (lookup k d ≡ none) × IsDict d

  pub insert-IsDict : (k : K) (v : V) (d : Dict K V) → IsDict d → IsDict (insert k v d)
  unfolding insert lookup
  insert-IsDict k v [] h = (refl, tt)
  insert-IsDict k v ((j, w) ∷ d) h = elim (Bool-cases (j == k)) [
    | inl same ↦ rw same h
    | inr other ↦ rw other (
      rw lookup-insert (ground (arith, h.0, e.beq_iff j k, e.beq_iff k j)),
      insert-IsDict k v d h.1,
    )
  ]

  absent-without : (k j : K) (d : Dict K V) → lookup j d ≡ none → lookup j (without k d) ≡ none
  absent-without k j d h = ground (arith, lookup-without k j d)

  pub without-IsDict : (k : K) (d : Dict K V) → IsDict d → IsDict (without k d)
  unfolding without lookup
  without-IsDict k [] h = tt
  without-IsDict k ((j, w) ∷ d) h = elim (Bool-cases (j == k)) [
    | inl same ↦ rw same (without-IsDict k d h.1)
    | inr other ↦ rw other (absent-without k j d h.0, without-IsDict k d h.1)
  ]

  filter_none :
      (p : V → Bool) (k : K) (d : Dict K V)
      → lookup k d ≡ none
      → lookup k (filter_values p d) ≡ none
  unfolding lookup filter_values
  filter_none p k [] h = refl
  filter_none p k ((j, w) ∷ d) h = ground (arith, filter_none p k d)

  pub lookup-filter_values :
      (p : V → Bool) (k : K) (d : Dict K V)
      → IsDict d
      → lookup k (filter_values p d) ≡ keep_if p (lookup k d)
  unfolding lookup filter_values
  lookup-filter_values p k [] h = refl
  lookup-filter_values p k ((j, w) ∷ d) h =
      ground (arith, e.beq_iff j k, lookup-filter_values p k d h.1, filter_none p k d, h.0)

  pub filter_values-IsDict : (p : V → Bool) (d : Dict K V) → IsDict d → IsDict (filter_values p d)
  unfolding filter_values
  filter_values-IsDict p [] h = tt
  filter_values-IsDict p ((j, w) ∷ d) h = elim (Bool-cases (p w)) [
    | inl kept ↦ rw kept (filter_none p j d h.0, filter_values-IsDict p d h.1)
    | inr gone ↦ rw gone (filter_values-IsDict p d h.1)
  ]
