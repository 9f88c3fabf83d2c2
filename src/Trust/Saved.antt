-- ===== src/Trust/Saved.antt =====
-- core/trust.py: what the file holds after a save, and what is loaded of it.
use mesh_direct.Prelude.{
  ◌≡◌, refl, ap, ◌∙◌, String, Option, none, some, [], ◌∷◌, ◌==◌, eq_string, eq_iff, if◌then◌else◌,
  Bool-cases, Option-cases, inl, inr, arith, Dict, lookup, IsDict,
}
use mesh_direct.Json.Canonical.{text_le}
use mesh_direct.Primitives.{Primitives}
use mesh_direct.Trust.{
  TrustedDevice, Devices, File, loaded_record, add_loaded, load_records, load, insert_item,
  sorted_items, written,
}

lookup-insert_item :
    (k j : String) (v : TrustedDevice) (d : Devices)
    → lookup k d ≡ none
    → lookup j (insert_item k v d) ≡ (if k == j then some v else lookup j d)
unfolding lookup insert_item
lookup-insert_item k j v [] h = refl
lookup-insert_item k j v ((i, w) ∷ d) h = elim (Bool-cases (text_le k i)) [
  | inl first ↦ rw first refl
  | inr later ↦
      rw later (ground (arith, eq_iff k j, eq_iff i k, eq_iff i j, lookup-insert_item k j v d))
]

insert_item-IsDict :
    (k : String) (v : TrustedDevice) (d : Devices)
    → lookup k d ≡ none
    → IsDict d
    → IsDict (insert_item k v d)
unfolding lookup insert_item
insert_item-IsDict k v [] h dict = (refl, tt)
insert_item-IsDict k v ((i, w) ∷ d) h dict = elim (Bool-cases (text_le k i)) [
  | inl first ↦ rw first (h, dict)
  | inr later ↦ rw later (
    ground (arith, lookup-insert_item k i v d, eq_iff i k, eq_iff k i, dict.0),
    insert_item-IsDict k v d (ground arith) dict.1,
  )
]

-- Sorting by the ID changes no entry.
pub lookup-sorted_items :
    (j : String) (d : Devices) → IsDict d → lookup j (sorted_items d) ≡ lookup j d
unfolding lookup sorted_items
lookup-sorted_items j [] dict = refl
lookup-sorted_items j ((k, v) ∷ d) dict =
    lookup-insert_item k j v (sorted_items d) (lookup-sorted_items k d dict.1 ∙ dict.0)
    ∙ ap (λ o. if k == j then some v else o) (lookup-sorted_items j d dict.1)

pub sorted_items-IsDict : (d : Devices) → IsDict d → IsDict (sorted_items d)
unfolding sorted_items
sorted_items-IsDict [] dict = tt
sorted_items-IsDict ((k, v) ∷ d) dict =
    insert_item-IsDict k v (sorted_items d) (lookup-sorted_items k d dict.1 ∙ dict.0)
      (sorted_items-IsDict d dict.1)

written_absent : (k : String) (d : Devices) → lookup k d ≡ none → lookup k (written d) ≡ none
unfolding lookup
written_absent k [] h = refl
written_absent k ((j, w) ∷ d) h = ground (arith, written_absent k d)

pub written-IsDict : (d : Devices) → IsDict d → IsDict (written d)
written-IsDict [] dict = tt
written-IsDict ((k, v) ∷ d) dict = (written_absent k d dict.0, written-IsDict d dict.1)

module _ (c : Primitives) where
  -- what a restart makes of the entry of an ID
  abbrev pub kept : String → Option TrustedDevice → Option TrustedDevice
  kept k none = none
  kept k (some v) = loaded_record c k (some v)

  load_absent :
      (k : String) (r : Dict String (Option TrustedDevice))
      → lookup k r ≡ none
      → lookup k (load_records c r) ≡ none
  unfolding lookup load_records add_loaded
  load_absent k [] h = refl
  load_absent k ((j, v) ∷ r) h = elim (Option-cases (loaded_record c j v)) [
    | inl skipped ↦ rw skipped (ground (arith, load_absent k r))
    | inr (w, loaded) ↦ rw loaded (ground (arith, load_absent k r))
  ]

  load_records-IsDict :
      (r : Dict String (Option TrustedDevice)) → IsDict r → IsDict (load_records c r)
  unfolding load_records add_loaded
  load_records-IsDict [] dict = tt
  load_records-IsDict ((k, v) ∷ r) dict = elim (Option-cases (loaded_record c k v)) [
    | inl skipped ↦ rw skipped (load_records-IsDict r dict.1)
    | inr (w, loaded) ↦ rw loaded (load_absent k r dict.0, load_records-IsDict r dict.1)
  ]

  -- At most one record to an ID.
  abbrev pub IsFile : File → Type 0
  IsFile none = Unit
  IsFile (some records) = IsDict records

  pub load-IsDict : (f : File) → IsFile f → IsDict (load c f)
  unfolding load
  load-IsDict none dict = tt
  load-IsDict (some records) dict = load_records-IsDict records dict

  lookup-load_records :
      (k : String) (d : Devices)
      → IsDict d
      → lookup k (load_records c (written d)) ≡ kept k (lookup k d)
  unfolding lookup load_records add_loaded
  lookup-load_records k [] dict = refl
  lookup-load_records k ((j, v) ∷ d) dict = elim (Bool-cases (j == k)) [
    | inr other ↦ (elim (Option-cases (loaded_record c j (some v))) [
      | inl skipped ↦ rw (skipped, other) (lookup-load_records k d dict.1)
      | inr (w, loaded) ↦ rw (loaded, other) (lookup-load_records k d dict.1)
    ])
    | inl same ↦ (elim (Option-cases (loaded_record c j (some v))) [
      | inl skipped ↦ rw (← (eq_iff j k).0 same) (
          rw skipped
            (ground (arith, eq_iff j j, load_absent j (written d) (written_absent j d dict.0))))
      | inr (w, loaded) ↦ rw (← (eq_iff j k).0 same) (rw loaded (ground (arith, eq_iff j j)))
    ])
  ]

  -- What a restart finds behind a save: of each entry, what `_load` keeps of it.
  pub lookup-load :
      (k : String) (d : Devices)
      → IsDict d
      → lookup k (load c (some (written (sorted_items d)))) ≡ kept k (lookup k d)
  unfolding load
  lookup-load k d dict =
      lookup-load_records k (sorted_items d) (sorted_items-IsDict d dict)
      ∙ ap (kept k) (lookup-sorted_items k d dict)
