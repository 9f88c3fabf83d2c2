-- ===== src/Resume/RoundTrip.antt =====
-- core/resume.py: the sender and the receiver read each other's resume messages back.
use mathlib.Core.List.{append_assoc, append-nil}
use mesh_direct.Prelude.{
  nat_eq_iff, ℕ, ◌≡◌, ◌≤◌, refl, sym, ap, ◌∙◌, String, true, false, none, some, List, [], ◌∷◌, ◌++◌,
  length, all, All, Dict, lookup, insert, lookup-insert, is_some, Bool-cases, inl, inr, ◌==◌,
  eq_nat, eq_string, eq_iff, arith,
}
use mesh_direct.Prelude.Int.{pos}
use mesh_direct.Prelude.Python.{ok}
use mesh_direct.Inbox.{IncomingFile}
use mesh_direct.Json.{int, object, get, is_dict, to_fields, text, number, count_items}
use mesh_direct.Protocol.Checks.{required, same_text, int_between_iff}
use mesh_direct.Protocol.Frames.{file_literals, file_items, resume_query_frame}
use mesh_direct.Protocol.{TransferOffer}
use mesh_direct.Protocol.Offers.{DistinctIds}
use mesh_direct.Resume.{
  same_files, is_file_list, validate_resume_query, expected_size, expected_file, resume_item,
  resume_items, same_keys, validate_resume_state, state_items, resume_state_frame,
}
use mesh_direct.Resume.Offsets.{expected_size_own}

file_same :
    (f : IncomingFile) → is_dict (object (to_fields (file_literals f))) (file_literals f) ≡ true
unfolding is_dict get
file_same f = ground (
  arith,
  (eq_iff f.file_id f.file_id).1 refl,
  (eq_iff f.name f.name).1 refl,
  (eq_iff f.sha256 f.sha256).1 refl,
)

files_same : (files : List IncomingFile) → same_files (file_items files) files ≡ true
unfolding same_files file_items
files_same [] = refl
files_same (f ∷ files) = ground (arith, file_same f, files_same files)

-- The resume query that the sender makes of an offer passes the receiver's check against the offer.
pub validate_resume_query-resume_query_frame :
    (offer : TransferOffer)
    → validate_resume_query (resume_query_frame offer.transfer_id offer.files) offer ≡ ok tt
unfolding validate_resume_query get required same_text is_file_list
validate_resume_query-resume_query_frame offer =
    rw ((eq_iff offer.transfer_id offer.transfer_id).1 refl, files_same offer.files) refl

insert_new :
    (k : String) (n : ℕ) (d : Dict String ℕ) → lookup k d ≡ none → insert k n d ≡ d ++ (k, n) ∷ []
unfolding lookup insert
insert_new k n [] h = refl
insert_new k n ((j, m) ∷ d) h = elim (Bool-cases (j == k)) [
  | inl same ↦ absurd (ground arith)
  | inr other ↦ rw other (ap (◌∷◌ (j, m)) (insert_new k n d (ground arith)))
]

module _ (offset_of : String → ℕ) where
  -- the offsets that the receiver tells
  abbrev pub told : List IncomingFile → Dict String ℕ
  told [] = []
  told (f ∷ files) = (f.file_id, offset_of f.file_id) ∷ told files

  fresh_insert :
      (f : IncomingFile) (n : ℕ) (rest : List IncomingFile) (offsets : Dict String ℕ)
      → All (λ g. (f.file_id == g.file_id) ≡ false) rest
      → All (λ g. lookup g.file_id offsets ≡ none) rest
      → All (λ g. lookup g.file_id (insert f.file_id n offsets) ≡ none) rest
  fresh_insert f n [] offsets other new = tt
  fresh_insert f n (g ∷ rest) offsets other new = (
    rw (lookup-insert f.file_id g.file_id n offsets, other.0) new.0,
    fresh_insert f n rest offsets other.1 new.1,
  )

  item_told :
      (files : List IncomingFile) (f : IncomingFile) (offsets : Dict String ℕ)
      → lookup f.file_id offsets ≡ none
      → expected_size f.file_id files ≡ some f.size
      → offset_of f.file_id ≤ f.size
      → resume_item
          (object (
            to_fields
              (("file_id", text f.file_id) ∷ ("offset", number (offset_of f.file_id)) ∷ [])))
          files
          offsets
        ≡ ok (insert f.file_id (offset_of f.file_id) offsets)
  unfolding resume_item get required expected_file
  item_told files f offsets new own le =
      rw
        (
          own,
          new,
          (int_between_iff 0 f.size (int (pos (offset_of f.file_id))) "Invalid resume offset"
                (offset_of f.file_id)).1
              (refl, omega arith, le),
        )
        refl

  items_told :
      (files rest : List IncomingFile) (offsets : Dict String ℕ)
      → DistinctIds rest
      → All (λ g. lookup g.file_id offsets ≡ none) rest
      → All (λ g. expected_size g.file_id files ≡ some g.size) rest
      → All (λ g. offset_of g.file_id ≤ g.size) rest
      → resume_items (state_items offset_of rest) files offsets ≡ ok (offsets ++ told rest)
  unfolding resume_items state_items
  items_told files [] offsets distinct new own le = ap ok (sym (append-nil offsets))
  items_told files (f ∷ rest) offsets distinct new own le =
      let next = insert f.file_id (offset_of f.file_id) offsets in
      let rec =
        items_told files rest next distinct.1
          (fresh_insert f (offset_of f.file_id) rest offsets distinct.0 new.1) own.1 le.1 in
      let appended : next ++ told rest ≡ offsets ++ told (f ∷ rest) =
        ap (λ d. d ++ told rest) (insert_new f.file_id (offset_of f.file_id) offsets new.0)
        ∙ append_assoc offsets ((f.file_id, offset_of f.file_id) ∷ []) (told rest) in
      rw (item_told files f offsets new.0 own.0 le.0) (rec ∙ ap ok appended)

  told-all :
      (f : IncomingFile) (files rest : List IncomingFile)
      → all (λ g. is_some (lookup g.file_id (told files))) rest ≡ true
      → all (λ g. is_some (lookup g.file_id (told (f ∷ files)))) rest ≡ true
  unfolding lookup
  told-all f files [] h = refl
  told-all f files (g ∷ rest) h = ground (arith, told-all f files rest)

  told_each :
      (files : List IncomingFile) → all (λ g. is_some (lookup g.file_id (told files))) files ≡ true
  unfolding lookup
  told_each [] = refl
  told_each (f ∷ files) =
      rw ((eq_iff f.file_id f.file_id).1 refl) (told-all f files files (told_each files))

  keys_expected :
      (files rest : List IncomingFile)
      → All (λ g. expected_size g.file_id files ≡ some g.size) rest
      → all (λ entry. is_some (expected_size entry.0 files)) (told rest) ≡ true
  keys_expected files [] h = refl
  keys_expected files (f ∷ rest) h = rw h.0 (keys_expected files rest h.1)

  counted : (files : List IncomingFile) → count_items (state_items offset_of files) ≡ length files
  unfolding state_items
  counted [] = refl
  counted (f ∷ files) = omega (arith, counted files)

  fresh :
      (files : List IncomingFile) → All (λ g. lookup {K = String} {V = ℕ} g.file_id [] ≡ none) files
  unfolding lookup
  fresh [] = tt
  fresh (f ∷ files) = (refl, fresh files)

  -- For an offer with distinct file IDs, and an offset for each within its file, the sender accepts
  -- the resume state that the receiver makes of them, and reads the same offsets back.
  pub validate_resume_state-resume_state_frame :
      (offer : TransferOffer)
      → DistinctIds offer.files
      → All (λ g. offset_of g.file_id ≤ g.size) offer.files
      → validate_resume_state (resume_state_frame offset_of offer) offer ≡ ok (told offer.files)
  unfolding validate_resume_state resume_state_frame get required same_text same_keys
  validate_resume_state-resume_state_frame offer distinct le =
      let own = expected_size_own offer.files distinct in
      rw
        (
          (eq_iff offer.transfer_id offer.transfer_id).1 refl,
          counted offer.files,
          (nat_eq_iff (length offer.files) (length offer.files)).1 refl,
          items_told offer.files offer.files [] distinct (fresh offer.files) own le,
          told_each offer.files,
          keys_expected offer.files offer.files own,
        )
        refl
