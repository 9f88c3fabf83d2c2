-- ===== src/Resume/Offsets.antt =====
-- core/resume.py: which offsets the sender accepts from the receiver.
use mesh_direct.Prelude.{
  ℕ, ◌≡◌, ◌≤◌, refl, String, true, false, not, Option, none, some, List, [], ◌∷◌, length, all, All,
  Dict, lookup, insert, lookup-insert, is_some, Bool-cases, Option-cases, inl, inr, ◌==◌, eq_nat,
  eq_string, eq_iff, arith,
}
use mesh_direct.Prelude.Python.{ok, raise_if, by_return, protocol_error}
use mesh_direct.Inbox.{IncomingFile}
use mesh_direct.Json.{Value, Items, nil, cons, str, get, as_object, as_array, count_items}
use mesh_direct.Protocol.Checks.{required, same_text, int_between, int_between_iff}
use mesh_direct.Protocol.{TransferOffer}
use mesh_direct.Protocol.Offers.{DistinctIds}
use mesh_direct.Resume.{
  expected_size, expected_file, resume_item, resume_items, same_keys, validate_resume_state,
}

pub expected_size_absent :
    (id : String) (files : List IncomingFile)
    → All (λ g. (id == g.file_id) ≡ false) files
    → expected_size id files ≡ none
unfolding expected_size
expected_size_absent id [] h = refl
expected_size_absent id (f ∷ files) h =
    rw (expected_size_absent id files h.1)
      (ground (arith, eq_iff id f.file_id, eq_iff f.file_id id, h.0))

expected_size_skip :
    (f : IncomingFile) (files : List IncomingFile) (id : String) (size : ℕ)
    → expected_size id files ≡ some size
    → expected_size id (f ∷ files) ≡ some size
unfolding expected_size
expected_size_skip f files id size h = rw h refl

skip_all :
    (f : IncomingFile) (files rest : List IncomingFile)
    → All (λ g. expected_size g.file_id files ≡ some g.size) rest
    → All (λ g. expected_size g.file_id (f ∷ files) ≡ some g.size) rest
skip_all f files [] h = tt
skip_all f files (g ∷ rest) h =
    (expected_size_skip f files g.file_id g.size h.0, skip_all f files rest h.1)

-- Under distinct IDs every file is found under its own.
pub expected_size_own :
    (files : List IncomingFile)
    → DistinctIds files
    → All (λ f. expected_size f.file_id files ≡ some f.size) files
unfolding expected_size
expected_size_own [] h = tt
expected_size_own (f ∷ files) h = (
  rw (expected_size_absent f.file_id files h.0)
      (ground (arith, (eq_iff f.file_id f.file_id).1 refl)),
  skip_all f files files (expected_size_own files h.1),
)

required-some : (o : Option ℕ) (m : String) (n : ℕ) → required o m ≡ ok n → o ≡ some n
unfolding required
required-some o m n h = ground arith

module _ (files : List IncomingFile) where
  -- No offset is behind the end of its file.
  abbrev IsBounded : Dict String ℕ → Type 0
  IsBounded offsets =
      (id : String) (n : ℕ)
      → lookup id offsets ≡ some n
      → (size : ℕ) × (expected_size id files ≡ some size) × (n ≤ size)

  nothing : IsBounded []
  unfolding lookup
  nothing id n h = absurd (ground arith)

  expected_file_str :
      (v : Value) (r : String × ℕ)
      → expected_file v files ≡ ok r
      → expected_size r.0 files ≡ some r.1
  unfolding expected_file
  expected_file_str (str id) r h =
      by_return (required (expected_size id files) "Invalid resume file ID") _ h λ size got back.
        ground (arith, required-some (expected_size id files) "Invalid resume file ID" size got)
  expected_file_str v r h = absurd (ground arith)

  insert-IsBounded :
      (offsets : Dict String ℕ) (id : String) (n size : ℕ)
      → expected_size id files ≡ some size
      → n ≤ size
      → IsBounded offsets
      → IsBounded (insert id n offsets)
  insert-IsBounded offsets id n size here le b j m h = elim (Bool-cases (id == j)) [
    | inl same ↦ (size, ground (arith, eq_iff id j), ground (arith, lookup-insert id j n offsets))
    | inr other ↦ b j m (ground (arith, lookup-insert id j n offsets))
  ]

  resume_item-IsBounded :
      (raw : Value) (offsets : Dict String ℕ) (offsets' : Dict String ℕ)
      → resume_item raw files offsets ≡ ok offsets'
      → IsBounded offsets
      → IsBounded offsets'
  unfolding resume_item
  resume_item-IsBounded raw offsets offsets' h b =
      by_return (required (as_object raw) "Invalid resume file ID") _ h λ item _ h1.
        by_return (expected_file (get "file_id" item) files) _ h1 λ r found h2.
          by_return
            (raise_if (is_some (lookup r.0 offsets)) (protocol_error "Invalid resume offset")) _ h2
            λ _ _ h3.
              by_return (int_between 0 r.1 (get "offset" item) "Invalid resume offset") _ h3
                λ n fits h4.
                  let e : offsets' ≡ insert r.0 n offsets = ground arith in
                  let le =
                    (int_between_iff 0 r.1 (get "offset" item) "Invalid resume offset" n).0 fits in
                  rw e (
                    insert-IsBounded offsets r.0 n r.1
                      (expected_file_str (get "file_id" item) r found) le.2 b)

  resume_items-IsBounded :
      (items : Items) (offsets : Dict String ℕ) (offsets' : Dict String ℕ)
      → resume_items items files offsets ≡ ok offsets'
      → IsBounded offsets
      → IsBounded offsets'
  unfolding resume_items
  resume_items-IsBounded nil offsets offsets' h b =
      let e : offsets' ≡ offsets = ground arith in rw e b
  resume_items-IsBounded (cons raw items) offsets offsets' h b =
      by_return (resume_item raw files offsets) _ h λ next item_ok h1.
        resume_items-IsBounded items next offsets' h1
          (resume_item-IsBounded raw offsets next item_ok b)

  each_bounded :
      (offsets : Dict String ℕ) (rest : List IncomingFile)
      → IsBounded offsets
      → all (λ f. is_some (lookup f.file_id offsets)) rest ≡ true
      → All (λ f. expected_size f.file_id files ≡ some f.size) rest
      → All (λ f. (n : ℕ) × (lookup f.file_id offsets ≡ some n) × (n ≤ f.size)) rest
  each_bounded offsets [] b there own = tt
  each_bounded offsets (f ∷ rest) b there own = (
    elim (Option-cases (lookup f.file_id offsets)) [
      | inl gone ↦ absurd (ground arith)
      | inr (n, is) ↦
          let (size, same, le) = b f.file_id n is in (n, is, ground (arith, own.0, same, le))
    ],
    each_bounded offsets rest b (ground arith) own.1,
  )

-- If the sender accepts a resume state for an offer with distinct file IDs, it holds an offset for
-- every file of the offer, none of them behind the end of its file.
pub validate_resume_state-bounded :
    (value : Value) (offer : TransferOffer) (offsets : Dict String ℕ)
    → DistinctIds offer.files
    → validate_resume_state value offer ≡ ok offsets
    → All (λ f. (n : ℕ) × (lookup f.file_id offsets ≡ some n) × (n ≤ f.size)) offer.files
unfolding validate_resume_state same_keys
validate_resume_state-bounded value offer offsets distinct h =
    by_return (required (as_object value) "Expected resume state") _ h λ payload _ h1.
      by_return (same_text (get "type" payload) "resume_state" "Expected resume state") _ h1
        λ _ _ h2.
          by_return
            (same_text (get "transfer_id" payload) offer.transfer_id "Resume transfer ID mismatch")
            _ h2
            λ _ _ h3.
              by_return (required (as_array (get "files" payload)) "Invalid resume state") _ h3
                λ items _ h4.
                  by_return
                    (raise_if (not (count_items items == length offer.files))
                      (protocol_error "Invalid resume state"))
                    _ h4
                    λ _ _ h5.
                      by_return (resume_items items offer.files []) _ h5 λ found items_ok h6.
                        by_return
                          (raise_if (not (same_keys found offer.files))
                            (protocol_error "Incomplete resume state"))
                          _ h6
                          λ _ keys h7.
                            let e : offsets ≡ found = ground arith in
                            let b =
                              resume_items-IsBounded offer.files items [] found items_ok
                                (nothing offer.files) in
                            rw e (
                              each_bounded offer.files found offer.files b (ground (arith, keys))
                                (expected_size_own offer.files distinct))
