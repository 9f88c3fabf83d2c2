-- ===== src/Protocol/Offers.antt =====
-- core/protocol.py: what is true of an offer that `validate_offer` lets through.
use mesh_direct.Prelude.{
  ℕ, ◌+◌, ◌≡◌, ◌≤◌, refl, String, true, false, not, ◌||◌, Option, none, some, List, [], ◌∷◌, length,
  any, All, sum_by, arith, ◌==◌, eq_string, eq_nat,
}
use mesh_direct.Prelude.Python.{ok, raise_if, protocol_error, by_return}
use mesh_direct.Config.{
  max_files_per_session, max_file_size, max_session_size, max_transfer_message_length,
  protocol_version,
}
use mesh_direct.Inbox.{IncomingFile}
use mesh_direct.Json.{
  Value, Items, nil, cons, str, get, as_object, as_array, is_number, count_items,
}
use mesh_direct.Protocol.Text.{count_chars}
use mesh_direct.Protocol.Checks.{
  required, same_text, same_int, int_between, text_of, int_between_iff,
}
use mesh_direct.Protocol.{
  FileNames, TransferOffer, is_transfer_id, is_file_id, is_digest, sanitize_filename,
  validate_filename, validate_transfer_id, validate_file, validate_files, validate_message,
  validate_offer,
}

module _ (names : FileNames) where
  pub record IsFile (file : IncomingFile) : Type 0 where
    pub id : is_file_id file.file_id ≡ true
    pub name : sanitize_filename names file.name ≡ ok file.name
    pub size : file.size ≤ max_file_size
    pub digest : is_digest file.sha256 ≡ true

-- No file has the ID of one before it.
abbrev pub DistinctIds : List IncomingFile → Type 0
DistinctIds [] = Unit
DistinctIds (f ∷ fs) = All (λ g. (f.file_id == g.file_id) ≡ false) fs × DistinctIds fs

abbrev pub IsMessage : Option String → Type 0
IsMessage none = Unit
IsMessage (some s) = count_chars s ≤ max_transfer_message_length

module _ (names : FileNames) where
  pub record IsOffer (offer : TransferOffer) : Type 0 where
    pub id : is_transfer_id offer.transfer_id ≡ true
    pub some_files : 1 ≤ length offer.files
    pub few_files : length offer.files ≤ max_files_per_session
    pub files : All (IsFile names) offer.files
    pub distinct : DistinctIds offer.files
    pub total : offer.total_size ≡ sum_by (λ f. f.size) offer.files
    pub small : offer.total_size ≤ max_session_size
    pub message : IsMessage offer.message

abbrev pub Unseen : List String → IncomingFile → Type 0
Unseen seen f = any (λ s. s == f.file_id) seen ≡ false

module _ (names : FileNames) where
  sanitize_filename_same : (s t : String) → sanitize_filename names s ≡ ok t → t ≡ s
  unfolding sanitize_filename
  sanitize_filename_same s t h = ground arith

  validate_filename_same :
      (v : Value) (t : String) → validate_filename names v ≡ ok t → sanitize_filename names t ≡ ok t
  unfolding validate_filename
  validate_filename_same v t h =
      by_return (text_of v "Invalid filename") (sanitize_filename names) h
        λ s is_text clean. ground (arith, sanitize_filename_same s t clean)

  file-IsFile :
      (raw : Value) (seen : List String) (total : ℕ) (f : IncomingFile)
      → validate_file names raw seen total ≡ ok f
      → IsFile names f × Unseen seen f × (total + f.size ≤ max_session_size)
  unfolding validate_file
  file-IsFile raw seen total f h =
      by_return (required (as_object raw) "Invalid file metadata") _ h λ fields _ h1.
        by_return (text_of (get "file_id" fields) "Invalid file ID") _ h1 λ file_id _ h2.
          by_return
            (raise_if (not (is_file_id file_id) || any (λ s. s == file_id) seen)
              (protocol_error "Invalid file ID"))
            _ h2
            λ _ id_ok h3.
              by_return (validate_filename names (get "name" fields)) _ h3 λ name name_ok h4.
                by_return (int_between 0 max_file_size (get "size" fields) "Invalid file size") _ h4
                  λ size size_ok h5. ground (
                    arith,
                    validate_filename_same (get "name" fields) name name_ok,
                    int_between_iff 0 max_file_size (get "size" fields) "Invalid file size" size,
                  )

  -- What the loop has established when it returns.
  record Checked (seen : List String) (total : ℕ) (items : Items) (files : List IncomingFile)
      (sum : ℕ) : Type 0 where
    each : All (IsFile names) files
    unseen : All (Unseen seen) files
    distinct : DistinctIds files
    summed : sum ≡ total + sum_by (λ f. f.size) files
    small : total ≤ max_session_size → sum ≤ max_session_size
    counted : length files ≡ count_items items

  Unseen-split :
      (id : String) (seen : List String) (files : List IncomingFile)
      → All (Unseen (id ∷ seen)) files
      → All (λ g. (id == g.file_id) ≡ false) files × All (Unseen seen) files
  Unseen-split id seen [] h = (tt, tt)
  Unseen-split id seen (f ∷ files) h =
      let (here, there) = Unseen-split id seen files h.1 in
      ((ground (arith, h.0), here), (ground (arith, h.0), there))

  Checked-cons :
      (raw : Value) (items : Items) (seen : List String) (total : ℕ) (f : IncomingFile)
      (files : List IncomingFile) (sum : ℕ)
      → IsFile names f × Unseen seen f × (total + f.size ≤ max_session_size)
      → Checked (f.file_id ∷ seen) (total + f.size) items files sum
      → Checked seen total (cons raw items) (f ∷ files) sum
  Checked-cons raw items seen total f files sum (good, new, fits) c =
      let (others, unseen) = Unseen-split f.file_id seen files c.unseen in
      record {
        each = (good, c.each);
        unseen = (new, unseen);
        distinct = (others, c.distinct);
        summed = omega (arith, c.summed);
        small = λ _. c.small fits;
        counted = omega (arith, c.counted);
      }

  files-Checked :
      (items : Items) (seen : List String) (total : ℕ) (files : List IncomingFile) (sum : ℕ)
      → validate_files names items seen total ≡ ok (files, sum)
      → Checked seen total items files sum
  unfolding validate_files
  files-Checked nil seen total [] sum h = record {
    each = tt;
    unseen = tt;
    distinct = tt;
    summed = ground arith;
    small = λ le. ground arith;
    counted = refl;
  }
  files-Checked nil seen total (f ∷ files) sum h = absurd (ground arith)
  files-Checked (cons raw items) seen total files sum h =
      by_return (validate_file names raw seen total) _ h λ f f_ok h1.
        by_return (validate_files names items (f.file_id ∷ seen) (total + f.size)) _ h1 λ r r_ok h2.
          let files_eq : files ≡ f ∷ r.0 = ground arith in
          let sum_eq : sum ≡ r.1 = ground arith in
          rw (files_eq, sum_eq)
            (Checked-cons raw items seen total f r.0 r.1 (file-IsFile raw seen total f f_ok)
              (files-Checked items (f.file_id ∷ seen) (total + f.size) r.0 r.1 r_ok))

  validate_message-IsMessage :
      (v : Value) (message : Option String) → validate_message v ≡ ok message → IsMessage message
  unfolding validate_message
  validate_message-IsMessage (str s) none h = tt
  validate_message-IsMessage (str s) (some t) h = ground arith
  validate_message-IsMessage v none h = tt
  validate_message-IsMessage v (some t) h = absurd (ground arith)

  transfer_id_valid :
      (v : Value) (id : String) → validate_transfer_id v ≡ ok id → is_transfer_id id ≡ true
  unfolding validate_transfer_id
  transfer_id_valid v id h = ground arith

  -- Every offer that `validate_offer` returns has a transfer ID of the right form, between 1 and 1024
  -- files under distinct IDs of the right form, each with a name that `sanitize_filename` returns
  -- as it is, a size within the file limit and a digest of 64 hex digits; its total size is the sum
  -- of the sizes and within the session limit, and its message is within the message limit.
  pub validate_offer-IsOffer :
      (value : Value) (offer : TransferOffer)
      → validate_offer names value ≡ ok offer
      → IsOffer names offer
  unfolding validate_offer
  validate_offer-IsOffer value offer h =
      by_return (required (as_object value) "Expected transfer offer") _ h λ payload _ h1.
        by_return (same_text (get "type" payload) "transfer_offer" "Expected transfer offer") _ h1
          λ _ _ h2.
            by_return
              (raise_if (not (is_number (get "version" payload) protocol_version))
                (protocol_error "Protocol version mismatch"))
              _ h2
              λ _ _ h3.
                by_return (validate_transfer_id (get "transfer_id" payload)) _ h3 λ id id_ok h4.
                  by_return (required (as_array (get "files" payload)) "Invalid file count") _ h4
                    λ raw_files _ h5.
                      by_return
                        (int_between 1 max_files_per_session (get "count" payload)
                          "Invalid file count")
                        _ h5
                        λ count count_ok h6.
                          by_return
                            (raise_if (not (count == count_items raw_files))
                              (protocol_error "Invalid file count"))
                            _ h6
                            λ _ counted h7.
                              by_return (validate_files names raw_files [] 0) _ h7 λ r r_ok h8.
                                by_return
                                  (same_int (get "total_size" payload) r.1
                                    "Invalid total transfer size")
                                  _ h8
                                  λ _ _ h9.
                                    by_return (validate_message (get "message" payload)) _ h9
                                      λ message message_ok h10.
                                        let e : offer ≡ record {
                                          transfer_id = id;
                                          files = r.0;
                                          total_size = r.1;
                                          message = message;
                                        } =
                                          ground arith in
                                        let c = files-Checked raw_files [] 0 r.0 r.1 r_ok in
                                        let bounds =
                                          (int_between_iff 1 max_files_per_session
                                              (get "count" payload) "Invalid file count" count).0
                                            count_ok in
                                        rw e (record {
                                          id =
                                              transfer_id_valid (get "transfer_id" payload) id
                                                id_ok;
                                          some_files = ground (arith, c.counted, bounds.1);
                                          few_files = ground (arith, c.counted, bounds.2);
                                          files = c.each;
                                          distinct = c.distinct;
                                          total = omega (arith, c.summed);
                                          small = c.small (omega arith);
                                          message =
                                              validate_message-IsMessage (get "message" payload)
                                                message message_ok;
                                        })
