-- ===== src/Protocol/OfferRoundTrip.antt =====
-- core/protocol.py and core/transfer.py: the receiver reads back the offer that the sender framed.
use mesh_direct.Prelude.{
  ℕ, ◌+◌, ◌≡◌, ◌≤◌, refl, String, true, false, Option, none, some, List, [], ◌∷◌, length, All,
  sum_by, arith, nat_eq_iff, ◌==◌, eq_string, eq_nat, if◌then◌else◌,
}
use mesh_direct.Prelude.Int.{pos}
use mesh_direct.Prelude.Python.{ok}
use mesh_direct.Config.{max_files_per_session, max_file_size, max_session_size}
use mesh_direct.Inbox.{IncomingFile}
use mesh_direct.Json.{get, str, int, object, count_items, to_fields}
use mesh_direct.Protocol.Text.{count_chars}
use mesh_direct.Protocol.Checks.{
  checks, required, same_text, int_between_iff, text_of, same_int_iff,
}
use mesh_direct.Protocol.Frames.{file_literals, file_items, message_field, offer_frame}
use mesh_direct.Protocol.{
  FileNames, TransferOffer, is_transfer_id, validate_filename, validate_transfer_id, validate_file,
  validate_files, validate_message, validate_offer,
}
use mesh_direct.Protocol.Offers.{IsFile, IsOffer, DistinctIds, IsMessage, Unseen}

-- What travels of a message: nothing of an empty one.
abbrev pub sent_message : Option String → Option String
sent_message none = none
sent_message (some s) = if count_chars s == 0 then none else some s

message_back :
    (message : Option String)
    → IsMessage message
    → validate_message (get "message" (message_field message)) ≡ ok (sent_message message)
unfolding validate_message message_field get
message_back none h = refl
message_back (some s) h = ground arith

module _ (names : FileNames) where
  file-back :
      (f : IncomingFile) (seen : List String) (total : ℕ)
      → IsFile names f
      → Unseen seen f
      → total + f.size ≤ max_session_size
      → validate_file names (object (to_fields (file_literals f))) seen total ≡ ok f
  unfolding validate_file validate_filename get required text_of
  file-back f seen total good new fits =
      rw
        (
          good.id,
          new,
          good.name,
          (int_between_iff 0 max_file_size (int (pos f.size)) "Invalid file size" f.size).1
              (refl, omega arith, good.size),
          good.digest,
        )
        (ground arith)

  Unseen-cons :
      (id : String) (seen : List String) (files : List IncomingFile)
      → All (λ g. (id == g.file_id) ≡ false) files
      → All (Unseen seen) files
      → All (Unseen (id ∷ seen)) files
  Unseen-cons id seen [] other h = tt
  Unseen-cons id seen (f ∷ files) other h =
      (ground (arith, other.0, h.0), Unseen-cons id seen files other.1 h.1)

  files-back :
      (files : List IncomingFile) (seen : List String) (total : ℕ)
      → All (IsFile names) files
      → All (Unseen seen) files
      → DistinctIds files
      → total + sum_by (λ f. f.size) files ≤ max_session_size
      → validate_files names (file_items files) seen total
        ≡ ok (files, total + sum_by (λ f. f.size) files)
  unfolding validate_files file_items
  files-back [] seen total good new distinct fits = ground arith
  files-back (f ∷ files) seen total good new distinct fits =
      let rest =
        files-back files (f.file_id ∷ seen) (total + f.size) good.1
          (Unseen-cons f.file_id seen files distinct.0 new.1) distinct.1 (omega arith) in
      let sums : total + f.size + sum_by (λ f. f.size) files
          ≡ total + (f.size + sum_by (λ f. f.size) files) =
        omega arith in
      rw (file-back f seen total good.0 new.0 (omega arith), rest, sums) refl

  all-Unseen : (files : List IncomingFile) → All (Unseen []) files
  all-Unseen [] = tt
  all-Unseen (f ∷ files) = (refl, all-Unseen files)

  count_items-file_items :
      (files : List IncomingFile) → count_items (file_items files) ≡ length files
  unfolding file_items
  count_items-file_items [] = refl
  count_items-file_items (f ∷ files) = omega (arith, count_items-file_items files)

  transfer_id_back : (s : String) → is_transfer_id s ≡ true → validate_transfer_id (str s) ≡ ok s
  unfolding validate_transfer_id checks
  transfer_id_back s h = ground arith

  -- The offer frame that the sender makes of a well-formed offer is an offer that the receiver takes,
  -- and reads back with the same transfer ID, files and total size, and with the same message, or
  -- none if that was empty.
  pub validate_offer-offer_frame :
      (offer : TransferOffer)
      → IsOffer names offer
      → validate_offer names (offer_frame offer.transfer_id offer.files offer.message)
        ≡ ok (record {
          transfer_id = offer.transfer_id;
          files = offer.files;
          total_size = offer.total_size;
          message = sent_message offer.message;
        })
  unfolding validate_offer offer_frame get required same_text
  validate_offer-offer_frame offer good =
      let total = good.total in
      let small = good.small in
      let from_zero : 0 + sum_by (λ f. f.size) offer.files ≡ sum_by (λ f. f.size) offer.files =
        omega arith in
      rw
        (
          transfer_id_back offer.transfer_id good.id,
          (int_between_iff 1 max_files_per_session (int (pos (length offer.files)))
                "Invalid file count" (length offer.files)).1
              (refl, good.some_files, good.few_files),
          count_items-file_items offer.files,
          (nat_eq_iff (length offer.files) (length offer.files)).1 refl,
          files-back offer.files [] 0 good.files (all-Unseen offer.files) good.distinct
              (omega arith),
          from_zero,
          (same_int_iff (int (pos (sum_by (λ f. f.size) offer.files)))
                (sum_by (λ f. f.size) offer.files) "Invalid total transfer size").1
              refl,
          message_back offer.message good.message,
          good.total,
        )
        refl
