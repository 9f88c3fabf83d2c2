-- ===== src/Transfer/Tests.antt =====
-- The loops of core/transfer.py on a small file.
use mesh_direct.Prelude.{◌≡◌, refl, String, false, none, some, [], ◌∷◌, ◌++◌, take, arith}
use mesh_direct.Prelude.Python.{ok, timeout}
use mesh_direct.Frame.{Bytes}
use mesh_direct.Protocol.Frames.{file_end_frame, offer_frame, file_items, message_field}
use mesh_direct.Protocol.PlainNames.{last_part, plain_names}
use mesh_direct.Protocol.Offers.{validate_offer-IsOffer}
use mesh_direct.Inbox.{IncomingFile}
use mesh_direct.Json.{get}
use mesh_direct.Protocol.Checks.{checks}
use mesh_direct.Protocol.Text.{ends_in_dot_or_space}
use mesh_direct.Protocol.{
  is_transfer_id, is_file_id, TransferOffer, validate_offer, validate_transfer_id, validate_files,
  validate_file, validate_filename, sanitize_filename, is_digest, validate_message,
}
use mesh_direct.Transfer.{
  JsonModule, Connection, Partial, frame, fault, send_file_data, receive_file_data,
}
use mesh_direct.Transfer.RoundTrip.{Holds, IsSendable, read_source}
use mesh_direct.Transfer.Offering.{receive_offer, receive_offer-offer_frame}
use mesh_direct.Transfer.Resumption.{receive_file_data-send_file_data}
use mesh_direct.Transfer.Interruption.{receive_file_data-resumes}

-- A stand-in: the loops look at the length of a text only.
abbrev short_json : JsonModule
short_json = record { dumps = λ value. 123 ∷ 125 ∷ []; loads = λ raw. none }

abbrev id : String
id = "0123456789abcdef0123456789abcdef"

abbrev source : Bytes
source = 10 ∷ 20 ∷ 30 ∷ []

abbrev started : Partial
started = record { content = 10 ∷ []; transferred = 1; this_attempt = 0 }

ids : IsSendable short_json id "file-0" 3
unfolding is_transfer_id is_file_id
ids = record { id = refl; file = refl; header = λ index offset n _ _ _. omega arith }

started-Holds : Holds source started
started-Holds = record { same = refl; within = omega arith }

abbrev finished : Connection
finished = frame (123 ∷ 125 ∷ []) (some (file_end_frame id "file-0")) ∷ []

receive_file_data-send_file_data_example :
    (let sent = send_file_data short_json id "file-0" 3 (λ n. false) (read_source source) 1 in
      let received = receive_file_data id "file-0" 3 started (sent.0 ++ finished) in
      (sent.1 ≡ ok 3) × (received.1 ≡ ok []) × (received.0.content ≡ source))
receive_file_data-send_file_data_example =
    receive_file_data-send_file_data short_json id "file-0" source (λ n. false) started [] ids
      (omega arith) (λ n. refl) started-Holds

-- The connection is lost behind the header of the chunk.
receive_file_data-resumes_example :
    (let first = send_file_data short_json id "file-0" 3 (λ n. false) (read_source source) 1 in
      let left =
        (receive_file_data id "file-0" 3 started
          (take 1 first.0 ++ fault (timeout "timed out") ∷ [])).0 in
      let second =
        send_file_data short_json id "file-0" 3
          (λ n. false)
          (read_source source)
          left.transferred in
      Holds source left
      × ((receive_file_data id "file-0" 3 left (second.0 ++ finished)).0.content ≡ source))
receive_file_data-resumes_example =
    receive_file_data-resumes short_json id "file-0" source ids (λ n. false) started 1
      (fault (timeout "timed out") ∷ []) [] (omega arith) tt started-Holds

abbrev notes : IncomingFile
notes = record {
  file_id = "file-0";
  name = "notes.txt";
  size = 3;
  sha256 = "0123456789abcdef0123456789abcdef0123456789abcdef0123456789abcdef";
}

abbrev offer : TransferOffer
offer = record { transfer_id = id; files = notes ∷ []; total_size = 3; message = some "hello" }

offer_accepted : validate_offer plain_names (offer_frame id (notes ∷ []) (some "hello")) ≡ ok offer
unfolding validate_offer offer_frame checks last_part get validate_transfer_id is_transfer_id
    file_items validate_files validate_file is_file_id validate_filename sanitize_filename
    ends_in_dot_or_space is_digest validate_message message_field
offer_accepted = refl

receive_offer-offer_frame_example :
    receive_offer plain_names (
      frame (123 ∷ 125 ∷ []) (some (offer_frame offer.transfer_id offer.files offer.message))
      ∷ finished)
    ≡ ok (offer, finished)
receive_offer-offer_frame_example =
    receive_offer-offer_frame plain_names short_json offer finished
      (validate_offer-IsOffer plain_names (offer_frame id (notes ∷ []) (some "hello")) offer
        offer_accepted)
      (omega arith)
