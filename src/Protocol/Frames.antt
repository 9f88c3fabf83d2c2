-- ===== src/Protocol/Frames.antt =====
-- core/transfer.py: the control messages that the two sides of a transfer build.
use mesh_direct.Prelude.{
  ℕ, String, Option, none, some, List, [], ◌∷◌, length, sum_by, ◌==◌, eq_nat, if◌then◌else◌,
}
use mesh_direct.Prelude.Int.{pos}
use mesh_direct.Config.{protocol_version}
use mesh_direct.Inbox.{IncomingFile}
use mesh_direct.Json.{
  Value, Items, nil, cons, Fields, end, field, str, int, array, object, Literal, text, number,
  to_fields,
}
use mesh_direct.Protocol.Text.{count_chars}

-- the entry of a file in an offer and in a resume query
abbrev pub file_literals : IncomingFile → List (String × Literal)
file_literals f =
    ("file_id", text f.file_id)
    ∷ ("name", text f.name)
    ∷ ("size", number f.size)
    ∷ ("sha256", text f.sha256)
    ∷ []

unfoldable pub file_items : List IncomingFile → Items
file_items [] = nil
file_items (f ∷ files) = cons (object (to_fields (file_literals f))) (file_items files)

-- `if message: offer_frame["message"] = message`
unfoldable pub message_field : Option String → Fields
message_field none = end
message_field (some s) = if count_chars s == 0 then end else field "message" (str s) end

-- the frame with which the sender offers the files
unfoldable pub offer_frame : String → List IncomingFile → Option String → Value
offer_frame transfer_id files message = object (
    field "type" (str "transfer_offer") (
      field "version" (int (pos protocol_version)) (
        field "transfer_id" (str transfer_id) (
          field "count" (int (pos (length files))) (
            field "total_size" (int (pos (sum_by (λ f. f.size) files)))
              (field "files" (array (file_items files)) (message_field message)))))))

abbrev pub resume_query_frame : String → List IncomingFile → Value
resume_query_frame transfer_id files = object (
    field "type" (str "resume_query")
      (field "transfer_id" (str transfer_id) (field "files" (array (file_items files)) end)))

abbrev pub chunk_frame : String → String → ℕ → ℕ → ℕ → Value
chunk_frame transfer_id file_id index offset size = object (
    to_fields (
      ("type", text "chunk")
      ∷ ("transfer_id", text transfer_id)
      ∷ ("file_id", text file_id)
      ∷ ("index", number index)
      ∷ ("offset", number offset)
      ∷ ("size", number size)
      ∷ []))

abbrev pub file_end_literals : String → String → List (String × Literal)
file_end_literals transfer_id file_id =
    ("type", text "file_end") ∷ ("transfer_id", text transfer_id) ∷ ("file_id", text file_id) ∷ []

abbrev pub file_end_frame : String → String → Value
file_end_frame transfer_id file_id = object (to_fields (file_end_literals transfer_id file_id))
