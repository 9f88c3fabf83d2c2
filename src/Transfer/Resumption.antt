-- ===== src/Transfer/Resumption.antt =====
-- core/transfer.py: a file that is sent is the file that is received, in one attempt or resumed.
use mesh_direct.Prelude.{
  ℕ, ◌-◌, ◌/◌, ◌≡◌, refl, ◌∙◌, String, Bool, true, false, some, ◌∷◌, ◌++◌, length, arith, eq_nat,
  eq_string, eq_iff,
}
use mesh_direct.Prelude.Python.{ok}
use mesh_direct.Config.{chunk_size}
use mesh_direct.Frame.{Bytes}
use mesh_direct.Json.{get, is_dict, to_fields}
use mesh_direct.Protocol.Frames.{file_end_frame, file_end_literals}
use mesh_direct.Transfer.{
  JsonModule, Connection, Partial, frame, receive_file_data, send_file_data, expect_file_end,
}
use mesh_direct.Transfer.Writes.{take_all}
use mesh_direct.Transfer.RoundTrip.{
  Fits, Holds, IsSendable, chunks-Delivered, control_received, read_source,
}

file_end_is :
    (transfer_id file_id : String)
    → is_dict (file_end_frame transfer_id file_id) (file_end_literals transfer_id file_id) ≡ true
unfolding is_dict get
file_end_is transfer_id file_id =
    ground (arith, (eq_iff transfer_id transfer_id).1 refl, (eq_iff file_id file_id).1 refl)

module _ (json : JsonModule) (transfer_id file_id : String) (source : Bytes) where
  end_received :
      (rest : Connection)
      → Fits json (file_end_frame transfer_id file_id)
      → expect_file_end transfer_id file_id (
          frame
            (json.dumps (file_end_frame transfer_id file_id))
            (some (file_end_frame transfer_id file_id))
          ∷ rest)
        ≡ ok rest
  unfolding expect_file_end
  end_received rest fits =
      rw
        (
          control_received json (to_fields (file_end_literals transfer_id file_id)) rest fits,
          file_end_is transfer_id file_id,
        )
        refl

  -- With valid IDs, and if a frame may carry the headers of the chunks of the source, if the partial file is the first part of the
  -- source, of as many bytes as both sides start from,
  -- and nobody cancels, then the sender sends the rest of the source, and from the frames of this
  -- and the end of the file the receiver makes the partial file the whole source and goes on behind
  -- them.
  pub receive_file_data-send_file_data :
      (cancelled : ℕ → Bool) (partial : Partial) (rest : Connection)
      → IsSendable json transfer_id file_id (length source)
      → Fits json (file_end_frame transfer_id file_id)
      → ((n : ℕ) → cancelled n ≡ false)
      → Holds source partial
      → (let sent =
            send_file_data json transfer_id file_id
              (length source)
              cancelled
              (read_source source)
              partial.transferred in
          let received = receive_file_data transfer_id file_id (length source) partial (
            sent.0
            ++ frame
                (json.dumps (file_end_frame transfer_id file_id))
                (some (file_end_frame transfer_id file_id))
              ∷ rest) in
          (sent.1 ≡ ok (length source)) × (received.1 ≡ ok rest) × (received.0.content ≡ source))
  unfolding send_file_data receive_file_data
  receive_file_data-send_file_data cancelled partial rest ids end_fits never h =
      let tail =
        frame (json.dumps (file_end_frame transfer_id file_id))
          (some (file_end_frame transfer_id file_id))
        ∷ rest in
      let d =
        chunks-Delivered json transfer_id file_id source ids cancelled never
          (length source - partial.transferred) (partial.transferred / chunk_size) partial tail
          (omega arith) (omega arith) h in
      (
        d.sent_all,
        rw d.received_all (end_received rest end_fits),
        d.holds.same ∙ take_all _ source (omega (arith, d.whole)),
      )
