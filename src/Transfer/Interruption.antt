-- ===== src/Transfer/Interruption.antt =====
-- core/transfer.py: what the receiver is left with when a session breaks off.
use mesh_direct.Prelude.{
  ℕ, zero, suc, ◌+◌, ◌-◌, ◌/◌, ◌≡◌, ◌≤◌, refl, String, Bool, true, false, some, [], ◌∷◌, ◌++◌,
  length, take, arith, Bool-cases, inl, inr, leb, ◌==◌, eq_nat, eq_string, eq_iff,
}
use mesh_direct.Prelude.Python.{Error, ok, raise, Result-cases, by_return}
use mesh_direct.Config.{chunk_size, header_max_size}
use mesh_direct.Frame.{Bytes}
use mesh_direct.Json.{Value, get}
use mesh_direct.Protocol.Frames.{chunk_frame, file_end_frame}
use mesh_direct.Transfer.{
  JsonModule, Connection, Partial, frame, fault, cancel_frame, receive_control_frame,
  receive_data_frame, receive_chunks, receive_file_data, send_chunks, send_file_data, receive_chunk,
  store_chunk, next_frame, check_cancel, field_of,
}
use mesh_direct.Transfer.RoundTrip.{
  Fits, Holds, IsSendable, control_received, header_taken, chunk_fields, read_source,
  read_source-bounds, received_round, store_chunk-Holds,
}
use mesh_direct.Transfer.Resumption.{receive_file_data-send_file_data}

-- The peer has closed, or the socket raises, such as after a timeout.
abbrev pub IsBroken : Connection → Type 0
IsBroken [] = Unit
IsBroken (fault e ∷ conn) = Unit
IsBroken (frame raw value ∷ conn) = ⊥

no_frame : (n : ℕ) (conn : Connection) → IsBroken conn → (e : Error) × (next_frame n conn ≡ raise e)
unfolding next_frame
no_frame n [] b = (_, refl)
no_frame n (fault e ∷ conn) b = (e, refl)
no_frame n (frame raw value ∷ conn) b = absurd b

no_data : (conn : Connection) → IsBroken conn → (e : Error) × (receive_data_frame conn ≡ raise e)
unfolding receive_data_frame
no_data conn b = let (e, failed) = no_frame (chunk_size + 64) conn b in (e, rw failed refl)

no_control :
    (conn : Connection) → IsBroken conn → (e : Error) × (receive_control_frame conn ≡ raise e)
unfolding receive_control_frame
no_control conn b = let (e, failed) = no_frame (header_max_size + 64) conn b in (e, rw failed refl)

control_back :
    (raw : Bytes) (value : Value) (conn : Connection) (r : Value × Connection)
    → receive_control_frame (frame raw (some value) ∷ conn) ≡ ok r
    → r.0 ≡ value
unfolding receive_control_frame next_frame
control_back raw value conn r h = ground arith

module _ (json : JsonModule) (transfer_id file_id : String) (source : Bytes)
    (ids : IsSendable json transfer_id file_id (length source)) where
  no_chunk :
      (index transferred : ℕ) (conn : Connection)
      → IsBroken conn
      → (e : Error) × (receive_chunk transfer_id file_id (length source) index transferred conn
          ≡ raise e)
  unfolding receive_chunk
  no_chunk index transferred conn b = let (e, failed) = no_control conn b in (e, rw failed refl)

  -- The connection breaks between a header and its chunk.
  header_only :
      (index : ℕ) (partial : Partial) (conn : Connection)
      → index ≤ partial.transferred
      → leb (length source) partial.transferred ≡ false
      → IsBroken conn
      → (let header =
            chunk_frame transfer_id file_id index partial.transferred
              (length (read_source source partial.transferred)) in
          (e : Error) × (receive_chunk transfer_id file_id
              (length source)
              index
              partial.transferred
              (frame (json.dumps header) (some header) ∷ conn)
            ≡ raise e))
  unfolding receive_chunk check_cancel field_of get chunk_fields
  header_only index partial conn early more b =
      let raw = read_source source partial.transferred in
      let (some_bytes, one_chunk, fits) = read_source-bounds source partial.transferred more in
      let (e, failed) = no_data conn b in
      (
        e,
        rw
            (
              control_received json
                  (chunk_fields transfer_id file_id index partial.transferred (length raw)) conn
                  (ids.header index partial.transferred (length raw) early (ground arith)
                    one_chunk),
              header_taken transfer_id file_id (length source) index partial.transferred
                  (length raw) ids.id ids.file some_bytes one_chunk fits,
              failed,
            )
            refl,
      )

  -- The sender cancels in place of a chunk.
  cancel_only :
      (index transferred : ℕ) (raw : Bytes) (conn : Connection) (r : Bytes × Connection)
      → receive_chunk transfer_id file_id
          (length source)
          index
          transferred
          (frame raw (some (cancel_frame transfer_id)) ∷ conn)
        ≡ ok r
      → ⊥
  unfolding receive_chunk check_cancel field_of get
  cancel_only index transferred raw conn r h =
      by_return (receive_control_frame (frame raw (some (cancel_frame transfer_id)) ∷ conn)) _ h
        λ c c_ok h1.
          let is_cancel = control_back raw (cancel_frame transfer_id) conn c c_ok in
          by_return (check_cancel transfer_id c.0) _ h1
            λ _ passed _. ground (arith, (eq_iff transfer_id transfer_id).1 refl)

  refused :
      (fuel index : ℕ) (partial : Partial) (conn : Connection)
      → (e : Error) × (receive_chunk transfer_id file_id
            (length source)
            index
            partial.transferred
            conn
          ≡ raise e)
      → Holds source partial
      → Holds source
          (receive_chunks transfer_id file_id (length source) (suc fuel) index partial conn).0
  unfolding receive_chunks
  refused fuel index partial conn (e, failed) h =
      elim (Bool-cases (leb (length source) partial.transferred)) [
        | inl done ↦ rw done h
        | inr more ↦ rw (more, failed) h
      ]

  taken :
      (fuel index : ℕ) (partial : Partial) (conn : Connection) (raw : Bytes) (conn' : Connection)
      → leb (length source) partial.transferred ≡ false
      → receive_chunk transfer_id file_id (length source) index partial.transferred conn
        ≡ ok (raw, conn')
      → Holds source
          (receive_chunks transfer_id file_id
            (length source)
            fuel
            (suc index)
            (store_chunk raw partial)
            conn').0
      → Holds source
          (receive_chunks transfer_id file_id (length source) (suc fuel) index partial conn).0
  unfolding receive_chunks
  taken fuel index partial conn raw conn' more got h = rw (more, got) h

  -- A cancel frame, or what is left of it
  cancelled_round :
      (fuel index : ℕ) (partial : Partial) (k : ℕ) (raw : Bytes) (broken : Connection)
      → IsBroken broken
      → Holds source partial
      → Holds source
          (receive_chunks transfer_id file_id
            (length source)
            (suc fuel)
            index
            partial
            (take k (frame raw (some (cancel_frame transfer_id)) ∷ []) ++ broken)).0
  cancelled_round fuel index partial zero raw broken b h =
      refused fuel index partial broken (no_chunk index partial.transferred broken b) h
  cancelled_round fuel index partial (suc k) raw broken b h =
      elim (Result-cases (
        receive_chunk transfer_id file_id (length source) index partial.transferred
          (frame raw (some (cancel_frame transfer_id)) ∷ take k [] ++ broken))) [
            | inl (r, got) ↦
                absurd (cancel_only index partial.transferred raw (take k [] ++ broken) r got)
            | inr failed ↦ refused fuel index partial _ failed h
          ]

  module _ (cancelled : ℕ → Bool) where
    frames_cancel :
        (fuel index offset : ℕ)
        → leb (length source) offset ≡ false
        → cancelled offset ≡ true
        → (send_chunks json transfer_id file_id
            (length source)
            cancelled
            (read_source source)
            (suc fuel)
            index
            offset).0
          ≡ frame (json.dumps (cancel_frame transfer_id)) (some (cancel_frame transfer_id)) ∷ []
    unfolding send_chunks
    frames_cancel fuel index offset more stop = rw (more, stop) refl

    frames_chunk :
        (fuel index offset : ℕ)
        → leb (length source) offset ≡ false
        → cancelled offset ≡ false
        → (let raw = read_source source offset in
            let header = chunk_frame transfer_id file_id index offset (length raw) in
            (send_chunks json transfer_id file_id
              (length source)
              cancelled
              (read_source source)
              (suc fuel)
              index
              offset).0
            ≡ frame (json.dumps header) (some header)
              ∷ frame raw (json.loads raw)
              ∷ (send_chunks json transfer_id file_id
                  (length source)
                  cancelled
                  (read_source source)
                  fuel
                  (suc index)
                  (offset + length raw)).0)
    unfolding send_chunks
    frames_chunk fuel index offset more on =
        let raw = read_source source offset in
        let (some_bytes, _, _) = read_source-bounds source offset more in
        let read_some : (length raw == 0) ≡ false = ground arith in rw (more, on, read_some) refl

    chunk_round :
        (fuel index : ℕ) (partial : Partial) (k : ℕ) (broken : Connection)
        → index ≤ partial.transferred
        → leb (length source) partial.transferred ≡ false
        → IsBroken broken
        → Holds source partial
        → ((j : ℕ)
            → (let raw = read_source source partial.transferred in
                Holds source
                  (receive_chunks transfer_id file_id
                    (length source)
                    fuel
                    (suc index)
                    (store_chunk raw partial)
                    (take j (
                        (send_chunks json transfer_id file_id
                          (length source)
                          cancelled
                          (read_source source)
                          fuel
                          (suc index)
                          (partial.transferred + length raw)).0)
                      ++ broken)).0))
        → (let raw = read_source source partial.transferred in
            let header = chunk_frame transfer_id file_id index partial.transferred (length raw) in
            Holds source
              (receive_chunks transfer_id file_id (length source) (suc fuel) index partial (
                take k (
                  frame (json.dumps header) (some header)
                  ∷ frame raw (json.loads raw)
                  ∷ (send_chunks json transfer_id file_id
                      (length source)
                      cancelled
                      (read_source source)
                      fuel
                      (suc index)
                      (partial.transferred + length raw)).0)
                ++ broken)).0)
    chunk_round fuel index partial zero broken early more b h next =
        refused fuel index partial broken (no_chunk index partial.transferred broken b) h
    chunk_round fuel index partial (suc zero) broken early more b h next =
        refused fuel index partial _ (header_only index partial broken early more b) h
    chunk_round fuel index partial (suc (suc k)) broken early more b h next =
        let raw = read_source source partial.transferred in
        let conn =
          take k (
            (send_chunks json transfer_id file_id (length source) cancelled (read_source source)
              fuel (suc index) (partial.transferred + length raw)).0)
          ++ broken in
        taken fuel index partial _ raw conn more
          (received_round json transfer_id file_id source ids index partial conn early more)
          (next k)

    next_early :
        (index : ℕ) (partial : Partial)
        → index ≤ partial.transferred
        → leb (length source) partial.transferred ≡ false
        → suc index ≤ partial.transferred + length (read_source source partial.transferred)
    next_early index partial early more =
        let (some_bytes, _, _) = read_source-bounds source partial.transferred more in
        omega (arith, some_bytes, early)

    chunks-Holds :
        (fuel index : ℕ) (partial : Partial) (k : ℕ) (broken : Connection)
        → index ≤ partial.transferred
        → IsBroken broken
        → Holds source partial
        → Holds source
            (receive_chunks transfer_id file_id (length source) fuel index partial (
              take k (
                (send_chunks json transfer_id file_id
                  (length source)
                  cancelled
                  (read_source source)
                  fuel
                  index
                  partial.transferred).0)
              ++ broken)).0
    unfolding receive_chunks store_chunk
    chunks-Holds zero index partial k broken early b h = h
    chunks-Holds (suc fuel) index partial k broken early b h =
        elim (Bool-cases (leb (length source) partial.transferred)) [
          | inl done ↦ rw done h
          | inr more ↦ elim (Bool-cases (cancelled partial.transferred)) [
            | inl stop ↦ rw (frames_cancel fuel index partial.transferred more stop) (
                cancelled_round fuel index partial k (json.dumps (cancel_frame transfer_id)) broken
                  b h)
            | inr on ↦ rw (frames_chunk fuel index partial.transferred more on) (
                chunk_round fuel index partial k broken early more b h (λ j.
                  chunks-Holds fuel (suc index)
                    (store_chunk (read_source source partial.transferred) partial) j broken
                    (next_early index partial early more) b (store_chunk-Holds source partial h)))
          ]
        ]

  -- With valid IDs, and if a frame may carry the headers of the chunks of the source, if the partial file is the first part of the
  -- source and the session breaks off, by a cancel of the
  -- sender or by the loss of the connection behind any number of its frames, the partial file is
  -- still a first part of the source; and a second attempt from there, which nothing breaks, makes
  -- it the whole source.
  pub receive_file_data-resumes :
      (cancelled : ℕ → Bool) (partial : Partial) (k : ℕ) (broken rest : Connection)
      → Fits json (file_end_frame transfer_id file_id)
      → IsBroken broken
      → Holds source partial
      → (let first =
            send_file_data json transfer_id file_id
              (length source)
              cancelled
              (read_source source)
              partial.transferred in
          let left =
            (receive_file_data transfer_id file_id
              (length source)
              partial
              (take k first.0 ++ broken)).0 in
          let second =
            send_file_data json transfer_id file_id
              (length source)
              (λ _. false)
              (read_source source)
              left.transferred in
          Holds source left
          × ((receive_file_data transfer_id file_id (length source) left (
                second.0
                ++ frame
                    (json.dumps (file_end_frame transfer_id file_id))
                    (some (file_end_frame transfer_id file_id))
                  ∷ rest)).0.content
              ≡ source))
  unfolding send_file_data receive_file_data
  receive_file_data-resumes cancelled partial k broken rest end_fits b h =
      let left =
        chunks-Holds cancelled (length source - partial.transferred)
          (partial.transferred / chunk_size) partial k broken (omega arith) b h in
      let (_, _, whole) =
        receive_file_data-send_file_data json transfer_id file_id source (λ _. false) _ rest ids
          end_fits (λ _. refl) left in
      (left, whole)
