-- ===== src/Transfer/Offering.antt =====
-- core/transfer.py: the offer of a session on its way, `_receive_session` at its start.
use mesh_direct.Prelude.{◌≡◌, refl, some, ◌∷◌}
use mesh_direct.Prelude.Python.{Result, ok, ◌>>=◌}
use mesh_direct.Protocol.Frames.{offer_frame}
use mesh_direct.Protocol.{FileNames, TransferOffer, validate_offer}
use mesh_direct.Protocol.Offers.{IsOffer}
use mesh_direct.Protocol.OfferRoundTrip.{sent_message, validate_offer-offer_frame}
use mesh_direct.Transfer.{JsonModule, Connection, frame, receive_control_frame}
use mesh_direct.Transfer.RoundTrip.{Fits, control_received}

module _ (names : FileNames) where
  -- `validate_offer(_recv_frame_json(conn, session_key))`
  unfoldable pub receive_offer : Connection → Result (TransferOffer × Connection)
  receive_offer conn = do
    (payload, conn) ← receive_control_frame conn
    offer ← validate_offer names payload
    ok (offer, conn)

  offer_taken :
      (json : JsonModule) (offer : TransferOffer) (conn : Connection)
      → (let sent = offer_frame offer.transfer_id offer.files offer.message in
          Fits json sent
          → receive_control_frame (frame (json.dumps sent) (some sent) ∷ conn) ≡ ok (sent, conn))
  unfolding offer_frame
  offer_taken json offer conn fits = control_received json _ conn fits

  -- The receiver of a session takes the frame with which the sender offers a well-formed offer, if a
  -- control frame may carry it, as an offer with the same transfer ID, files and total size, and with
  -- the same message, or none if that was empty, and goes on behind it.
  pub receive_offer-offer_frame :
      (json : JsonModule) (offer : TransferOffer) (conn : Connection)
      → IsOffer names offer
      → Fits json (offer_frame offer.transfer_id offer.files offer.message)
      → (let sent = offer_frame offer.transfer_id offer.files offer.message in
          receive_offer (frame (json.dumps sent) (some sent) ∷ conn)
          ≡ ok (
            record {
              transfer_id = offer.transfer_id;
              files = offer.files;
              total_size = offer.total_size;
              message = sent_message offer.message;
            },
            conn,
          ))
  unfolding receive_offer
  receive_offer-offer_frame json offer conn good fits =
      rw (offer_taken json offer conn fits, validate_offer-offer_frame names offer good) refl
