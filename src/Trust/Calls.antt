-- ===== src/Trust/Calls.antt =====
-- core/trust.py: any sequence of calls on the trust store, and of restarts of the program.
use mesh_direct.Prelude.{String, Bool, List, [], ◌∷◌, Option}
use mesh_direct.Primitives.{Primitives}
use mesh_direct.Trust.{Timestamp, TrustStore, trust, reject, untrust, update_last_seen, restart}

-- The first argument of a call tells that its file cannot be written.
pub data Op : Type 0 where
  trusts : Bool → Timestamp → String → String → String → Option Timestamp → Op
  rejects : Bool → Timestamp → String → String → String → Op
  forgets : Bool → String → Op
  sees : Bool → String → Timestamp → Op
  restarts : Op

module _ (c : Primitives) where
  unfoldable pub apply : Op → TrustStore → TrustStore
  apply (trusts fails now device_id hostname public_key last_seen_at) store =
      (trust c fails now device_id hostname public_key last_seen_at store).0
  apply (rejects fails now device_id hostname public_key) store =
      (reject c fails now device_id hostname public_key store).0
  apply (forgets fails device_id) store = (untrust fails device_id store).0
  apply (sees fails device_id timestamp) store =
      (update_last_seen fails device_id timestamp store).0
  apply restarts store = restart c store

  unfoldable pub run : List Op → TrustStore → TrustStore
  unfolding apply
  run [] store = store
  run (op ∷ ops) store = run ops (apply op store)
