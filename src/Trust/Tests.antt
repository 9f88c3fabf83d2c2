-- ===== src/Trust/Tests.antt =====
-- The trust store of core/trust.py on concrete devices.
use mesh_direct.Prelude.{
  ◌≡◌, ◌≢◌, refl, String, false, none, some, List, [], ◌∷◌, lookup, insert, eq_string,
}
use mesh_direct.Prelude.Int.{pos}
use mesh_direct.Prelude.Python.{ok, raise, value_error}
use mesh_direct.Primitives.Samples.{samples, short_key, encode, decode, byte_char}
use mesh_direct.Protocol.Text.{prefix}
use mesh_direct.Identity.{
  is_device_id, behind, decode_public_key, device_id_of, device_id_from_public_key,
  fingerprint_from_public_key,
}
use mesh_direct.Trust.{
  finite, trusted, TrustedDevice, TrustStore, validate, decided, store_decided, save, insert_item,
  sorted_items, load, restart, assess, trust,
}
use mesh_direct.Trust.Calls.{Op, trusts, rejects, sees, restarts, run}
use mesh_direct.Trust.Decisions.{IsUntrusted, trusted_needs_trust}
use mesh_direct.Trust.Persistence.{IsSaved, restart-run}

abbrev seven : String
seven = encode (short_key (7 ∷ []))

abbrev nine : String
nine = encode (short_key (9 ∷ []))

abbrev nobody : TrustStore
nobody = record { devices = []; saved = none }

abbrev device : TrustedDevice
device = record {
  device_id = "mp-77777777";
  hostname = "desk";
  public_key = seven;
  fingerprint = "7777 7777 7777 7777";
  first_trusted_at = finite (pos 100);
  last_seen_at = finite (pos 100);
  status = "trusted";
}

trust-seven : trust samples false (finite (pos 100)) "mp-77777777" "desk" seven none nobody ≡ (
  record {
    devices = ("mp-77777777", device) ∷ [];
    saved = some (("mp-77777777", some device) ∷ []);
  },
  ok device,
)
unfolding trust decided store_decided save insert_item sorted_items validate is_device_id behind
    decode_public_key device_id_of device_id_from_public_key fingerprint_from_public_key insert
    lookup prefix encode decode byte_char
trust-seven = refl

trust_stranger :
    (trust samples false (finite (pos 100)) "mp-00000000" "desk" seven none nobody).1
    ≡ raise (value_error "Device ID does not match the supplied public key")
unfolding trust decided store_decided validate is_device_id decode_public_key device_id_of
    device_id_from_public_key prefix encode decode byte_char
trust_stranger = refl

abbrev calls : List Op
calls =
    trusts false (finite (pos 100)) "mp-77777777" "desk" seven none
    ∷ sees false "mp-77777777" (finite (pos 200))
    ∷ restarts
    ∷ rejects false (finite (pos 300)) "mp-00000000" "lamp" nine
    ∷ []

nobody-IsUntrusted : IsUntrusted samples "mp-00000000" nine nobody
unfolding lookup load
nobody-IsUntrusted = record { distinct = tt; file = tt; memory = refl; disk = refl }

trusted_needs_trust_example :
    assess (some "mp-00000000") (some nine) (run samples calls nobody) ≢ ok trusted
trusted_needs_trust_example =
    trusted_needs_trust samples "mp-00000000" nine calls nobody nobody-IsUntrusted refl

nobody-IsSaved : IsSaved samples nobody
unfolding lookup load
nobody-IsSaved = record { distinct = tt; file = tt; loads = λ id. refl; same = λ id. refl }

restart-run_example :
    (lookup "mp-77777777" (restart samples (run samples calls nobody)).devices
      ≡ lookup "mp-77777777" (run samples calls nobody).devices)
    × (assess (some "mp-77777777") (some seven) (restart samples (run samples calls nobody))
        ≡ assess (some "mp-77777777") (some seven) (run samples calls nobody))
restart-run_example =
    restart-run samples "mp-77777777" (some seven) calls nobody nobody-IsSaved refl
