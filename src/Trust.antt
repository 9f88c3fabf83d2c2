-- ===== src/Trust.antt =====
-- core/trust.py: the decisions about peers, in memory and in their JSON file. A call takes whether
-- the file can be written; it changes the memory before it writes.
pub mod Calls
mod Saved
pub mod Decisions
mod Persistence
mod Tests
use mesh_direct.Prelude.{
  ℕ, zero, ◌+◌, String, Bool, true, false, not, ◌&&◌, ◌||◌, Option, none, some, List, [], ◌∷◌, map,
  ltb, ◌==◌, eq_nat, eq_string, if◌then◌else◌, is_some, Dict, lookup, insert, without,
}
use mesh_direct.Prelude.Python.{Result, ok, raise, ◌>>=◌, ◌>>◌, raise_if, value_error, os_error}
use mesh_direct.Prelude.Int.{ℤ, pos, negsuc}
use mesh_direct.Protocol.Text.{count_chars, prefix}
use mesh_direct.Json.Canonical.{text_le}
use mesh_direct.Primitives.{Primitives}
use mesh_direct.Identity.{
  is_device_id, decode_public_key, device_id_from_public_key, fingerprint_from_public_key,
}

pub data TrustStatus : Type 0 where
  new trusted rejected changed : TrustStatus

-- A number of Python, within the range of a float: finite, or an infinity, above or below all, or nan.
pub data Timestamp : Type 0 where
  finite : ℤ → Timestamp
  infinite : Bool → Timestamp
  nan : Timestamp

-- `math.isfinite(value)`, and not `value < 0`
abbrev pub is_time : Timestamp → Bool
is_time (finite (pos n)) = true
is_time _ = false

-- `timestamp - last_seen_at < 30`. The difference of two equal infinities is nan.
abbrev pub is_soon : Timestamp → Timestamp → Bool
is_soon (finite (pos t)) (finite (pos last)) = ltb t (last + 30)
is_soon (finite (pos t)) (finite (negsuc last)) = ltb (t + last + 1) 30
is_soon (finite (negsuc t)) (finite (pos last)) = true
is_soon (finite (negsuc t)) (finite (negsuc last)) = ltb last (t + 30)
is_soon (finite t) (infinite above) = above
is_soon (finite t) nan = false
is_soon (infinite above) (finite last) = not above
is_soon (infinite true) (infinite above) = false
is_soon (infinite false) (infinite above) = above
is_soon (infinite above) nan = false
is_soon nan last = false

pub record TrustedDevice : Type 0 where
  pub device_id : String
  pub hostname : String
  pub public_key : String
  pub fingerprint : String
  pub first_trusted_at : Timestamp
  pub last_seen_at : Timestamp
  pub status : String

abbrev pub Devices : Type 0
Devices = Dict String TrustedDevice

-- The "devices" of the JSON file, none for a file that is not there or is invalid. A record is none
-- where `TrustedDevice(**record)` raises, or where a time is a bool or no number, which
-- `_validate_record` refuses.
abbrev pub File : Type 0
File = Option (Dict String (Option TrustedDevice))

pub record TrustStore : Type 0 where
  pub devices : Devices
  pub saved : File

-- `TrustStatus(value)`
unfoldable pub status_of : String → Result TrustStatus
status_of value =
    if value == "new"
    then ok new
    else if value == "trusted"
    then ok trusted
    else if value == "rejected"
    then ok rejected
    else if value == "changed"
    then ok changed
    else raise (value_error "not a valid TrustStatus")

module _ (c : Primitives) where
  unfoldable pub validate : String → String → Result (Unit {0})
  validate device_id public_key = do
    _ ← decode_public_key c public_key
    raise_if (not (is_device_id device_id)) (value_error "Invalid device ID")
    expected_device_id ← device_id_from_public_key c public_key
    raise_if (not (device_id == expected_device_id))
        (value_error "Device ID does not match the supplied public key")

  unfoldable pub validate_record : TrustedDevice → Result (Unit {0})
  validate_record candidate = do
    validate candidate.device_id candidate.public_key
    raise_if
        (count_chars candidate.hostname == 0
          || ltb 255 (count_chars candidate.hostname)
          || not (c.is_printable candidate.hostname))
        (value_error "Invalid trusted hostname")
    raise_if (not (candidate.status == "trusted" || candidate.status == "rejected"))
        (value_error "Invalid trust status")
    fingerprint ← fingerprint_from_public_key c candidate.public_key
    raise_if (not (candidate.fingerprint == fingerprint))
        (value_error "Invalid identity fingerprint")
    raise_if (not (is_time candidate.first_trusted_at) || not (is_time candidate.last_seen_at))
        (value_error "Invalid trust timestamp")

  -- the record of one key of the file, if it is loaded
  unfoldable pub loaded_record : String → Option TrustedDevice → Option TrustedDevice
  unfolding validate_record
  loaded_record device_id none = none
  loaded_record device_id (some candidate) =
      if not (candidate.device_id == device_id)
      then none
      else elim (validate_record candidate) [ ok _ ↦ some candidate | raise e ↦ none ]

  unfoldable pub add_loaded : String → Option TrustedDevice → Devices → Devices
  add_loaded device_id none rest = rest
  add_loaded device_id (some candidate) rest = (device_id, candidate) ∷ rest

  unfoldable pub load_records : Dict String (Option TrustedDevice) → Devices
  unfolding loaded_record add_loaded
  load_records [] = []
  load_records ((device_id, candidate) ∷ records) =
      add_loaded device_id (loaded_record device_id candidate) (load_records records)

  unfoldable pub load : File → Devices
  unfolding load_records
  load none = []
  load (some records) = load_records records

  -- `TrustStore(path)`, with the file that the store before it left
  unfoldable pub restart : TrustStore → TrustStore
  unfolding load
  restart store = record store { devices = load store.saved }

-- `sorted(items)`, where no two have the same key
unfoldable pub insert_item : String → TrustedDevice → Devices → Devices
insert_item k v [] = (k, v) ∷ []
insert_item k v ((j, w) ∷ items) =
    if text_le k j then (k, v) ∷ (j, w) ∷ items else (j, w) ∷ insert_item k v items

unfoldable pub sorted_items : Devices → Devices
unfolding insert_item
sorted_items [] = []
sorted_items ((k, v) ∷ items) = insert_item k v (sorted_items items)

abbrev pub written : Devices → Dict String (Option TrustedDevice)
written [] = []
written ((k, v) ∷ items) = (k, some v) ∷ written items

-- The new devices, and `_save`, which raises where the file cannot be written.
unfoldable pub save {ℓ} : {A : Type ℓ} → Bool → Devices → A → TrustStore → TrustStore × Result A
unfolding sorted_items
save true devices a store =
    (record store { devices = devices }, raise (os_error "the trust store cannot be written"))
save false devices a store =
    (record { devices = devices; saved = some (written (sorted_items devices)) }, ok a)

unfoldable pub get : String → TrustStore → Option TrustedDevice
get device_id store = lookup device_id store.devices

unfoldable pub all : TrustStore → List TrustedDevice
all store = map (λ (item : String × TrustedDevice). item.1) store.devices

abbrev pub or_empty : Option String → String
or_empty none = ""
or_empty (some s) = s

unfoldable pub assess_known : String → Option TrustedDevice → Result TrustStatus
unfolding status_of
assess_known public_key none = ok new
assess_known public_key (some device) =
    if not (device.public_key == public_key) then ok changed else status_of device.status

unfoldable pub assess : Option String → Option String → TrustStore → Result TrustStatus
unfolding assess_known
assess device_id public_key store =
    if count_chars (or_empty device_id) == 0 || count_chars (or_empty public_key) == 0
    then ok new
    else assess_known (or_empty public_key) (lookup (or_empty device_id) store.devices)

-- `existing.first_trusted_at if existing else now`
abbrev pub first_time : Option TrustedDevice → Timestamp → Timestamp
first_time none now = now
first_time (some existing) now = existing.first_trusted_at

-- `last_seen_at or now`
abbrev pub or_now : Option Timestamp → Timestamp → Timestamp
or_now (some (finite (pos zero))) now = now
or_now (some t) now = t
or_now none now = now

module _ (c : Primitives) where
  -- the record that `trust` or `reject` stores
  unfoldable pub decided :
      String → String → String → String → Timestamp → Timestamp → Result TrustedDevice
  decided status device_id hostname public_key first_trusted_at last_seen_at = do
    validate c device_id public_key
    fingerprint ← fingerprint_from_public_key c public_key
    ok (record {
      device_id = device_id;
      hostname = prefix 255 hostname;
      public_key = public_key;
      fingerprint = fingerprint;
      first_trusted_at = first_trusted_at;
      last_seen_at = last_seen_at;
      status = status;
    })

  unfoldable pub store_decided :
      Bool → String → Result TrustedDevice → TrustStore → TrustStore × Result TrustedDevice
  unfolding save
  store_decided fails device_id (raise e) store = (store, raise e)
  store_decided fails device_id (ok device) store =
      save fails (insert device_id device store.devices) device store

  unfoldable pub trust :
      Bool
      → Timestamp
      → String
      → String
      → String
      → Option Timestamp
      → TrustStore
      → TrustStore × Result TrustedDevice
  unfolding decided store_decided
  trust fails now device_id hostname public_key last_seen_at store =
      store_decided fails device_id
        (decided "trusted" device_id hostname public_key
          (first_time (lookup device_id store.devices) now) (or_now last_seen_at now))
        store

  unfoldable pub reject :
      Bool → Timestamp → String → String → String → TrustStore → TrustStore × Result TrustedDevice
  unfolding decided store_decided
  reject fails now device_id hostname public_key store =
      store_decided fails device_id (decided "rejected" device_id hostname public_key now now) store

unfoldable pub untrust : Bool → String → TrustStore → TrustStore × Result Bool
unfolding save
untrust fails device_id store =
    if is_some (lookup device_id store.devices)
    then save fails (without device_id store.devices) true store
    else (store, ok false)

-- A device that was seen less than 30 seconds before is left as it is.
unfoldable pub see :
    Bool → String → Timestamp → Option TrustedDevice → TrustStore → TrustStore × Result (Unit {0})
unfolding save
see fails device_id timestamp none store = (store, ok tt)
see fails device_id timestamp (some device) store =
    if is_soon timestamp device.last_seen_at
    then (store, ok tt)
    else save fails (insert device_id (record device { last_seen_at = timestamp }) store.devices) tt
        store

unfoldable pub update_last_seen :
    Bool → String → Timestamp → TrustStore → TrustStore × Result (Unit {0})
unfolding see
update_last_seen fails device_id timestamp store =
    see fails device_id timestamp (lookup device_id store.devices) store
