-- ===== src/Trust/Decisions.antt =====
-- core/trust.py: a device is trusted only after its user trusted it under its key.
use mesh_direct.Prelude.{
  ◌≡◌, ◌≢◌, refl, String, Bool, true, false, not, ◌&&◌, ◌||◌, Option, none, some, List, [], ◌∷◌,
  any, ◌==◌, eq_nat, eq_string, eq_iff, is_some, Bool-cases, inl, inr, arith, lookup, insert,
  lookup-insert, insert-IsDict, lookup-without, without-IsDict, IsDict,
}
use mesh_direct.Prelude.Python.{Result, ok, raise, by_return, Result-cases}
use mesh_direct.Protocol.Text.{count_chars}
use mesh_direct.Primitives.{Primitives}
use mesh_direct.Identity.{fingerprint_from_public_key}
use mesh_direct.Trust.{
  Timestamp, is_soon, trusted, TrustedDevice, TrustStore, Devices, status_of, validate,
  validate_record, loaded_record, load, restart, sorted_items, save, assess_known, assess, decided,
  store_decided, trust, reject, untrust, see, update_last_seen,
}
use mesh_direct.Trust.Calls.{Op, trusts, rejects, forgets, sees, restarts, apply, run}
use mesh_direct.Trust.Saved.{
  kept, IsFile, load-IsDict, lookup-load, sorted_items-IsDict, written-IsDict,
}

abbrev pub is_trusted : String → Option TrustedDevice → Bool
is_trusted key none = false
is_trusted key (some device) = device.public_key == key && device.status == "trusted"

-- The call `trust` for this ID and this key.
abbrev pub is_trust_of : String → String → Op → Bool
is_trust_of id key (trusts fails now device_id hostname public_key last_seen_at) =
    device_id == id && public_key == key
is_trust_of id key _ = false

module _ (c : Primitives) where
  -- Neither the memory nor the file holds a trust in the key.
  pub record IsUntrusted (id key : String) (store : TrustStore) : Type 0 where
    pub distinct : IsDict store.devices
    pub file : IsFile c store.saved
    pub memory : is_trusted key (lookup id store.devices) ≡ false
    pub disk : is_trusted key (lookup id (load c store.saved)) ≡ false

  untrusted_kept :
      (id key : String) (o : Option TrustedDevice)
      → is_trusted key o ≡ false
      → is_trusted key (kept c id o) ≡ false
  unfolding loaded_record
  untrusted_kept id key none h = refl
  untrusted_kept id key (some device) h = elim (Bool-cases (not (device.device_id == id))) [
    | inl other ↦ rw other refl
    | inr same ↦ (elim (Result-cases (validate_record c device)) [
      | inl (u, valid) ↦ rw (same, valid) h
      | inr (e, raised) ↦ rw (same, raised) refl
    ])
  ]

  save-IsUntrusted {ℓ} :
      {A : Type ℓ} (id key : String) (fails : Bool) (devices : Devices) (a : A) (store : TrustStore)
      → IsUntrusted id key store
      → IsDict devices
      → is_trusted key (lookup id devices) ≡ false
      → IsUntrusted id key (save fails devices a store).0
  unfolding save
  save-IsUntrusted id key true devices a store u dict h = record {
    distinct = dict;
    file = u.file;
    memory = h;
    disk = u.disk;
  }
  save-IsUntrusted id key false devices a store u dict h = record {
    distinct = dict;
    file = written-IsDict (sorted_items devices) (sorted_items-IsDict devices dict);
    memory = h;
    disk = rw (lookup-load c id devices dict) (untrusted_kept id key (lookup id devices) h);
  }

  -- What `trust` and `reject` store.
  decided-key :
      (status device_id hostname public_key : String) (first last : Timestamp)
      (device : TrustedDevice)
      → decided c status device_id hostname public_key first last ≡ ok device
      → (device.public_key ≡ public_key) × (device.status ≡ status)
  unfolding decided
  decided-key status device_id hostname public_key first last device h =
      by_return (validate c device_id public_key) _ h λ u valid h'.
        by_return (fingerprint_from_public_key c public_key) _ h'
          λ f print h''. (ground arith, ground arith)

  insert-untrusted :
      (id key device_id : String) (device : TrustedDevice) (devices : Devices)
      → (device_id == id && is_trusted key (some device)) ≡ false
      → is_trusted key (lookup id devices) ≡ false
      → is_trusted key (lookup id (insert device_id device devices)) ≡ false
  insert-untrusted id key device_id device devices other h =
      rw (lookup-insert device_id id device devices) (ground arith)

  store_decided-IsUntrusted :
      (id key device_id : String) (fails : Bool) (r : Result TrustedDevice) (store : TrustStore)
      → ((device : TrustedDevice)
          → r ≡ ok device
          → (device_id == id && is_trusted key (some device)) ≡ false)
      → IsUntrusted id key store
      → IsUntrusted id key (store_decided c fails device_id r store).0
  unfolding store_decided
  store_decided-IsUntrusted id key device_id fails (raise e) store other u = u
  store_decided-IsUntrusted id key device_id fails (ok device) store other u =
      save-IsUntrusted id key fails (insert device_id device store.devices) device store u
        (insert-IsDict device_id device store.devices u.distinct)
        (insert-untrusted id key device_id device store.devices (other device refl) u.memory)

  see-IsUntrusted :
      (id key device_id : String) (fails : Bool) (timestamp : Timestamp) (o : Option TrustedDevice)
      (store : TrustStore)
      → lookup device_id store.devices ≡ o
      → IsUntrusted id key store
      → IsUntrusted id key (see fails device_id timestamp o store).0
  unfolding see
  see-IsUntrusted id key device_id fails timestamp none store known u = u
  see-IsUntrusted id key device_id fails timestamp (some device) store known u =
      elim (Bool-cases (is_soon timestamp device.last_seen_at)) [
        | inl soon ↦ rw soon u
        | inr later ↦
            let other : (device_id == id && is_trusted key (some device)) ≡ false =
              ground (arith, eq_iff device_id id, known, u.memory) in
            rw later (
              save-IsUntrusted id key fails _ tt store u
                (insert-IsDict device_id _ store.devices u.distinct)
                (insert-untrusted id key device_id (record device { last_seen_at = timestamp })
                  store.devices other u.memory))
      ]

  untrust-IsUntrusted :
      (id key device_id : String) (fails : Bool) (store : TrustStore)
      → IsUntrusted id key store
      → IsUntrusted id key (untrust fails device_id store).0
  unfolding untrust
  untrust-IsUntrusted id key device_id fails store u =
      elim (Bool-cases (is_some (lookup device_id store.devices))) [
        | inr unknown ↦ rw unknown u
        | inl known ↦ rw known (
            save-IsUntrusted id key fails _ true store u
              (without-IsDict device_id store.devices u.distinct)
              (rw (lookup-without device_id id store.devices) (ground arith)))
      ]

  kept_apart :
      (here : Bool) (key public_key : String) (device : TrustedDevice)
      → (here && public_key == key) ≡ false
      → device.public_key ≡ public_key
      → (here && is_trusted key (some device)) ≡ false
  kept_apart here key public_key device other same = rw same (ground arith)

  rejected_apart :
      (here : Bool) (key : String) (device : TrustedDevice)
      → device.status ≡ "rejected"
      → (here && is_trusted key (some device)) ≡ false
  rejected_apart here key device status = rw status (ground arith)

  apply-IsUntrusted :
      (id key : String) (op : Op) (store : TrustStore)
      → is_trust_of id key op ≡ false
      → IsUntrusted id key store
      → IsUntrusted id key (apply c op store)
  unfolding apply trust reject update_last_seen restart
  apply-IsUntrusted id key (trusts fails now device_id hostname public_key last_seen_at) store other
        u =
      store_decided-IsUntrusted id key device_id fails _ store
        (λ device h.
          kept_apart (device_id == id) key public_key device other
            (decided-key "trusted" device_id hostname public_key _ _ device h).0)
        u
  apply-IsUntrusted id key (rejects fails now device_id hostname public_key) store other u =
      store_decided-IsUntrusted id key device_id fails _ store
        (λ device h.
          rejected_apart (device_id == id) key device
            (decided-key "rejected" device_id hostname public_key _ _ device h).1)
        u
  apply-IsUntrusted id key (forgets fails device_id) store other u =
      untrust-IsUntrusted id key device_id fails store u
  apply-IsUntrusted id key (sees fails device_id timestamp) store other u =
      see-IsUntrusted id key device_id fails timestamp (lookup device_id store.devices) store refl u
  apply-IsUntrusted id key restarts store other u = record {
    distinct = load-IsDict c store.saved u.file;
    file = u.file;
    memory = u.disk;
    disk = u.disk;
  }

  run-IsUntrusted :
      (id key : String) (ops : List Op) (store : TrustStore)
      → any (is_trust_of id key) ops ≡ false
      → IsUntrusted id key store
      → IsUntrusted id key (run c ops store)
  unfolding run
  run-IsUntrusted id key [] store other u = u
  run-IsUntrusted id key (op ∷ ops) store other u =
      run-IsUntrusted id key ops (apply c op store) (ground arith)
        (apply-IsUntrusted id key op store (ground arith) u)

  assess_known-trusted :
      (key : String) (o : Option TrustedDevice)
      → is_trusted key o ≡ false
      → assess_known key o ≢ ok trusted
  unfolding assess_known status_of
  assess_known-trusted key none h = λ e. cc
  assess_known-trusted key (some device) h = λ e. ground arith

  -- Where neither the memory nor the file holds a trust in a key under an ID, no calls but `trust` for
  -- that ID and that key make `assess` say trusted, with restarts and failed writes among them.
  pub trusted_needs_trust :
      (id key : String) (ops : List Op) (store : TrustStore)
      → IsUntrusted id key store
      → any (is_trust_of id key) ops ≡ false
      → assess (some id) (some key) (run c ops store) ≢ ok trusted
  unfolding assess
  trusted_needs_trust id key ops store u other =
      elim (Bool-cases (count_chars id == 0 || count_chars key == 0)) [
        | inl empty ↦ rw empty (λ e. cc)
        | inr given ↦ rw given (
            assess_known-trusted key (lookup id (run c ops store).devices)
              (run-IsUntrusted id key ops store other u).memory)
      ]
