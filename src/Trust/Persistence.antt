-- ===== src/Trust/Persistence.antt =====
-- core/trust.py: what is saved is loaded again.
use mesh_direct.Prelude.{
  ◌≡◌, refl, sym, ap, ◌∙◌, String, Bool, true, false, not, ◌&&◌, ◌||◌, Option, none, some, List, [],
  ◌∷◌, all, ltb, ◌==◌, eq_nat, eq_string, eq_iff, is_some, Bool-cases, Option-cases, inl, inr,
  arith, lookup, insert, without, lookup-insert, insert-IsDict, lookup-without, without-IsDict,
  IsDict,
}
use mesh_direct.Prelude.Python.{Result, ok, raise, raise_if, by_return, Result-cases, value_error}
use mesh_direct.Protocol.Text.{count_chars, prefix, count_chars-prefix-le, count_chars-prefix-zero}
use mesh_direct.Primitives.{Primitives}
use mesh_direct.Identity.{fingerprint_from_public_key}
use mesh_direct.Trust.{
  Timestamp, is_time, is_soon, first_time, or_now, TrustedDevice, TrustStore, Devices, validate,
  validate_record, loaded_record, load, restart, sorted_items, save, assess, decided, store_decided,
  trust, reject, untrust, see, update_last_seen,
}
use mesh_direct.Trust.Calls.{Op, trusts, rejects, forgets, sees, restarts, apply, run}
use mesh_direct.Trust.Saved.{
  kept, IsFile, load-IsDict, lookup-load, sorted_items-IsDict, written-IsDict,
}

module _ (c : Primitives) where
  -- Every record of the memory passes the checks of `_load`, and the file has the same records.
  pub record IsSaved (store : TrustStore) : Type 0 where
    pub distinct : IsDict store.devices
    pub file : IsFile c store.saved
    pub loads : (id : String) → kept c id (lookup id store.devices) ≡ lookup id store.devices
    pub same : (id : String) → lookup id (load c store.saved) ≡ lookup id store.devices

  -- A hostname that `_load` takes back.
  abbrev pub is_hostname : String → Bool
  is_hostname hostname = not (count_chars hostname == 0) && c.is_printable (prefix 255 hostname)

  -- A call whose file can be written, with such a hostname and times that `_load` takes back.
  abbrev pub is_lasting : Op → Bool
  is_lasting (trusts fails now device_id hostname public_key last_seen_at) =
      not fails && is_hostname hostname && is_time now && is_time (or_now last_seen_at now)
  is_lasting (rejects fails now device_id hostname public_key) =
      not fails && is_hostname hostname && is_time now
  is_lasting (forgets fails device_id) = not fails
  is_lasting (sees fails device_id timestamp) = not fails && is_time timestamp
  is_lasting restarts = true

  save-IsSaved {ℓ} :
      {A : Type ℓ} (devices : Devices) (a : A) (store : TrustStore)
      → IsDict devices
      → ((id : String) → kept c id (lookup id devices) ≡ lookup id devices)
      → IsSaved (save false devices a store).0
  unfolding save
  save-IsSaved devices a store dict loads = record {
    distinct = dict;
    file = written-IsDict (sorted_items devices) (sorted_items-IsDict devices dict);
    loads = loads;
    same = λ id. lookup-load c id devices dict ∙ loads id;
  }

  -- What `validate_record` asks of a record.
  record_passes :
      (device : TrustedDevice)
      → validate c device.device_id device.public_key ≡ ok tt
      → (count_chars device.hostname == 0
          || ltb 255 (count_chars device.hostname)
          || not (c.is_printable device.hostname))
        ≡ false
      → (device.status == "trusted" || device.status == "rejected") ≡ true
      → fingerprint_from_public_key c device.public_key ≡ ok device.fingerprint
      → (is_time device.first_trusted_at && is_time device.last_seen_at) ≡ true
      → validate_record c device ≡ ok tt
  unfolding validate_record
  record_passes device valid name known print timed =
      let in_time : (not (is_time device.first_trusted_at) || not (is_time device.last_seen_at))
          ≡ false =
        ground arith in
      rw (valid, name, known, print, (eq_iff device.fingerprint device.fingerprint).1 refl, in_time)
        refl

  passes_loads :
      (device : TrustedDevice)
      → validate_record c device ≡ ok tt
      → loaded_record c device.device_id (some device) ≡ some device
  unfolding loaded_record
  passes_loads device passes = rw ((eq_iff device.device_id device.device_id).1 refl, passes) refl

  -- A name that is not empty is not empty when it is cut.
  cut_hostname :
      (hostname : String)
      → is_hostname hostname ≡ true
      → (count_chars (prefix 255 hostname) == 0
          || ltb 255 (count_chars (prefix 255 hostname))
          || not (c.is_printable (prefix 255 hostname)))
        ≡ false
  cut_hostname hostname name =
      ground (arith, count_chars-prefix-le 255 hostname, count_chars-prefix-zero 254 hostname)

  decided-kept :
      (status device_id hostname public_key : String) (first last : Timestamp)
      (device : TrustedDevice)
      → decided c status device_id hostname public_key first last ≡ ok device
      → (status == "trusted" || status == "rejected") ≡ true
      → is_hostname hostname ≡ true
      → (is_time first && is_time last) ≡ true
      → loaded_record c device_id (some device) ≡ some device
  unfolding decided
  decided-kept status device_id hostname public_key first last device h known name timed =
      by_return (validate c device_id public_key) _ h λ u valid h'.
        by_return (fingerprint_from_public_key c public_key) _ h' λ f print h''.
          let device' : TrustedDevice = record {
            device_id = device_id;
            hostname = prefix 255 hostname;
            public_key = public_key;
            fingerprint = f;
            first_trusted_at = first;
            last_seen_at = last;
            status = status;
          } in
          let passes = record_passes device' valid (cut_hostname hostname name) known print timed in
          let same : device' ≡ device = ground arith in
          ap (λ d. loaded_record c device_id (some d)) (sym same)
          ∙ passes_loads device' passes
          ∙ ap some same

  insert-kept :
      (device_id : String) (device : TrustedDevice) (devices : Devices)
      → loaded_record c device_id (some device) ≡ some device
      → ((id : String) → kept c id (lookup id devices) ≡ lookup id devices)
      → (id : String)
      → kept c id (lookup id (insert device_id device devices))
        ≡ lookup id (insert device_id device devices)
  insert-kept device_id device devices new old id = elim (Bool-cases (device_id == id)) [
    | inl same ↦
        rw (lookup-insert device_id id device devices)
          (rw same (rw (← (eq_iff device_id id).0 same) new))
    | inr other ↦ rw (lookup-insert device_id id device devices) (rw other (old id))
  ]

  store_decided-IsSaved :
      (device_id : String) (r : Result TrustedDevice) (store : TrustStore)
      → ((device : TrustedDevice)
          → r ≡ ok device
          → loaded_record c device_id (some device) ≡ some device)
      → IsSaved store
      → IsSaved (store_decided c false device_id r store).0
  unfolding store_decided
  store_decided-IsSaved device_id (raise e) store new v = v
  store_decided-IsSaved device_id (ok device) store new v =
      save-IsSaved (insert device_id device store.devices) device store
        (insert-IsDict device_id device store.devices v.distinct)
        (insert-kept device_id device store.devices (new device refl) v.loads)

  -- What `_load` has found of the times of a record that it takes.
  loaded_times :
      (device_id : String) (device : TrustedDevice)
      → loaded_record c device_id (some device) ≡ some device
      → (validate_record c device ≡ ok tt) × ((device.device_id == device_id) ≡ true)
  unfolding loaded_record
  loaded_times device_id device h = elim (Bool-cases (device.device_id == device_id)) [
    | inr other ↦ let gone = rw other at h in absurd (cc)
    | inl same ↦ (elim (Result-cases (validate_record c device)) [
      | inl (tt, valid) ↦ (valid, same)
      | inr (e, raised) ↦ let gone = rw (same, raised) at h in absurd (cc)
    ])
  ]

  passed_times :
      (device : TrustedDevice)
      → validate_record c device ≡ ok tt
      → is_time device.first_trusted_at ≡ true
  unfolding validate_record
  passed_times device h = by_return (validate c device.device_id device.public_key) _ h λ u a h.
      by_return
        (raise_if
          (count_chars device.hostname == 0
            || ltb 255 (count_chars device.hostname)
            || not (c.is_printable device.hostname))
          (value_error "Invalid trusted hostname"))
        _ h
        λ u a h.
          by_return
            (raise_if (not (device.status == "trusted" || device.status == "rejected"))
              (value_error "Invalid trust status"))
            _ h
            λ u a h. by_return (fingerprint_from_public_key c device.public_key) _ h λ f a h.
              by_return
                (raise_if (not (device.fingerprint == f))
                  (value_error "Invalid identity fingerprint"))
                _ h λ u a h. ground arith

  -- A later time of a record that is loaded leaves it one that is loaded.
  seen_valid :
      (timestamp : Timestamp) (device : TrustedDevice)
      → is_time timestamp ≡ true
      → validate_record c device ≡ ok tt
      → validate_record c (record device { last_seen_at = timestamp }) ≡ ok tt
  unfolding validate_record
  seen_valid timestamp device timed h =
      by_return (validate c device.device_id device.public_key) _ h λ u a h1.
        by_return
          (raise_if
            (count_chars device.hostname == 0
              || ltb 255 (count_chars device.hostname)
              || not (c.is_printable device.hostname))
            (value_error "Invalid trusted hostname"))
          _ h1
          λ u b h2.
            by_return
              (raise_if (not (device.status == "trusted" || device.status == "rejected"))
                (value_error "Invalid trust status"))
              _ h2
              λ u d h3. by_return (fingerprint_from_public_key c device.public_key) _ h3 λ f e h4.
                by_return
                  (raise_if (not (device.fingerprint == f))
                    (value_error "Invalid identity fingerprint"))
                  _ h4 λ u g h5. rw (a, b, d, e, g) (ground arith)

  seen_loads :
      (device_id : String) (timestamp : Timestamp) (device : TrustedDevice)
      → is_time timestamp ≡ true
      → loaded_record c device_id (some device) ≡ some device
      → loaded_record c device_id (some (record device { last_seen_at = timestamp }))
        ≡ some (record device { last_seen_at = timestamp })
  unfolding loaded_record
  seen_loads device_id timestamp device timed h =
      let (valid, same) = loaded_times device_id device h in
      rw (same, seen_valid timestamp device timed valid) refl

  without-kept :
      (device_id : String) (devices : Devices)
      → ((id : String) → kept c id (lookup id devices) ≡ lookup id devices)
      → (id : String)
      → kept c id (lookup id (without device_id devices)) ≡ lookup id (without device_id devices)
  without-kept device_id devices old id = elim (Bool-cases (device_id == id)) [
    | inl same ↦ rw (lookup-without device_id id devices) (rw same refl)
    | inr other ↦ rw (lookup-without device_id id devices) (rw other (old id))
  ]

  see-IsSaved :
      (device_id : String) (timestamp : Timestamp) (o : Option TrustedDevice) (store : TrustStore)
      → is_time timestamp ≡ true
      → lookup device_id store.devices ≡ o
      → IsSaved store
      → IsSaved (see false device_id timestamp o store).0
  unfolding see
  see-IsSaved device_id timestamp none store timed known v = v
  see-IsSaved device_id timestamp (some device) store timed known v =
      elim (Bool-cases (is_soon timestamp device.last_seen_at)) [
        | inl soon ↦ rw soon v
        | inr later ↦
            let loads : kept c device_id (some device) ≡ some device =
              ap (kept c device_id) (sym known) ∙ v.loads device_id ∙ known in
            rw later (
              save-IsSaved {0} _ tt store (insert-IsDict device_id _ store.devices v.distinct) (
                insert-kept device_id (record device { last_seen_at = timestamp }) store.devices
                  (seen_loads device_id timestamp device timed loads) v.loads))
      ]

  untrust-IsSaved :
      (device_id : String) (store : TrustStore)
      → IsSaved store
      → IsSaved (untrust false device_id store).0
  unfolding untrust
  untrust-IsSaved device_id store v = elim (Bool-cases (is_some (lookup device_id store.devices))) [
    | inr unknown ↦ rw unknown v
    | inl known ↦ rw known (
        save-IsSaved _ true store (without-IsDict device_id store.devices v.distinct)
          (without-kept device_id store.devices v.loads))
  ]

  restart-IsSaved : (store : TrustStore) → IsSaved store → IsSaved (restart c store)
  unfolding restart
  restart-IsSaved store v = record {
    distinct = load-IsDict c store.saved v.file;
    file = v.file;
    loads = λ id. ap (kept c id) (v.same id) ∙ v.loads id ∙ sym (v.same id);
    same = λ id. refl;
  }

  -- The first time of a record is that of the record before it, or now.
  first_timed :
      (device_id : String) (now : Timestamp) (store : TrustStore) (last : Timestamp)
      → is_time now ≡ true
      → IsSaved store
      → is_time last ≡ true
      → (is_time (first_time (lookup device_id store.devices) now) && is_time last) ≡ true
  first_timed device_id now store last in_time v timed =
      elim (Option-cases (lookup device_id store.devices)) [
        | inl new ↦ rw new (ground arith)
        | inr (device, known) ↦
            let loads : kept c device_id (some device) ≡ some device =
              ap (kept c device_id) (sym known) ∙ v.loads device_id ∙ known in
            let (valid, _) = loaded_times device_id device loads in
            let first = passed_times device valid in rw known (ground arith)
      ]

  trust-IsSaved :
      (fails : Bool) (now : Timestamp) (device_id hostname public_key : String)
      (last_seen_at : Option Timestamp) (store : TrustStore)
      → (not fails && is_hostname hostname && is_time now && is_time (or_now last_seen_at now))
        ≡ true
      → IsSaved store
      → IsSaved (trust c fails now device_id hostname public_key last_seen_at store).0
  unfolding trust
  trust-IsSaved true now device_id hostname public_key last_seen_at store good v = absurd (cc)
  trust-IsSaved false now device_id hostname public_key last_seen_at store good v =
      store_decided-IsSaved device_id _ store
        (λ device h.
          decided-kept "trusted" device_id hostname public_key _ _ device h refl (ground arith)
            (first_timed device_id now store _ (ground arith) v (ground arith)))
        v

  reject-IsSaved :
      (fails : Bool) (now : Timestamp) (device_id hostname public_key : String) (store : TrustStore)
      → (not fails && is_hostname hostname && is_time now) ≡ true
      → IsSaved store
      → IsSaved (reject c fails now device_id hostname public_key store).0
  unfolding reject
  reject-IsSaved true now device_id hostname public_key store good v = absurd (cc)
  reject-IsSaved false now device_id hostname public_key store good v =
      store_decided-IsSaved device_id _ store
        (λ device h.
          decided-kept "rejected" device_id hostname public_key _ _ device h refl (ground arith)
            (ground arith))
        v

  apply-IsSaved :
      (op : Op) (store : TrustStore)
      → is_lasting op ≡ true
      → IsSaved store
      → IsSaved (apply c op store)
  unfolding apply update_last_seen
  apply-IsSaved (trusts fails now device_id hostname public_key last_seen_at) store good v =
      trust-IsSaved fails now device_id hostname public_key last_seen_at store good v
  apply-IsSaved (rejects fails now device_id hostname public_key) store good v =
      reject-IsSaved fails now device_id hostname public_key store good v
  apply-IsSaved (forgets true device_id) store good v = absurd (cc)
  apply-IsSaved (forgets false device_id) store good v = untrust-IsSaved device_id store v
  apply-IsSaved (sees true device_id timestamp) store good v = absurd (cc)
  apply-IsSaved (sees false device_id timestamp) store good v =
      see-IsSaved device_id timestamp _ store good refl v
  apply-IsSaved restarts store good v = restart-IsSaved store v

  run-IsSaved :
      (ops : List Op) (store : TrustStore)
      → all is_lasting ops ≡ true
      → IsSaved store
      → IsSaved (run c ops store)
  unfolding run
  run-IsSaved [] store good v = v
  run-IsSaved (op ∷ ops) store good v =
      run-IsSaved ops (apply c op store) (ground arith) (apply-IsSaved op store (ground arith) v)

  -- From a store whose records pass the checks of `_load` and are those of its file, after any calls
  -- whose files can be written, whose hostnames are not empty and, cut to 255 characters, printable,
  -- and whose times and clock are finite and not negative, a restart changes no entry, and so no answer of `assess`.
  pub restart-run :
      (id : String) (key : Option String) (ops : List Op) (store : TrustStore)
      → IsSaved store
      → all is_lasting ops ≡ true
      → (lookup id (restart c (run c ops store)).devices ≡ lookup id (run c ops store).devices)
        × (assess (some id) key (restart c (run c ops store))
            ≡ assess (some id) key (run c ops store))
  unfolding restart assess
  restart-run id key ops store v good =
      let same = (run-IsSaved ops store good v).same id in (same, rw same refl)
