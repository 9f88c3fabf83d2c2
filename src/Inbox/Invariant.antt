-- ===== src/Inbox/Invariant.antt =====
-- core/inbox.py: what holds of the inbox after any operations.
use mesh_direct.Prelude.{
  ℕ, ◌-◌, ◌≡◌, sym, ◌∙◌, keep_if-eq-some, ◌≤◌, ◌<◌, refl, String, Option, none, some, lookup,
  insert, IsDict, insert-IsDict, lookup-filter_values, filter_values-IsDict, lookup-insert, arith,
  eq_string, ◌==◌, Bool-cases, Option-cases, ◌⊎◌, inl, inr, true, false, leb, not, eq_iff,
}
use mesh_direct.Prelude.Python.{Result, ok, raise}
use mesh_direct.Inbox.{
  PendingDecision, IncomingRequestManager, IncomingTransferRequest, IncomingRequestStatus,
  pending_approval, accepted, pending_count, is_pending, is_accepted, stays, same_offer, republish,
  publish, decide_request, prune, init,
}
use mesh_direct.Inbox.Dictionary.{
  weight, pending_count-insert_new, pending_count-insert_old, pending_count-filter_values-le,
}

-- An entry stands under its own transfer ID, and its event is set exactly when it is decided.
pub record IsEntry (k : String) (entry : PendingDecision) : Type 0 where
  pub keyed : entry.request.transfer_id ≡ k
  pub woken : entry.event ≡ not (is_pending entry.request.status)

pub record IsValid (m : IncomingRequestManager) : Type 0 where
  pub positive : 0 < m.max_pending
  pub bounded : pending_count m.entries ≤ m.max_pending
  pub distinct : IsDict m.entries
  pub entry : (k : String) (e : PendingDecision) → lookup k m.entries ≡ some e → IsEntry k e

pub init-IsValid : (n : ℕ) {m : IncomingRequestManager} → init n ≡ ok m → IsValid m
unfolding init pending_count lookup
init-IsValid n {m} h = record {
  positive = ground arith;
  bounded = ground arith;
  distinct = ground arith;
  entry = λ k e p. ground arith;
}

-- One write of an entry that is right for its key.
module _ (k : String) (v : PendingDecision) (m : IncomingRequestManager) (right : IsEntry k v)
    (valid : IsValid m) where
  IsEntry-insert :
      (j : String) (e : PendingDecision) → lookup j (insert k v m.entries) ≡ some e → IsEntry j e
  IsEntry-insert j e h = elim (Bool-cases (k == j)) [
    | inl same ↦
        let p : k ≡ j = (eq_iff k j).0 same in
        let q : v ≡ e = ground (arith, lookup-insert k j v m.entries) in rw (← q, ← p) right
    | inr other ↦ valid.entry j e (ground (arith, lookup-insert k j v m.entries))
  ]

  write_new :
      lookup k m.entries ≡ none
      → pending_count m.entries < m.max_pending
      → IsValid (record m { entries = insert k v m.entries })
  write_new absent room = record {
    positive = valid.positive;
    bounded = ground (arith, pending_count-insert_new k v m.entries absent);
    distinct = insert-IsDict k v m.entries valid.distinct;
    entry = IsEntry-insert;
  }

  write_old :
      (w : PendingDecision)
      → lookup k m.entries ≡ some w
      → weight v ≤ weight w
      → IsValid (record m { entries = insert k v m.entries })
  write_old w there lighter = record {
    positive = valid.positive;
    bounded = omega (arith, pending_count-insert_old k v m.entries w there, valid.bounded);
    distinct = insert-IsDict k v m.entries valid.distinct;
    entry = IsEntry-insert;
  }

unfoldable pub state {ℓ} :
    {A : Type ℓ}
    → IncomingRequestManager
    → Result (IncomingRequestManager × A)
    → IncomingRequestManager
state m (ok r) = r.0
state m (raise e) = m

republish-IsValid :
    (r : IncomingTransferRequest) (e : PendingDecision) (m : IncomingRequestManager)
    → lookup r.transfer_id m.entries ≡ some e
    → IsValid m
    → IsValid (state m (republish e r m))
unfolding state republish
republish-IsValid r e m old v = elim (Bool-cases (same_offer e.request r)) [
  | inr changed ↦ rw changed v
  | inl same ↦ rw same (elim (Bool-cases (is_accepted e.request.status)) [
    | inr undecided ↦ rw undecided v
    | inl decided ↦
        rw decided (
          write_old r.transfer_id _ m (record { keyed = refl; woken = refl }) v e old (omega arith))
  ])
]

pub publish-IsValid :
    (r : IncomingTransferRequest) (m : IncomingRequestManager)
    → r.status ≡ pending_approval
    → IsValid m
    → IsValid (state m (publish r m))
unfolding publish state
publish-IsValid r m fresh v = elim (Option-cases (lookup r.transfer_id m.entries)) [
  | inl new ↦
      rw (new, publish)
        (elim (Bool-cases (leb m.max_pending (pending_count m.entries))) [
          | inl full ↦ rw full v
          | inr room ↦ rw room (
              write_new r.transfer_id _ m (record { keyed = refl; woken = rw fresh }) v new
                (ground arith))
        ])
  | inr (e, old) ↦ rw (old, publish) (republish-IsValid r e m old v)
]

pub decide-IsValid :
    (k : String) (s : IncomingRequestStatus) (reason : Option String) (m : IncomingRequestManager)
    → is_pending s ≡ false
    → IsValid m
    → IsValid (decide_request k s reason m).0
unfolding decide_request
decide-IsValid k s reason m final v = elim (Option-cases (lookup k m.entries)) [
  | inl new ↦ rw (new, decide_request) v
  | inr (e, old) ↦
      rw (old, decide_request)
        (elim (Bool-cases (is_pending e.request.status)) [
          | inr decided ↦ rw decided v
          | inl undecided ↦ rw undecided (
              write_old k _ m (record { keyed = (v.entry k e old).keyed; woken = rw final }) v e old
                (ground arith))
        ])
]

pub prune-IsValid :
    (now older_than : ℕ) (m : IncomingRequestManager) → IsValid m → IsValid (prune now older_than m)
unfolding prune
prune-IsValid now older_than m v = record {
  positive = v.positive;
  bounded =
      omega (arith, pending_count-filter_values-le (stays (now - older_than)) m.entries, v.bounded);
  distinct = filter_values-IsDict (stays (now - older_than)) m.entries v.distinct;
  entry = λ k e h.
      v.entry k e
        (keep_if-eq-some (stays (now - older_than)) (lookup k m.entries) e
          (sym (lookup-filter_values (stays (now - older_than)) k m.entries v.distinct) ∙ h)).0;
}

abbrev pub fresh_entry : IncomingTransferRequest → PendingDecision
fresh_entry r = record { request = r; event = false }

abbrev pub resumed_entry : IncomingTransferRequest → PendingDecision
resumed_entry r = record { request = record r { status = accepted }; event = true }

abbrev pub write :
    IncomingTransferRequest → PendingDecision → IncomingRequestManager → IncomingRequestManager
write r v m = record m { entries = insert r.transfer_id v m.entries }

-- `publish` leaves the inbox alone, adds the request as a new one, or renews an accepted one.
pub publish_cases :
    (r : IncomingTransferRequest) (m : IncomingRequestManager)
    → (state m (publish r m) ≡ m)
      ⊎ ((lookup r.transfer_id m.entries ≡ none)
          × (state m (publish r m) ≡ write r (fresh_entry r) m))
      ⊎ ((e : PendingDecision) × (lookup r.transfer_id m.entries ≡ some e)
          × (same_offer e.request r ≡ true)
          × (is_accepted e.request.status ≡ true)
          × (state m (publish r m) ≡ write r (resumed_entry r) m))
unfolding publish state
publish_cases r m = elim (Option-cases (lookup r.transfer_id m.entries)) [
  | inl new ↦ elim (Bool-cases (leb m.max_pending (pending_count m.entries))) [
    | inl full ↦ inl (rw (new, publish, full))
    | inr room ↦ inr (inl (new, rw (new, publish, room)))
  ]
  | inr (e, old) ↦ elim (Bool-cases (same_offer e.request r)) [
    | inr changed ↦ inl (rw (old, publish, republish, changed))
    | inl same ↦ elim (Bool-cases (is_accepted e.request.status)) [
      | inr undecided ↦ inl (rw (old, publish, republish, same, undecided))
      | inl decided ↦ inr (inr (e, old, same, decided, rw (old, publish, republish, same, decided)))
    ]
  ]
]
