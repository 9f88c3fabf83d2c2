-- ===== src/Inbox/Decisions.antt =====
-- core/inbox.py: who may decide, and that a decision stands.
use mesh_direct.Prelude.{
  ℕ, ◌-◌, ◌≡◌, refl, String, Bool, Option, none, some, List, [], ◌∷◌, lookup, lookup-insert,
  lookup-filter_values, arith, eq_string, ◌==◌, Bool-cases, Option-cases, inl, inr, true, false,
  eq_iff, ◌&&◌, any, list_eq_iff, option_eq_iff,
}
use mesh_direct.Inbox.{
  PendingDecision, IncomingRequestManager, IncomingTransferRequest, IncomingRequestStatus, eq_file,
  pending_approval, expired, accepted, rejected, cancelled, is_pending, is_accepted, publish,
  decide_request, prune, same_offer, stays,
}
use mesh_direct.Inbox.Invariant.{IsValid, state, publish_cases, fresh_entry, resumed_entry}
use mesh_direct.Inbox.Runs.{
  Op, offered, accept, reject, cancel, timed_out, pruned, apply, run, apply-IsValid,
}

unfoldable pub accepted_entry : Option PendingDecision → Bool
accepted_entry none = false
accepted_entry (some entry) = is_accepted entry.request.status

-- whether the inbox holds an accepted request under this ID
unfoldable pub accepted_at : String → IncomingRequestManager → Bool
unfolding accepted_entry
accepted_at k m = accepted_entry (lookup k m.entries)

abbrev pub is_accept : String → Op → Bool
is_accept k (accept j) = j == k
is_accept k _ = false

-- Without an acceptance, publishing leaves an unaccepted ID unaccepted.
accepted_at-publish :
    (k : String) (r : IncomingTransferRequest) (m : IncomingRequestManager)
    → r.status ≡ pending_approval
    → accepted_at k m ≡ false
    → accepted_at k (state m (publish r m)) ≡ false
unfolding accepted_at
accepted_at-publish k r m fresh before = elim (publish_cases r m) [
  | inl same ↦ rw same before
  | inr (inl (new, e)) ↦
      rw e (ground (arith, lookup-insert r.transfer_id k (fresh_entry r) m.entries))
  | inr (inr (old, there, _, decided, e)) ↦ rw e (
      ground
        (arith, lookup-insert r.transfer_id k (resumed_entry r) m.entries, eq_iff r.transfer_id k))
]

accepted_at-decide :
    (k j : String) (s : IncomingRequestStatus) (reason : Option String) (m : IncomingRequestManager)
    → (is_accepted s && j == k) ≡ false
    → accepted_at k m ≡ false
    → accepted_at k (decide_request j s reason m).0 ≡ false
unfolding accepted_at decide_request
accepted_at-decide k j s reason m other before = elim (Option-cases (lookup j m.entries)) [
  | inl new ↦ rw (new, decide_request) before
  | inr (e, old) ↦
      rw (old, decide_request)
        (ground (
          arith,
          lookup-insert j k
              (record { request = record e.request { status = s; reason = reason }; event = true })
              m.entries,
        ))
]

accepted_at-prune :
    (k : String) (now older_than : ℕ) (m : IncomingRequestManager)
    → IsValid m
    → accepted_at k m ≡ false
    → accepted_at k (prune now older_than m) ≡ false
unfolding accepted_at prune
accepted_at-prune k now older_than m v before =
    rw (lookup-filter_values (stays (now - older_than)) k m.entries v.distinct) (ground arith)

accepted_at-apply :
    (k : String) (op : Op) (m : IncomingRequestManager)
    → IsValid m
    → is_accept k op ≡ false
    → accepted_at k m ≡ false
    → accepted_at k (apply op m) ≡ false
unfolding apply
accepted_at-apply k (offered r fresh) m v no_accept before = accepted_at-publish k r m fresh before
accepted_at-apply k (accept j) m v no_accept before =
    accepted_at-decide k j accepted none m no_accept before
accepted_at-apply k (reject j reason) m v no_accept before =
    accepted_at-decide k j rejected (some reason) m refl before
accepted_at-apply k (cancel j reason) m v no_accept before =
    accepted_at-decide k j cancelled (some reason) m refl before
accepted_at-apply k (timed_out j) m v no_accept before =
    accepted_at-decide k j expired _ m refl before
accepted_at-apply k (pruned now older_than) m v no_accept before =
    accepted_at-prune k now older_than m v before

-- Nothing but `accept_request` accepts: from a valid inbox with no accepted request under an ID,
-- calls of which none accepts that ID lead to an inbox with no accepted request under it.
pub accepted_needs_accept :
    (k : String) (ops : List Op) (m : IncomingRequestManager)
    → IsValid m
    → any (is_accept k) ops ≡ false
    → accepted_at k m ≡ false
    → accepted_at k (run ops m) ≡ false
unfolding run
accepted_needs_accept k [] m v no_accept before = before
accepted_needs_accept k (op ∷ ops) m v no_accept before =
    accepted_needs_accept k ops (apply op m) (apply-IsValid op m v) (ground arith)
      (accepted_at-apply k op m v (ground arith) before)

-- What a decision fixes.
pub record SameDecision (a b : IncomingTransferRequest) : Type 0 where
  pub status : b.status ≡ a.status
  pub peer : b.peer_device_id ≡ a.peer_device_id
  pub files : b.files ≡ a.files
  pub size : b.total_size ≡ a.total_size
  pub message : b.message ≡ a.message

-- The inbox holds under `k` a request that was decided as `a` was.
abbrev pub Holds : String → IncomingTransferRequest → IncomingRequestManager → Type 0
Holds k a m = (e : PendingDecision) × (lookup k m.entries ≡ some e) × SameDecision a e.request

abbrev pub is_prune : Op → Bool
is_prune (pruned now older_than) = true
is_prune _ = false

-- A decided entry is out of reach of `_decide`, under its own ID and under any other.
decided-decide :
    (k j : String) (s : IncomingRequestStatus) (reason : Option String) (m : IncomingRequestManager)
    (e : PendingDecision)
    → is_pending e.request.status ≡ false
    → lookup k m.entries ≡ some e
    → lookup k (decide_request j s reason m).0.entries ≡ some e
unfolding decide_request
decided-decide k j s reason m e final there = elim (Option-cases (lookup j m.entries)) [
  | inl new ↦ rw (new, decide_request) there
  | inr (d, old) ↦
      rw (old, decide_request)
        (ground (
          arith,
          lookup-insert j k
              (record { request = record d.request { status = s; reason = reason }; event = true })
              m.entries,
          eq_iff j k,
        ))
]

same_offer-SameDecision :
    (a b : IncomingTransferRequest)
    → same_offer a b ≡ true
    → is_accepted a.status ≡ true
    → SameDecision a (record b { status = accepted })
unfolding same_offer
same_offer-SameDecision a b same decided = ground (
  arith,
  eq_iff a.peer_device_id b.peer_device_id,
  list_eq_iff a.files b.files,
  option_eq_iff a.message b.message,
)

SameDecision-trans :
    (a b c : IncomingTransferRequest) → SameDecision a b → SameDecision b c → SameDecision a c
SameDecision-trans a b c h k = ground arith

Holds-publish :
    (k : String) (a : IncomingTransferRequest) (r : IncomingTransferRequest)
    (m : IncomingRequestManager)
    → is_pending a.status ≡ false
    → Holds k a m
    → Holds k a (state m (publish r m))
Holds-publish k a r m final (e, there, same) = elim (publish_cases r m) [
  | inl unchanged ↦ rw unchanged (e, there, same)
  | inr (inl (new, w)) ↦ rw w (
    e,
    ground (arith, lookup-insert r.transfer_id k (fresh_entry r) m.entries, eq_iff r.transfer_id k),
    same,
  )
  | inr (inr (old, at, offer, decided, w)) ↦ rw w (elim (Bool-cases (r.transfer_id == k)) [
    | inr other ↦
        (e, ground (arith, lookup-insert r.transfer_id k (resumed_entry r) m.entries), same)
    | inl here ↦
        let p : old ≡ e = ground (arith, eq_iff r.transfer_id k) in
        (
          resumed_entry r,
          ground (arith, lookup-insert r.transfer_id k (resumed_entry r) m.entries),
          SameDecision-trans a e.request (record r { status = accepted }) same
              (same_offer-SameDecision e.request r (rw p at offer) (rw p at decided)),
        )
  ])
]

Holds-apply :
    (k : String) (a : IncomingTransferRequest) (op : Op) (m : IncomingRequestManager)
    → is_pending a.status ≡ false
    → is_prune op ≡ false
    → Holds k a m
    → Holds k a (apply op m)
unfolding apply
Holds-apply k a (offered r fresh) m final np h = Holds-publish k a r m final h
Holds-apply k a (accept j) m final np (e, there, same) =
    (e, decided-decide k j accepted none m e (rw same.status final) there, same)
Holds-apply k a (reject j reason) m final np (e, there, same) =
    (e, decided-decide k j rejected (some reason) m e (rw same.status final) there, same)
Holds-apply k a (cancel j reason) m final np (e, there, same) =
    (e, decided-decide k j cancelled (some reason) m e (rw same.status final) there, same)
Holds-apply k a (timed_out j) m final np (e, there, same) =
    (e, decided-decide k j expired _ m e (rw same.status final) there, same)
Holds-apply k a (pruned now older_than) m final np h = cc

-- A decision stands: if the inbox holds a decided request, then after any calls but `prune` it
-- holds under the same ID a request with the same status, peer, files, total size and message.
pub decision_stands :
    (k : String) (a : IncomingTransferRequest) (ops : List Op) (m : IncomingRequestManager)
    → is_pending a.status ≡ false
    → any is_prune ops ≡ false
    → Holds k a m
    → Holds k a (run ops m)
unfolding run
decision_stands k a [] m final np h = h
decision_stands k a (op ∷ ops) m final np h =
    decision_stands k a ops (apply op m) final (ground arith)
      (Holds-apply k a op m final (ground arith) h)
