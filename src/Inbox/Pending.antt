-- ===== src/Inbox/Pending.antt =====
-- core/inbox.py: that a wait and a shutdown leave requests decided.
use mesh_direct.Prelude.{
  ◌≡◌, ◌∙◌, ◌&&◌, ◌||◌, refl, ap, String, Bool, Option, none, some, List, [], ◌∷◌, Dict, lookup,
  lookup-insert, arith, eq_string, ◌==◌, Option-cases, Bool-cases, inl, inr, true, false, eq_iff,
  eq_refl, any, not, if◌then◌else◌, is_some,
}
use mesh_direct.Prelude.Python.{ok}
use mesh_direct.Inbox.{
  PendingDecision, IncomingRequestManager, IncomingTransferRequest, IncomingRequestStatus, expired,
  accepted, rejected, cancelled, is_pending, publish, decide_request, pending_ids, cancel_request,
  get_request, wait_begin, wait_expire, wait_result,
}
use mesh_direct.Inbox.Invariant.{IsValid, state, publish_cases, fresh_entry, resumed_entry}
use mesh_direct.Inbox.Runs.{Op, offered, accept, reject, cancel, timed_out, pruned, apply, run}
use mesh_direct.Inbox.Decisions.{Holds, SameDecision, is_prune, decision_stands}
use mesh_direct.Inbox.Waiting.{wake, wait_for_decision, cancel_each, cancel_all}

-- An entry stays, whatever is called but `prune`.
decide_request-there :
    (k j : String) (s : IncomingRequestStatus) (reason : Option String) (m : IncomingRequestManager)
    → is_some (lookup k m.entries) ≡ true
    → is_some (lookup k (decide_request j s reason m).0.entries) ≡ true
unfolding decide_request
decide_request-there k j s reason m there = elim (Option-cases (lookup j m.entries)) [
  | inl new ↦ rw (new, decide_request) there
  | inr (d, old) ↦
      rw (old, decide_request)
        (ground (
          arith,
          lookup-insert j k
              (record { request = record d.request { status = s; reason = reason }; event = true })
              m.entries,
        ))
]

publish-there :
    (k : String) (r : IncomingTransferRequest) (m : IncomingRequestManager)
    → is_some (lookup k m.entries) ≡ true
    → is_some (lookup k (state m (publish r m)).entries) ≡ true
publish-there k r m there = elim (publish_cases r m) [
  | inl unchanged ↦ rw unchanged there
  | inr (inl (new, w)) ↦
      rw w (ground (arith, lookup-insert r.transfer_id k (fresh_entry r) m.entries))
  | inr (inr (old, at, offer, decided, w)) ↦
      rw w (ground (arith, lookup-insert r.transfer_id k (resumed_entry r) m.entries))
]

apply-there :
    (k : String) (op : Op) (m : IncomingRequestManager)
    → is_prune op ≡ false
    → is_some (lookup k m.entries) ≡ true
    → is_some (lookup k (apply op m).entries) ≡ true
unfolding apply
apply-there k (offered r fresh) m np there = publish-there k r m there
apply-there k (accept j) m np there = decide_request-there k j accepted none m there
apply-there k (reject j reason) m np there = decide_request-there k j rejected (some reason) m there
apply-there k (cancel j reason) m np there =
    decide_request-there k j cancelled (some reason) m there
apply-there k (timed_out j) m np there = decide_request-there k j expired _ m there
apply-there k (pruned now older_than) m np there = cc

run-there :
    (k : String) (ops : List Op) (m : IncomingRequestManager)
    → any is_prune ops ≡ false
    → is_some (lookup k m.entries) ≡ true
    → is_some (lookup k (run ops m).entries) ≡ true
unfolding run
run-there k [] m np there = there
run-there k (op ∷ ops) m np there =
    run-there k ops (apply op m) (ground arith) (apply-there k op m (ground arith) there)

entry_there :
    (k : String) (ops : List Op) (m : IncomingRequestManager) (e : PendingDecision)
    → any is_prune ops ≡ false
    → lookup k m.entries ≡ some e
    → (e' : PendingDecision) × (lookup k (run ops m).entries ≡ some e')
entry_there k ops m e np there =
    let stays' = run-there k ops m np (rw there refl) in
    elim (Option-cases (lookup k (run ops m).entries)) [
      | inl gone ↦ (let nothing = rw gone at stays' in absurd (cc))
      | inr found ↦ found
    ]

-- A request of its own is decided as it was.
same_decision : (r : IncomingTransferRequest) → SameDecision r r
same_decision r = record { status = refl; peer = refl; files = refl; size = refl; message = refl }

-- what becomes of an undecided request when the time runs out
abbrev pub expired_request : IncomingTransferRequest → IncomingTransferRequest
expired_request r = record r { status = expired; reason = some "Transfer request expired" }

-- A decided request, and an undecided one as it expires.
abbrev pub settled : IncomingTransferRequest → IncomingTransferRequest
settled r = if is_pending r.status then expired_request r else r

settled-decided : (r : IncomingTransferRequest) → is_pending (settled r).status ≡ false
settled-decided r = elim (Bool-cases (is_pending r.status)) [
  | inl waits ↦ rw waits refl
  | inr final ↦ rw final final
]

-- `_decide` on an entry settles it.
wait_expire-Holds :
    (k : String) (woken : Bool) (m : IncomingRequestManager) (e : PendingDecision)
    → lookup k m.entries ≡ some e
    → (woken && is_pending e.request.status) ≡ false
    → Holds k (settled e.request) (wait_expire k woken m).0
unfolding wait_expire decide_request
wait_expire-Holds k true m e there agrees =
    let final : is_pending e.request.status ≡ false = ground arith in
    rw final (e, there, same_decision e.request)
wait_expire-Holds k false m e there agrees = elim (Bool-cases (is_pending e.request.status)) [
  | inr final ↦ rw (there, decide_request, final) (e, there, same_decision e.request)
  | inl waits ↦
      rw (there, decide_request, waits)
        (
          record { request = expired_request e.request; event = true },
          ground (
            arith,
            lookup-insert k k (record { request = expired_request e.request; event = true })
                m.entries,
            eq_refl k,
          ),
          same_decision (expired_request e.request),
        )
]

-- An entry that was woken is decided, and stays so.
woken_decided :
    (k : String) (ops : List Op) (m : IncomingRequestManager) (e e1 : PendingDecision)
    → any is_prune ops ≡ false
    → lookup k m.entries ≡ some e
    → lookup k (run ops m).entries ≡ some e1
    → (not (is_pending e.request.status) && is_pending e1.request.status) ≡ false
woken_decided k ops m e e1 np there later = elim (Bool-cases (is_pending e.request.status)) [
  | inl waits ↦ rw waits refl
  | inr final ↦
      let (e', there', same) =
        decision_stands k e.request ops m final np (e, there, same_decision e.request) in
      let one : e' ≡ e1 = ground (arith, there', later) in
      let said = same.status in ground (arith, one, said)
]

wait_result_there :
    (k : String) (m : IncomingRequestManager) (e : PendingDecision)
    → lookup k m.entries ≡ some e
    → wait_result k m ≡ ok e.request
unfolding wait_result get_request
wait_result_there k m e there = rw (wait_result, get_request, there) refl

wait_begin_there :
    (k : String) (m : IncomingRequestManager) (e : PendingDecision)
    → lookup k m.entries ≡ some e
    → wait_begin k m ≡ ok e.event
unfolding wait_begin
wait_begin_there k m e there = rw (wait_begin, there) refl

waited :
    (k : String) (first second : List Op) (m : IncomingRequestManager) (e e2 : PendingDecision)
    → lookup k m.entries ≡ some e
    → lookup k (run second (wait_expire k e.event (run first m)).0).entries ≡ some e2
    → (wait_for_decision k first second m).1 ≡ ok e2.request
unfolding wait_for_decision
waited k first second m e e2 there later =
    ap (λ r. (wake k first second m r).1) (wait_begin_there k m e there)
    ∙ wait_result_there k (run second (wait_expire k e.event (run first m)).0) e2 later

-- In a valid inbox `wait_for_decision` with no time left returns the request of its entry, whatever
-- other threads but `prune` do in between: as it was decided before the worker takes the lock for its
-- own decision, or else expired, and in each case decided.
pub wait_for_decision-settled :
    (k : String) (first second : List Op) (m : IncomingRequestManager) (e : PendingDecision)
    → IsValid m
    → lookup k m.entries ≡ some e
    → any is_prune first ≡ false
    → any is_prune second ≡ false
    → (e1 : PendingDecision) × (lookup k (run first m).entries ≡ some e1)
      × ((r : IncomingTransferRequest) × ((wait_for_decision k first second m).1 ≡ ok r)
          × SameDecision (settled e1.request) r
          × (is_pending r.status ≡ false))
wait_for_decision-settled k first second m e v there np1 np2 =
    let (e1, there1) = entry_there k first m e np1 there in
    let woken : e.event ≡ not (is_pending e.request.status) = (v.entry k e there).woken in
    let held = wait_expire-Holds k e.event (run first m) e1 there1 (
      ap (λ b. b && is_pending e1.request.status) woken
      ∙ woken_decided k first m e e1 np1 there there1) in
    let final = settled-decided e1.request in
    let (e2, there2, same) =
      decision_stands k (settled e1.request) second (wait_expire k e.event (run first m)).0 final
        np2 held in
    (
      e1,
      there1,
      (e2.request, waited k first second m e e2 there there2, same, rw same.status final),
    )

settled_entry : Option PendingDecision → Bool
settled_entry none = true
settled_entry (some entry) = not (is_pending entry.request.status)

listed :
    (k : String) (d : Dict String PendingDecision)
    → (settled_entry (lookup k d) || any (λ j. j == k) (pending_ids d)) ≡ true
unfolding lookup pending_ids settled_entry
listed k [] = refl
listed k ((j, w) ∷ d) = ground (arith, listed k d)

-- decided, or still to be cancelled
abbrev in_turn : String → List String → PendingDecision → Bool
in_turn k ids e = not (is_pending e.request.status) || any (λ j. j == k) ids

lookup-cancel_other :
    (k j reason : String) (m : IncomingRequestManager)
    → (j == k) ≡ false
    → lookup k (cancel_request j reason m).0.entries ≡ lookup k m.entries
unfolding decide_request
lookup-cancel_other k j reason m other = elim (Option-cases (lookup j m.entries)) [
  | inl new ↦ rw (new, decide_request) refl
  | inr (d, old) ↦
      rw (old, decide_request)
        (ground (
          arith,
          lookup-insert j k
              (record {
                request = record d.request { status = cancelled; reason = some reason };
                event = true;
              })
              m.entries,
        ))
]

-- What the cancellation of an ID leaves under another, and under its own.
cancelled_turn :
    (k j reason : String) (ids : List String) (m : IncomingRequestManager) (e : PendingDecision)
    → lookup k m.entries ≡ some e
    → in_turn k (j ∷ ids) e ≡ true
    → (e' : PendingDecision) × (lookup k (cancel_request j reason m).0.entries ≡ some e')
      × (in_turn k ids e' ≡ true)
unfolding decide_request
cancelled_turn k j reason ids m e there turn = elim (Bool-cases (j == k)) [
  | inr other ↦ (e, lookup-cancel_other k j reason m other ∙ there, ground arith)
  | inl same ↦
      let named : j ≡ k = (eq_iff j k).0 same in
      rw named (elim (Bool-cases (is_pending e.request.status)) [
        | inr final ↦ rw (there, decide_request, final) (e, there, ground arith)
        | inl waits ↦
            rw (there, decide_request, waits)
              (
                record {
                  request = record e.request { status = cancelled; reason = some reason };
                  event = true;
                },
                ground (
                  arith,
                  lookup-insert k k
                      (record {
                        request = record e.request { status = cancelled; reason = some reason };
                        event = true;
                      })
                      m.entries,
                  eq_refl k,
                ),
                refl,
              )
      ])
]

cancel_each-decides :
    (k : String) (ids : List String) (reason : String) (others : String → List Op)
    (m : IncomingRequestManager) (e : PendingDecision)
    → ((j : String) → any is_prune (others j) ≡ false)
    → lookup k m.entries ≡ some e
    → in_turn k ids e ≡ true
    → (e' : PendingDecision) × (lookup k (cancel_each ids reason others m).0.entries ≡ some e')
      × (is_pending e'.request.status ≡ false)
unfolding cancel_each
cancel_each-decides k [] reason others m e np there turn = (e, there, ground arith)
cancel_each-decides k (j ∷ ids) reason others m e np there turn =
    let (e1, there1) = entry_there k (others j) m e (np j) there in
    let kept = woken_decided k (others j) m e e1 (np j) there there1 in
    let (e2, there2, turn2) =
      cancelled_turn k j reason ids (run (others j) m) e1 there1 (ground arith) in
    cancel_each-decides k ids reason others (cancel_request j reason (run (others j) m)).0 e2 np
      there2 turn2

-- After `cancel_all` each request that the inbox held when it began is there and decided, whatever
-- other threads but `prune` do between its cancellations.
pub cancel_all-decides :
    (k reason : String) (others : String → List Op) (m : IncomingRequestManager)
    (e : PendingDecision)
    → ((j : String) → any is_prune (others j) ≡ false)
    → lookup k m.entries ≡ some e
    → (e' : PendingDecision) × (lookup k (cancel_all reason others m).0.entries ≡ some e')
      × (is_pending e'.request.status ≡ false)
unfolding cancel_all settled_entry
cancel_all-decides k reason others m e np there =
    cancel_each-decides k (pending_ids m.entries) reason others m e np there
      (rw there at (listed k m.entries))
