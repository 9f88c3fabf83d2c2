-- ===== src/Transfer/Approval/Quiet.antt =====
-- core/transfer.py with core/inbox.py: no file is received that the user did not accept.
use mesh_direct.Prelude.{
  ◌≡◌, ◌≢◌, refl, String, Bool, true, false, ◌||◌, ◌⊎◌, Option, some, List, [], ◌∷◌, any, eq_string,
  Bool-cases, Option-cases, inl, inr, arith,
}
use mesh_direct.Prelude.Python.{
  Error, Result, ok, raise, Result-cases, by_return, inbox_capacity, value_error,
}
use mesh_direct.Json.{Value}
use mesh_direct.Protocol.{build_response}
use mesh_direct.Inbox.{
  IncomingRequestManager, IncomingTransferRequest, pending_approval, is_accepted, get_request,
  publish, wait_begin, wait_expire, wait_result,
}
use mesh_direct.Inbox.Invariant.{IsValid, state}
use mesh_direct.Inbox.Runs.{Op, offered, timed_out, apply, run}
use mesh_direct.Inbox.Decisions.{accepted_at, is_accept}
use mesh_direct.Inbox.Waiting.{wake, wait_for_decision}
use mesh_direct.Transfer.Approval.{
  Last, Round, Step, done, again, step, finish, await_decision, respond, respond_decided, refuse,
  approve,
}
use mesh_direct.Transfer.Approval.Rounds.{
  IsQuiet, run-IsQuiet, IsRefusal, accepts_in, step-IsQuiet, unaccepted_there,
}

-- The end of the wait, with calls in which nobody accepts.
abbrev pub accepts_last : String → Last → Bool
accepts_last k last =
    any (is_accept k) last.before || any (is_accept k) last.first || any (is_accept k) last.second

expire-IsQuiet :
    (k : String) (woken : Bool) (m : IncomingRequestManager)
    → IsQuiet k m
    → IsQuiet k (wait_expire k woken m).0
unfolding wait_expire run apply
expire-IsQuiet k true m q = q
expire-IsQuiet k false m q = run-IsQuiet k (timed_out k ∷ []) m refl q

result-IsRefusal :
    (k : String) (m : IncomingRequestManager) → IsQuiet k m → IsRefusal (wait_result k m)
unfolding wait_result
result-IsRefusal k m q = elim (Option-cases (get_request k m)) [
  | inl gone ↦ rw (wait_result, gone) tt
  | inr (r, there) ↦ rw (wait_result, there) (unaccepted_there k m r q.unaccepted there)
]

wake-IsRefusal :
    (k : String) (first second : List Op) (m : IncomingRequestManager) (woken : Result Bool)
    → (any (is_accept k) first || any (is_accept k) second) ≡ false
    → IsQuiet k m
    → IsRefusal (wake k first second m woken).1
wake-IsRefusal k first second m (raise e) no_accept q = tt
wake-IsRefusal k first second m (ok woken) no_accept q = result-IsRefusal k _ (
    run-IsQuiet k second _ (ground arith)
      (expire-IsQuiet k woken (run first m) (run-IsQuiet k first m (ground arith) q)))

finish-IsRefusal :
    (k : String) (last : Last) (m : IncomingRequestManager)
    → accepts_last k last ≡ false
    → IsQuiet k m
    → IsRefusal (finish last k m).1
unfolding finish wait_for_decision
finish-IsRefusal k last m no_accept q =
    wake-IsRefusal k last.first last.second (run last.before m) (wait_begin k (run last.before m))
      (ground arith) (run-IsQuiet k last.before m (ground arith) q)

Step-cases : (s : Step) → ((r : Result IncomingTransferRequest) × (s ≡ done r)) ⊎ (s ≡ again)
Step-cases (done r) = inl (r, refl)
Step-cases again = inr refl

await_done :
    (k : String) (round : Round) (rounds : List Round) (last : Last) (m : IncomingRequestManager)
    (r : Result IncomingTransferRequest)
    → (step k round m).1 ≡ done r
    → (await_decision (round ∷ rounds) last k m).1 ≡ r
unfolding await_decision
await_done k round rounds last m r ends = rw (await_decision, ends) refl

await_again :
    (k : String) (round : Round) (rounds : List Round) (last : Last) (m : IncomingRequestManager)
    → (step k round m).1 ≡ again
    → (await_decision (round ∷ rounds) last k m).1
      ≡ (await_decision rounds last k (step k round m).0).1
unfolding await_decision
await_again k round rounds last m goes_on = rw (await_decision, goes_on) refl

await_decision-IsRefusal :
    (k : String) (rounds : List Round) (last : Last) (m : IncomingRequestManager)
    → any (accepts_in k) rounds ≡ false
    → accepts_last k last ≡ false
    → IsQuiet k m
    → IsRefusal (await_decision rounds last k m).1
unfolding await_decision
await_decision-IsRefusal k [] last m no_accept no_last q = finish-IsRefusal k last m no_last q
await_decision-IsRefusal k (round ∷ rounds) last m no_accept no_last q =
    let (quiet, fine) = step-IsQuiet k round m (ground arith) q in
    elim (Step-cases (step k round m).1) [
      | inl (r, ends) ↦ rw (await_done k round rounds last m r ends) (rw ends at fine)
      | inr goes_on ↦
          rw (await_again k round rounds last m goes_on)
            (await_decision-IsRefusal k rounds last (step k round m).0 (ground arith) no_last quiet)
    ]

published :
    (k : String) (request : IncomingTransferRequest) (m : IncomingRequestManager)
    → request.status ≡ pending_approval
    → IsQuiet k m
    → IsQuiet k (state m (publish request m))
unfolding run apply
published k request m fresh q = run-IsQuiet k (offered request fresh ∷ []) m refl q

respond-accepted :
    (k : String) (b : Bool) (reason : Option String) (response : Value)
    → respond k b reason ≡ ok (response, true)
    → b ≡ true
unfolding respond
respond-accepted k b reason response h =
    by_return (build_response k b reason) _ h λ made a h. ground arith

refused_response :
    (k : String) (r : Result IncomingTransferRequest) (response : Value)
    → IsRefusal r
    → respond_decided k r ≢ ok (response, true)
refused_response k (raise e) response refusal = λ h. cc
refused_response k (ok r) response refusal =
    λ h. let said = respond-accepted k (is_accepted r.status) r.reason response h in ground arith

no_files_refused : (k : String) (e : Error) (response : Value) → refuse k e ≢ ok (response, true)
no_files_refused k (inbox_capacity m) response =
    λ h. let said = respond-accepted k false (some "Receiver is busy") response h in cc
no_files_refused k (value_error m) response = λ h. cc
no_files_refused k e response = λ h. cc

-- From a valid inbox with no accepted request under its transfer ID, a session with an undecided
-- request goes on to receive the files only if one of the calls of the other threads, before, in or
-- behind a round of its wait, accepts this transfer ID.
pub files_need_accept :
    (rounds : List Round) (last : Last) (request : IncomingTransferRequest)
    (m : IncomingRequestManager) (response : Value)
    → IsValid m
    → accepted_at request.transfer_id m ≡ false
    → request.status ≡ pending_approval
    → (approve rounds last request m).1 ≡ ok (response, true)
    → (any (accepts_in request.transfer_id) rounds || accepts_last request.transfer_id last) ≡ true
unfolding approve state
files_need_accept rounds last request m response v before fresh h =
    let k = request.transfer_id in
    let q = published k request m fresh (record { valid = v; unaccepted = before }) in
    elim (Bool-cases (any (accepts_in k) rounds || accepts_last k last)) [
      | inl called ↦ called
      | inr never ↦ (elim (Result-cases (publish request m)) [
        | inr (e, raised) ↦ absurd (no_files_refused k e response (rw raised at h))
        | inl (p, taken) ↦ absurd (
            refused_response k (await_decision rounds last k p.0).1 response
              (await_decision-IsRefusal k rounds last p.0 (ground arith) (ground arith)
                (rw taken at q))
              (rw taken at h))
      ])
    ]
