-- ===== src/Transfer/Batch/Finished.antt =====
-- core/transfer.py: a batch that the worker is done with is sent or settled.
use mesh_direct.Prelude.{
  sym, ap, ◌∙◌, ℕ, zero, suc, ◌+◌, ◌≡◌, ◌≤◌, ◌⊎◌, refl, Bool, true, false, Option, none, some, List,
  [], ◌∷◌, String, all, Bool-cases, Option-cases, inl, inr, arith, ◌==◌, eq_nat,
}
use mesh_direct.Prelude.Python.{Error, ok, Result-cases}
use mesh_direct.Config.{max_retries}
use mesh_direct.Lifecycle.{
  TransferInfo, TransferStatus, failed, cancelled, is_terminal, set_status, status_eq,
}
use mesh_direct.Transfer.Batch.{
  Outcome, Session, Step, finish, go_on, unless_raised, mark_each, Reaction, give_up, retry, escape,
  reaction, run_attempt, begin_attempt, attempts, run_attempts,
}

abbrev pub all_terminal : List TransferInfo → Bool
all_terminal infos = all (λ info. is_terminal info.status) infos

same_terminal : (s t : TransferStatus) → status_eq s t ≡ true → is_terminal s ≡ is_terminal t
same_terminal s t h = ground arith

set_status-terminal :
    (now : ℕ) (info : TransferInfo) (status : TransferStatus) (error : Option String)
    (r : TransferInfo × Bool)
    → is_terminal status ≡ true
    → set_status now info status error false ≡ ok r
    → is_terminal r.0.status ≡ true
unfolding set_status
set_status-terminal now info status error r t h = ground (arith, same_terminal info.status status)

-- Marking with a terminal status settles every file, or raises.
mark_each-all_terminal :
    (now : ℕ) (status : TransferStatus) (error : Option String) (infos : List TransferInfo)
    → is_terminal status ≡ true
    → (mark_each now status error infos).1 ≡ none
    → all_terminal (mark_each now status error infos).0 ≡ true
unfolding mark_each
mark_each-all_terminal now status error [] t h = refl
mark_each-all_terminal now status error (info ∷ infos) t h =
    elim (Bool-cases (is_terminal info.status)) [
      | inl settled ↦
          let rest = mark_each-all_terminal now status error infos t (rw settled at h) in
          rw settled (rw settled rest)
      | inr open' ↦ elim (Result-cases (set_status now info status error false)) [
        | inl (r, marked) ↦
            let rest = mark_each-all_terminal now status error infos t (rw (open', marked) at h) in
            rw (open', marked) (rw (set_status-terminal now info status error r t marked) rest)
        | inr (e, raised) ↦ let gone = rw (open', raised) at h in absurd (cc)
      ]
    ]

-- What an exception gives up with is a terminal status.
give_up-terminal :
    (e : Error) (status : TransferStatus) (m : String)
    → reaction e ≡ give_up status m
    → is_terminal status ≡ true
unfolding reaction
give_up-terminal e status m h = ground arith

-- An outcome with which the worker returns and leaves nothing open.
abbrev Settles : Outcome → Type 0
Settles outcome = outcome.1 ≡ none → all_terminal outcome.0 ≡ true

Step-cases :
    (s : Step)
    → ((outcome : Outcome) × (s ≡ finish outcome))
      ⊎ ((infos : List TransferInfo) × (s ≡ go_on infos))
Step-cases (finish outcome) = inl (outcome, refl)
Step-cases (go_on infos) = inr (infos, refl)

Reaction-cases :
    (r : Reaction)
    → ((status : TransferStatus) × (m : String) × (r ≡ give_up status m))
      ⊎ ((r ≡ retry) ⊎ (r ≡ escape))
Reaction-cases (give_up status m) = inl (status, m, refl)
Reaction-cases retry = inr (inl refl)
Reaction-cases escape = inr (inr refl)

-- A step that ends only by an exception.
raises_only : (o outcome : Outcome) → unless_raised o ≡ finish outcome → outcome.1 ≡ none → ⊥
unfolding unless_raised
raises_only (infos, none) outcome h gone = cc
raises_only (infos, some e) outcome h gone = ground arith

finish_back : {a b : Outcome} → finish a ≡ finish b → a ≡ b
finish_back h = ground arith

module _ (now : ℕ) (is_cancelled is_cancelled_waiting : ℕ → Bool) (session : Session) where
  -- The attempt sent everything.
  abbrev pub Sent : ℕ → List TransferInfo → Outcome → Type 0
  Sent attempt before outcome =
      ((session attempt before).1 ≡ none) × ((session attempt before).0 ≡ outcome.0)

  marked_all :
      (status : TransferStatus) (error : Option String) (infos : List TransferInfo)
      (outcome : Outcome)
      → is_terminal status ≡ true
      → finish (mark_each now status error infos) ≡ finish outcome
      → Settles outcome
  marked_all status error infos outcome t h none' =
      let e = finish_back h in
      rw (sym e) (mark_each-all_terminal now status error infos t (ap (λ o. o.1) e ∙ none'))

  run_attempt-finish :
      (attempt : ℕ) (infos : List TransferInfo) (outcome : Outcome)
      → run_attempt now is_cancelled is_cancelled_waiting session attempt infos ≡ finish outcome
      → outcome.1 ≡ none
      → (all_terminal outcome.0 ≡ true) ⊎ Sent attempt infos outcome
  unfolding run_attempt
  run_attempt-finish attempt infos outcome h done = elim (Option-cases (session attempt infos).1) [
    | inl sent ↦ inr (sent, ap (λ o. o.0) (finish_back (rw (run_attempt, sent) at h)))
    | inr (e, failed') ↦ inl (elim (Reaction-cases (reaction e)) [
      | inl (status, m, up) ↦
          marked_all status (some m) _ outcome (give_up-terminal e status m up)
            (rw (run_attempt, failed', up) at h) done
      | inr (inr out) ↦
          (let gone = finish_back (rw (run_attempt, failed', out) at h) in absurd (cc))
      | inr (inl again) ↦ elim (Bool-cases (attempt == max_retries)) [
        | inl last ↦
            marked_all failed _ _ outcome refl (rw (run_attempt, failed', again, last) at h) done
        | inr more ↦
            absurd (raises_only _ outcome (rw (run_attempt, failed', again, more) at h) done)
      ]
    ])
  ]

  begin_attempt-finish :
      (attempt : ℕ) (infos : List TransferInfo) (outcome : Outcome)
      → begin_attempt now is_cancelled is_cancelled_waiting session attempt infos ≡ finish outcome
      → Settles outcome
  unfolding begin_attempt
  begin_attempt-finish attempt infos outcome h = elim (Bool-cases (is_cancelled attempt)) [
    | inl stop ↦ marked_all cancelled _ infos outcome refl (rw stop at h)
    | inr on ↦ elim (Bool-cases (attempt == 0)) [
      | inl first ↦ (let gone = rw (on, first) at h in λ done. absurd (cc))
      | inr later ↦ elim (Bool-cases (is_cancelled_waiting attempt)) [
        | inl stop ↦ marked_all cancelled _ infos outcome refl (rw (on, later, stop) at h)
        | inr on' ↦ λ done. absurd (raises_only _ outcome (rw (on, later, on') at h) done)
      ]
    ]
  ]

  -- The last attempt does not go on.
  run_attempt-last :
      (attempt : ℕ) (infos next : List TransferInfo)
      → attempt ≡ max_retries
      → run_attempt now is_cancelled is_cancelled_waiting session attempt infos ≡ go_on next
      → ⊥
  unfolding run_attempt
  run_attempt-last attempt infos next last h = elim (Option-cases (session attempt infos).1) [
    | inl sent ↦ (let gone = rw (run_attempt, sent) at h in cc)
    | inr (e, failed') ↦ elim (Reaction-cases (reaction e)) [
      | inl (status, m, up) ↦ (let gone = rw (run_attempt, failed', up) at h in cc)
      | inr (inr out) ↦ (let gone = rw (run_attempt, failed', out) at h in cc)
      | inr (inl again) ↦
          let here : (attempt == max_retries) ≡ true = ground (arith, last) in
          let gone = rw (run_attempt, failed', again, here) at h in cc
    ]
  ]

  -- The records with which a run on these records comes to an attempt: those of the start, or those
  -- with which the attempt before has gone on.
  abbrev pub Enters : List TransferInfo → ℕ → List TransferInfo → Type 0
  Enters start zero infos = start ≡ infos
  Enters start (suc attempt) infos =
      (before begun : List TransferInfo) × Enters start attempt before
      × (begin_attempt now is_cancelled is_cancelled_waiting session attempt before ≡ go_on begun)
      × (run_attempt now is_cancelled is_cancelled_waiting session attempt begun ≡ go_on infos)

  -- Settled, or sent by an attempt that the run comes to, with the records that it then has.
  abbrev pub IsFinished : List TransferInfo → Outcome → Type 0
  IsFinished start outcome =
      (all_terminal outcome.0 ≡ true)
      ⊎ ((attempt : ℕ) × (before begun : List TransferInfo) × (attempt ≤ max_retries)
          × Enters start attempt before
          × (begin_attempt now is_cancelled is_cancelled_waiting session attempt before
              ≡ go_on begun)
          × Sent attempt begun outcome)

  one_attempt :
      (start : List TransferInfo) (left attempt : ℕ) (infos : List TransferInfo)
      → attempt ≤ max_retries
      → Enters start attempt infos
      → ((begun next : List TransferInfo)
          → begin_attempt now is_cancelled is_cancelled_waiting session attempt infos ≡ go_on begun
          → run_attempt now is_cancelled is_cancelled_waiting session attempt begun ≡ go_on next
          → (attempts now is_cancelled is_cancelled_waiting session left (suc attempt) next).1
            ≡ none
          → IsFinished start
              (attempts now is_cancelled is_cancelled_waiting session left (suc attempt) next))
      → (attempts now is_cancelled is_cancelled_waiting session (suc left) attempt infos).1 ≡ none
      → IsFinished start
          (attempts now is_cancelled is_cancelled_waiting session (suc left) attempt infos)
  unfolding attempts
  one_attempt start left attempt infos range entered further done =
      elim (Step-cases
        (begin_attempt now is_cancelled is_cancelled_waiting session attempt infos)) [
          | inl (outcome, over) ↦
              rw (attempts, over)
                (inl
                  (begin_attempt-finish attempt infos outcome over (rw (attempts, over) at done)))
          | inr (begun, on) ↦
              elim (Step-cases
                (run_attempt now is_cancelled is_cancelled_waiting session attempt begun)) [
                  | inl (outcome, over) ↦
                      rw (attempts, on, over)
                        (elim (run_attempt-finish attempt begun outcome over
                          (rw (attempts, on, over) at done)) [
                            | inl settled ↦ inl settled
                            | inr sent ↦ inr (attempt, infos, begun, range, entered, on, sent)
                          ])
                  | inr (next, again) ↦
                      rw (attempts, on, again)
                        (further begun next on again (rw (attempts, on, again) at done))
                ]
        ]

  attempts-IsFinished :
      (start : List TransferInfo) (left attempt : ℕ) (infos : List TransferInfo)
      → left + attempt ≡ max_retries
      → Enters start attempt infos
      → (attempts now is_cancelled is_cancelled_waiting session (suc left) attempt infos).1 ≡ none
      → IsFinished start
          (attempts now is_cancelled is_cancelled_waiting session (suc left) attempt infos)
  attempts-IsFinished start zero attempt infos range entered done =
      one_attempt start zero attempt infos (omega arith) entered
        (λ begun next _ again _. absurd (run_attempt-last attempt begun next (omega arith) again))
        done
  attempts-IsFinished start (suc left) attempt infos range entered done =
      one_attempt start (suc left) attempt infos (omega arith) entered
        (λ begun next on again more.
          attempts-IsFinished start left (suc attempt) next (omega arith)
            (infos, begun, entered, on, again) more)
        done

  -- When the retry loop returns without an exception, every file of the batch is in a terminal status,
  -- or one of the attempts that the run comes to, of which there are at most four, on the records that
  -- it then has, sent everything, and the records are as it left them.
  pub run_attempts-IsFinished :
      (infos : List TransferInfo)
      → (run_attempts now is_cancelled is_cancelled_waiting session infos).1 ≡ none
      → IsFinished infos (run_attempts now is_cancelled is_cancelled_waiting session infos)
  unfolding run_attempts
  run_attempts-IsFinished infos done =
      attempts-IsFinished infos max_retries 0 infos (omega arith) refl done
