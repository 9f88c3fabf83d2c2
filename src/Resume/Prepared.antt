-- ===== src/Resume/Prepared.antt =====
-- core/resume.py: where `prepare` lets each file go on, and that the sender accepts it.
use mesh_direct.Prelude.{
  ℕ, ◌≡◌, ◌≤◌, refl, ◌∙◌, String, Bool, false, Option, none, some, List, [], ◌∷◌, All, length, ltb,
  ◌==◌, eq_nat, eq_string, eq_iff, Bool-cases, inl, inr, arith, Dict, lookup, insert, lookup-insert,
  lookup-without,
}
use mesh_direct.Prelude.Python.{ok}
use mesh_direct.Inbox.{IncomingFile}
use mesh_direct.Protocol.{TransferOffer}
use mesh_direct.Protocol.Offers.{DistinctIds}
use mesh_direct.Frame.{Bytes}
use mesh_direct.Primitives.{Primitives}
use mesh_direct.Resume.{validate_resume_state, resume_state_frame}
use mesh_direct.Resume.RoundTrip.{told, validate_resume_state-resume_state_frame}
use mesh_direct.Resume.States.{IsResumed, prepare_file-IsResumed}
use mesh_direct.Resume.Store.{
  Stored, SessionDir, ResumeFileState, read_metadata, is_same_file, unlink, prepare_partial,
  is_final, prepare_final, prepare_known, prepare_file, Prepared, add_prepared, prepare_files,
  prepare,
}

-- `states[file_id].offset`
abbrev pub offset_in : Dict String ResumeFileState → String → ℕ
offset_in states file_id = elim (lookup file_id states) [ none ↦ 0 | some state ↦ state.offset ]

module _ (c : Primitives) (resolve : String → String) (is_inside : String → Bool)
    (received : Dict String Bytes) where
  -- No part of another file is touched.
  part_unlinked :
      (f : IncomingFile) (id : String) (dir : SessionDir)
      → (id == f.file_id) ≡ false
      → lookup id (unlink f.file_id dir).parts ≡ lookup id dir.parts
  part_unlinked f id dir other =
      rw (lookup-without f.file_id id dir.parts)
        (ground (arith, eq_iff id f.file_id, eq_iff f.file_id id))

  part_left :
      (f : IncomingFile) (o : Option Bytes) (id : String) (dir : SessionDir)
      → (id == f.file_id) ≡ false
      → lookup id (prepare_partial f o dir).1.parts ≡ lookup id dir.parts
  unfolding prepare_partial
  part_left f none id dir other = refl
  part_left f (some content) id dir other = elim (Bool-cases (ltb f.size (length content))) [
    | inl long ↦ rw long (part_unlinked f id dir other)
    | inr fits ↦ rw fits refl
  ]

  part_known :
      (f : IncomingFile) (o : Option String) (id : String) (dir : SessionDir)
      → (id == f.file_id) ≡ false
      → lookup id (prepare_known c resolve is_inside received f o dir).1.parts ≡ lookup id dir.parts
  unfolding prepare_known prepare_final
  part_known f none id dir other = part_left f (lookup f.file_id dir.parts) id dir other
  part_known f (some path) id dir other =
      elim (Bool-cases
        (is_final c resolve is_inside received f (resolve path) (lookup (resolve path) received))) [
          | inl whole ↦ rw whole refl
          | inr gone ↦ rw gone refl
        ]

  part_kept :
      (f : IncomingFile) (stored : Option Stored) (id : String) (dir : SessionDir)
      → (id == f.file_id) ≡ false
      → lookup id (prepare_file c resolve is_inside received f stored dir).1.parts
        ≡ lookup id dir.parts
  unfolding prepare_file
  part_kept f none id dir other = part_unlinked f id dir other
  part_kept f (some stored) id dir other = elim (Bool-cases (is_same_file f stored)) [
    | inl same ↦ rw same (part_known f stored.final_path id dir other)
    | inr changed ↦ rw changed (part_unlinked f id dir other)
  ]

  -- The entries of an ID that is not among the files stay.
  others_kept :
      (files : List IncomingFile) (stored : Dict String Stored) (prepared : Prepared) (id : String)
      → All (λ g. (id == g.file_id) ≡ false) files
      → (lookup id (prepare_files c resolve is_inside received files stored prepared).result
          ≡ lookup id prepared.result)
        × (lookup id (prepare_files c resolve is_inside received files stored prepared).dir.parts
            ≡ lookup id prepared.dir.parts)
  unfolding prepare_files
  others_kept [] stored prepared id other = (refl, refl)
  others_kept (f ∷ files) stored prepared id other =
      let step =
        prepare_file c resolve is_inside received f (lookup f.file_id stored) prepared.dir in
      let (results, parts) = others_kept files stored (add_prepared f step prepared) id other.1 in
      let apart : lookup id (insert f.file_id step.0 prepared.result) ≡ lookup id prepared.result =
        rw (lookup-insert f.file_id id step.0 prepared.result)
          (ground (arith, other.0, eq_iff id f.file_id, eq_iff f.file_id id)) in
      (results ∙ apart, parts ∙ part_kept f (lookup f.file_id stored) id prepared.dir other.0)

  -- by the metadata and the partial files that `prepare` finds
  abbrev pub IsIn :
      Dict String Stored → Dict String Bytes → Dict String ResumeFileState → IncomingFile → Type 0
  IsIn files parts states f =
      (state : ResumeFileState) × (lookup f.file_id states ≡ some state)
      × IsResumed c resolve is_inside received f (lookup f.file_id files) (lookup f.file_id parts)
          state

  -- What holds with the partial files that one file leaves holds with those before.
  IsIn-before :
      (f : IncomingFile) (entry : Option Stored) (stored : Dict String Stored) (dir : SessionDir)
      (states : Dict String ResumeFileState) (files : List IncomingFile)
      → All (λ g. (f.file_id == g.file_id) ≡ false) files
      → All
          (IsIn stored (prepare_file c resolve is_inside received f entry dir).1.parts states)
          files
      → All (IsIn stored dir.parts states) files
  IsIn-before f entry stored dir states [] apart h = tt
  IsIn-before f entry stored dir states (g ∷ files) apart ((state, there, resumed), rest) =
      let other : (g.file_id == f.file_id) ≡ false =
        ground (arith, apart.0, eq_iff g.file_id f.file_id, eq_iff f.file_id g.file_id) in
      let same = part_kept f entry g.file_id dir other in
      (
        (state, there, rw (← same) resumed),
        IsIn-before f entry stored dir states files apart.1 rest,
      )

  prepare_files-IsIn :
      (files : List IncomingFile) (stored : Dict String Stored) (prepared : Prepared)
      → DistinctIds files
      → All
          (IsIn stored prepared.dir.parts
            (prepare_files c resolve is_inside received files stored prepared).result)
          files
  unfolding prepare_files
  prepare_files-IsIn [] stored prepared distinct = tt
  prepare_files-IsIn (f ∷ files) stored prepared distinct =
      let entry = lookup f.file_id stored in
      let step = prepare_file c resolve is_inside received f entry prepared.dir in
      let next = add_prepared f step prepared in
      let (results, parts) = others_kept files stored next f.file_id distinct.0 in
      let own : lookup f.file_id (insert f.file_id step.0 prepared.result) ≡ some step.0 =
        rw (lookup-insert f.file_id f.file_id step.0 prepared.result)
          (rw ((eq_iff f.file_id f.file_id).1 refl) refl) in
      (
        (
          step.0,
          results ∙ own,
          prepare_file-IsResumed c resolve is_inside received f entry prepared.dir,
        ),
        IsIn-before f entry stored prepared.dir _ files distinct.0
            (prepare_files-IsIn files stored next distinct.1),
      )

  state_within :
      (f : IncomingFile) (entry : Option Stored) (part : Option Bytes) (state : ResumeFileState)
      → IsResumed c resolve is_inside received f entry part state
      → state.offset ≤ f.size
  state_within f entry part state (inl whole) = rw whole.is_state (omega arith)
  state_within f entry part state (inr (inl open')) = rw open'.is_state open'.fits
  state_within f entry part state (inr (inr (reason, start))) = rw start (omega arith)

  offsets_within :
      (stored : Dict String Stored) (parts : Dict String Bytes)
      (states : Dict String ResumeFileState) (files : List IncomingFile)
      → All (IsIn stored parts states) files
      → All (λ f. offset_in states f.file_id ≤ f.size) files
  offsets_within stored parts states [] h = tt
  offsets_within stored parts states (f ∷ files) ((state, there, resumed), rest) = (
    rw (offset_in, there)
        (state_within f (lookup f.file_id stored) (lookup f.file_id parts) state resumed),
    offsets_within stored parts states files rest,
  )

  -- For an offer with distinct file IDs, if the metadata of the transfer can be read and written,
  -- prepare returns a state for each file. Where the metadata describe the file with its name, size and
  -- hash, as one that was received, and it is still inside the receive directory with that size and
  -- hash: the offset of its end. Where they describe it as not received, and its partial file is not
  -- above the size: the end of the partial file. In each other case, and only then: the start. The
  -- sender accepts the resume state that is made of them, and reads these offsets back.
  pub prepare-resumes :
      (offer : TransferOffer) (dir : SessionDir) (stored : Dict String Stored)
      → DistinctIds offer.files
      → read_metadata dir.metadata ≡ ok stored
      → (states : Dict String ResumeFileState) × ((prepare c resolve is_inside received false offer
            dir).1
          ≡ ok states)
        × All (IsIn stored dir.parts states) offer.files
        × (validate_resume_state (resume_state_frame (offset_in states) offer) offer
            ≡ ok (told (offset_in states) offer.files))
  unfolding prepare
  prepare-resumes offer dir stored distinct read =
      let start : Prepared = record { result = []; updated_files = []; dir = dir } in
      let p = prepare_files c resolve is_inside received offer.files stored start in
      let each = prepare_files-IsIn offer.files stored start distinct in
      (
        p.result,
        rw read refl,
        each,
        validate_resume_state-resume_state_frame (offset_in p.result) offer distinct
            (offsets_within stored dir.parts p.result offer.files each),
      )
