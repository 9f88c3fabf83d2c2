-- ===== src/Resume/States.antt =====
-- core/resume.py: in which state the loop of `prepare` finds a file.
use mesh_direct.Prelude.{
  ◌≡◌, ◌≢◌, ◌≤◌, ◌<◌, refl, String, Bool, true, false, ◌⊎◌, Option, none, some, length, ltb, ◌==◌,
  eq_nat, eq_string, eq_iff, nat_eq_iff, Bool-cases, Option-cases, inl, inr, arith, Dict, lookup,
}
use mesh_direct.Inbox.{IncomingFile}
use mesh_direct.Frame.{Bytes}
use mesh_direct.Primitives.{Primitives}
use mesh_direct.Resume.Store.{
  Stored, SessionDir, ResumeFileState, is_same_file, open_at, prepare_partial, is_final,
  prepare_final, prepare_known, prepare_file,
}

module _ (c : Primitives) (resolve : String → String) (is_inside : String → Bool)
    (received : Dict String Bytes) where
  -- The metadata describes the offered file.
  pub record IsDescribed (f : IncomingFile) (stored : Stored) : Type 0 where
    pub name : stored.name ≡ f.name
    pub size : stored.size ≡ f.size
    pub sha256 : stored.sha256 ≡ f.sha256

  -- The file was received before, as its entry in the metadata says, and is still there: inside the
  -- receive directory, with the offered size and hash.
  pub record IsFinished (f : IncomingFile) (entry : Option Stored) (state : ResumeFileState)
      : Type 0 where
    pub stored : Stored
    pub recorded : entry ≡ some stored
    pub described : IsDescribed f stored
    pub path : String
    pub given : stored.final_path ≡ some path
    pub content : Bytes
    pub inside : is_inside (resolve path) ≡ true
    pub there : lookup (resolve path) received ≡ some content
    pub size : length content ≡ f.size
    pub hash : c.hexdigest content ≡ f.sha256
    pub is_state : state ≡ record {
      file_id = f.file_id;
      offset = f.size;
      partial_path = none;
      final_path = some (resolve path);
    }

  -- The metadata describes the file as one that is not received whole, and the file goes on behind all
  -- bytes of its partial file, of no more than its size.
  pub record IsContinued (f : IncomingFile) (entry : Option Stored) (part : Option Bytes)
      (state : ResumeFileState) : Type 0 where
    pub stored : Stored
    pub recorded : entry ≡ some stored
    pub described : IsDescribed f stored
    pub unfinished : stored.final_path ≡ none
    pub content : Bytes
    pub part_is : part ≡ some content
    pub fits : length content ≤ f.size
    pub is_state : state ≡ open_at f (length content)

  -- What the metadata calls the received file is not it.
  abbrev pub IsLost : IncomingFile → String → Type 0
  IsLost f path =
      (is_inside (resolve path) ≡ false)
      ⊎ (lookup (resolve path) received ≡ none)
      ⊎ ((content : Bytes) × (lookup (resolve path) received ≡ some content)
          × ((length content ≢ f.size) ⊎ (c.hexdigest content ≢ f.sha256)))

  -- Why a file starts again: its metadata are missing or describe another file, or the received file
  -- is lost, or it was not received and has no partial file, or one above the size.
  abbrev pub HasReason : IncomingFile → Option Stored → Option Bytes → Type 0
  HasReason f entry part =
      (entry ≡ none)
      ⊎ ((stored : Stored) × (entry ≡ some stored) × (IsDescribed f stored → ⊥))
      ⊎ ((stored : Stored) × (path : String) × (entry ≡ some stored)
          × (stored.final_path ≡ some path)
          × IsLost f path)
      ⊎ ((stored : Stored) × (entry ≡ some stored)
          × (stored.final_path ≡ none)
          × ((part ≡ none)
              ⊎ ((content : Bytes) × (part ≡ some content) × (f.size < length content))))

  abbrev pub IsResumed : IncomingFile → Option Stored → Option Bytes → ResumeFileState → Type 0
  IsResumed f entry part state =
      IsFinished f entry state
      ⊎ IsContinued f entry part state
      ⊎ (HasReason f entry part × (state ≡ open_at f 0))

  prepare_partial-IsResumed :
      (f : IncomingFile) (stored : Stored) (part : Option Bytes) (dir : SessionDir)
      → IsDescribed f stored
      → stored.final_path ≡ none
      → IsResumed f (some stored) part (prepare_partial f part dir).0
  unfolding prepare_partial
  prepare_partial-IsResumed f stored none dir described open' =
      inr (inr (inr (inr (inr (stored, refl, open', inl refl))), refl))
  prepare_partial-IsResumed f stored (some content) dir described open' =
      elim (Bool-cases (ltb f.size (length content))) [
        | inl long ↦ rw long (
            inr (
              inr (inr (inr (inr (stored, refl, open', inr (content, refl, ground arith)))), refl)))
        | inr fits ↦ rw fits (
            inr (
              inl (record {
                stored = stored;
                recorded = refl;
                described = described;
                unfinished = open';
                content = content;
                part_is = refl;
                fits = ground arith;
                is_state = refl;
              })))
      ]

  -- The three tests of a received file.
  is_final-cases :
      (f : IncomingFile) (path : String)
      → ((content : Bytes) × (is_inside (resolve path) ≡ true)
          × (lookup (resolve path) received ≡ some content)
          × (length content ≡ f.size)
          × (c.hexdigest content ≡ f.sha256)
          × (is_final c resolve is_inside received f (resolve path) (lookup (resolve path) received)
              ≡ true))
        ⊎ (IsLost f path
            × (is_final c resolve is_inside received f
                  (resolve path)
                  (lookup (resolve path) received)
                ≡ false))
  unfolding is_final
  is_final-cases f path = elim (Option-cases (lookup (resolve path) received)) [
    | inl gone ↦ inr (inr (inl gone), rw gone refl)
    | inr (content, there) ↦ elim (Bool-cases (is_inside (resolve path))) [
      | inr outside ↦ inr (inl outside, rw (there, outside) refl)
      | inl inside ↦ elim (Bool-cases (length content == f.size)) [
        | inr other ↦ inr (
          inr (
              inr
                (content, there, inl (λ same. ground (arith, nat_eq_iff (length content) f.size)))),
          rw (there, inside, other) refl,
        )
        | inl sized ↦ elim (Bool-cases (c.hexdigest content == f.sha256)) [
          | inr other ↦ inr (
            inr (
                inr (
                  content,
                  there,
                  inr (λ same. ground (arith, eq_iff (c.hexdigest content) f.sha256)),
                )),
            rw (there, inside, sized, other) refl,
          )
          | inl hashed ↦ inl (
            content,
            inside,
            there,
            (nat_eq_iff (length content) f.size).0 sized,
            (eq_iff (c.hexdigest content) f.sha256).0 hashed,
            rw (there, inside, sized, hashed) refl,
          )
        ]
      ]
    ]
  ]

  prepare_known-IsResumed :
      (f : IncomingFile) (stored : Stored) (o : Option String) (dir : SessionDir)
      → IsDescribed f stored
      → stored.final_path ≡ o
      → IsResumed f
          (some stored)
          (lookup f.file_id dir.parts)
          (prepare_known c resolve is_inside received f o dir).0
  unfolding prepare_known prepare_final
  prepare_known-IsResumed f stored none dir described open' =
      prepare_partial-IsResumed f stored (lookup f.file_id dir.parts) dir described open'
  prepare_known-IsResumed f stored (some path) dir described given = elim (is_final-cases f path) [
    | inl (content, inside, there, sized, hashed, whole) ↦ rw whole (
        inl (record {
          stored = stored;
          recorded = refl;
          described = described;
          path = path;
          given = given;
          content = content;
          inside = inside;
          there = there;
          size = sized;
          hash = hashed;
          is_state = refl;
        }))
    | inr (lost, gone) ↦
        rw gone (inr (inr (inr (inr (inl (stored, path, refl, given, lost))), refl)))
  ]

  is_same_file-IsDescribed :
      (f : IncomingFile) (stored : Stored) → is_same_file f stored ≡ true → IsDescribed f stored
  unfolding is_same_file
  is_same_file-IsDescribed f stored h = record {
    name = (eq_iff stored.name f.name).0 (ground arith);
    size = (nat_eq_iff stored.size f.size).0 (ground arith);
    sha256 = (eq_iff stored.sha256 f.sha256).0 (ground arith);
  }

  undescribed :
      (f : IncomingFile) (stored : Stored)
      → is_same_file f stored ≡ false
      → IsDescribed f stored
      → ⊥
  unfolding is_same_file
  undescribed f stored h d = ground (
    arith,
    (eq_iff stored.name f.name).1 d.name,
    (nat_eq_iff stored.size f.size).1 d.size,
    (eq_iff stored.sha256 f.sha256).1 d.sha256,
  )

  pub prepare_file-IsResumed :
      (f : IncomingFile) (entry : Option Stored) (dir : SessionDir)
      → IsResumed f entry
          (lookup f.file_id dir.parts)
          (prepare_file c resolve is_inside received f entry dir).0
  unfolding prepare_file
  prepare_file-IsResumed f none dir = inr (inr (inl refl, refl))
  prepare_file-IsResumed f (some stored) dir = elim (Bool-cases (is_same_file f stored)) [
    | inr other ↦ rw other (inr (inr (inr (inl (stored, refl, undescribed f stored other)), refl)))
    | inl same ↦ rw same (
        prepare_known-IsResumed f stored stored.final_path dir
          (is_same_file-IsDescribed f stored same) refl)
  ]
