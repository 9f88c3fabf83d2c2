-- ===== src/Protocol/Names.antt =====
-- core/protocol.py: what a file name is that `sanitize_filename` accepts.
use mesh_direct.Prelude.{
  ℕ, ◌≡◌, ◌≢◌, ◌≤◌, String, Bool, true, false, ◌||◌, arith, eq_iff, ◌==◌, eq_string, eq_nat,
}
use mesh_direct.Prelude.Python.{ok}
use mesh_direct.Protocol.{FileNames, sanitize_filename}
use mesh_direct.Protocol.Text.{count_chars, count_bytes, any_char, ends_in_dot_or_space}

abbrev pub is_separator : ℕ → Bool
is_separator c = c == b'/' || c == b'\\'

-- A name of one component, which cannot lead out of the directory that it is joined to.
pub record IsSafeName (names : FileNames) (s : String) : Type 0 where
  pub some_chars : 1 ≤ count_chars s
  pub few_chars : count_chars s ≤ 255
  pub few_bytes : count_bytes s ≤ 255
  pub printable : names.is_printable s ≡ true
  pub no_separator : any_char is_separator s ≡ false
  pub no_dot : s ≢ "."
  pub no_dots : s ≢ ".."
  pub plain_end : ends_in_dot_or_space s ≡ false
  pub not_reserved : names.is_reserved s ≡ false

-- Where the last component of a Windows path holds no separator, a file name that
-- `sanitize_filename` accepts is returned unchanged and is a safe name: 1 to 255 characters and at
-- most 255 bytes, printable, without a separator, not `.` or `..`, not ending in a dot or a space,
-- and not reserved.
pub sanitize_filename-IsSafeName :
    (names : FileNames)
    → ((s : String) → any_char is_separator (names.windows_name s) ≡ false)
    → (s t : String) → sanitize_filename names s ≡ ok t
    → (t ≡ s) × IsSafeName names t
unfolding sanitize_filename
sanitize_filename-IsSafeName names last s t h =
    let same : t ≡ s = ground arith in
    let whole : names.windows_name s ≡ s = ground (arith, eq_iff (names.windows_name s) s) in
    (
      same,
      rw same (record {
        some_chars = ground arith;
        few_chars = ground arith;
        few_bytes = ground arith;
        printable = ground arith;
        no_separator = cc (whole, last s);
        no_dot = ground (arith, eq_iff s ".");
        no_dots = ground (arith, eq_iff s "..");
        plain_end = ground arith;
        not_reserved = ground arith;
      }),
    )
