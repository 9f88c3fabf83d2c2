-- ===== src/Protocol/Text.antt =====
-- The texts of core/protocol.py, walked character by character.
use Prim.Native.Char.{code}
use Prim.Native.String.{[], ◌∷◌, len, count}
use text.Mathlib.TextLemmas.{length-cons, length-nil}
use mesh_direct.Prelude.{
  ℕ, zero, suc, String, Bool, true, false, ◌&&◌, ◌||◌, leb, ◌==◌, eq_nat, ◌≡◌, ◌≤◌, refl, ap, ◌∙◌,
  arith,
}

-- `len(s)` and `len(s.encode("utf-8"))`
abbrev pub count_chars : String → ℕ
count_chars = count

abbrev pub count_bytes : String → ℕ
count_bytes = len

abbrev pub all_chars : (ℕ → Bool) → String → Bool
all_chars p [] = true
all_chars p (c ∷ s) = p (code c) && all_chars p s

abbrev pub any_char : (ℕ → Bool) → String → Bool
any_char p [] = false
any_char p (c ∷ s) = p (code c) || any_char p s

-- 0-9 and a-f
abbrev pub is_hex : ℕ → Bool
is_hex c = leb b'0' c && leb c b'9' || leb b'a' c && leb c b'f'

-- A-Z, a-z, 0-9, _ and -
abbrev pub is_file_id_char : ℕ → Bool
is_file_id_char c =
    leb b'A' c && leb c b'Z'
    || leb b'a' c && leb c b'z'
    || leb b'0' c && leb c b'9'
    || c == b'_'
    || c == b'-'

-- `value != value.rstrip(" .")`
unfoldable pub ends_in_dot_or_space : String → Bool
ends_in_dot_or_space [] = false
ends_in_dot_or_space (c ∷ []) = code c == b' ' || code c == b'.'
ends_in_dot_or_space (c ∷ d ∷ s) = ends_in_dot_or_space (d ∷ s)

-- `s[:n]`
unfoldable pub prefix : ℕ → String → String
prefix zero s = []
prefix (suc n) [] = []
prefix (suc n) (c ∷ s) = c ∷ prefix n s

pub count_chars-prefix-le : (n : ℕ) (s : String) → count_chars (prefix n s) ≤ n
unfolding prefix
count_chars-prefix-le zero s = omega (arith, length-nil)
count_chars-prefix-le (suc n) [] = omega (arith, length-nil)
count_chars-prefix-le (suc n) (c ∷ s) =
    omega (arith, length-cons c (prefix n s), count_chars-prefix-le n s)

pub all_chars-prefix :
    (p : ℕ → Bool) (n : ℕ) (s : String) → all_chars p s ≡ true → all_chars p (prefix n s) ≡ true
unfolding prefix
all_chars-prefix p zero s h = refl
all_chars-prefix p (suc n) [] h = refl
all_chars-prefix p (suc n) (c ∷ s) h = ground (arith, all_chars-prefix p n s)

pub count_chars-prefix : (n : ℕ) (s : String) → n ≤ count_chars s → count_chars (prefix n s) ≡ n
unfolding prefix
count_chars-prefix zero s h = refl
count_chars-prefix (suc n) [] h = absurd (omega arith)
count_chars-prefix (suc n) (c ∷ s) h =
    length-cons c (prefix n s) ∙ ap suc (count_chars-prefix n s (omega (arith, length-cons c s)))

-- A first part that is empty was taken of an empty text.
pub count_chars-prefix-zero :
    (n : ℕ) (s : String) → count_chars (prefix (suc n) s) ≡ 0 → count_chars s ≡ 0
unfolding prefix
count_chars-prefix-zero n [] h = h
count_chars-prefix-zero n (c ∷ s) h = absurd (omega (arith, h, length-cons c (prefix n s)))
