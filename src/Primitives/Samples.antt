-- ===== src/Primitives/Samples.antt =====
-- Concrete functions with the documented laws of the primitives, for the tests: base64 becomes one
-- character for a byte, a public key the first byte of the private key, and a signature the first
-- byte of its key.
use Prim.Native.Nat.{Ordering, compare}
use Prim.Native.Char.{Char, char, code, IsScalar}
use Prim.Native.String.{[] as empty, ◌∷◌ as char_and}
use text.Mathlib.TextLemmas.{length-cons, length-nil}
use mesh_direct.Prelude.{
  ℕ, zero, suc, ◌+◌, ◌%◌, ◌≡◌, ◌<◌, refl, ap, String, true, [], ◌∷◌, length, ◌==◌, eq_nat,
  if◌then◌else◌, Bool-cases, inl, inr, arith,
}
use mesh_direct.Prelude.Python.{Result, ok, ◌>>=◌}
use mesh_direct.Protocol.Text.{count_chars, all_chars, is_hex}
use mesh_direct.Frame.{Bytes}
use mesh_direct.Primitives.{Primitives, IsSound, IsBytes}

pub small-IsScalar : (n : ℕ) → n < 256 → IsScalar n
small-IsScalar n h = let below : compare n 55296 ≡ Ordering.lt = ground arith in rw below tt

unfoldable pub byte_char : ℕ → Char
byte_char b = char (b % 256) (small-IsScalar (b % 256) (omega arith))

unfoldable pub encode : Bytes → String
unfolding byte_char
encode [] = empty
encode (b ∷ bs) = char_and (byte_char b) (encode bs)

unfoldable pub decode : String → Result Bytes
decode empty = ok []
decode (char_and x s) = do rest ← decode s; ok (code x ∷ rest)

decode-encode : (raw : Bytes) → IsBytes raw → decode (encode raw) ≡ ok raw
unfolding decode encode byte_char
decode-encode [] h = refl
decode-encode (b ∷ bs) h = rw (decode-encode bs h.1) (ap (λ n. ok (n ∷ bs)) (omega (arith, h.0)))

count-encode : (raw : Bytes) → count_chars (encode raw) ≡ length raw
unfolding encode
count-encode [] = length-nil
count-encode (b ∷ bs) = omega (arith, length-cons (byte_char b) (encode bs), count-encode bs)

abbrev first : Bytes → ℕ
first [] = 0
first (b ∷ bs) = b

abbrev zeros : ℕ → Bytes
zeros zero = []
zeros (suc n) = 0 ∷ zeros n

zeros-IsBytes : (n : ℕ) → IsBytes (zeros n)
zeros-IsBytes zero = tt
zeros-IsBytes (suc n) = (omega arith, zeros-IsBytes n)

-- the first byte of a key, alone among zeros
abbrev pub short_key : Bytes → Bytes
short_key key = first key % 256 ∷ zeros 31

abbrev digits : Bytes → String
digits raw =
    if first raw == 7
    then "7777777777777777777777777777777777777777777777777777777777777777"
    else "0000000000000000000000000000000000000000000000000000000000000000"

count-digits : (raw : Bytes) → count_chars (digits raw) ≡ 64
count-digits raw = elim (Bool-cases (first raw == 7)) [
  | inl seven ↦ rw seven refl
  | inr other ↦ rw other refl
]

digits-hex : (raw : Bytes) → all_chars is_hex (digits raw) ≡ true
digits-hex raw = elim (Bool-cases (first raw == 7)) [
  | inl seven ↦ rw seven refl
  | inr other ↦ rw other refl
]

abbrev pub samples : Primitives
samples = record {
  b64encode = encode;
  b64decode = decode;
  sha256 = λ raw. raw;
  hexdigest = digits;
  hkdf = λ salt info secret. first secret ∷ zeros 31;
  upper = λ s. s;
  is_printable = λ s. true;
  identity_public = short_key;
  sign = λ key data'. first key % 256 ∷ zeros 63;
  verify = λ public signature data'. first public == first signature;
  ephemeral_public = short_key;
  exchange = λ key public. ok ((first key % 256 + first public) ∷ []);
}

pub samples-IsSound : IsSound samples
samples-IsSound = record {
  decode-encode = decode-encode;
  count-encode_32 = λ raw n. omega (arith, count-encode raw, n);
  count-encode_64 = λ raw n. omega (arith, count-encode raw, n);
  count-hexdigest = count-digits;
  hexdigest-hex = digits-hex;
  length-hkdf = λ salt info secret. refl;
  length-identity_public = λ key. refl;
  identity_public-IsBytes = λ key. (omega arith, zeros-IsBytes 31);
  length-sign = λ key data'. refl;
  sign-IsBytes = λ key data'. (omega arith, zeros-IsBytes 63);
  verify-sign = λ key data'. ground arith;
  length-ephemeral_public = λ key. refl;
  ephemeral_public-IsBytes = λ key. (omega arith, zeros-IsBytes 31);
  exchange-comm =
      λ a b. ((first a % 256 + first b % 256) ∷ [], refl, ap (λ n. ok (n ∷ [])) (omega arith));
}
