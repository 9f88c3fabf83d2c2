-- ===== src/Transfer/Writes.antt =====
-- core/transfer.py: a chunk that is written behind the first part of a file makes it longer.
use mathlib.Core.List.{append-nil, append_assoc}
use mesh_direct.Prelude.{
  ℕ, zero, suc, ◌+◌, ◌-◌, ◌≡◌, ◌≤◌, refl, sym, ◌∙◌, ap, [], ◌∷◌, ◌++◌, length, take, drop, arith,
  length-take, length-drop, length-append, nil_of_length-zero, take_nil, drop_nil, take-append-drop,
  take-append_length, drop-append_length,
}
use mesh_direct.Frame.{Bytes}
use mesh_direct.Transfer.{write_at, zeros}

the_suc : (m n : ℕ) → suc m + n ≡ suc (m + n)
the_suc m n = omega arith

take_add : (m n : ℕ) (xs : Bytes) → take (m + n) xs ≡ take m xs ++ take n (drop m xs)
take_add zero n xs = ap (λ k. take k xs) (omega arith)
take_add (suc m) n [] = take_nil (suc m + n) ∙ sym (take_nil n)
take_add (suc m) n (x ∷ xs) = ap (λ k. take k (x ∷ xs)) (the_suc m n) ∙ ap (◌∷◌ x) (take_add m n xs)

pub take-length_of_take : (n : ℕ) (xs : Bytes) → take (length (take n xs)) xs ≡ take n xs
take-length_of_take zero xs = refl
take-length_of_take (suc n) [] = refl
take-length_of_take (suc n) (x ∷ xs) = ap (◌∷◌ x) (take-length_of_take n xs)

pub take_all : (n : ℕ) (xs : Bytes) → length xs ≤ n → take n xs ≡ xs
take_all zero xs h = sym (nil_of_length-zero xs (omega arith))
take_all (suc n) [] h = refl
take_all (suc n) (x ∷ xs) h = ap (◌∷◌ x) (take_all n xs (omega arith))

drop_all : (n : ℕ) (xs : Bytes) → length xs ≤ n → drop n xs ≡ []
drop_all n xs h = nil_of_length-zero (drop n xs) (omega (arith, length-drop n xs))

length-zeros : (n : ℕ) → length (zeros n) ≡ n
length-zeros zero = refl
length-zeros (suc n) = omega (arith, length-zeros n)

-- A write at the end appends.
write_at_end :
    (position : ℕ) (raw xs : Bytes) → length xs ≡ position → write_at position raw xs ≡ xs ++ raw
unfolding write_at
write_at_end position raw xs h =
    let fits : position - length xs ≡ 0 = omega arith in
    let no_gap : zeros (position - length xs) ≡ [] = ap zeros fits in
    rw
      (
        no_gap,
        append-nil xs,
        take_all position xs (omega (arith, h)),
        drop_all (position + length raw) xs (omega (arith, h)),
        append-nil (xs ++ raw),
      )
      refl

-- The next chunk of a source, written behind what is there of it.
pub write_at-take :
    (position n : ℕ) (source : Bytes)
    → position ≤ length source
    → write_at position (take n (drop position source)) (take position source)
      ≡ take (position + length (take n (drop position source))) source
write_at-take position n source h =
    write_at_end position (take n (drop position source)) (take position source)
      (omega (arith, length-take position source))
    ∙ ap (λ raw. take position source ++ raw) (sym (take-length_of_take n (drop position source)))
    ∙ sym (take_add position (length (take n (drop position source))) source)

-- A write never makes a file longer than its own end, or than it was.
pub length-write_at :
    (position : ℕ) (raw xs : Bytes) (bound : ℕ)
    → position + length raw ≤ bound
    → length xs ≤ bound
    → length (write_at position raw xs) ≤ bound
unfolding write_at
length-write_at position raw xs bound fits short = omega (
  arith,
  length-append (take position (xs ++ zeros (position - length xs)) ++ raw)
      (drop (position + length raw) xs),
  length-append (take position (xs ++ zeros (position - length xs))) raw,
  length-take position (xs ++ zeros (position - length xs)),
  length-drop (position + length raw) xs,
)

drop_add : (m n : ℕ) (xs : Bytes) → drop (m + n) xs ≡ drop n (drop m xs)
drop_add zero n xs = ap (λ k. drop k xs) (omega arith)
drop_add (suc m) n [] = drop_nil (suc m + n) ∙ sym (drop_nil n)
drop_add (suc m) n (x ∷ xs) = ap (λ k. drop k (x ∷ xs)) (the_suc m n) ∙ drop_add m n xs

-- A write that leaves no gap.
write_at_within :
    (position : ℕ) (raw xs : Bytes)
    → position ≤ length xs
    → write_at position raw xs ≡ take position xs ++ raw ++ drop (position + length raw) xs
unfolding write_at
write_at_within position raw xs h =
    let fits : position - length xs ≡ 0 = omega arith in
    let no_gap : zeros (position - length xs) ≡ [] = ap zeros fits in
    rw (no_gap, append-nil xs) refl

pub write_at_nothing :
    (position : ℕ) (xs : Bytes) → position ≤ length xs → write_at position [] xs ≡ xs
write_at_nothing position xs h =
    let same : position + 0 ≡ position = omega arith in
    write_at_within position [] xs h
    ∙ ap (λ ys. ys ++ drop (position + 0) xs) (append-nil (take position xs))
    ∙ ap (λ k. take position xs ++ drop k xs) same
    ∙ take-append-drop position xs

length-first :
    (position : ℕ) (raw xs : Bytes)
    → position ≤ length xs
    → length (take position xs ++ raw) ≡ position + length raw
length-first position raw xs h =
    omega (arith, length-append (take position xs) raw, length-take position xs)

-- what a write leaves up to its end, and behind it
take-write_at :
    (position : ℕ) (raw xs : Bytes)
    → position ≤ length xs
    → take (position + length raw) (write_at position raw xs) ≡ take position xs ++ raw
take-write_at position raw xs h =
    let first = take position xs ++ raw in
    let behind = drop (position + length raw) xs in
    ap (take (position + length raw)) (write_at_within position raw xs h)
    ∙ ap (λ k. take k (first ++ behind)) (sym (length-first position raw xs h))
    ∙ take-append_length first behind

drop-write_at :
    (position : ℕ) (raw xs : Bytes)
    → position ≤ length xs
    → drop (position + length raw) (write_at position raw xs) ≡ drop (position + length raw) xs
drop-write_at position raw xs h =
    let first = take position xs ++ raw in
    let behind = drop (position + length raw) xs in
    ap (drop (position + length raw)) (write_at_within position raw xs h)
    ∙ ap (λ k. drop k (first ++ behind)) (sym (length-first position raw xs h))
    ∙ drop-append_length first behind

pub length-write_at_ge :
    (position : ℕ) (raw xs : Bytes)
    → position ≤ length xs
    → position + length raw ≤ length (write_at position raw xs)
length-write_at_ge position raw xs h =
    let first = take position xs ++ raw in
    let behind = drop (position + length raw) xs in
    let counted : length (write_at position raw xs) ≡ length (first ++ behind) =
      ap length (write_at_within position raw xs h) in
    omega (arith, counted, length-append first behind, length-first position raw xs h)

-- Two writes, one behind the other, are one.
pub write_at-write_at :
    (position : ℕ) (raw more xs : Bytes)
    → position ≤ length xs
    → write_at (position + length raw) more (write_at position raw xs)
      ≡ write_at position (raw ++ more) xs
write_at-write_at position raw more xs h =
    let n = position + length raw in
    let once = write_at position raw xs in
    let end : n + length more ≡ position + length (raw ++ more) =
      omega (arith, length-append raw more) in
    write_at_within n more once (length-write_at_ge position raw xs h)
    ∙ ap (λ ys. ys ++ more ++ drop (n + length more) once) (take-write_at position raw xs h)
    ∙ ap (λ ys. take position xs ++ raw ++ more ++ ys)
        (drop_add n (length more) once
          ∙ ap (drop (length more)) (drop-write_at position raw xs h)
          ∙ sym (drop_add n (length more) xs))
    ∙ ap (λ ys. ys ++ drop (n + length more) xs) (append_assoc (take position xs) raw more)
    ∙ ap (λ k. take position xs ++ (raw ++ more) ++ drop k xs) end
    ∙ sym (write_at_within position (raw ++ more) xs h)
