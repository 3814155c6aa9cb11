-- ===== src/Auth/Der/RoundTrip.antt =====
-- What `der` writes `der_value` reads.
use quic_sync.Base.{
  ℕ, zero, suc, ◌+◌, ◌*◌, ◌/◌, ◌%◌, ◌^◌, ◌≤◌, ◌<◌, ◌≡◌, ◌∙◌, refl, sym, ap, true, false, Option,
  none, some, [], ◌∷◌, ◌++◌, append_assoc, length, length-append, drop, take-append_length,
  drop-append_length, ltb, ◌==◌, ok, arith, Bool-cases, ltb→ge, ◌||◌, inl, inr, ◌⊎◌, Option-cases,
}
use mathlib.Core.Path.{subst}
use native.Mathlib.Nat.{pow-suc}
use quic_sync.Base.Words.{Bytes}
use quic_sync.Auth.Der.{
  split_at_checked, shift_in, read_length, starts_with_zero, long_length, der_value, to_be_bytes,
  first_nonzero, significant, der_length, der,
}

split_at_checked-append : (xs ys : Bytes) → split_at_checked (length xs) (xs ++ ys) ≡ some (xs, ys)
unfolding split_at_checked
split_at_checked-append xs ys =
    rw (split_at_checked, long_enough xs ys, take-append_length xs ys, drop-append_length xs ys)
      refl
  where
    long_enough : (xs ys : Bytes) → ltb (length (xs ++ ys)) (length xs) ≡ false
    long_enough xs ys = ground (arith, length-append xs ys)

shift_in_fits : (l b : ℕ) → l * 256 + b < 2 ^ 64 → shift_in l b ≡ some (l * 256 + b)
unfolding shift_in
shift_in_fits l b h = ground arith

read_length-append :
    (l n : ℕ) (xs ys : Bytes)
    → read_length l xs ≡ some n
    → read_length l (xs ++ ys) ≡ read_length n ys
unfolding read_length
read_length-append l n [] ys h = ap (λ m. read_length m ys) (ground arith)
read_length-append l n (x ∷ xs) ys h = elim (Option-cases (shift_in l x)) [
  | inl e ↦ ground (arith, e)
  | inr (m, e) ↦ rw (read_length, e) (read_length-append m n xs ys (rw (read_length, e) at h))
]

read_length-to_be_bytes :
    (count n : ℕ) → n < 256 ^ count → n < 2 ^ 64 → read_length 0 (to_be_bytes count n) ≡ some n
unfolding read_length to_be_bytes
read_length-to_be_bytes zero n h k = ap (λ (m : ℕ). some m) (omega arith)
read_length-to_be_bytes (suc count) n h k =
    let again =
      read_length-to_be_bytes count (n / 256) (omega (arith, pow-suc 256 count)) (omega arith) in
    read_length-append 0 (n / 256) (to_be_bytes count (n / 256)) (n % 256 ∷ []) again
    ∙ rw (read_length, shift_in_fits (n / 256) (n % 256) (omega arith))
        (ap (λ (m : ℕ). some m) (omega arith))

length-to_be_bytes : (count n : ℕ) → length (to_be_bytes count n) ≡ count
unfolding to_be_bytes
length-to_be_bytes zero n = refl
length-to_be_bytes (suc count) n = omega (
  arith,
  length-append (to_be_bytes count (n / 256)) (n % 256 ∷ []),
  length-to_be_bytes count (n / 256),
)

some-injective : {a b : ℕ} → some a ≡ some b → a ≡ b
some-injective h = cc

-- The bytes from the first one that is not zero on.
record IsSignificant (bs rest : Bytes) : Type 0 where
  nonempty : starts_with_zero rest ≡ false
  short : (1 ≤ length rest) × (length rest ≤ length bs)
  same : read_length 0 rest ≡ read_length 0 bs

nonzero-cases : (b : ℕ) → (b ≡ 0) ⊎ ((b == 0) ≡ false)
nonzero-cases b = ground arith

read_length_zero : (b : ℕ) (bs : Bytes) → b ≡ 0 → read_length 0 (b ∷ bs) ≡ read_length 0 bs
unfolding read_length
read_length_zero b bs e = rw (e, read_length, shift_in_fits 0 0 (omega arith)) refl

one_more : Option ℕ → Option ℕ
one_more o = elim o [ none ↦ none | some n ↦ some (suc n) ]

first_nonzero_zero :
    (b : ℕ) (bs : Bytes) → b ≡ 0 → first_nonzero (b ∷ bs) ≡ one_more (first_nonzero bs)
unfolding first_nonzero one_more
first_nonzero_zero b bs e = rw (e, first_nonzero) refl

zeros-read_length : (bs : Bytes) → first_nonzero bs ≡ none → read_length 0 bs ≡ some 0
unfolding first_nonzero read_length one_more
zeros-read_length [] h = refl
zeros-read_length (b ∷ bs) h = elim (nonzero-cases b) [
  | inr e ↦ absurd (cc (rw (first_nonzero, e) at h))
  | inl e ↦ elim (Option-cases (first_nonzero bs)) [
    | inl f ↦ read_length_zero b bs e ∙ zeros-read_length bs f
    | inr (m, f) ↦ let g = first_nonzero_zero b bs e ∙ ap one_more f in absurd (cc g)
  ]
]

drop_nonzero : (bs : Bytes) (n : ℕ) → first_nonzero bs ≡ some n → IsSignificant bs (drop n bs)
unfolding first_nonzero starts_with_zero one_more
drop_nonzero [] n h = cc
drop_nonzero (b ∷ bs) n h = elim (nonzero-cases b) [
  | inr e ↦
      subst (λ m. IsSignificant (b ∷ bs) (drop m (b ∷ bs)))
        (some-injective (rw (first_nonzero, e) at h))
        (record { nonempty = e; short = omega arith; same = refl })
  | inl e ↦ elim (Option-cases (first_nonzero bs)) [
    | inl f ↦ let g = first_nonzero_zero b bs e ∙ ap one_more f in absurd (cc g)
    | inr (m, f) ↦
        let later = drop_nonzero bs m f in
        let g = first_nonzero_zero b bs e ∙ ap one_more f in
        subst (λ m. IsSignificant (b ∷ bs) (drop m (b ∷ bs))) (some-injective (sym g ∙ h))
          (record {
            nonempty = later.nonempty;
            short = omega (arith, later.short);
            same = later.same ∙ sym (read_length_zero b bs e);
          })
  ]
]

significant-IsSignificant :
    (count n : ℕ)
    → 1 ≤ n
    → n < 256 ^ count
    → n < 2 ^ 64
    → IsSignificant (to_be_bytes count n) (significant (to_be_bytes count n))
unfolding significant
significant-IsSignificant count n pos h k =
    elim (Option-cases (first_nonzero (to_be_bytes count n))) [
      | inl f ↦
          let zero_read = zeros-read_length (to_be_bytes count n) f in
          let read = read_length-to_be_bytes count n h k in
          absurd (nonzero (some-injective (sym zero_read ∙ read)) pos)
      | inr (m, f) ↦ rw (significant, f) (drop_nonzero (to_be_bytes count n) m f)
    ]
  where
    nonzero : {n : ℕ} → 0 ≡ n → 1 ≤ n → ⊥
    nonzero e h = omega arith

long_length-significant :
    (n : ℕ) (more : Bytes)
    → 128 ≤ n
    → n < 2 ^ 64
    → let bytes = significant (to_be_bytes 8 n) in
      (length bytes ≤ 8) × (long_length (length bytes) (bytes ++ more) ≡ ok (n, more))
unfolding long_length
long_length-significant n more big small =
    let bytes = significant (to_be_bytes 8 n) in
    let s = significant-IsSignificant 8 n (omega arith) (omega arith) small in
    let short : length bytes ≤ 8 = omega (arith, s.short, length-to_be_bytes 8 n) in
    (
      short,
      rw
          (
            long_length,
            count_fits (length bytes) s.short.0 short,
            split_at_checked-append bytes more,
            s.nonempty,
            s.same ∙ read_length-to_be_bytes 8 n (omega arith) small,
            not_short big,
          )
          refl,
    )
  where
    count_fits : (k : ℕ) → 1 ≤ k → k ≤ 8 → (k == 0 || ltb 8 k) ≡ false
    count_fits k h h' = ground arith

    not_short : {n : ℕ} → 128 ≤ n → ltb n 128 ≡ false
    not_short h = ground arith

der_value_short :
    (tag n : ℕ) (value rest : Bytes)
    → length value ≡ n
    → ltb n 128 ≡ true
    → der_value (tag ∷ n ∷ (value ++ rest)) ≡ ok (tag, value, rest)
unfolding der_value
der_value_short tag n value rest same h =
    rw (der_value, h, ← same, split_at_checked-append value rest) refl

der_value_long :
    (tag k : ℕ) (encoded value rest : Bytes)
    → k ≤ 8
    → long_length k (encoded ++ (value ++ rest)) ≡ ok (length value, value ++ rest)
    → der_value (tag ∷ (128 + k) ∷ (encoded ++ (value ++ rest))) ≡ ok (tag, value, rest)
unfolding der_value
der_value_long tag k encoded value rest h read =
    rw (der_value, large k, low_bits k h, read, split_at_checked-append value rest) refl
  where
    large : (k : ℕ) → ltb (128 + k) 128 ≡ false
    large k = ground arith

    low_bits : (k : ℕ) → k ≤ 8 → (128 + k) % 128 ≡ k
    low_bits k h = omega arith

pub short_form : (n : ℕ) → ltb n 128 ≡ true → der_length n ≡ n ∷ []
unfolding der_length
short_form n e = rw (der_length, e) refl

long_form :
    (n : ℕ)
    → ltb n 128 ≡ false
    → let bytes = significant (to_be_bytes 8 n) in der_length n ≡ (128 + length bytes) ∷ bytes
unfolding der_length
long_form n e = rw (der_length, e) refl

-- `der_value` reads back what `der` writes, and leaves what follows, where the value is shorter
-- than 2 ^ 64 bytes.
pub der_value-der :
    (tag : ℕ) (value rest : Bytes)
    → length value < 2 ^ 64
    → der_value (der tag value ++ rest) ≡ ok (tag, value, rest)
unfolding der
der_value-der tag value rest h =
    ap (λ bs. der_value (tag ∷ bs)) (append_assoc (der_length (length value)) value rest)
    ∙ elim (Bool-cases (ltb (length value) 128)) [
      | inl e ↦
          ap (λ bs. der_value (tag ∷ (bs ++ (value ++ rest)))) (short_form (length value) e)
          ∙ der_value_short tag (length value) value rest refl e
      | inr e ↦
          let bytes = significant (to_be_bytes 8 (length value)) in
          let (short, read) =
            long_length-significant (length value) (value ++ rest) (ltb→ge (length value) 128 e)
              h in
          ap (λ bs. der_value (tag ∷ (bs ++ (value ++ rest)))) (long_form (length value) e)
          ∙ der_value_long tag (length bytes) bytes value rest short read
    ]
