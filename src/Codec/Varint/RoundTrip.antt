-- ===== src/Codec/Varint/RoundTrip.antt =====
-- Round trips between `put_varint` and `parse_varint`.
use mathlib.Core.WellFounded.{Acc}
use native.Mathlib.Nat.{div-add-mod, pow-suc}
use native.Mathlib.Numerals.{towards_suc}
use quic_sync.Base.{
  ℕ, zero, suc, ◌+◌, ◌*◌, ◌/◌, ◌%◌, ◌^◌, ◌<◌, ◌≤◌, [], ◌∷◌, ◌++◌, append_assoc, length, All, ltb,
  if◌then◌else◌, ok, arith, lt_wf, ◌≡◌, refl, false, ltb→lt, ltb→ge, Bool-cases, inl, inr, ap, ◌∙◌,
}
use quic_sync.Base.Words.{Bytes, IsByte, IsU64}
use quic_sync.Codec.Varint.{put_loop, put_varint, parse_loop, parse_varint}

-- The groups of seven bits of a number below 128 ^ (k + 1), the lowest first.
unfoldable pub groups : ℕ → ℕ → Bytes
groups zero v = v ∷ []
groups (suc k) v =
    let rest = groups k (v / 128) in if ltb v 128 then v ∷ [] else (v % 128 + 128) ∷ rest

put_loop-groups :
    (k v : ℕ) (w : Acc ◌<◌ v) (output : Bytes)
    → v < 2 * 128 ^ k
    → put_loop v w output ≡ output ++ groups k v
unfolding put_loop groups
put_loop-groups zero v (Acc.intro _ smaller) output h = ground arith
put_loop-groups (suc k) v (Acc.intro _ smaller) output h = grind (
  arith,
  pow-suc 128 k,
  λ (w : Acc ◌<◌ (v / 128)). put_loop-groups k (v / 128) w (output ++ ((v % 128 + 128) ∷ [])),
  append_assoc output ((v % 128 + 128) ∷ []) (groups k (v / 128)),
)

pub put_varint-groups :
    (v : ℕ) (output : Bytes) → IsU64 v → put_varint v output ≡ output ++ groups 9 v
unfolding put_varint
put_varint-groups v output h = put_loop-groups 9 v (lt_wf.apply v) output (omega arith)

seven_more : (s : ℕ) → 2 ^ (s + 7) ≡ 128 * 2 ^ s
seven_more s = simp towards_suc (omega arith)

shift_seven : (i : ℕ) → 2 ^ ((i + 1) * 7) ≡ 128 * 2 ^ (i * 7)
shift_seven i =
    ap (λ (n : ℕ). 2 ^ n) {x = (i + 1) * 7} {y = i * 7 + 7} (omega arith) ∙ seven_more (i * 7)

-- A number is its lowest group and the rest, both moved to their places.
split_groups : (v i : ℕ) → v * 2 ^ (i * 7) ≡ v % 128 * 2 ^ (i * 7) + v / 128 * 2 ^ ((i + 1) * 7)
split_groups v i = omega (
  arith,
  ap (λ (t : ℕ). t * 2 ^ (i * 7)) (div-add-mod v 128),
  ap (λ (t : ℕ). v / 128 * t) (shift_seven i),
)

parse_loop-groups :
    (k i v value len : ℕ) (rest : Bytes)
    → i + k ≡ 9
    → v < 2 * 128 ^ k
    → (0 < i → 0 < v)
    → parse_loop len i value (groups k v ++ rest)
      ≡ ok (value + v * 2 ^ (i * 7), i + length (groups k v))
unfolding parse_loop groups
parse_loop-groups zero i v value len rest hi hv pos = ground (arith, pos)
parse_loop-groups (suc k) i v value len rest hi hv pos = ground (
  arith,
  pos,
  split_groups v i,
  pow-suc 128 k,
  parse_loop-groups k (i + 1) (v / 128) (value + v % 128 * 2 ^ (i * 7)) len rest,
)

-- A `u64` is read back from what `put_varint` wrote for it, whatever follows, with the number of
-- bytes that were written.
pub parse_varint-put_varint :
    (v : ℕ) (rest : Bytes)
    → IsU64 v
    → parse_varint (put_varint v [] ++ rest) ≡ ok (v, length (put_varint v []))
unfolding parse_varint
parse_varint-put_varint v rest h =
    rw (put_varint-groups v [] h)
      (ground (arith, parse_loop-groups 9 0 v 0 (length (groups 9 v ++ rest)) rest))

-- What the loop of `parse_varint` accepts is the encoding of some number, and of one only.
one_le_pow : (k : ℕ) → 1 ≤ 128 ^ k
one_le_pow zero = omega arith
one_le_pow (suc k) = omega (arith, one_le_pow k, pow-suc 128 k)

record Canonical (i value r n : ℕ) (input : Bytes) (k : ℕ) : Type 0 where
  number : ℕ
  rest : Bytes
  input_eq : input ≡ groups k number ++ rest
  value_eq : r ≡ value + number * 2 ^ (i * 7)
  taken : n ≡ i + length (groups k number)
  small : number < 2 * 128 ^ k
  positive : 0 < i → 0 < number

-- A byte with the top bit set in front of an accepted input.
Canonical-cons :
    (k i value r n b : ℕ) (bs : Bytes)
    → i + suc k ≡ 9
    → 128 ≤ b
    → b < 256
    → Canonical (i + 1) (value + b % 128 * 2 ^ (i * 7)) r n bs k
    → Canonical i value r n (b ∷ bs) (suc k)
unfolding groups
Canonical-cons k i value r n b bs hi top byte c =
    let v : ℕ = b % 128 + 128 * c.number in
    let q : v / 128 ≡ c.number = omega arith in
    let m : v % 128 + 128 ≡ b = omega arith in
    let big : ltb v 128 ≡ false = ground (arith, c.positive (omega arith)) in
    record {
      number = v;
      rest = c.rest;
      input_eq = rw (big, q, m) (ap (λ (l : Bytes). b ∷ l) c.input_eq);
      value_eq = omega (arith, c.value_eq, ap (λ (t : ℕ). c.number * t) (shift_seven i));
      taken = rw (big, q) (omega (arith, c.taken));
      small = omega (arith, c.small, pow-suc 128 k);
      positive = λ _. omega (arith, c.positive (omega arith));
    }

parse_loop-Canonical :
    (k i value len r n : ℕ) (input : Bytes)
    → i + k ≡ 9
    → All IsByte input
    → parse_loop len i value input ≡ ok (r, n)
    → Canonical i value r n input k
unfolding parse_loop groups
parse_loop-Canonical k i value len r n [] hi bytes e = absurd (ground arith)
parse_loop-Canonical zero i value len r n (b ∷ bs) hi bytes e = record {
  number = b;
  rest = bs;
  input_eq = refl;
  value_eq = ground arith;
  taken = ground arith;
  small = ground arith;
  positive = ground arith;
}
parse_loop-Canonical (suc k) i value len r n (b ∷ bs) hi bytes e = elim (Bool-cases (ltb b 128)) [
  | inl last ↦ record {
    number = b;
    rest = bs;
    input_eq = rw last;
    value_eq = ground arith;
    taken = ground arith;
    small = omega (arith, ltb→lt b 128 last, pow-suc 128 k, one_le_pow k);
    positive = ground arith;
  }
  | inr more ↦ Canonical-cons k i value r n b bs hi (ltb→ge b 128 more) bytes.0 (
      parse_loop-Canonical k (i + 1) (value + b % 128 * 2 ^ (i * 7)) len r n bs (omega arith)
        bytes.1 (ground arith))
]

-- Whatever `parse_varint` accepts starts with exactly what `put_varint` writes for the number read,
-- which is a `u64`: every number has one encoding.
pub put_varint-parse_varint :
    (input : Bytes) (v n : ℕ)
    → All IsByte input
    → parse_varint input ≡ ok (v, n)
    → IsU64 v
      × ((rest : Bytes) × (input ≡ put_varint v [] ++ rest))
      × (n ≡ length (put_varint v []))
unfolding parse_varint
put_varint-parse_varint input v n bytes e =
    let c = parse_loop-Canonical 9 0 0 (length input) v n input (omega arith) bytes e in
    let same : v ≡ c.number = omega (arith, c.value_eq) in
    let fits : IsU64 v = omega (arith, c.small) in
    let form : put_varint v [] ≡ groups 9 c.number =
      put_varint-groups v [] fits ∙ ap (groups 9) same in
    (fits, (c.rest, rw form c.input_eq), rw form (omega (arith, c.taken)))
