-- ===== src/Codec/Varint.antt =====
-- `put_varint` and `parse_varint`: a `u64` in groups of seven bits, the lowest first.
pub mod RoundTrip
use mathlib.Core.Logic.{dite}
use mathlib.Core.WellFounded.{Acc}
use native.Mathlib.Decide.{dec_lt}
use quic_sync.Base.{
  ℕ, suc, ◌+◌, ◌*◌, ◌/◌, ◌%◌, ◌^◌, ◌<◌, ◌&&◌, List, [], ◌∷◌, ◌++◌, length, ltb, leb, ◌==◌,
  if◌then◌else◌, ok, err, lt_wf, arith,
}
use quic_sync.Base.Words.{Bytes}
use quic_sync.Codec.{Coded, varint_overflow, noncanonical_varint, unexpected_eof, max_varint_bytes}

-- `value & 0x7f` is `value % 128`, `value >>= 7` is `value / 128`, and `byte |= 0x80` sets the top
-- bit of a byte below 128, so it adds 128. The loop goes on while the shifted value is not 0.
put_loop : (value : ℕ) → Acc ◌<◌ value → Bytes → Bytes
put_loop value (Acc.intro _ smaller) output =
    let byte = value % 128 in
    let value' = value / 128 in
    dite (dec_lt 0 value')
      (λ h. put_loop value' (smaller value' (omega arith)) (output ++ ((byte + 128) ∷ [])))
      (λ _. output ++ (byte ∷ []))

unfoldable pub put_varint : ℕ → Bytes → Bytes
unfolding put_loop lt_wf dec_lt
put_varint value output = put_loop value (lt_wf.apply value) output

-- What follows the loop of `parse_varint` over at most ten bytes of an input of this length.
abbrev unterminated : ℕ → Coded (ℕ × ℕ)
unterminated len = if leb max_varint_bytes len then err varint_overflow else err unexpected_eof

-- The groups do not overlap, so `value |= group << (index * 7)` is a sum. At index 9 the group is
-- at most 1, so no bit is shifted out of the `u64`.
unfoldable pub parse_loop : ℕ → ℕ → ℕ → Bytes → Coded (ℕ × ℕ)
parse_loop len index value [] = unterminated len
parse_loop len index value (byte ∷ rest) =
    let value' = value + byte % 128 * 2 ^ (index * 7) in
    let more = parse_loop len (index + 1) value' rest in
    if index == max_varint_bytes
    then unterminated len
    else if index == 9 && ltb 1 byte
    then err varint_overflow
    else if ltb byte 128
    then if ltb 0 index && byte == 0 then err noncanonical_varint else ok (value', index + 1)
    else more

-- The value and the number of bytes that it takes.
unfoldable pub parse_varint : Bytes → Coded (ℕ × ℕ)
unfolding parse_loop
parse_varint input = parse_loop (length input) 0 0 input
