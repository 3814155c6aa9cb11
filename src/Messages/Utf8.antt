-- ===== src/Messages/Utf8.antt =====
-- `String::from_utf8` accepts exactly the well-formed byte sequences of the Unicode standard.
use quic_sync.Base.{
  ℕ, ◌-◌, Bool, false, ◌&&◌, Option, none, some, [], ◌∷◌, ltb, leb, ◌==◌, if◌then◌else◌,
}
use quic_sync.Base.Words.{Bytes}

-- How many continuation bytes are due, and the bounds of the next one.
record Due : Type 0 where
  count : ℕ
  low : ℕ
  high : ℕ

abbrev due : ℕ → ℕ → ℕ → Option Due
due n lo hi = some (record { count = n; low = lo; high = hi })

within : ℕ → ℕ → ℕ → Bool
within lo hi b = leb lo b && leb b hi

lead_byte : ℕ → Option Due
unfolding within
lead_byte b =
    if ltb b 0x80
    then due 0 0 0
    else if within 0xc2 0xdf b
    then due 1 0x80 0xbf
    else if b == 0xe0
    then due 2 0xa0 0xbf
    else if b == 0xed
    then due 2 0x80 0x9f
    else if within 0xe1 0xef b
    then due 2 0x80 0xbf
    else if b == 0xf0
    then due 3 0x90 0xbf
    else if b == 0xf4
    then due 3 0x80 0x8f
    else if within 0xf1 0xf3 b
    then due 3 0x80 0xbf
    else none

next_byte : Due → ℕ → Option Due
unfolding lead_byte
next_byte d b =
    if d.count == 0
    then lead_byte b
    else if within d.low d.high b
    then due (d.count - 1) 0x80 0xbf
    else none

is_utf8_from : Due → Bytes → Bool
unfolding next_byte
is_utf8_from d [] = d.count == 0
is_utf8_from d (b ∷ bs) = elim (next_byte d b) [ none ↦ false | some d' ↦ is_utf8_from d' bs ]

unfoldable pub is_utf8 : Bytes → Bool
unfolding is_utf8_from
is_utf8 = is_utf8_from (record { count = 0; low = 0; high = 0 })
