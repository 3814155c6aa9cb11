-- ===== src/Error/Codes.antt =====
-- The text of an error code and its parser are inverse: error.rs.
use Prim.Native.String.{String}
use text.Mathlib.TextEquality.{eq_iff}
use quic_sync.Base.{◌≡◌, refl, some, List, [], ◌∷◌, ok, arith}
use quic_sync.Error.{ErrorCode, invalid_configuration, all_codes, as_str, find_code, from_str}

find_code-as_str :
    (cs : List ErrorCode) (s : String) (c : ErrorCode) → find_code cs s ≡ some c → as_str c ≡ s
unfolding find_code
find_code-as_str [] s c h = cc
find_code-as_str (x ∷ xs) s c h = ground (arith, eq_iff (as_str x) s, find_code-as_str xs s c)

-- Every code is read back from its text.
from_str-as_str : (c : ErrorCode) → from_str (as_str c) ≡ ok c
unfolding from_str find_code as_str
from_str-as_str invalid_configuration = refl
from_str-as_str _ = refl

from_str-eq-ok : (s : String) (c : ErrorCode) → from_str s ≡ ok c → as_str c ≡ s
unfolding from_str
from_str-eq-ok s c h = ground (arith, find_code-as_str all_codes s c)

-- A text is parsed to a code exactly where it is the text of that code.
pub from_str_iff :
    (s : String) (c : ErrorCode)
    → (from_str s ≡ ok c → as_str c ≡ s) × (as_str c ≡ s → from_str s ≡ ok c)
from_str_iff s c = (from_str-eq-ok s c, λ e. rw (← e) (from_str-as_str c))
