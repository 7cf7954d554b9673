-- ===== src/Storage.antt =====
-- `SafeSegment` of internal/storage/storage.go. A text is a list of code points; `hash` is the sum that
-- hash/fnv computes over the name.
pub mod Segment
mod Tests
use rtail.Base.{
  ℕ, zero, suc, ◌+◌, ◌-◌, ◌*◌, ◌/◌, ◌%◌, ◌^◌, Bool, true, false, ◌&&◌, ◌||◌, List, [], ◌∷◌, ◌++◌,
  arith, ltb, leb, ◌==◌, if◌then◌else◌, length, take, codes, bytes_eq, Bytes,
}

unfoldable pub max_segment : ℕ
max_segment = 128

-- a to z, A to Z, 0 to 9, and - _ .
unfoldable pub kept_rune : ℕ → Bool
kept_rune r =
    leb 97 r && leb r 122
    || leb 65 r && leb r 90
    || leb 48 r && leb r 57
    || (r == 45 || (r == 95 || r == 46))

unfoldable pub replaced : Bytes → Bytes
unfolding kept_rune
replaced [] = []
replaced (r ∷ rs) = (if kept_rune r then r else 95) ∷ replaced rs

-- `%0*x`, for a number below 16 ^ digits
unfoldable pub hex : ℕ → ℕ → Bytes
hex zero n = []
hex (suc digits) n =
    let nibble = n / 16 ^ digits % 16 in
    (if ltb nibble 10 then 48 + nibble else 87 + nibble) ∷ hex digits n

unfoldable pub capped : ℕ → Bytes → Bytes
unfolding max_segment hex
capped sum out =
    if ltb max_segment (length out) then take (max_segment - 9) out ++ 45 ∷ hex 8 sum else out

unfoldable pub safe_segment : (Bytes → ℕ) → Bytes → Bytes
unfolding replaced capped
safe_segment hash [] = codes "_unnamed"
safe_segment hash (r ∷ rs) =
    let out = replaced (r ∷ rs) in
    if bytes_eq out (codes ".") || bytes_eq out (codes "..")
    then 95 ∷ out
    else capped (hash (r ∷ rs) % 2 ^ 32) out
