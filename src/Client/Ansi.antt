-- ===== src/Client/Ansi.antt =====
-- `stripANSI` of internal/client/ansi.go. A suffix of the line stands for an index into it; the main
-- loop runs on fuel, one more than the number of bytes, and `none` means that the fuel is used up.
pub mod Pieces
use rtail.Base.{
  ℕ, zero, suc, ◌+◌, ◌-◌, ◌*◌, ◌/◌, ◌%◌, ◌^◌, ◌≤◌, ◌<◌, min, String, ◌≡◌, refl, sym, ap, ◌∙◌, ◌≢◌,
  ◌↔◌, ◌⊎◌, inl, inr, Bool, true, false, not, ◌&&◌, ◌||◌, Option, none, some, List, [], ◌∷◌, ◌++◌,
  map, append_assoc, append-nil, arith, ltb, leb, ◌==◌, if◌then◌else◌, ltb→lt, lt→ltb, ==_iff,
  Bool-cases, Option-cases, if_split, option_split, elim_split, length, get_elem?, set, take, drop,
  replicate, length-append, length-take, length-drop, length-replicate, take-append-drop,
  take-length, drop-length, take_all, Bytes, IsByte, codes, bytes_eq, bytes_eq_iff, All, All-append,
  All-take, All-drop,
}

abbrev pub esc : ℕ
esc = 0x1b

unfoldable pub contains_esc : Bytes → Bool
contains_esc [] = false
contains_esc (c ∷ s) = c == esc || contains_esc s

-- What stands behind the sequence, if one ends.
unfoldable pub scan_csi : Bytes → Option Bytes
scan_csi [] = none
scan_csi (c ∷ s) =
    let later = scan_csi s in
    if leb 0x20 c && leb c 0x3f then later else if leb 0x40 c && leb c 0x7e then some s else none

unfoldable pub scan_osc : Bytes → Option Bytes
scan_osc [] = none
scan_osc (c ∷ []) = if c == 0x07 then some [] else none
scan_osc (c ∷ d ∷ s) =
    let later = scan_osc (d ∷ s) in
    if c == 0x07 then some (d ∷ s) else if c == esc && d == b'\\' then some s else later

-- The `switch` on the byte behind an escape
unfoldable pub scan_sequence : ℕ → Bytes → Option Bytes
unfolding scan_csi scan_osc
scan_sequence d s = if d == b'[' then scan_csi s else if d == b']' then scan_osc s else none

unfoldable pub write_byte : ℕ → Option Bytes → Option Bytes
write_byte c none = none
write_byte c (some out) = some (c ∷ out)

unfoldable pub strip_from : ℕ → Bytes → Option Bytes
unfolding scan_sequence write_byte
strip_from zero s = none
strip_from (suc f) [] = some []
strip_from (suc f) (c ∷ []) = write_byte c (strip_from f [])
strip_from (suc f) (c ∷ d ∷ s) =
    let kept = write_byte c (strip_from f (d ∷ s)) in
    elim (c == esc) [
      | false ↦ kept
      | true ↦ elim (scan_sequence d s) [ none ↦ kept | some rest ↦ strip_from f rest ]
    ]

unfoldable pub strip_ansi : Bytes → Option Bytes
unfolding strip_from contains_esc
strip_ansi s = if not (contains_esc s) then some s else strip_from (length s + 1) s
