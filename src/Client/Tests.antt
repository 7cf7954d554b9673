-- ===== src/Client/Tests.antt =====
-- Runs of internal/client/ansi.go at concrete inputs.
use rtail.Base.{◌≡◌, refl, some, List, [], ◌∷◌, arith, codes}
use rtail.Client.Ansi.{esc, contains_esc, scan_sequence, write_byte, strip_from, strip_ansi}
use rtail.Client.Ansi.Pieces.{
  plain, csi, osc, Piece, Proper, written, piece_text, strip_ansi-written, plain, csi, osc,
}

abbrev titled : List Piece
titled = osc (codes "0;t") ∷ csi (codes "1;31") b'm' ∷ plain b'o' ∷ plain b'k' ∷ csi [] b'm' ∷ []

lone_escape : strip_ansi (b'a' ∷ esc ∷ b'z' ∷ esc ∷ []) ≡ some (b'a' ∷ esc ∷ b'z' ∷ esc ∷ [])
unfolding strip_ansi contains_esc strip_from scan_sequence write_byte
lone_escape = refl

strip_ansi-written_example : strip_ansi (written titled) ≡ some (piece_text titled)
strip_ansi-written_example = strip_ansi-written titled (unfold Proper in (ground arith))
