-- ===== src/Client/Ansi/Pieces.antt =====
-- Lines made of text and whole escape sequences, for `stripANSI` of internal/client/ansi.go.
use rtail.Base.{
  ℕ, zero, suc, ◌+◌, ◌≤◌, ◌<◌, ◌≡◌, refl, ap, ◌∙◌, ◌≢◌, inl, inr, false, some, List, [], ◌∷◌, ◌++◌,
  arith, Bool-cases, length, length-append, Bytes, All,
}
use rtail.Client.Ansi.{
  esc, contains_esc, scan_csi, scan_osc, scan_sequence, write_byte, strip_from, strip_ansi,
}

pub data Piece : Type 0 where
  plain : ℕ → Piece
  csi : (parameters : Bytes) (final : ℕ) → Piece
  osc : (payload : Bytes) → Piece

-- Text has no escape, parameters are in their range and so is the final byte, and a payload has
-- neither an escape nor the bell that ends it.
unfoldable pub Proper : Piece → Type 0
Proper (plain c) = c ≢ esc
Proper (csi parameters final) =
    All (λ c. (0x20 ≤ c) × (c ≤ 0x3f)) parameters × (0x40 ≤ final) × (final ≤ 0x7e)
Proper (osc payload) = All (λ c. (c ≢ esc) × (c ≢ 0x07)) payload

unfoldable pub written : List Piece → Bytes
written [] = []
written (plain c ∷ ps) = c ∷ written ps
written (csi parameters final ∷ ps) = esc ∷ b'[' ∷ (parameters ++ final ∷ written ps)
written (osc payload ∷ ps) = esc ∷ b']' ∷ (payload ++ 0x07 ∷ written ps)

unfoldable pub piece_text : List Piece → Bytes
piece_text [] = []
piece_text (plain c ∷ ps) = c ∷ piece_text ps
piece_text (csi parameters final ∷ ps) = piece_text ps
piece_text (osc payload ∷ ps) = piece_text ps

scan_csi-append :
    (parameters : Bytes) (final : ℕ) (s : Bytes)
    → Proper (csi parameters final)
    → scan_csi (parameters ++ final ∷ s) ≡ some s
unfolding Proper scan_csi
scan_csi-append [] final s h = ground (arith, h)
scan_csi-append (c ∷ parameters) final s (h, lo, hi) =
    ground (arith, h, scan_csi-append parameters final s (h.1, lo, hi))

scan_osc-append :
    (payload s : Bytes) → Proper (osc payload) → scan_osc (payload ++ 0x07 ∷ s) ≡ some s
unfolding Proper scan_osc
scan_osc-append [] [] h = refl
scan_osc-append [] (d ∷ s) h = refl
scan_osc-append (c ∷ []) s h = ground (arith, h, scan_osc-append [] s tt)
scan_osc-append (c ∷ d ∷ payload) s h = ground (arith, h, scan_osc-append (d ∷ payload) s h.1)

strip_from-plain :
    (f c : ℕ) (s : Bytes) → c ≢ esc → strip_from (suc f) (c ∷ s) ≡ write_byte c (strip_from f s)
unfolding strip_from
strip_from-plain f c [] h = refl
strip_from-plain f c (d ∷ s) h = ground (arith, h)

strip_from-sequence :
    (f d : ℕ) (s rest : Bytes)
    → scan_sequence d s ≡ some rest
    → strip_from (suc f) (esc ∷ d ∷ s) ≡ strip_from f rest
unfolding strip_from
strip_from-sequence f d s rest h = ground (arith, h)

strip_from-written :
    (f : ℕ) (ps : List Piece)
    → All Proper ps
    → length (written ps) < f
    → strip_from f (written ps) ≡ some (piece_text ps)
unfolding written piece_text Proper
strip_from-written zero ps h l = absurd (omega arith)
strip_from-written (suc f) [] h l = unfold strip_from in refl
strip_from-written (suc f) (plain c ∷ ps) h l =
    strip_from-plain f c (written ps) h.0
    ∙ ap (write_byte c) (strip_from-written f ps h.1 (omega arith))
    ∙ (unfold write_byte in refl)
strip_from-written (suc f) (csi parameters final ∷ ps) h l =
    strip_from-sequence f b'[' (parameters ++ final ∷ written ps) (written ps)
      (unfold scan_sequence in (scan_csi-append parameters final (written ps) h.0))
    ∙ strip_from-written f ps h.1 (omega (arith, l, length-append parameters (final ∷ written ps)))
strip_from-written (suc f) (osc payload ∷ ps) h l =
    strip_from-sequence f b']' (payload ++ 0x07 ∷ written ps) (written ps)
      (unfold scan_sequence in (scan_osc-append payload (written ps) h.0))
    ∙ strip_from-written f ps h.1 (omega (arith, l, length-append payload (0x07 ∷ written ps)))

no_esc : (ps : List Piece) → contains_esc (written ps) ≡ false → piece_text ps ≡ written ps
unfolding contains_esc written piece_text
no_esc [] h = refl
no_esc (plain c ∷ ps) h = ap (◌∷◌ c) (no_esc ps (ground (arith, h)))
no_esc (csi parameters final ∷ ps) h = absurd (ground (arith, h))
no_esc (osc payload ∷ ps) h = absurd (ground (arith, h))

-- A line made of bytes that are no escape, whole CSI sequences and whole OSC sequences that a bell
-- ends, whose payload has no escape, is stripped to exactly its bytes outside the sequences; in
-- particular the loop ends.
pub strip_ansi-written :
    (ps : List Piece) → All Proper ps → strip_ansi (written ps) ≡ some (piece_text ps)
unfolding strip_ansi
strip_ansi-written ps h = elim (Bool-cases (contains_esc (written ps))) [
  | inl e ↦ rw e (strip_from-written (length (written ps) + 1) ps h (omega arith))
  | inr e ↦ rw (e, no_esc ps e) refl
]
