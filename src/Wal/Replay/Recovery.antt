-- ===== src/Wal/Replay/Recovery.antt =====
-- `replay` on the segments that a crash or a disk leaves behind.
use rtail.Base.{
  ℕ, zero, suc, ◌+◌, ◌-◌, ◌<◌, ◌≡◌, ◌≢◌, ◌∙◌, ap, refl, true, false, Option, List, [], ◌∷◌, ◌++◌,
  append_assoc, arith, Bytes, inl, inr, length, take, replicate, length-take, length-replicate,
  replicate-add, All, bytes_eq, take-append_ge,
}
use mathlib.Core.Path.{fun_ext}
use rtail.Wal.Frame.{magic, header, frames, image, checksum}
use rtail.Wal.Replay.{
  done, corrupt, checksum_mismatch, read_full, read_payload, zero_to_end, uint32, round,
  read_frames, replay,
}
use rtail.Wal.Replay.Fuel.{lt_cases, read_full_short, read_frames_lem}
use rtail.Wal.Replay.RoundTrip.{
  IsPayload, whole_frames, feed, read_frames-frames, read_frames-take, read_full-append,
  length-header, header_size, header_sum, frames_at_end,
}

zero_to_end-replicate : (k : ℕ) → zero_to_end (replicate k 0) ≡ true
unfolding zero_to_end
zero_to_end-replicate zero = refl
zero_to_end-replicate (suc k) = zero_to_end-replicate k

whole_frames_none : (n : ℕ) (ps : List Bytes) → n ≡ 0 → whole_frames n ps ≡ 0
unfolding whole_frames
whole_frames_none n [] h = refl
whole_frames_none n (p ∷ ps) h = ground arith

module _ {Rec E S : Type 0} (decode : Bytes → Option Rec) (visit : Rec → S → S × Option E) where
  -- Behind an intact magic the frames are read.
  pub replay-magic :
      (bs : Bytes) (s : S) → replay decode visit (magic ++ bs) s ≡ read_frames decode visit bs s
  unfolding replay bytes_eq
  replay-magic bs s = rw (read_full-append 6 magic bs refl, replay)

  -- The replay of a segment image cut off at any byte ends by nil and delivers exactly the records
  -- whose frames lie whole before the cut, in order.
  pub replay-take :
      (ps : List Bytes) (n : ℕ) (s : S)
      → All IsPayload ps
      → replay decode visit (take n (image ps)) s
        ≡ feed decode visit (take (whole_frames (n - 6) ps) ps) s (λ t. (t, done))
  unfolding image replay
  replay-take ps n s h = elim (lt_cases n 6) [
    | inl short ↦ no_magic short
    | inr long ↦
        rw (take-append_ge n magic (frames ps) long)
          (replay-magic (take (n - 6) (frames ps)) s ∙ read_frames-take decode visit ps (n - 6) s h)
  ]
    where
      no_magic :
          n < 6
          → replay decode visit (take n (image ps)) s
            ≡ feed decode visit (take (whole_frames (n - 6) ps) ps) s (λ t. (t, done))
      no_magic short = rw (whole_frames_none (n - 6) ps (omega arith)) (
          rw
            (
              read_full_short 6 (take n (magic ++ frames ps))
                  (omega (arith, length-take n (magic ++ frames ps))),
              replay,
            )
            (unfold feed in refl))

  zeros_at_end : (k : ℕ) (s : S) → read_frames decode visit (replicate k 0) s ≡ (s, done)
  unfolding round read_payload read_full uint32
  zeros_at_end k s = elim (lt_cases k 8) [
    | inl short ↦
        frames_at_end decode visit (replicate k 0) s (omega (arith, length-replicate {A = ℕ} k 0))
    | inr long ↦
        let e : k ≡ 8 + (k - 8) = omega arith in
        let split = ap (λ m. replicate {A = ℕ} m 0) e ∙ replicate-add 8 (k - 8) 0 in
        rw split (
          read_frames_lem decode visit (replicate 8 0 ++ replicate (k - 8) 0) s
          ∙ ground (arith, zero_to_end-replicate (k - 8)))
  ]

  -- A segment image followed by any number of zero bytes replays to all of its records and ends by
  -- nil.
  pub replay-image_zeros :
      (ps : List Bytes) (k : ℕ) (s : S)
      → All IsPayload ps
      → replay decode visit (image ps ++ replicate k 0) s ≡ feed decode visit ps s (λ t. (t, done))
  unfolding image
  replay-image_zeros ps k s h = rw (append_assoc magic (frames ps) (replicate k 0)) (
      replay-magic (frames ps ++ replicate k 0) s
      ∙ read_frames-frames decode visit ps (replicate k 0) s h
      ∙ ap (feed decode visit ps s) (fun_ext (zeros_at_end k)))

  damaged_frame :
      (p q rest : Bytes) (s : S)
      → IsPayload p
      → length q ≡ length p
      → checksum q ≢ checksum p
      → zero_to_end rest ≡ false
      → read_frames decode visit (header p ++ (q ++ rest)) s ≡ (s, corrupt checksum_mismatch)
  unfolding round
  damaged_frame p q rest s hp e differs more =
      read_frames_lem decode visit (header p ++ (q ++ rest)) s
      ∙ rw (read_full-append 8 (header p) (q ++ rest) (length-header p), round)
          (rw (header_size p hp.1, header_sum p)
            (unfold read_payload in
              rw (read_full-append (length p) q rest e, read_payload) (ground arith)))

  -- When the frames of valid payloads are followed by a frame whose payload does not have the
  -- declared checksum, and something other than zeros follows it, replay delivers the records
  -- before it and then ends by ErrCorrupt.
  pub replay_damaged :
      (ps : List Bytes) (p q rest : Bytes) (s : S)
      → All IsPayload ps
      → IsPayload p
      → length q ≡ length p
      → checksum q ≢ checksum p
      → zero_to_end rest ≡ false
      → replay decode visit (image ps ++ (header p ++ (q ++ rest))) s
        ≡ feed decode visit ps s (λ t. (t, corrupt checksum_mismatch))
  unfolding image
  replay_damaged ps p q rest s h hp e differs more =
      let bad : Bytes = header p ++ (q ++ rest) in
      rw (append_assoc magic (frames ps) bad) (
        replay-magic (frames ps ++ bad) s
        ∙ read_frames-frames decode visit ps bad s h
        ∙ ap (feed decode visit ps s) (fun_ext (λ t. damaged_frame p q rest t hp e differs more)))
