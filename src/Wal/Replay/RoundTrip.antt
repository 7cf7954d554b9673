-- ===== src/Wal/Replay/RoundTrip.antt =====
-- What `replay` makes of a segment that holds whole frames, and of one cut off anywhere.
use rtail.Base.{
  ℕ, suc, ◌+◌, ◌-◌, ◌%◌, ◌^◌, ◌≤◌, ◌<◌, ◌≡◌, ◌∙◌, ap, refl, true, false, Option, some, List, [],
  ◌∷◌, ◌++◌, append_assoc, arith, Bytes, inl, inr, leb, if◌then◌else◌, length, take, drop,
  length-append, length-take, All, take-append_le, take-append_ge, take-append_self,
  drop-append_self,
}
use mathlib.Core.Path.{fun_ext}
use rtail.Wal.Frame.{
  max_frame, get_u32-put_u32, checksum, checksum_bound, header, frame, frames, length-frame,
}
use rtail.Wal.Replay.{
  Outcome, done, read_full, uint32, deliver, Rest, read_payload, round, read_frames,
}
use rtail.Wal.Replay.Fuel.{lt_cases, read_full_enough, read_full_short, read_frames_lem}

-- What `Append` lets through: at most `maxFrame` bytes, and a record encodes to a few at least.
abbrev pub IsPayload : Bytes → Type 0
IsPayload p = (0 < length p) × (length p ≤ max_frame)

-- How many frames lie whole within the first `n` bytes behind the magic.
unfoldable pub whole_frames : ℕ → List Bytes → ℕ
whole_frames n [] = 0
whole_frames n (p ∷ ps) =
    if leb (length p + 8) n then suc (whole_frames (n - (length p + 8)) ps) else 0

pub read_full-append :
    (n : ℕ) (xs ys : Bytes) → length xs ≡ n → read_full n (xs ++ ys) ≡ some (xs, ys)
read_full-append n xs ys e = rw (← e) (
    read_full_enough (length xs) (xs ++ ys) (omega (arith, length-append xs ys))
    ∙ rw (take-append_self, drop-append_self))

pub length-header : (p : Bytes) → length (header p) ≡ 8
unfolding header
length-header p = refl

pub header_size : (p : Bytes) → length p ≤ max_frame → uint32 (take 4 (header p)) ≡ length p
unfolding header uint32
header_size p h =
    let e : length p % 2 ^ 32 ≡ length p = omega arith in
    get_u32-put_u32 (length p % 2 ^ 32) (omega arith) ∙ e

pub header_sum : (p : Bytes) → uint32 (drop 4 (header p)) ≡ checksum p
unfolding header uint32
header_sum p = get_u32-put_u32 (checksum p) (checksum_bound p)

module _ {Rec E S : Type 0} (decode : Bytes → Option Rec) (visit : Rec → S → S × Option E) where
  -- The callback is given the records of these payloads in order, until one fails to decode or it
  -- returns an error; otherwise `k` goes on.
  unfoldable pub feed : List Bytes → S → (S → S × Outcome E) → S × Outcome E
  feed [] s k = k s
  feed (p ∷ ps) s k = deliver decode visit p s (λ t. feed ps t k)

  read_payload_intact :
      (p tail : Bytes) (s : S) (next : Rest decode visit)
      → IsPayload p
      → read_payload decode visit (length p) (checksum p) (p ++ tail) s next
        ≡ deliver decode visit p s (next tail)
  unfolding read_payload
  read_payload_intact p tail s next h =
      rw (read_full-append (length p) p tail refl, read_payload) (ground arith)

  pub read_frame :
      (p tail : Bytes) (s : S) (next : Rest decode visit)
      → IsPayload p
      → round decode visit (frame p ++ tail) s next ≡ deliver decode visit p s (next tail)
  unfolding round frame
  read_frame p tail s next h = rw append_assoc (
      rw (read_full-append 8 (header p) (p ++ tail) (length-header p), round)
        (rw (header_size p h.1, header_sum p) (read_payload_intact p tail s next h)))

  pub read_frames-frames :
      (ps : List Bytes) (tail : Bytes) (s : S)
      → All IsPayload ps
      → read_frames decode visit (frames ps ++ tail) s ≡ feed ps s (read_frames decode visit tail)
  unfolding frames feed
  read_frames-frames [] tail s h = refl
  read_frames-frames (p ∷ ps) tail s h = rw (append_assoc (frame p) (frames ps) tail) (
      read_frames_lem decode visit (frame p ++ (frames ps ++ tail)) s
      ∙ read_frame p (frames ps ++ tail) s _ h.0
      ∙ ap (deliver decode visit p s) (fun_ext (λ t. read_frames-frames ps tail t h.1)))

  pub frames_at_end :
      (bs : Bytes) (s : S) → length bs < 8 → read_frames decode visit bs s ≡ (s, done)
  unfolding round
  frames_at_end bs s h = read_frames_lem decode visit bs s ∙ rw (read_full_short 8 bs h, round)

  read_payload_torn :
      (p rest : Bytes) (sum : ℕ) (s : S) (next : Rest decode visit)
      → IsPayload p
      → length rest < length p
      → read_payload decode visit (length p) sum rest s next ≡ (s, done)
  unfolding read_payload
  read_payload_torn p rest sum s next h lt =
      rw (read_full_short (length p) rest lt, read_payload) (ground arith)

  -- A cut inside a frame is the end of the file, wherever it falls.
  frame_torn :
      (n : ℕ) (p : Bytes) (s : S)
      → IsPayload p
      → n < length p + 8
      → read_frames decode visit (take n (frame p)) s ≡ (s, done)
  unfolding round frame
  frame_torn n p s h lt = elim (lt_cases n 8) [
    | inl short ↦
        frames_at_end (take n (header p ++ p)) s (omega (arith, length-take n (header p ++ p)))
    | inr long ↦ rw (cut long) (
        read_frames_lem decode visit (header p ++ take (n - 8) p) s
        ∙ rw (read_full-append 8 (header p) (take (n - 8) p) (length-header p), round)
            (rw (header_size p h.1, header_sum p)
              (read_payload_torn p (take (n - 8) p) (checksum p) s _ h
                (omega (arith, length-take (n - 8) p)))))
  ]
    where
      cut : 8 ≤ n → take n (header p ++ p) ≡ header p ++ take (n - 8) p
      cut long =
          take-append_ge n (header p) p (omega (arith, length-header p))
          ∙ ap (λ k. header p ++ take (n - k) p) (length-header p)

  pub read_frames-take :
      (ps : List Bytes) (n : ℕ) (s : S)
      → All IsPayload ps
      → read_frames decode visit (take n (frames ps)) s
        ≡ feed (take (whole_frames n ps) ps) s (λ t. (t, done))
  unfolding frames feed whole_frames
  read_frames-take [] n s h = frames_at_end (take n []) s (omega (arith, length-take {0} n []))
  read_frames-take (p ∷ ps) n s h = elim (lt_cases n (length p + 8)) [
    | inl cut ↦
        rw (take-append_le n (frame p) (frames ps) (omega (arith, length-frame p)), leb_false cut)
          (frame_torn n p s h.0 cut)
    | inr whole ↦
        rw
          (
            take-append_ge n (frame p) (frames ps) (omega (arith, length-frame p)),
            length-frame p,
            leb_true whole,
          )
          (read_frames_lem decode visit (frame p ++ take (n - (length p + 8)) (frames ps)) s
            ∙ read_frame p (take (n - (length p + 8)) (frames ps)) s _ h.0
            ∙ ap (deliver decode visit p s)
                (fun_ext (λ t. read_frames-take ps (n - (length p + 8)) t h.1)))
  ]
    where
      leb_false : n < length p + 8 → leb (length p + 8) n ≡ false
      leb_false lt = ground arith

      leb_true : length p + 8 ≤ n → leb (length p + 8) n ≡ true
      leb_true le = ground arith
