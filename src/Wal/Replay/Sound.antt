-- ===== src/Wal/Replay/Sound.antt =====
-- `replay` on any bytes at all: it ends, and it delivers nothing but intact frames.
use rtail.Base.{
  ℕ, zero, suc, ◌+◌, ◌%◌, ◌^◌, ◌≤◌, ◌<◌, ◌≡◌, ◌≢◌, ◌∙◌, ◌⊎◌, ap, sym, refl, not, ◌||◌, Option, none,
  some, List, [], ◌∷◌, ◌++◌, append_assoc, arith, Bytes, inl, inr, IsByte, ◌==◌, length, take, drop,
  length-take, length-drop, All, All-take, All-drop, Bool-cases, Option-cases, bytes_eq,
  take-append-drop,
}
use mathlib.Core.Path.{fun_ext}
use rtail.Wal.Frame.{magic, put_u32, max_frame, header, header_lem, frame, frames, checksum}
use rtail.Wal.Replay.{
  Outcome, Damage, too_long, done, corrupt, stuck, checksum_mismatch, read_full, read_payload,
  zero_to_end, uint32, deliver, after_visit, round, read_frames, replay,
}
use rtail.Wal.Replay.Fuel.{lt_cases, read_full_enough, read_full_short, read_frames_lem}
use rtail.Wal.Replay.Recovery.{replay-magic}
use rtail.Wal.Replay.RoundTrip.{IsPayload, feed, frames_at_end, read_frame}

put_u32-uint32 : (xs : Bytes) → length xs ≡ 4 → All IsByte xs → put_u32 (uint32 xs) ≡ xs
unfolding put_u32 uint32
put_u32-uint32 (a ∷ b ∷ c ∷ d ∷ []) e h = ground arith
put_u32-uint32 _ e h = absurd (omega arith)

-- How a replay ends that no callback stops: nil, or what wraps `ErrCorrupt`.
abbrev pub ended : {E : Type 0} → Option Damage → Outcome E
ended none = done
ended (some d) = corrupt d

-- What the header of the first frame says, and what stands behind it.
abbrev size_of : Bytes → ℕ
size_of bs = uint32 (take 4 (take 8 bs))

abbrev sum_of : Bytes → ℕ
sum_of bs = uint32 (drop 4 (take 8 bs))

abbrev payload_of : Bytes → Bytes
payload_of bs = take (size_of bs) (drop 8 bs)

abbrev rest_of : Bytes → Bytes
rest_of bs = drop (size_of bs) (drop 8 bs)

header-payload :
    (bs : Bytes)
    → 8 ≤ length bs
    → All IsByte bs
    → length (payload_of bs) ≡ size_of bs
    → size_of bs ≤ max_frame
    → checksum (payload_of bs) ≡ sum_of bs
    → header (payload_of bs) ≡ take 8 bs
header-payload bs long h fits small sum =
    let wraps : size_of bs % 2 ^ 32 ≡ size_of bs = omega arith in
    let h8 = All-take IsByte 8 bs h in
    let l8 = length-take 8 bs in
    rw (header_lem (payload_of bs), fits, wraps, sum)
      (rw
        (
          put_u32-uint32 (take 4 (take 8 bs)) (omega (arith, length-take 4 (take 8 bs)))
              (All-take IsByte 4 (take 8 bs) h8),
          put_u32-uint32 (drop 4 (take 8 bs)) (omega (arith, length-drop 4 (take 8 bs)))
              (All-drop IsByte 4 (take 8 bs) h8),
        )
        (take-append-drop 4 (take 8 bs)))

splits_frame :
    (bs : Bytes)
    → 8 ≤ length bs
    → All IsByte bs
    → size_of bs ≤ length (drop 8 bs)
    → size_of bs ≤ max_frame
    → checksum (payload_of bs) ≡ sum_of bs
    → bs ≡ frame (payload_of bs) ++ rest_of bs
unfolding frame
splits_frame bs long h fits small sum =
    let e = length-take (size_of bs) (drop 8 bs) in
    rw (header-payload bs long h (omega arith) small sum) (
      sym (
        append_assoc (take 8 bs) (payload_of bs) (rest_of bs)
        ∙ ap (λ m. take 8 bs ++ m) (take-append-drop (size_of bs) (drop 8 bs))
        ∙ take-append-drop 8 bs))

module _ {Rec E S : Type 0} (decode : Bytes → Option Rec) (visit : Rec → S → S × Option E) where
  pub record Reads (bs : Bytes) : Type 0 where
    pub payloads : List Bytes
    pub rest : Bytes
    pub end : Option Damage
    pub intact : All IsPayload payloads
    pub splits : bs ≡ frames payloads ++ rest
    pub delivers :
        (s : S) → read_frames decode visit bs s ≡ feed decode visit payloads s (λ t. (t, ended end))

  nothing :
      (bs : Bytes) (d : Option Damage)
      → ((s : S) → read_frames decode visit bs s ≡ (s, ended d))
      → Reads bs
  unfolding feed frames
  nothing bs d h = record {
    payloads = [];
    rest = bs;
    end = d;
    intact = tt;
    splits = refl;
    delivers = h;
  }

  frames_more :
      (bs : Bytes) (s : S)
      → 8 ≤ length bs
      → read_frames decode visit bs s
        ≡ read_payload decode visit
            (size_of bs)
            (sum_of bs)
            (drop 8 bs)
            s
            (read_frames decode visit)
  unfolding round
  frames_more bs s long = read_frames_lem decode visit bs s ∙ rw (read_full_enough 8 bs long, round)

  one_more :
      (bs : Bytes)
      → 8 ≤ length bs
      → All IsByte bs
      → size_of bs ≤ length (drop 8 bs)
      → size_of bs ≤ max_frame
      → 0 < size_of bs
      → checksum (payload_of bs) ≡ sum_of bs
      → Reads (rest_of bs)
      → Reads bs
  unfolding feed frames
  one_more bs long h fits small positive sum r =
      let p = payload_of bs in
      let whole = splits_frame bs long h fits small sum in
      let l = length-take (size_of bs) (drop 8 bs) in
      let ok : IsPayload p = (omega arith, omega arith) in
      record {
        payloads = p ∷ r.payloads;
        rest = r.rest;
        end = r.end;
        intact = (ok, r.intact);
        splits =
            whole
            ∙ ap (◌++◌ (frame p)) r.splits
            ∙ sym (append_assoc (frame p) (frames r.payloads) r.rest);
        delivers = λ s.
            ap (λ x. read_frames decode visit x s) whole
            ∙ read_frames_lem decode visit (frame p ++ rest_of bs) s
            ∙ read_frame decode visit p (rest_of bs) s _ ok
            ∙ ap (deliver decode visit p s) (fun_ext r.delivers);
      }

  -- The first frame ends the loop, or it is intact.
  first_frame :
      (bs : Bytes)
      → ((d : Option Damage) × ((s : S)
            → read_payload decode visit
                (size_of bs)
                (sum_of bs)
                (drop 8 bs)
                s
                (read_frames decode visit)
              ≡ (s, ended d)))
        ⊎ ((size_of bs ≤ max_frame)
            × (size_of bs ≤ length (drop 8 bs))
            × (0 < size_of bs)
            × (checksum (payload_of bs) ≡ sum_of bs))
  unfolding read_payload read_full
  first_frame bs = elim (lt_cases max_frame (size_of bs)) [
    | inl big ↦ inl (some too_long, λ s. ground arith)
    | inr small ↦ elim (lt_cases (length (drop 8 bs)) (size_of bs)) [
      | inl short ↦ inl (none, λ s. ground arith)
      | inr fits ↦
          elim (Bool-cases (size_of bs == 0 || not (checksum (payload_of bs) == sum_of bs))) [
            | inl bad ↦ elim (Bool-cases (zero_to_end (rest_of bs))) [
              | inl zeros ↦ inl (none, λ s. ground arith)
              | inr more ↦ inl (some checksum_mismatch, λ s. ground arith)
            ]
            | inr good ↦ inr (small, fits, ground arith, ground arith)
          ]
    ]
  ]

  reads : (n : ℕ) (bs : Bytes) → length bs < n → All IsByte bs → Reads bs
  reads zero bs lt h = absurd (omega arith)
  reads (suc n) bs lt h = elim (lt_cases (length bs) 8) [
    | inl short ↦ nothing bs none (λ s. frames_at_end decode visit bs s short)
    | inr long ↦ elim (first_frame bs) [
      | inl (d, stops) ↦ nothing bs d (λ s. frames_more bs s long ∙ stops s)
      | inr (small, fits, positive, sum) ↦ one_more bs long h fits small positive sum (
          reads n (rest_of bs)
            (omega (arith, length-drop (size_of bs) (drop 8 bs), length-drop 8 bs))
            (All-drop IsByte (size_of bs) (drop 8 bs) (All-drop IsByte 8 bs h)))
    ]
  ]

  after_visit-ne-stuck :
      (v : S × Option E) (k : S → S × Outcome E)
      → ((t : S) → (k t).1 ≢ stuck)
      → (after_visit decode visit v k).1 ≢ stuck
  unfolding after_visit
  after_visit-ne-stuck (s, none) k h = h s
  after_visit-ne-stuck (s, some e) k h = λ x. cc

  deliver-ne-stuck :
      (p : Bytes) (s : S) (k : S → S × Outcome E)
      → ((t : S) → (k t).1 ≢ stuck)
      → (deliver decode visit p s k).1 ≢ stuck
  unfolding deliver
  deliver-ne-stuck p s k h = elim (Option-cases (decode p)) [
    | inl e ↦ rw (e, deliver) (λ x. cc)
    | inr (r, e) ↦ rw (e, deliver) (after_visit-ne-stuck (visit r s) k h)
  ]

  feed-ne-stuck :
      (ps : List Bytes) (s : S) (k : S → S × Outcome E)
      → ((t : S) → (k t).1 ≢ stuck)
      → (feed decode visit ps s k).1 ≢ stuck
  unfolding feed
  feed-ne-stuck [] s k h = h s
  feed-ne-stuck (p ∷ ps) s k h = deliver-ne-stuck p s _ (λ t. feed-ne-stuck ps t k h)

  ended-ne-stuck : (d : Option Damage) → ended {E = E} d ≢ stuck
  ended-ne-stuck none = λ e. cc
  ended-ne-stuck (some d) = λ e. cc

  -- On the magic followed by any bytes, replay delivers to the callback exactly the payloads of a
  -- run of intact frames at the front, and ends by nil or by ErrCorrupt, unless a decoding error
  -- or the callback stops it before.
  pub replay-Reads :
      (bs : Bytes)
      → All IsByte bs
      → (r : Reads bs) × ((s : S)
          → replay decode visit (magic ++ bs) s
            ≡ feed decode visit r.payloads s (λ t. (t, ended r.end)))
  replay-Reads bs h =
      let r = reads (length bs + 1) bs (omega arith) h in
      (r, λ s. replay-magic decode visit bs s ∙ r.delivers s)

  frames-ne-stuck : (bs : Bytes) (s : S) → All IsByte bs → (read_frames decode visit bs s).1 ≢ stuck
  frames-ne-stuck bs s h =
      let r = reads (length bs + 1) bs (omega arith) h in
      rw (r.delivers s) (feed-ne-stuck r.payloads s _ (λ t. ended-ne-stuck r.end))

  -- The replay of any file of bytes ends: the fuel of its loop is never used up.
  pub replay-ne-stuck : (bs : Bytes) (s : S) → All IsByte bs → (replay decode visit bs s).1 ≢ stuck
  unfolding replay
  replay-ne-stuck bs s h = elim (lt_cases (length bs) 6) [
    | inl short ↦ rw (read_full_short 6 bs short, replay) (λ x. cc)
    | inr long ↦ elim (Bool-cases (bytes_eq (take 6 bs) magic)) [
      | inl ok ↦
          rw (read_full_enough 6 bs long, replay)
            (rw ok (frames-ne-stuck (drop 6 bs) s (All-drop IsByte 6 bs h)))
      | inr bad ↦ rw (read_full_enough 6 bs long, replay) (rw bad (λ x. cc))
    ]
  ]
