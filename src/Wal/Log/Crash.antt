-- ===== src/Wal/Log/Crash.antt =====
-- A crash keeps the durable part of the file, at least; what replay then finds.
use rtail.Base.{
  ℕ, zero, suc, ◌+◌, ◌-◌, ◌≤◌, ◌≡◌, ◌∙◌, ap, sym, Option, List, [], ◌∷◌, ◌++◌, arith, Bytes, length,
  take, length-append, append_assoc, take-append_le,
}
use rtail.Wal.Frame.{frames, frame, image, length-frame}
use rtail.Wal.Log.{Log}
use rtail.Wal.Log.Holds.{Holds}
use rtail.Wal.Replay.{done, replay}
use rtail.Wal.Replay.RoundTrip.{whole_frames, feed}
use rtail.Wal.Replay.Recovery.{replay-take}

le-whole_frames :
    (k n : ℕ) (ps : List Bytes)
    → k ≤ length ps
    → length (frames (take k ps)) ≤ n
    → k ≤ whole_frames n ps
unfolding frames whole_frames
le-whole_frames zero n ps hk h = omega arith
le-whole_frames (suc k) n [] hk h = absurd (omega arith)
le-whole_frames (suc k) n (p ∷ ps) hk h =
    let e = length-append (frame p) (frames (take k ps)) in
    let l = length-frame p in
    ground (arith, le-whole_frames k (n - (length p + 8)) ps (omega arith) (omega arith))

-- The file is a beginning of the image, torn or not.
content-take :
    (l : Log) (ps : List Bytes) (n : ℕ)
    → Holds l ps
    → n ≤ length l.file.content
    → take n l.file.content ≡ take n (image ps)
content-take l ps n h fits =
    let e : image ps ≡ l.file.content ++ h.rest =
      h.image_is
      ∙ ap (λ x. h.front ++ x) h.buffer_is
      ∙ sym (append_assoc h.front h.junk h.rest)
      ∙ ap (λ x. x ++ h.rest) (sym h.content_is) in
    sym (ap (take n) e ∙ take-append_le n l.file.content h.rest fits)

-- In a log whose invariant holds, if a crash leaves a beginning of the active file that contains
-- its durable part, replay ends by nil and delivers the first k appended records in order, where k
-- is at least the number of appended records less `pending`.
pub crash_replay :
    {Rec E S : Type 0} (decode : Bytes → Option Rec) (visit : Rec → S → S × Option E)
    → (l : Log) (ps : List Bytes) (n : ℕ) (s : S) → Holds l ps
    → l.file.stable ≤ n
    → n ≤ length l.file.content
    → (k : ℕ) × (replay decode visit (take n l.file.content) s
        ≡ feed decode visit (take k ps) s (λ t. (t, done)))
      × (length ps ≤ k + l.pending)
crash_replay decode visit l ps n s h stable fits = (
  whole_frames (n - 6) ps,
  ap (λ bs. replay decode visit bs s) (content-take l ps n h fits)
      ∙ replay-take decode visit ps n s h.payloads,
  omega (
    arith,
    le-whole_frames (length ps - l.pending) (n - 6) ps (omega arith)
        (omega (arith, h.acked, h.synced_le_stable)),
  ),
)
