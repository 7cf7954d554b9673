-- ===== src/Wal/Log/Rotate.antt =====
-- `Rotate` seals a segment that holds exactly what was appended to it, or changes nothing of that.
use rtail.Base.{
  ℕ, ◌+◌, ◌≤◌, ◌≡◌, refl, true, not, ◌∙◌, Option, none, some, List, [], arith, Bytes, length,
  if_split,
}
use rtail.Wal.Frame.{magic, frames, image}
use rtail.Wal.Log.{
  Log, Disk, LogError, SegmentFile, write_locked, sync_locked, open_segment, Rotated, sealed,
  not_sealed, dirty_locked, locked_result, locked_write, rotate, rotate_synced, log_closed, opening,
}
use rtail.Wal.Log.Append.{Grows, write_locked-Grows}
use rtail.Wal.Log.Holds.{Holds}
use rtail.Wal.Log.Locked.{SyncsWell, sync_locked-SyncsWell}

-- A new segment holds nothing yet: its header is still in the buffer.
pub open_segment-Holds : (number : ℕ) → Holds (open_segment number) []
unfolding open_segment image frames
open_segment-Holds number = record {
  front = [];
  junk = [];
  rest = magic;
  payloads = tt;
  content_is = refl;
  buffer_is = refl;
  image_is = refl;
  written_is = refl;
  clean = λ _. refl;
  synced_le_written = omega arith;
  synced_le_stable = omega arith;
  stable_le = omega arith;
  listed_named = λ e. cc;
  pending_le = omega arith;
  acked = omega arith;
  acked_listed = λ e. absurd (omega arith);
}

-- The file of a sealed segment: complete, durable, and under a durable name.
pub record IsSealed (f : SegmentFile) (ps : List Bytes) : Type 0 where
  pub holds_all : f.content ≡ image ps
  pub is_stable : length (image ps) ≤ f.stable
  pub is_named : f.named ≡ true

abbrev pub RotatesWell : ℕ → List Bytes → Log × Rotated → Type 0
RotatesWell number ps (l, sealed n f) =
    (n ≡ number) × IsSealed f ps × Holds l [] × (l.active ≡ number + 1)
RotatesWell number ps (l, not_sealed _) = Holds l ps × (l.active ≡ number)

rotate_synced-RotatesWell :
    (d : Disk) (number : ℕ) (ps : List Bytes) (r : Log × Option LogError)
    → r.0.active ≡ number
    → SyncsWell ps r
    → RotatesWell number ps (rotate_synced d r)
unfolding rotate_synced
rotate_synced-RotatesWell d number ps (l, some e) a h = (h, a)
rotate_synced-RotatesWell d number ps (l, none) a (h, durable) =
    if_split (RotatesWell number ps) d.create {y = (l, not_sealed opening)}
      (λ _. (
        a,
        record {
          holds_all = durable.all_written.content_all;
          is_stable = durable.all_stable;
          is_named = durable.has_name;
        },
        open_segment-Holds (l.active + 1),
        omega arith,
      ))
      (λ _. (h, a))

locked_result_active :
    (l : Log) (r : SegmentFile × Option LogError) → (locked_result l r).0.active ≡ l.active
unfolding locked_result
locked_result_active l (f, none) = refl
locked_result_active l (f, some e) = refl

locked_write_active :
    (d : Disk) (r : Log × Option LogError) → (locked_write d r).0.active ≡ r.0.active
unfolding locked_write
locked_write_active d (l, none) = locked_result_active l _
locked_write_active d (l, some e) = refl

sync_locked_active : (d : Disk) (l : Log) → (sync_locked d l).0.active ≡ l.active
unfolding sync_locked
sync_locked_active d l =
    if_split (λ (r : Log × Option LogError). r.0.active ≡ l.active) (not (dirty_locked l))
      (λ _. refl) (λ _. locked_write_active d (write_locked d l) ∙ g.active_same)
  where
    g : Grows l (write_locked d l).0
    g = write_locked-Grows d l

-- In a log whose invariant holds, a rotation that returns a segment hands over the active number
-- and a file that holds exactly the payloads appended to it, all durable and under a durable name,
-- and starts an empty segment with the next number; one that fails keeps the invariant with the
-- same payloads and number.
pub rotate-RotatesWell :
    (d : Disk) (l : Log) (ps : List Bytes) → Holds l ps → RotatesWell l.active ps (rotate d l)
unfolding rotate
rotate-RotatesWell d l ps h =
    if_split (RotatesWell l.active ps) l.closed {x = (l, not_sealed log_closed)} (λ _. (h, refl))
      (λ _.
        rotate_synced-RotatesWell d l.active ps (sync_locked d l) (sync_locked_active d l)
          (sync_locked-SyncsWell d l ps h))
