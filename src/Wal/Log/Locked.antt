-- ===== src/Wal/Log/Locked.antt =====
-- `syncLocked` and `Close`: a nil error means that everything appended is durable.
use rtail.Base.{
  ◌-◌, ◌≤◌, ◌≡◌, ◌∙◌, ap, refl, true, false, not, Option, none, some, List, [], arith, Bytes,
  length, take-length, if_split,
}
use rtail.Wal.Frame.{image}
use rtail.Wal.Log.{
  close, close_synced, Log, Disk, LogError, SegmentFile, write_locked, persist, dirty_locked,
  locked_result, locked_write, sync_locked,
}
use rtail.Wal.Log.Holds.{
  Holds, IsWritten, write_locked-Holds, write_locked-IsWritten, empty_of_length, idle-IsWritten,
}
use rtail.Wal.Log.Flight.{IsWritten-frames}
use rtail.Wal.Log.Sync.{Persisted, persist-Persisted, file-Holds}

-- `syncLocked` on nil: the file holds everything appended, durably and under a durable name.
pub record IsDurable (l : Log) (ps : List Bytes) : Type 0 where
  pub all_written : IsWritten l ps
  pub all_stable : length (image ps) ≤ l.file.stable
  pub has_name : l.file.named ≡ true

abbrev pub SyncsWell : List Bytes → Log × Option LogError → Type 0
SyncsWell ps (l, none) = Holds l ps × IsDurable l ps
SyncsWell ps (l, some _) = Holds l ps

locked_result-SyncsWell :
    (l : Log) (ps : List Bytes) (r : SegmentFile × Option LogError)
    → Holds l ps
    → IsWritten l ps
    → Persisted (length l.file.content) l.file r
    → SyncsWell ps (locked_result l r)
unfolding locked_result
locked_result-SyncsWell l ps (f, some e) h w p = file-Holds l ps _ (f, some e) h p
locked_result-SyncsWell l ps (f, none) h w p =
    let (stable, named) = p.on_nil refl in
    let c = w.content_all in
    let whole : length l.file.content ≡ length (image ps) = ap length c in
    let all_of : length ps - 0 ≡ length ps = omega arith in
    let kept = file-Holds l ps _ (f, none) h p in
    (
      record {
        front = kept.front;
        junk = kept.junk;
        rest = kept.rest;
        payloads = kept.payloads;
        content_is = kept.content_is;
        buffer_is = kept.buffer_is;
        image_is = kept.image_is;
        written_is = kept.written_is;
        clean = kept.clean;
        synced_le_written = omega arith;
        synced_le_stable = omega (arith, whole, w.written_all);
        stable_le = kept.stable_le;
        listed_named = λ _. named;
        pending_le = omega arith;
        acked = rw (all_of, take-length) (omega (arith, IsWritten-frames w));
        acked_listed = λ _. refl;
      },
      record {
        all_written = record {
          buffer_empty = w.buffer_empty;
          not_torn = w.not_torn;
          content_all = p.content_same ∙ c;
          written_all = w.written_all;
        };
        all_stable = omega (arith, whole);
        has_name = named;
      },
    )

locked_write-SyncsWell :
    (d : Disk) (ps : List Bytes) (r : Log × Option LogError)
    → Holds r.0 ps
    → (r.1 ≡ none → IsWritten r.0 ps)
    → SyncsWell ps (locked_write d r)
unfolding locked_write
locked_write-SyncsWell d ps (l, none) h w =
    locked_result-SyncsWell l ps (persist d l.listed (length l.file.content) l.file) h (w refl) (
      persist-Persisted d l.listed (length l.file.content) l.file (omega arith) h.stable_le
        h.listed_named)
locked_write-SyncsWell d ps (l, some e) h w = h

clean-IsDurable : (l : Log) (ps : List Bytes) → Holds l ps → dirty_locked l ≡ false → IsDurable l ps
unfolding dirty_locked
clean-IsDurable l ps h e =
    let empty : l.buffer ≡ [] = empty_of_length l.buffer (ground arith) in
    let w = idle-IsWritten l h (ground arith) empty in
    let synced : l.written ≡ l.synced = ground arith in
    record {
      all_written = w;
      all_stable = omega (arith, w.written_all, synced, h.synced_le_stable);
      has_name = h.listed_named (ground arith);
    }

-- In a log whose invariant holds, a syncLocked that returns nil leaves everything appended
-- written, durable and under a durable name, and one that fails keeps the invariant with the same
-- records.
pub sync_locked-SyncsWell :
    (d : Disk) (l : Log) (ps : List Bytes) → Holds l ps → SyncsWell ps (sync_locked d l)
unfolding sync_locked
sync_locked-SyncsWell d l ps h =
    if_split (SyncsWell ps) (not (dirty_locked l)) (λ e. (h, clean-IsDurable l ps h (ground arith)))
      (λ _.
        locked_write-SyncsWell d ps (write_locked d l) (write_locked-Holds d l h)
          (write_locked-IsWritten d l h))

closed-Holds : (l : Log) (ps : List Bytes) → Holds l ps → Holds (record l { closed = true }) ps
closed-Holds l ps h = record {
  front = h.front;
  junk = h.junk;
  rest = h.rest;
  payloads = h.payloads;
  content_is = h.content_is;
  buffer_is = h.buffer_is;
  image_is = h.image_is;
  written_is = h.written_is;
  clean = h.clean;
  synced_le_written = h.synced_le_written;
  synced_le_stable = h.synced_le_stable;
  stable_le = h.stable_le;
  listed_named = h.listed_named;
  pending_le = h.pending_le;
  acked = h.acked;
  acked_listed = h.acked_listed;
}

close_synced-Holds :
    (d : Disk) (ps : List Bytes) (r : Log × Option LogError)
    → SyncsWell ps r
    → Holds (close_synced d r).0 ps
unfolding close_synced
close_synced-Holds d ps (l, none) (h, _) = closed-Holds l ps h
close_synced-Holds d ps (l, some e) h = closed-Holds l ps h

pub close-Holds : (d : Disk) (l : Log) (ps : List Bytes) → Holds l ps → Holds (close d l).0 ps
unfolding close
close-Holds d l ps h =
    if_split (λ (r : Log × Option LogError). Holds r.0 ps) l.closed
      {y = close_synced d (sync_locked d l)} (λ _. h)
      (λ _. close_synced-Holds d ps (sync_locked d l) (sync_locked-SyncsWell d l ps h))
