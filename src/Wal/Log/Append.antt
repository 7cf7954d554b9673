-- ===== src/Wal/Log/Append.antt =====
-- `Append` keeps the invariant: its record joins the segment on nil, and leaves no trace on an error.
use rtail.Base.{
  ◌+◌, ◌-◌, ◌≤◌, ◌<◌, ◌≡◌, ◌∙◌, ap, sym, Option, none, some, List, [], ◌∷◌, ◌++◌, append_assoc,
  append-nil, arith, Bytes, ltb, length, length-append, take-append_le, All-append, if_split,
}
use rtail.Wal.Frame.{magic, header, frame, frames, frames-append, image, max_frame}
use rtail.Wal.Replay.RoundTrip.{IsPayload}
use rtail.Wal.Log.{
  Log, Disk, LogError, write_locked, add_frame, after_room, append_payload, needs_room,
}
use rtail.Wal.Log.Holds.{Holds, write_locked-Holds}

image-append : (ps : List Bytes) (p : Bytes) → image (ps ++ p ∷ []) ≡ image ps ++ frame p
unfolding image frames
image-append ps p =
    ap (λ x. magic ++ x)
      (frames-append ps (p ∷ []) ∙ ap (λ x. frames ps ++ x) (append-nil (frame p)))
    ∙ sym (append_assoc magic (frames ps) (frame p))

pub length-image : (ps : List Bytes) → length (image ps) ≡ length (frames ps) + 6
unfolding image
length-image ps = omega arith

-- The frame joins the buffer.
pub add_frame-Holds :
    (l : Log) (ps : List Bytes) (p : Bytes)
    → Holds l ps
    → IsPayload p
    → Holds (add_frame p l) (ps ++ p ∷ [])
unfolding add_frame frame
add_frame-Holds l ps p h ok =
    let buffer : (l.buffer ++ header p) ++ p ≡ l.buffer ++ frame p =
      append_assoc l.buffer (header p) p in
    let longer = length-append ps (p ∷ []) in
    let old : length (ps ++ p ∷ []) - (l.pending + 1) ≡ length ps - l.pending =
      omega (arith, h.pending_le) in
    record {
      front = h.front;
      junk = h.junk;
      rest = h.rest ++ frame p;
      payloads = All-append IsPayload ps (p ∷ []) h.payloads (ok, tt);
      content_is = h.content_is;
      buffer_is =
          buffer ∙ ap (λ x. x ++ frame p) h.buffer_is ∙ append_assoc h.junk h.rest (frame p);
      image_is =
          image-append ps p
          ∙ ap (λ x. x ++ frame p) h.image_is
          ∙ append_assoc h.front l.buffer (frame p)
          ∙ ap (λ x. h.front ++ x) (sym buffer);
      written_is = h.written_is;
      clean = h.clean;
      synced_le_written = h.synced_le_written;
      synced_le_stable = h.synced_le_stable;
      stable_le = h.stable_le;
      listed_named = h.listed_named;
      pending_le = omega (arith, longer, h.pending_le);
      acked =
          rw old (rw (take-append_le (length ps - l.pending) ps (p ∷ []) (omega arith)) h.acked);
      acked_listed = λ lt. h.acked_listed (omega (arith, longer));
    }

-- What `Append` leaves: the record is in on nil, and was never there on an error.
abbrev pub Appended : List Bytes → Bytes → Log × Option LogError → Type 0
Appended ps p (l, none) = Holds l (ps ++ p ∷ [])
Appended ps p (l, some _) = Holds l ps

after_room-Appended :
    (ps : List Bytes) (p : Bytes) (r : Log × Option LogError)
    → Holds r.0 ps
    → IsPayload p
    → Appended ps p (after_room p r)
unfolding after_room
after_room-Appended ps p (l, none) h ok = add_frame-Holds l ps p h ok
after_room-Appended ps p (l, some e) h ok = h

-- In a log whose invariant holds, an append of a non-empty payload that returns nil leaves the log
-- holding the old payloads followed by that one, and an append that returns an error leaves it
-- holding the old ones, whatever the disk answers.
pub append_payload-Appended :
    (d : Disk) (l : Log) (ps : List Bytes) (p : Bytes)
    → Holds l ps
    → 0 < length p
    → Appended ps p (append_payload d p l)
unfolding append_payload
append_payload-Appended d l ps p h positive =
    if_split (Appended ps p) (ltb max_frame (length p)) (λ _. h)
      (λ small.
        let ok : IsPayload p = (positive, ground arith) in
        if_split (Appended ps p) l.closed (λ _. h)
          (λ _.
            if_split (Appended ps p) (needs_room p l) {y = after_room p (l, none)}
              (λ _. after_room-Appended ps p (write_locked d l) (write_locked-Holds d l h) ok)
              (λ _. after_room-Appended ps p (l, none) h ok)))

-- What a call under `mu` leaves alone or only grows.
pub record Grows (l l' : Log) : Type 0 where
  pub written_grows : l.written ≤ l'.written
  pub synced_same : l'.synced ≡ l.synced
  pub pending_same : l'.pending ≡ l.pending
  pub listed_same : l'.listed ≡ l.listed
  pub named_same : l'.file.named ≡ l.file.named
  pub active_same : l'.active ≡ l.active
  pub closed_same : l'.closed ≡ l.closed

pub write_locked-Grows : (d : Disk) (l : Log) → Grows l (write_locked d l).0
unfolding write_locked
write_locked-Grows d l = ground arith
