-- ===== src/Wal/Log/Flight.antt =====
-- `Sync` up to the fsync, and the appends that go on while it runs.
use rtail.Base.{
  ltb, ◌+◌, ◌-◌, ◌≤◌, ◌≡◌, ◌∙◌, refl, true, not, ◌||◌, Option, none, some, List, [], ◌∷◌, ◌++◌,
  arith, Bytes, length, take, length-append, take-append_le, take-length, if_split,
}
use rtail.Wal.Frame.{max_frame, frames}
use rtail.Wal.Log.{
  append_payload, after_room, needs_room, Log, Disk, LogError, write_locked, add_frame, Capture,
  Begun, nothing, failed, flying, begun, sync_begin, dirty_locked,
}
use rtail.Wal.Log.Holds.{Holds, IsWritten, write_locked-Holds, write_locked-IsWritten}
use rtail.Wal.Log.Append.{write_locked-Grows, length-image, Grows}

-- A sync between its two halves. What it caught is in the file, and stays there.
pub record InFlight (c : Capture) (l : Log) (ps : List Bytes) : Type 0 where
  pub up_to_le : c.up_to ≤ l.written
  pub synced_le_up_to : l.synced ≤ c.up_to
  pub covered_le : c.covered ≤ l.pending
  pub caught : length (frames (take (length ps - (l.pending - c.covered)) ps)) ≤ c.up_to - 6
  pub was_named : c.was_listed ≡ true → l.file.named ≡ true

pub IsWritten-frames :
    {l : Log} {ps : List Bytes} → IsWritten l ps → l.written ≡ length (frames ps) + 6
IsWritten-frames {ps} w = w.written_all ∙ length-image ps

capture-InFlight :
    (l : Log) (ps : List Bytes)
    → Holds l ps
    → IsWritten l ps
    → InFlight (record { up_to = l.written; was_listed = l.listed; covered = l.pending }) l ps
capture-InFlight l ps h w =
    let none_left : length ps - (l.pending - l.pending) ≡ length ps = omega arith in
    record {
      up_to_le = omega arith;
      synced_le_up_to = h.synced_le_written;
      covered_le = omega arith;
      caught = rw (none_left, take-length) (omega (arith, IsWritten-frames w));
      was_named = h.listed_named;
    }

-- What `sync_begin` leaves, whichever way it ends.
abbrev pub BeginsWell : List Bytes → Log × Begun → Type 0
BeginsWell ps (l, nothing) = Holds l ps
BeginsWell ps (l, failed _) = Holds l ps
BeginsWell ps (l, flying c) =
    Holds l ps × InFlight c l ps × (c.up_to ≡ length (frames ps) + 6) × (c.covered ≡ l.pending)

begun-BeginsWell :
    (ps : List Bytes) (r : Log × Option LogError)
    → Holds r.0 ps
    → (r.1 ≡ none → IsWritten r.0 ps)
    → BeginsWell ps (begun r)
unfolding begun
begun-BeginsWell ps (l, none) h w =
    (h, capture-InFlight l ps h (w refl), IsWritten-frames (w refl), refl)
begun-BeginsWell ps (l, some e) h w = h

pub sync_begin-BeginsWell :
    (d : Disk) (l : Log) (ps : List Bytes) → Holds l ps → BeginsWell ps (sync_begin d l)
unfolding sync_begin
sync_begin-BeginsWell d l ps h =
    if_split (BeginsWell ps) (l.closed || not (dirty_locked l)) (λ _. h)
      (λ _.
        begun-BeginsWell ps (write_locked d l) (write_locked-Holds d l h)
          (write_locked-IsWritten d l h))

-- An append during the fsync leaves the capture in flight.
add_frame-InFlight :
    (c : Capture) (l : Log) (ps : List Bytes) (p : Bytes)
    → Holds l ps
    → InFlight c l ps
    → InFlight c (add_frame p l) (ps ++ p ∷ [])
unfolding add_frame
add_frame-InFlight c l ps p h f =
    let longer = length-append ps (p ∷ []) in
    let old : length (ps ++ p ∷ []) - (l.pending + 1 - c.covered)
        ≡ length ps - (l.pending - c.covered) =
      omega (arith, h.pending_le, f.covered_le) in
    record {
      up_to_le = f.up_to_le;
      synced_le_up_to = f.synced_le_up_to;
      covered_le = omega (arith, f.covered_le);
      caught = rw old (
          rw (take-append_le (length ps - (l.pending - c.covered)) ps (p ∷ []) (omega arith))
            f.caught);
      was_named = f.was_named;
    }

Grows-InFlight :
    (c : Capture) (l l' : Log) (ps : List Bytes) → Grows l l' → InFlight c l ps → InFlight c l' ps
Grows-InFlight c l l' ps g f = record {
  up_to_le = omega (arith, g.written_grows, f.up_to_le);
  synced_le_up_to = omega (arith, g.synced_same, f.synced_le_up_to);
  covered_le = omega (arith, g.pending_same, f.covered_le);
  caught = rw g.pending_same f.caught;
  was_named = λ e. g.named_same ∙ f.was_named e;
}

-- `Append` while a sync is in flight: what the sync caught stays caught.
abbrev pub StaysCaught : Capture → List Bytes → Bytes → Log × Option LogError → Type 0
StaysCaught c ps p (l, none) = InFlight c l (ps ++ p ∷ [])
StaysCaught c ps p (l, some _) = InFlight c l ps

after_room-StaysCaught :
    (c : Capture) (ps : List Bytes) (p : Bytes) (r : Log × Option LogError)
    → Holds r.0 ps
    → InFlight c r.0 ps
    → StaysCaught c ps p (after_room p r)
unfolding after_room
after_room-StaysCaught c ps p (l, none) h i = add_frame-InFlight c l ps p h i
after_room-StaysCaught c ps p (l, some e) h i = i

pub append_payload-StaysCaught :
    (d : Disk) (c : Capture) (l : Log) (ps : List Bytes) (p : Bytes)
    → Holds l ps
    → InFlight c l ps
    → StaysCaught c ps p (append_payload d p l)
unfolding append_payload
append_payload-StaysCaught d c l ps p h i =
    if_split (StaysCaught c ps p) (ltb max_frame (length p)) (λ _. i)
      (λ _.
        if_split (StaysCaught c ps p) l.closed (λ _. i)
          (λ _.
            if_split (StaysCaught c ps p) (needs_room p l) {y = after_room p (l, none)}
              (λ _.
                after_room-StaysCaught c ps p (write_locked d l) (write_locked-Holds d l h)
                  (Grows-InFlight c l _ ps (write_locked-Grows d l) i))
              (λ _. after_room-StaysCaught c ps p (l, none) h i)))
