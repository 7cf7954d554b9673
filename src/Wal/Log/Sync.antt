-- ===== src/Wal/Log/Sync.antt =====
-- The fsync, and `Sync` behind it: a nil error makes the captured part durable.
use rtail.Base.{
  ℕ, ◌-◌, ◌≤◌, ◌≡◌, ◌∙◌, ap, refl, Bool, true, Option, none, some, List, arith, Bytes, length,
  length-append,
}
use rtail.Wal.Log.{Log, Disk, LogError, SegmentFile, persist, Capture, sync_result, sync_end}
use rtail.Wal.Log.Holds.{Holds}
use rtail.Wal.Log.Flight.{InFlight}

-- The second half: the capture becomes the synced part on nil, and nothing is lost on an error.
abbrev pub EndsWell : Capture → Log → List Bytes → Log × Option LogError → Type 0
EndsWell c l ps (l', none) =
    Holds l' ps × (l'.file.named ≡ true) × (l'.pending ≡ l.pending - c.covered)
EndsWell c l ps (l', some _) = Holds l' ps

sync_result-Holds :
    (c : Capture) (l : Log) (ps : List Bytes) (f : SegmentFile)
    → Holds l ps
    → InFlight c l ps
    → f.content ≡ l.file.content
    → c.up_to ≤ f.stable
    → f.stable ≤ length l.file.content
    → f.named ≡ true
    → Holds (sync_result c l (f, none)).0 ps
unfolding sync_result
sync_result-Holds c l ps f h i same stable fits named = record {
  front = h.front;
  junk = h.junk;
  rest = h.rest;
  payloads = h.payloads;
  content_is = same ∙ h.content_is;
  buffer_is = h.buffer_is;
  image_is = h.image_is;
  written_is = h.written_is;
  clean = h.clean;
  synced_le_written = i.up_to_le;
  synced_le_stable = stable;
  stable_le = rw same fits;
  listed_named = λ _. named;
  pending_le = omega (arith, h.pending_le);
  acked = i.caught;
  acked_listed = λ _. refl;
}

-- What an fsync leaves of the file.
pub record Persisted (size : ℕ) (f : SegmentFile) (r : SegmentFile × Option LogError) : Type 0 where
  pub content_same : r.0.content ≡ f.content
  pub stable_ge : f.stable ≤ r.0.stable
  pub stable_fits : r.0.stable ≤ length f.content
  pub named_kept : f.named ≡ true → r.0.named ≡ true
  pub on_nil : r.1 ≡ none → (size ≤ r.0.stable) × (r.0.named ≡ true)

pub persist-Persisted :
    (d : Disk) (listed : Bool) (size : ℕ) (f : SegmentFile)
    → size ≤ length f.content
    → f.stable ≤ length f.content
    → (listed ≡ true → f.named ≡ true)
    → Persisted size f (persist d listed size f)
unfolding persist
persist-Persisted d listed size f fits stable named = ground arith

pub file-Holds :
    (l : Log) (ps : List Bytes) (size : ℕ) (r : SegmentFile × Option LogError)
    → Holds l ps
    → Persisted size l.file r
    → Holds (record l { file = r.0 }) ps
file-Holds l ps size r h p = record {
  front = h.front;
  junk = h.junk;
  rest = h.rest;
  payloads = h.payloads;
  content_is = p.content_same ∙ h.content_is;
  buffer_is = h.buffer_is;
  image_is = h.image_is;
  written_is = h.written_is;
  clean = h.clean;
  synced_le_written = h.synced_le_written;
  synced_le_stable = omega (arith, p.stable_ge, h.synced_le_stable);
  stable_le = rw (p.content_same) (p.stable_fits);
  listed_named = λ e. p.named_kept (h.listed_named e);
  pending_le = h.pending_le;
  acked = h.acked;
  acked_listed = h.acked_listed;
}

sync_result-EndsWell :
    (c : Capture) (l : Log) (ps : List Bytes) (r : SegmentFile × Option LogError)
    → Holds l ps
    → InFlight c l ps
    → Persisted c.up_to l.file r
    → EndsWell c l ps (sync_result c l r)
unfolding sync_result
sync_result-EndsWell c l ps (f, none) h i p =
    let (stable, named) = p.on_nil refl in
    (sync_result-Holds c l ps f h i p.content_same stable p.stable_fits named, named, refl)
sync_result-EndsWell c l ps (f, some e) h i p = file-Holds l ps c.up_to (f, some e) h p

pub sync_end-EndsWell :
    (d : Disk) (c : Capture) (l : Log) (ps : List Bytes)
    → Holds l ps
    → InFlight c l ps
    → EndsWell c l ps (sync_end d c l)
unfolding sync_end
sync_end-EndsWell d c l ps h i =
    sync_result-EndsWell c l ps (persist d c.was_listed c.up_to l.file) h i (
      persist-Persisted d c.was_listed c.up_to l.file
        (omega
          (arith, i.up_to_le, h.written_is, ap length h.content_is, length-append h.front h.junk))
        h.stable_le i.was_named)
