-- ===== src/Store/Durable.antt =====
-- `Durable` of internal/logstore/durable.go: Append, flush with seal, retry, replay and persist, and
-- the recovery when the store is opened. What the disk and the database answer in one call is an
-- argument. `P` stands for the rest of a record.
pub mod Cycle
pub mod Runs
pub mod Batches
pub mod Order
pub mod Landing
pub mod Persist
pub mod Sealed
pub mod Replays
pub mod Invariant
pub mod Flushes
pub mod Recovery
pub mod Crash
pub mod Sound
pub mod Listed
pub mod Complete
pub mod Flushed
pub mod Files
mod Tests
use rtail.Base.{
  ℕ, zero, suc, ◌+◌, ◌-◌, ◌*◌, ◌/◌, ◌%◌, ◌^◌, ◌≤◌, ◌<◌, min, String, ◌≡◌, refl, sym, ap, ◌∙◌, ◌≢◌,
  ◌↔◌, ◌⊎◌, inl, inr, Bool, true, false, not, ◌&&◌, ◌||◌, Option, none, some, List, [], ◌∷◌, ◌++◌,
  map, append_assoc, append-nil, arith, ltb, leb, ◌==◌, if◌then◌else◌, ltb→lt, lt→ltb, ==_iff,
  Bool-cases, Option-cases, if_split, option_split, elim_split, length, get_elem?, set, take, drop,
  replicate, length-append, length-take, length-drop, length-replicate, take-append-drop,
  take-length, drop-length, take_all, Bytes, IsByte, codes, bytes_eq, bytes_eq_iff, lookup, put,
  lookup-put_hit, lookup-put_miss, All, All-append, All-take, All-drop,
}
use rtail.Store.Ring.{
  Ring, limited, new_ring, write_end, push_full, push_room, push, item_at, slice_from, slice,
  newest, push_all,
}
use rtail.Store.Memory.{Record, Event, numbered, streams_known, line}

-- The text of an object's name is given by these three.
pub record ObjectName : Type 0 where
  pub segment : Bytes
  pub micros : ℕ
  pub first_seq : ℕ

unfoldable pub path_eq : ObjectName → ObjectName → Bool
path_eq p q = bytes_eq p.segment q.segment && (p.micros == q.micros && p.first_seq == q.first_seq)

-- What the store is built with: `SafeSegment`, a record's time, the size of its line, and the
-- thresholds.
pub record Config (P : Type 0) : Type 0 where
  pub safe_segment : Bytes → Bytes
  pub micros : P → ℕ
  pub raw_size : P → ℕ
  pub backlog : ℕ
  pub flush_rows : ℕ
  pub flush_bytes : ℕ
  pub flush_interval : ℕ
  pub second : ℕ

-- A row of the catalog, with the records in the file.
pub record Row (P : Type 0) : Type 0 where
  pub path : ObjectName
  pub stream : Bytes
  pub max_seq : ℕ
  pub content : List (Record P)

pub record Catalog (P : Type 0) : Type 0 where
  pub files : List (Row P)
  pub max_seq : ℕ

-- What the store sees of the write-ahead log: the active segment, and the sealed ones on disk,
-- oldest first.
pub record Log (P : Type 0) : Type 0 where
  pub number : ℕ
  pub active : List (Record P)
  pub sealed : List (ℕ × List (Record P))

-- How far a segment can be read: to its end, up to damage, or up to another error.
pub data Reading : Type 0 where
  whole : Reading
  damaged unreadable : (records : ℕ) → Reading

pub record Answers : Type 0 where
  pub append_ok : Bool
  pub rotate_ok : Bool
  pub reading : ℕ → Reading
  pub intend_ok : ℕ → Bool
  pub write_ok : ObjectName → Bool
  pub remove_ok : ℕ → Bool
  pub quarantine_ok : ℕ → Bool
  pub now : ℕ

abbrev pub Batch : Type 0 → Type 0
Batch P = List (Bytes × List (Record P))

pub record Durable (P : Type 0) : Type 0 where
  pub seq : ℕ
  pub order : List Bytes
  pub streams : List (Bytes × Ring (Record P))
  pub batch : Batch P
  pub rows : ℕ
  pub bytes : ℕ
  pub closed : Bool
  pub unflushed : List ℕ
  pub kicked : Bool
  pub quiet : ℕ
  pub backoff : ℕ
  pub log : Log P
  pub catalog : Catalog P

module _ {P : Type 0} where
  -- `d.batch[rec.Stream] = append(d.batch[rec.Stream], rec)`
  unfoldable pub add_record : Record P → Batch P → Batch P
  add_record rec batch = elim (lookup rec.stream batch) [
    | none ↦ put rec.stream (rec ∷ []) batch
    | some records ↦ put rec.stream (records ++ rec ∷ []) batch
  ]

  unfoldable pub batch_from : Batch P → List (Record P) → Batch P
  unfolding add_record
  batch_from batch [] = batch
  batch_from batch (x ∷ xs) = batch_from (add_record x batch) xs

  unfoldable pub highest : ℕ → List (Record P) → ℕ
  highest m [] = m
  highest m (x ∷ xs) = highest (if ltb m x.seq then x.seq else m) xs

  unfoldable pub has_path : ObjectName → List (Row P) → Bool
  unfolding path_eq
  has_path p [] = false
  has_path p (r ∷ rs) = path_eq r.path p || has_path p rs

  -- `Register`: a path that is known is left alone.
  unfoldable pub register : Row P → Catalog P → Catalog P
  unfolding has_path
  register row c = if has_path row.path c.files then c else record {
    files = c.files ++ row ∷ [];
    max_seq = if ltb c.max_seq row.max_seq then row.max_seq else c.max_seq;
  }

  unfoldable pub without : ℕ → List (ℕ × List (Record P)) → List (ℕ × List (Record P))
  without n [] = []
  without n ((m, xs) ∷ rest) =
      let later = without n rest in if m == n then later else (m, xs) ∷ later

  unfoldable pub segment : ℕ → List (ℕ × List (Record P)) → Option (List (Record P))
  segment n [] = none
  segment n ((m, xs) ∷ rest) = let later = segment n rest in if m == n then some xs else later

  unfoldable pub remove : ℕ → Log P → Log P
  unfolding without
  remove n l = record l { sealed = without n l.sealed }

  -- What `Replay` hands to its callback.
  unfoldable pub delivered : Reading → List (Record P) → List (Record P)
  delivered whole xs = xs
  delivered (damaged k) xs = take k xs
  delivered (unreadable k) xs = take k xs
