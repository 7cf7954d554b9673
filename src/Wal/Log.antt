-- ===== src/Wal/Log.antt =====
-- The log's state and methods, internal/wal/wal.go: `Append`, `writeLocked`, `dirtyLocked`, `Sync`,
-- `syncLocked`, `persist`, `Rotate` and `Close`. What the disk answers during one call is the
-- argument `d`. `Sync` is two functions, since it lets go of `mu` while the fsync runs and appends
-- go on in between. The capacity of the buffer is left out, and so is the wrap of `active` at 2 ^ 64.
pub mod Holds
pub mod Append
pub mod Flight
pub mod Sync
pub mod Locked
pub mod Rotate
pub mod Crash
pub mod Schedule
use rtail.Base.{
  ℕ, ◌+◌, ◌-◌, Bool, true, false, not, ◌&&◌, ◌||◌, Option, none, some, [], ◌++◌, Bytes, ◌==◌, ltb,
  if◌then◌else◌, length, take,
}
use Prim.Native.Nat.{max}
use rtail.Wal.Frame.{magic, max_frame, buffer_size, header}

-- A segment file: what a read of it returns, how many of its bytes a power loss cannot take, and
-- whether its directory entry is durable. The code sees none of the last two.
pub record SegmentFile : Type 0 where
  pub content : Bytes
  pub stable : ℕ
  pub named : Bool

pub record Log : Type 0 where
  pub file : SegmentFile
  pub active : ℕ
  pub closed : Bool
  pub buffer : Bytes
  pub written : ℕ
  pub synced : ℕ
  pub torn : Bool
  pub pending : ℕ
  pub listed : Bool

-- `Write` takes the whole buffer, or fails behind some bytes of it.
pub data WriteAnswer : Type 0 where
  all : WriteAnswer
  fails_after : ℕ → WriteAnswer

-- `true` is a nil error. The two truncations are the one before a write and the one behind it.
pub record Disk : Type 0 where
  pub write : WriteAnswer
  pub truncate_torn : Bool
  pub truncate_partial : Bool
  pub sync : Bool
  pub sync_dir : Bool
  pub create : Bool
  pub close : Bool

pub data LogError : Type 0 where
  encoding too_big log_closed truncating writing syncing syncing_dir opening closing : LogError

-- `file.Truncate(size)`
unfoldable pub truncate : ℕ → SegmentFile → SegmentFile
truncate size f = record f {
  content = take size f.content;
  stable = if ltb size f.stable then size else f.stable;
}

-- A write goes to the end: the file is open with `O_APPEND`.
unfoldable pub write_bytes : Bytes → SegmentFile → SegmentFile
write_bytes bs f = record f { content = f.content ++ bs }

-- What is left to do behind a write that failed behind `n` bytes.
unfoldable pub cut_partial : Disk → ℕ → Log → Log
unfolding truncate
cut_partial d n l =
    if ltb 0 n
    then if d.truncate_partial
      then record l { file = truncate l.written l.file }
      else record l { torn = true }
    else l

unfoldable pub write_answer : Disk → WriteAnswer → Log → Log × Option LogError
unfolding write_bytes cut_partial
write_answer d all l = (
  record l {
    file = write_bytes l.buffer l.file;
    written = l.written + length l.buffer;
    buffer = [];
  },
  none,
)
write_answer d (fails_after n) l =
    (cut_partial d n (record l { file = write_bytes (take n l.buffer) l.file }), some writing)

unfoldable pub write_buffer : Disk → Log → Log × Option LogError
unfolding write_answer
write_buffer d l = if length l.buffer == 0 then (l, none) else write_answer d d.write l

unfoldable pub write_locked : Disk → Log → Log × Option LogError
unfolding write_buffer truncate
write_locked d l =
    if l.torn
    then if d.truncate_torn
      then write_buffer d (record l { file = truncate l.written l.file; torn = false })
      else (l, some truncating)
    else write_buffer d l

unfoldable pub add_frame : Bytes → Log → Log
add_frame payload l = record l {
  buffer = (l.buffer ++ header payload) ++ payload;
  pending = l.pending + 1;
}

unfoldable pub after_room : Bytes → Log × Option LogError → Log × Option LogError
unfolding add_frame
after_room payload (l, none) = (add_frame payload l, none)
after_room payload (l, some e) = (l, some e)

abbrev pub needs_room : Bytes → Log → Bool
needs_room payload l =
    not (length l.buffer == 0) && ltb buffer_size (length l.buffer + 8 + length payload)

-- `Append`, once the record is encoded
unfoldable pub append_payload : Disk → Bytes → Log → Log × Option LogError
unfolding after_room
append_payload d payload l =
    if ltb max_frame (length payload)
    then (l, some too_big)
    else if l.closed
    then (l, some log_closed)
    else if needs_room payload l
    then after_room payload (write_locked d l)
    else after_room payload (l, none)

unfoldable pub append :
    {Rec : Type 0} → (Rec → Option Bytes) → Disk → Rec → Log → Log × Option LogError
append marshal d rec l = elim (marshal rec) [
  | none ↦ (l, some encoding)
  | some payload ↦ append_payload d payload l
]

unfoldable pub dirty_locked : Log → Bool
dirty_locked l =
    not (length l.buffer == 0) || (l.torn || (not (l.written == l.synced) || not l.listed))

-- `persist`; `size` is how many bytes the file held when the fsync began.
unfoldable pub persist : Disk → Bool → ℕ → SegmentFile → SegmentFile × Option LogError
persist d listed size f =
    let f' = record f { stable = max f.stable size } in
    if not d.sync
    then (f, some syncing)
    else if listed
    then (f', none)
    else if d.sync_dir
    then (record f' { named = true }, none)
    else (f', some syncing_dir)

-- What `Sync` keeps across the fsync.
pub record Capture : Type 0 where
  pub up_to : ℕ
  pub was_listed : Bool
  pub covered : ℕ

pub data Begun : Type 0 where
  nothing : Begun
  failed : LogError → Begun
  flying : Capture → Begun

unfoldable pub begun : Log × Option LogError → Log × Begun
begun (l, none) =
    (l, flying (record { up_to = l.written; was_listed = l.listed; covered = l.pending }))
begun (l, some e) = (l, failed e)

-- `Sync` up to where it lets go of `mu`
unfoldable pub sync_begin : Disk → Log → Log × Begun
unfolding begun
sync_begin d l = if l.closed || not (dirty_locked l) then (l, nothing) else begun (write_locked d l)

unfoldable pub sync_result : Capture → Log → SegmentFile × Option LogError → Log × Option LogError
sync_result c l (f, none) =
    (record l { file = f; synced = c.up_to; listed = true; pending = l.pending - c.covered }, none)
sync_result c l (f, some e) = (record l { file = f }, some e)

-- The fsync, and `Sync` behind it. The log may have changed since `sync_begin`.
unfoldable pub sync_end : Disk → Capture → Log → Log × Option LogError
unfolding sync_result
sync_end d c l = sync_result c l (persist d c.was_listed c.up_to l.file)

unfoldable pub locked_result : Log → SegmentFile × Option LogError → Log × Option LogError
locked_result l (f, none) =
    (record l { file = f; synced = l.written; listed = true; pending = 0 }, none)
locked_result l (f, some e) = (record l { file = f }, some e)

unfoldable pub locked_write : Disk → Log × Option LogError → Log × Option LogError
unfolding locked_result
locked_write d (l, none) = locked_result l (persist d l.listed (length l.file.content) l.file)
locked_write d (l, some e) = (l, some e)

unfoldable pub sync_locked : Disk → Log → Log × Option LogError
unfolding locked_write
sync_locked d l = if not (dirty_locked l) then (l, none) else locked_write d (write_locked d l)

abbrev pub empty_file : SegmentFile
empty_file = record { content = []; stable = 0; named = false }

-- `openSegment`, when the file could be opened
unfoldable pub open_segment : ℕ → Log
open_segment number = record {
  file = empty_file;
  active = number;
  closed = false;
  buffer = magic;
  written = 0;
  synced = 0;
  torn = false;
  pending = 0;
  listed = false;
}

-- The sealed segment's number and file, or the error.
pub data Rotated : Type 0 where
  sealed : ℕ → SegmentFile → Rotated
  not_sealed : LogError → Rotated

unfoldable pub rotate_synced : Disk → Log × Option LogError → Log × Rotated
unfolding open_segment
rotate_synced d (l, none) =
    if d.create
    then (open_segment (l.active + 1), sealed l.active l.file)
    else (l, not_sealed opening)
rotate_synced d (l, some e) = (l, not_sealed e)

unfoldable pub rotate : Disk → Log → Log × Rotated
unfolding rotate_synced
rotate d l = if l.closed then (l, not_sealed log_closed) else rotate_synced d (sync_locked d l)

unfoldable pub close_synced : Disk → Log × Option LogError → Log × Option LogError
close_synced d (l, none) = (record l { closed = true }, if d.close then none else some closing)
close_synced d (l, some e) = (record l { closed = true }, some e)

unfoldable pub close : Disk → Log → Log × Option LogError
unfolding close_synced
close d l = if l.closed then (l, none) else close_synced d (sync_locked d l)
