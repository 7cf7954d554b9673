-- ===== src/Wal/Log/Schedule.antt =====
-- Any interleaving of the log's methods, with any answers of the disk. `syncing` serializes `Sync`,
-- `Rotate` and `Close`: while a sync is in flight the others wait, and appends go on.
pub mod Sound
use rtail.Base.{
  ℕ, ◌+◌, ◌-◌, ◌≤◌, ◌<◌, ◌≡◌, ◌∙◌, ap, sym, refl, Bool, true, false, Option, none, some, List, [],
  ◌∷◌, ◌++◌, append_assoc, append-nil, arith, Bytes, length, All, All-append, option_split,
}
use mathlib.Core.Path.{subst}
use rtail.Wal.Log.{
  Log, Disk, LogError, SegmentFile, Capture, Begun, nothing, failed, flying, Rotated, sealed,
  not_sealed, append_payload, sync_begin, sync_end, rotate, close, open_segment, add_frame,
  after_room,
}
use rtail.Wal.Log.Append.{Appended, append_payload-Appended}
use rtail.Wal.Log.Holds.{Holds}
use rtail.Wal.Log.Rotate.{IsSealed, RotatesWell, rotate-RotatesWell, open_segment-Holds}
use rtail.Wal.Log.Flight.{InFlight}

-- A sealed segment in the directory, with the payloads that were appended to it.
pub record Segment : Type 0 where
  pub number : ℕ
  pub file : SegmentFile
  pub held : List Bytes

-- `accepted` lists what `Append` returned nil for, and `appended` what of it went to the active
-- segment: a record of what happened, which the code does not keep.
pub record World : Type 0 where
  pub log : Log
  pub flight : Option Capture
  pub segments : List Segment
  pub appended : List Bytes
  pub accepted : List Bytes

pub data Action : Type 0 where
  append : Disk → Bytes → Action
  begin_sync end_sync rotation closing : Disk → Action

unfoldable pub appended_to : World → Bytes → Log × Option LogError → World
appended_to w p (l, none) = record w {
  log = l;
  appended = w.appended ++ p ∷ [];
  accepted = w.accepted ++ p ∷ [];
}
appended_to w p (l, some _) = record w { log = l }

unfoldable pub begun_to : World → Log × Begun → World
begun_to w (l, flying c) = record w { log = l; flight = some c }
begun_to w (l, _) = record w { log = l }

unfoldable pub rotated_to : World → Log × Rotated → World
rotated_to w (l, sealed n f) = record w {
  log = l;
  segments = w.segments ++ record { number = n; file = f; held = w.appended } ∷ [];
  appended = [];
}
rotated_to w (l, not_sealed _) = record w { log = l }

-- A method that waits for `syncing` leaves the world as it is.
unfoldable pub step : Action → World → World
unfolding appended_to begun_to rotated_to
step (append d p) w = appended_to w p (append_payload d p w.log)
step (begin_sync d) w = elim w.flight [ none ↦ begun_to w (sync_begin d w.log) | some c ↦ w ]
step (end_sync d) w = elim w.flight [
  | none ↦ w
  | some c ↦ record w { log = (sync_end d c w.log).0; flight = none }
]
step (rotation d) w = elim w.flight [ none ↦ rotated_to w (rotate d w.log) | some c ↦ w ]
step (closing d) w = elim w.flight [ none ↦ record w { log = (close d w.log).0 } | some c ↦ w ]

unfoldable pub run : List Action → World → World
run [] w = w
run (a ∷ rest) w = run rest (step a w)

-- The log as `Open` leaves it.
abbrev pub opened : ℕ → World
opened number = record {
  log = open_segment number;
  flight = none;
  segments = [];
  appended = [];
  accepted = [];
}

-- An encoded record is not empty.
abbrev pub IsRecordAction : Action → Type 0
IsRecordAction (append d p) = 0 < length p
IsRecordAction _ = Unit

abbrev pub FlightHolds : Option Capture → Log → List Bytes → Type 0
FlightHolds none l ps = Unit
FlightHolds (some c) l ps = InFlight c l ps

abbrev pub all_held : List Segment → List Bytes
all_held [] = []
all_held (s ∷ ss) = s.held ++ all_held ss

pub record IsSound (w : World) : Type 0 where
  pub log_holds : Holds w.log w.appended
  pub flight_holds : FlightHolds w.flight w.log w.appended
  pub all_sealed : All (λ s. IsSealed s.file s.held) w.segments
  pub nothing_lost : w.accepted ≡ all_held w.segments ++ w.appended
