-- ===== src/Wal/Tests.antt =====
-- Runs of the log and of replay, and the theorems at concrete inputs.
use rtail.Base.{
  ℕ, ◌+◌, ◌≤◌, ◌≡◌, ◌≢◌, refl, true, false, Option, none, some, List, [], ◌∷◌, ◌++◌, arith, Bytes,
  codes, length, take, replicate, bytes_eq,
}
use rtail.Wal.Frame.{magic, header, frame, frames, image, checksum}
use rtail.Wal.Log.{
  Disk, Log, all, fails_after, open_segment, write_locked, append_payload, sync_begin, sync_locked,
  rotate,
}
use rtail.Wal.Log.Append.{Appended, append_payload-Appended}
use rtail.Wal.Log.Crash.{crash_replay}
use rtail.Wal.Log.Flight.{BeginsWell, sync_begin-BeginsWell}
use rtail.Wal.Log.Holds.{IsWritten, write_locked-IsWritten}
use rtail.Wal.Log.Locked.{SyncsWell, sync_locked-SyncsWell}
use rtail.Wal.Log.Rotate.{RotatesWell, rotate-RotatesWell, open_segment-Holds}
use rtail.Wal.Log.Schedule.{Action, append, begin_sync, end_sync, run, opened, IsSound}
use rtail.Wal.Log.Schedule.Sound.{run-IsSound}
use rtail.Wal.Replay.{
  done, corrupt, checksum_mismatch, stuck, replay, read_full, read_frames, loop, round,
  read_payload, deliver, after_visit, uint32, zero_to_end,
}
use rtail.Wal.Replay.Recovery.{replay-take, replay-image_zeros, replay_damaged}
use rtail.Wal.Replay.RoundTrip.{feed, whole_frames}
use rtail.Wal.Replay.Sound.{Reads, ended, replay-Reads, replay-ne-stuck}

-- The check value of CRC-32C.
checksum_123456789 : checksum (codes "123456789") ≡ 0xe306_9283
unfolding checksum
checksum_123456789 = refl

abbrev two : List Bytes
two = codes "{\"q\":1}" ∷ codes "{\"q\":2}" ∷ []

abbrev identity : Bytes → Option Bytes
identity p = some p

abbrev collect : Bytes → List Bytes → List Bytes × Option ℕ
collect p seen = (seen ++ p ∷ [], none)

replay-two : replay identity collect (image two) [] ≡ (two, done)
unfolding replay read_full read_frames loop round read_payload deliver after_visit uint32 image
    frames frame header bytes_eq checksum
replay-two = refl

replay-take_example :
    replay identity collect (take 20 (image two)) []
    ≡ feed identity collect (take (whole_frames 14 two) two) [] (λ t. (t, done))
replay-take_example = replay-take identity collect two 20 [] (omega arith)

replay-image_zeros_example :
    replay identity collect (image two ++ replicate 9 0) []
    ≡ feed identity collect two [] (λ t. (t, done))
replay-image_zeros_example = replay-image_zeros identity collect two 9 [] (omega arith)

abbrev spoilt : Bytes
spoilt = codes "{\"q\":3}"

checksums_differ : checksum spoilt ≢ checksum (codes "{\"q\":1}")
unfolding checksum
checksums_differ e = omega arith

replay_damaged_example :
    replay identity collect (image two ++ (header (codes "{\"q\":1}") ++ (spoilt ++ 7 ∷ []))) []
    ≡ feed identity collect two [] (λ t. (t, corrupt checksum_mismatch))
unfolding zero_to_end
replay_damaged_example =
    replay_damaged identity collect two (codes "{\"q\":1}") spoilt (7 ∷ []) [] (omega arith)
      (omega arith) refl checksums_differ refl

replay-Reads_example :
    (r : Reads identity collect (codes "RT")) × ((s : List Bytes)
      → replay identity collect (magic ++ codes "RT") s
        ≡ feed identity collect r.payloads s (λ t. (t, ended r.end)))
replay-Reads_example = replay-Reads identity collect (codes "RT") (omega arith)

replay-ne-stuck_example : (replay identity collect (codes "RTWAL?") []).1 ≢ stuck
replay-ne-stuck_example = replay-ne-stuck identity collect (codes "RTWAL?") [] (omega arith)

-- A disk that does as it is told, and one whose write and truncation fail half way.
abbrev good : Disk
good = record {
  write = all;
  truncate_torn = true;
  truncate_partial = true;
  sync = true;
  sync_dir = true;
  create = true;
  close = true;
}

abbrev full_disk : Disk
full_disk = record good { write = fails_after 9; truncate_partial = false }

abbrev actions : List Action
actions =
    append good (codes "{\"q\":1}")
    ∷ begin_sync full_disk
    ∷ begin_sync good
    ∷ append good (codes "{\"q\":2}")
    ∷ end_sync good
    ∷ begin_sync full_disk
    ∷ []

run-IsSound_example : IsSound (run actions (opened 1))
run-IsSound_example = run-IsSound actions 1 (omega arith)

abbrev after : Log
after = (run actions (opened 1)).log

crash_replay_example :
    (k : ℕ) × (replay identity collect (take (length after.file.content) after.file.content) []
      ≡ feed identity collect (take k (run actions (opened 1)).appended) [] (λ t. (t, done)))
    × (length (run actions (opened 1)).appended ≤ k + after.pending)
crash_replay_example =
    crash_replay identity collect after (run actions (opened 1)).appended
      (length after.file.content) [] (run-IsSound actions 1 (omega arith)).log_holds
      (run-IsSound actions 1 (omega arith)).log_holds.stable_le (omega arith)

rotate-RotatesWell_example :
    RotatesWell after.active (run actions (opened 1)).appended (rotate good after)
rotate-RotatesWell_example =
    rotate-RotatesWell good after (run actions (opened 1)).appended
      (run-IsSound actions 1 (omega arith)).log_holds

append_payload-Appended_example :
    Appended [] (codes "{}") (append_payload good (codes "{}") (open_segment 3))
append_payload-Appended_example =
    append_payload-Appended good (open_segment 3) [] (codes "{}") (open_segment-Holds 3)
      (omega arith)

sync_locked-SyncsWell_example : SyncsWell [] (sync_locked full_disk (open_segment 3))
sync_locked-SyncsWell_example =
    sync_locked-SyncsWell full_disk (open_segment 3) [] (open_segment-Holds 3)

sync_begin-BeginsWell_example : BeginsWell [] (sync_begin good (open_segment 3))
sync_begin-BeginsWell_example =
    sync_begin-BeginsWell good (open_segment 3) [] (open_segment-Holds 3)

write_locked-IsWritten_example : IsWritten (write_locked good (open_segment 3)).0 []
unfolding write_locked open_segment
write_locked-IsWritten_example =
    write_locked-IsWritten good (open_segment 3) (open_segment-Holds 3) refl
