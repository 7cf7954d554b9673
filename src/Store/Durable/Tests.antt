-- ===== src/Store/Durable/Tests.antt =====
-- Runs of internal/logstore/durable.go at concrete inputs.
use mathlib.Core.List.{Memᴰ}
use mathlib.Core.List.Memᴰ.{head, tail}
use rtail.Base.{ℕ, ◌≡◌, refl, true, List, [], ◌∷◌, ◌++◌, arith, codes, Bytes, bytes_eq, put, lookup}
use rtail.Store.Memory.{Record, numbered}
use rtail.Store.Durable.{
  path_eq, Config, Row, whole, unreadable, Answers, Durable, add_record, batch_from, highest,
  has_path, register, without, segment, remove, delivered,
}
use rtail.Store.Durable.Cycle.{
  object_name, row_of, write_streams, nothing_to_write, persist, retire_segment, replay_records,
  replay, retry, rotate, flush_sealed, seal_and_flush, flush,
}
use rtail.Store.Durable.Runs.{
  ingest, append, recover, open_durable, crashed, Step, append_step, flush_step, crash_step, step,
  run, new_durable,
}
use rtail.Store.Durable.Replays.{Intact}
use rtail.Store.Durable.Order.{Rising}
use rtail.Store.Durable.Landing.{PathsApart}
use rtail.Store.Durable.Sound.{taken, taken_in, Healthy, HealthyRun}
use rtail.Store.Durable.Flushed.{flush-written}
use rtail.Store.Durable.Files.{Found, run-Found, run-content, run-once, run-Rising}

abbrev small : Config ℕ
small = record {
  safe_segment = λ s. s;
  micros = λ n. n;
  raw_size = λ n. n;
  backlog = 4;
  flush_rows = 2;
  flush_bytes = 1000;
  flush_interval = 100;
  second = 10;
}

abbrev fine : Answers
fine = record {
  append_ok = true;
  rotate_ok = true;
  reading = λ n. whole;
  intend_ok = λ n. true;
  write_ok = λ p. true;
  remove_ok = λ n. true;
  quarantine_ok = λ n. true;
  now = 0;
}

-- The disk takes the files of the stream `web` only.
abbrev half : Answers
half = record fine { write_ok = λ p. bytes_eq p.segment (codes "web") }

abbrev web : ℕ → Record ℕ
web n = record { stream = codes "web"; seq = 0; rest = n }

abbrev db : ℕ → Record ℕ
db n = record { stream = codes "db"; seq = 0; rest = n }

-- A flush that fails half way, a record, a crash that leaves it on disk, and one more.
abbrev night : List (Step small)
night =
    append_step fine (web 7)
    ∷ append_step fine (db 8)
    ∷ flush_step half true
    ∷ append_step fine (web 9)
    ∷ crash_step fine 1 [] []
    ∷ append_step fine (db 10)
    ∷ []

abbrev at : Bytes → ℕ → ℕ → Record ℕ
at stream n payload = record { stream = stream; seq = n; rest = payload }

-- What it took, and the files it has
abbrev records : List (Record ℕ)
records =
    at (codes "web") 1 7 ∷ at (codes "db") 2 8 ∷ at (codes "web") 3 9 ∷ at (codes "db") 4 10 ∷ []

abbrev file : Record ℕ → Row ℕ
file x = record {
  path = record { segment = x.stream; micros = x.rest; first_seq = x.seq };
  stream = x.stream;
  max_seq = x.seq;
  content = x ∷ [];
}

abbrev opened : Durable ℕ
opened = run small night (new_durable small)

night-taken : taken_in small night (new_durable small) [] ≡ records
unfolding run taken_in taken step append ingest numbered flush retry seal_and_flush flush_sealed
    persist write_streams nothing_to_write row_of object_name register has_path path_eq rotate
    replay replay_records retire_segment open_durable recover crashed add_record batch_from highest
    segment delivered remove without put lookup bytes_eq
night-taken = refl

night-files :
    opened.catalog.files
    ≡ file (at (codes "web") 1 7) ∷ file (at (codes "db") 2 8) ∷ file (at (codes "web") 3 9) ∷ []
unfolding run taken_in taken step append ingest numbered flush retry seal_and_flush flush_sealed
    persist write_streams nothing_to_write row_of object_name register has_path path_eq rotate
    replay replay_records retire_segment open_durable recover crashed add_record batch_from highest
    segment delivered remove without put lookup bytes_eq
night-files = refl

night-HealthyRun : HealthyRun small night (new_durable small)
unfolding HealthyRun Healthy Intact run taken_in taken step append ingest numbered flush retry
    seal_and_flush flush_sealed persist write_streams nothing_to_write row_of object_name register
    has_path path_eq rotate replay replay_records retire_segment open_durable recover crashed
    add_record batch_from highest segment delivered remove without put lookup bytes_eq
night-HealthyRun =
    (omega arith, (omega arith, ((λ n. tt), (omega arith, ((λ n. refl), (omega arith, tt))))))

run-Found_example : Found small (at (codes "web") 3 9) opened
run-Found_example =
    run-Found small night (at (codes "web") 3 9) night-HealthyRun
      (rw night-taken (tail (tail (head refl))))

run-content_example :
    Memᴰ (at (codes "db") 2 8) (taken_in small night (new_durable small) [])
    × (codes "db" ≡ codes "db")
run-content_example =
    run-content small night (file (at (codes "db") 2 8)) (at (codes "db") 2 8) night-HealthyRun
      (rw night-files (tail (head refl))) (head refl)

run-once_example :
    PathsApart opened.catalog.files
    × (file (at (codes "web") 3 9) ≡ file (at (codes "web") 3 9))
    × (at (codes "web") 3 9 ≡ at (codes "web") 3 9)
run-once_example =
    run-once small night (file (at (codes "web") 3 9)) (file (at (codes "web") 3 9))
      (at (codes "web") 3 9) (at (codes "web") 3 9) night-HealthyRun
      (rw night-files (tail (tail (head refl)))) (rw night-files (tail (tail (head refl))))
      (head refl) (head refl) refl

run-Rising_example : Rising 0 (taken_in small night (new_durable small) [])
run-Rising_example = run-Rising small night night-HealthyRun

flush-written_example :
    (row : Row ℕ) × Memᴰ row (flush small fine true opened).0.catalog.files
    × Memᴰ (at (codes "db") 4 10) row.content
unfolding run step append ingest numbered flush retry seal_and_flush flush_sealed persist
    write_streams nothing_to_write row_of object_name register has_path path_eq rotate replay
    replay_records retire_segment open_durable recover crashed add_record batch_from highest segment
    delivered remove without put lookup bytes_eq Intact
flush-written_example =
    flush-written small night fine true (at (codes "db") 4 10) night-HealthyRun refl (λ n. tt) refl
      (rw night-taken (tail (tail (tail (head refl)))))

-- A segment that breaks off by an error of the disk counts only as far as it was read, and so its
-- third number is given out again.
abbrev unread : Answers
unread = record fine { reading = λ n. unreadable 2 }

abbrev three : List (Step small)
three = append_step fine (web 1) ∷ append_step fine (web 2) ∷ append_step fine (web 3) ∷ []

reopened_seq :
    (run small
      (three ++ crash_step unread 3 [] [] ∷ append_step fine (db 4) ∷ [])
      (new_durable small)).seq
    ≡ 3
unfolding run step append ingest numbered flush retry seal_and_flush flush_sealed persist
    write_streams nothing_to_write row_of object_name register has_path path_eq rotate replay
    replay_records retire_segment open_durable recover crashed add_record batch_from highest segment
    delivered remove without put lookup bytes_eq
reopened_seq = refl
