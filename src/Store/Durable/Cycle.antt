-- ===== src/Store/Durable/Cycle.antt =====
-- The methods of `Durable` in internal/logstore/durable.go. A crash in the middle of a flush is a flush
-- in which the disk answers no more, followed by the opening of the store.
use rtail.Base.{
  ℕ, ◌+◌, ◌*◌, min, Bool, true, false, not, ◌&&◌, ◌||◌, none, some, List, [], ◌∷◌, ◌++◌, ltb, ◌==◌,
  if◌then◌else◌, take, Bytes,
}
use rtail.Store.Memory.{Record}
use rtail.Store.Durable.{
  ObjectName, Config, Row, Catalog, Log, Reading, damaged, unreadable, Answers, Batch, Durable,
  batch_from, highest, has_path, register, segment, remove, delivered,
}

module _ {P : Type 0} (cfg : Config P) where
  unfoldable pub object_name : Record P → ObjectName
  object_name first = record {
    segment = cfg.safe_segment first.stream;
    micros = cfg.micros first.rest;
    first_seq = first.seq;
  }

  -- `write`: the file of one stream, with its row
  unfoldable pub row_of : Bytes → Record P → List (Record P) → Row P
  unfolding object_name
  row_of stream first rest = record {
    path = object_name first;
    stream = stream;
    max_seq = highest 0 (first ∷ rest);
    content = first ∷ rest;
  }

  -- The loop of `persist`. A write that is not answered by success registers nothing.
  unfoldable pub write_streams :
      (ObjectName → Bool) → (ObjectName → Bool) → Batch P → Catalog P → Catalog P × Bool
  unfolding row_of
  write_streams registered write_ok [] c = (c, true)
  write_streams registered write_ok ((stream, []) ∷ batch) c =
      write_streams registered write_ok batch c
  write_streams registered write_ok ((stream, first ∷ rest) ∷ batch) c =
      let row = row_of stream first rest in
      let landed = write_streams registered write_ok batch (register row c) in
      let passed = write_streams registered write_ok batch c in
      if registered row.path
      then passed
      else if write_ok row.path
      then landed
      else (passed.0, false)

  unfoldable pub nothing_to_write : Batch P → Bool
  nothing_to_write [] = true
  nothing_to_write ((stream, []) ∷ batch) = nothing_to_write batch
  nothing_to_write ((stream, first ∷ rest) ∷ batch) = false

  -- `persist`; the segment's number only selects the answer to `Intend`.
  unfoldable pub persist : Answers → ℕ → Batch P → Catalog P → Catalog P × Bool
  unfolding write_streams nothing_to_write
  persist a n batch c =
      if nothing_to_write batch
      then (c, true)
      else if a.intend_ok n
      then write_streams (λ p. has_path p c.files) a.write_ok batch c
      else (c, false)

  -- What `replay` leaves behind, whether it returned nil, and the highest number it met.
  pub record Replayed : Type 0 where
    pub log : Log P
    pub catalog : Catalog P
    pub fine : Bool
    pub highest_seq : ℕ

  -- `replay` behind `persist`
  unfoldable pub retire_segment : Answers → ℕ → Log P → Reading → ℕ → Catalog P × Bool → Replayed
  retire_segment a n l reading m (c, false) = record {
    log = l;
    catalog = c;
    fine = false;
    highest_seq = m;
  }
  retire_segment a n l (damaged k) m (c, true) =
      if a.quarantine_ok n
      then record { log = remove n l; catalog = c; fine = true; highest_seq = m }
      else record { log = l; catalog = c; fine = false; highest_seq = m }
  retire_segment a n l reading m (c, true) =
      if a.remove_ok n
      then record { log = remove n l; catalog = c; fine = true; highest_seq = m }
      else record { log = l; catalog = c; fine = false; highest_seq = m }

  unfoldable pub replay_records :
      Answers → ℕ → Log P → Catalog P → Reading → List (Record P) → Replayed
  unfolding retire_segment persist
  replay_records a n l c (unreadable k) xs = record {
    log = l;
    catalog = c;
    fine = false;
    highest_seq = highest 0 (take k xs);
  }
  replay_records a n l c reading xs =
      let read = delivered reading xs in
      retire_segment a n l reading (highest 0 read) (persist a n (batch_from [] read) c)

  -- `replay`; a segment that is not there cannot be opened.
  unfoldable pub replay : Answers → ℕ → Log P → Catalog P → Replayed
  unfolding replay_records
  replay a n l c = elim (segment n l.sealed) [
    | none ↦ record { log = l; catalog = c; fine = false; highest_seq = 0 }
    | some xs ↦ replay_records a n l c (a.reading n) xs
  ]

  -- `retry`: the segments that remain
  unfoldable pub retry : Answers → List ℕ → Log P → Catalog P → Log P × Catalog P × List ℕ
  unfolding replay
  retry a [] l c = (l, c, [])
  retry a (n ∷ ns) l c =
      let r = replay a n l c in
      let (l', c', remaining) = retry a ns r.log r.catalog in
      (l', c', if r.fine then remaining else n ∷ remaining)

  -- `backOff`
  unfoldable pub back_off : ℕ → Durable P → Durable P
  back_off now d =
      let doubled = 2 * d.backoff in
      let wait = min (if ltb doubled cfg.second then cfg.second else doubled) cfg.flush_interval in
      record d { backoff = wait; quiet = now + wait }

  -- `Rotate`, as the log's own model shows it
  unfoldable pub rotate : Log P → Log P
  rotate l = record {
    number = l.number + 1;
    active = [];
    sealed = l.sealed ++ (l.number, l.active) ∷ [];
  }

  -- `flush` behind `seal`, for the batch of the segment `n`
  unfoldable pub flush_sealed : Answers → Bool → ℕ → Batch P → Durable P → Durable P × Bool
  unfolding persist
  flush_sealed a retire n batch d =
      let (c, fine) = persist a n batch d.catalog in
      if fine
      then if not retire
        then (record d { catalog = c }, true)
        else if a.remove_ok n
        then (record d { catalog = c; log = remove n d.log }, true)
        else (record d { catalog = c; unflushed = d.unflushed ++ n ∷ [] }, true)
      else (record d { catalog = c; unflushed = d.unflushed ++ n ∷ [] }, false)

  -- `seal` and the rest of `flush`, behind `retry`
  unfoldable pub seal_and_flush : Answers → Bool → Durable P → Durable P × Bool
  unfolding back_off flush_sealed rotate
  seal_and_flush a retire d =
      if d.closed || d.rows == 0
      then (d, true)
      else if not a.rotate_ok
      then (back_off a.now d, false)
      else flush_sealed a retire d.log.number d.batch
          (record d { log = rotate d.log; batch = []; rows = 0; bytes = 0; backoff = 0; quiet = 0 })

  unfoldable pub flush : Answers → Bool → Durable P → Durable P × Bool
  unfolding retry seal_and_flush
  flush a retire d =
      if d.closed
      then (d, true)
      else let (l, c, remaining) = retry a d.unflushed d.log d.catalog in
        let (d', fine) =
          seal_and_flush a retire (record d { log = l; catalog = c; unflushed = remaining }) in
        (d', fine && elim remaining [ [] ↦ true | _ ↦ false ])
