-- ===== src/Store/Durable/Runs.antt =====
-- `Append` and `OpenDurable` of internal/logstore/durable.go, and the runs of a store over crashes.
use rtail.Base.{
  ℕ, ◌+◌, Bool, true, false, not, ◌&&◌, ◌||◌, Option, none, some, List, [], ◌∷◌, ◌++◌, map, ltb,
  leb, if◌then◌else◌, take, Bytes, lookup, put,
}
use rtail.Store.Ring.{Ring, new_ring, push}
use rtail.Store.Memory.{Record, Event, streams_known, line, numbered}
use rtail.Store.Durable.{Config, Catalog, Log, Answers, Durable, add_record}
use rtail.Store.Durable.Cycle.{replay, flush}

module _ {P : Type 0} where
  abbrev pub numbers : List (ℕ × List (Record P)) → List ℕ
  numbers sealed = map (λ s. s.0) sealed

module _ {P : Type 0} (cfg : Config P) where
  -- `Append` from the ring on; the last value says that a flush is started.
  unfoldable pub ingest : Answers → Record P → Durable P → Durable P × List (Event P) × Bool
  unfolding add_record
  ingest a rec d =
      let known = lookup rec.stream d.streams in
      let buffer : Ring (Record P) = elim known [
        | none ↦ new_ring cfg.backlog
        | some buffer ↦ buffer
      ] in
      let order : List Bytes = elim known [
        | none ↦ d.order ++ rec.stream ∷ []
        | some buffer ↦ d.order
      ] in
      let rows = d.rows + 1 in
      let bytes = d.bytes + cfg.raw_size rec.rest + 128 in
      let full = leb cfg.flush_rows rows || leb cfg.flush_bytes bytes in
      let kick = full && (leb d.quiet a.now && not d.kicked) in
      (
        record d {
          order = order;
          streams = put rec.stream (push rec buffer) d.streams;
          batch = add_record rec d.batch;
          rows = rows;
          bytes = bytes;
          kicked = d.kicked || kick;
        },
        elim known [ none ↦ streams_known order ∷ line rec ∷ [] | some buffer ↦ line rec ∷ [] ],
        kick,
      )

  -- `Append`; `none` is its error. A record that the log refuses has used its number up.
  unfoldable pub append :
      Answers → Record P → Durable P → Durable P × Option (List (Event P) × Bool)
  unfolding numbered ingest
  append a rec d =
      let rec' = numbered d.seq rec in
      if not a.append_ok
      then (record d { seq = rec'.seq }, none)
      else let (d', events, kick) = ingest a rec' (record d {
        seq = rec'.seq;
        log = record d.log { active = d.log.active ++ rec' ∷ [] };
      }) in
        (d', some (events, kick))

  -- The flush that `Append` starts
  unfoldable pub kicked_flush : Answers → Durable P → Durable P
  unfolding flush
  kicked_flush a d = record (flush cfg a true d).0 { kicked = false }

  -- `recover`: every sealed segment, oldest first
  unfoldable pub recover : Answers → List ℕ → Durable P → Durable P
  unfolding replay
  recover a [] d = d
  recover a (n ∷ ns) d =
      let r = replay cfg a n d.log d.catalog in
      recover a ns (record d {
        seq = if ltb d.seq r.highest_seq then r.highest_seq else d.seq;
        unflushed = if r.fine then d.unflushed else d.unflushed ++ n ∷ [];
        log = r.log;
        catalog = r.catalog;
      })

  -- `OpenDurable` behind the opening of its parts; `order` and `streams` are what `loadBacklog`
  -- restores.
  unfoldable pub open_durable :
      Answers → List Bytes → List (Bytes × Ring (Record P)) → Log P → Catalog P → Durable P
  unfolding recover
  open_durable a order streams l c =
      let d = recover a (numbers l.sealed) (record {
        seq = c.max_seq;
        order = [];
        streams = [];
        batch = [];
        rows = 0;
        bytes = 0;
        closed = false;
        unflushed = [];
        kicked = false;
        quiet = 0;
        backoff = 0;
        log = l;
        catalog = c;
      }) in
      record d { order = order; streams = streams }

  -- The log after a crash that leaves `kept` of the active segment's records, once it is opened: the
  -- segment is sealed now, and a new one is active.
  unfoldable pub crashed : ℕ → Log P → Log P
  crashed kept l = record {
    number = l.number + 1;
    active = [];
    sealed = l.sealed ++ (l.number, take kept l.active) ∷ [];
  }

  pub data Step : Type 0 where
    append_step : Answers → Record P → Step
    flush_step : Answers → (retire : Bool) → Step
    kicked_step : Answers → Step
    crash_step : Answers → (kept : ℕ) → List Bytes → List (Bytes × Ring (Record P)) → Step

  unfoldable pub step : Step → Durable P → Durable P
  unfolding append kicked_flush open_durable crashed
  step (append_step a rec) d = (append a rec d).0
  step (flush_step a retire) d = (flush cfg a retire d).0
  step (kicked_step a) d = kicked_flush a d
  step (crash_step a kept order streams) d =
      open_durable a order streams (crashed kept d.log) d.catalog

  unfoldable pub run : List Step → Durable P → Durable P
  unfolding step
  run [] d = d
  run (s ∷ ss) d = run ss (step s d)

  abbrev pub new_durable : Durable P
  new_durable = record {
    seq = 0;
    order = [];
    streams = [];
    batch = [];
    rows = 0;
    bytes = 0;
    closed = false;
    unflushed = [];
    kicked = false;
    quiet = 0;
    backoff = 0;
    log = record { number = 1; active = []; sealed = [] };
    catalog = record { files = []; max_seq = 0 };
  }
