-- ===== src/Store/Durable/Files.antt =====
-- Where the store of internal/logstore/durable.go has its records after a run.
use mathlib.Core.Path.{subst}
use mathlib.Core.List.{Memᴰ}
use mathlib.Core.List.Memᴰ
use rtail.Base.{ℕ, ◌≡◌, refl, sym, ap, ◌∙◌, ◌⊎◌, inl, inr, List, [], ◌∷◌, ◌++◌, drop}
use rtail.Store.Memory.{Record, of_stream}
use rtail.Store.Durable.{Config, Row, Catalog, Durable}
use rtail.Store.Durable.Cycle.{row_of}
use rtail.Store.Durable.Runs.{Step, run, new_durable}
use rtail.Store.Durable.Order.{Rising, one_segment, one_record, RisingAll-prefix}
use rtail.Store.Durable.Landing.{PathsApart, InOrder}
use rtail.Store.Durable.Invariant.{mem-last, Inv}
use rtail.Store.Durable.Flushes.{Holding}
use rtail.Store.Durable.Landing.{of_stream-mem}
use rtail.Store.Durable.Recovery.{uncons, mem-of_stream}
use rtail.Store.Durable.Sound.{
  joined-mem, mem-joined, joined-Rising, taken_in, HealthyRun, run_new-Holding,
}

module _ {P : Type 0} (cfg : Config P) where
  -- Where a record can be: in the log's active segment, in a sealed one on disk, or in a file that
  -- the catalog has.
  abbrev pub Found : Record P → Durable P → Type 0
  Found x d =
      Memᴰ x d.log.active
      ⊎ (((n : ℕ) × (xs : List (Record P)) × Memᴰ (n, xs) d.log.sealed × Memᴰ x xs)
          ⊎ ((row : Row P) × Memᴰ row d.catalog.files × Memᴰ x row.content))

  Holding-Found :
      (history : List (Record P)) (d : Durable P) (x : Record P)
      → Holding cfg history d
      → Memᴰ x history
      → Found x d
  unfolding row_of
  Holding-Found history d x (segs, e, inv) h =
      let (xs, m, hx) = joined-mem (segs ++ d.log.active ∷ []) x (subst (Memᴰ x) (sym e) h) in
      elim (mem-last segs d.log.active xs m) [
        | inr active ↦ inl (subst (Memᴰ x) active hx)
        | inl sealed ↦ elim (inv.2.3 xs sealed) [
          | inl (n, on_disk) ↦ inr (inl (n, xs, on_disk, hx))
          | inr landed ↦
              let own = mem-of_stream x xs hx in
              let (first, rest, shape) = uncons (of_stream x.stream xs) x own in
              inr (
                inr (
                  row_of cfg x.stream first rest,
                  landed x.stream first rest shape,
                  subst (Memᴰ x) shape own,
                ))
        ]
      ]

  -- After any appends, flushes and crashes of a new durable store, whatever the disk and the
  -- catalog answered, every record that was taken is in the log's active segment, in a sealed
  -- segment on disk or in a file that the catalog has. An append that returns nil takes its
  -- record; a crash that leaves k records of the active segment takes back the others of that
  -- segment. The conditions are that the sequence numbers stay below 2 ^ 64, that no segment is
  -- damaged, and that the segments can be read when the store is opened after a crash.
  pub run-Found :
      (ss : List (Step cfg)) (x : Record P)
      → HealthyRun cfg ss (new_durable cfg)
      → Memᴰ x (taken_in cfg ss (new_durable cfg) [])
      → Found x (run cfg ss (new_durable cfg))
  run-Found ss x h =
      Holding-Found (taken_in cfg ss (new_durable cfg) []) (run cfg ss (new_durable cfg)) x
        (run_new-Holding cfg ss h)

  abbrev MadeFrom : List (Record P) → Row P → Type 0
  MadeFrom xs row =
      (first : Record P) × (rest : List (Record P)) × (of_stream row.stream xs ≡ first ∷ rest)
      × (row ≡ row_of cfg row.stream first rest)

  MadeFrom-unique :
      (xs ys : List (Record P)) (row row' : Row P)
      → xs ≡ ys
      → row.stream ≡ row'.stream
      → MadeFrom xs row
      → MadeFrom ys row'
      → row ≡ row'
  MadeFrom-unique xs ys row row' e s (first, rest, whole_one, shape)
        (first', rest', whole', shape') =
      let lists : first ∷ rest ≡ first' ∷ rest' =
        sym whole_one ∙ ap (of_stream row.stream) e ∙ ap (λ k. of_stream k ys) s ∙ whole' in
      let firsts : first ≡ first' = ap (λ zs. elim zs [ [] ↦ first | z ∷ _ ↦ z ]) lists in
      let rests : rest ≡ rest' = ap (drop 1) lists in
      shape ∙ rw (s, firsts, rests) refl ∙ sym shape'

  Holding-content :
      (segs : List (List (Record P))) (d : Durable P) (row : Row P) (x : Record P)
      → Inv cfg segs d
      → Memᴰ row d.catalog.files
      → Memᴰ x row.content
      → (xs : List (Record P)) × Memᴰ xs segs
        × Memᴰ x xs
        × (x.stream ≡ row.stream)
        × MadeFrom xs row
  unfolding InOrder row_of
  Holding-content segs d row x inv m h =
      let (xs, first, rest, mem, e, shape) = inv.2.0.0 row m in
      let content : row.content ≡ of_stream row.stream xs =
        ap (λ (r : Row P). r.content) shape ∙ sym e in
      let (hx, stream) = of_stream-mem row.stream xs x (subst (Memᴰ x) content h) in
      (xs, mem, hx, stream, (first, rest, e, shape))

  -- Under the conditions of run-Found, a file of the catalog has nothing but records that were
  -- taken, of the file's own stream.
  pub run-content :
      (ss : List (Step cfg)) (row : Row P) (x : Record P)
      → HealthyRun cfg ss (new_durable cfg)
      → Memᴰ row (run cfg ss (new_durable cfg)).catalog.files
      → Memᴰ x row.content
      → Memᴰ x (taken_in cfg ss (new_durable cfg) []) × (x.stream ≡ row.stream)
  run-content ss row x h m hx =
      let d = run cfg ss (new_durable cfg) in
      let (segs, e, inv) = run_new-Holding cfg ss h in
      let (xs, mem, in_xs, stream, made) = Holding-content segs d row x inv m hx in
      let whole_one =
        mem-joined (segs ++ d.log.active ∷ []) xs x (Memᴰ.append_left (d.log.active ∷ []) mem)
          in_xs in
      (subst (Memᴰ x) e whole_one, stream)

  -- Under the conditions of run-Found, the sequence numbers of the records taken rise strictly,
  -- over crashes too: a store that is opened again gives out no number that a record it has kept
  -- has.
  pub run-Rising :
      (ss : List (Step cfg))
      → HealthyRun cfg ss (new_durable cfg)
      → Rising 0 (taken_in cfg ss (new_durable cfg) [])
  run-Rising ss h =
      let (segs, e, inv) = run_new-Holding cfg ss h in subst (Rising 0) e (joined-Rising 0 _ inv.0)

  InOrder-apart :
      (segs : List (List (Record P))) (c : Catalog P) → InOrder cfg segs c → PathsApart c.files
  unfolding InOrder
  InOrder-apart segs c h = h.1

  Holding-once :
      (segs : List (List (Record P))) (d : Durable P) (row row' : Row P) (x x' : Record P)
      → Inv cfg segs d
      → Memᴰ row d.catalog.files
      → Memᴰ row' d.catalog.files
      → Memᴰ x row.content
      → Memᴰ x' row'.content
      → x.seq ≡ x'.seq
      → (row ≡ row') × (x ≡ x')
  Holding-once segs d row row' x x' inv m m' hx hx' e =
      let up = RisingAll-prefix 0 segs d.log.active inv.0 in
      let (xs, mem, in_xs, stream, made) = Holding-content segs d row x inv m hx in
      let (ys, mem', in_ys, stream', made') = Holding-content segs d row' x' inv m' hx' in
      let ys_xs : xs ≡ ys = one_segment 0 segs xs ys x x' up mem mem' in_xs in_ys e in
      let same : x ≡ x' = one_record 0 segs ys x x' up mem' (subst (Memᴰ x) ys_xs in_xs) in_ys e in
      let streams_same : row.stream ≡ row'.stream =
        sym stream ∙ ap (λ (z : Record P). z.stream) same ∙ stream' in
      (MadeFrom-unique xs ys row row' ys_xs streams_same made made', same)

  -- Under the conditions of run-Found, no object's name is twice in the catalog, and two files of
  -- the catalog that have a record each with the same sequence number are the same file, and the
  -- records are the same: a segment that is replayed after it was flushed in whole or in part adds
  -- no record a second time.
  pub run-once :
      (ss : List (Step cfg)) (row row' : Row P) (x x' : Record P)
      → HealthyRun cfg ss (new_durable cfg)
      → Memᴰ row (run cfg ss (new_durable cfg)).catalog.files
      → Memᴰ row' (run cfg ss (new_durable cfg)).catalog.files
      → Memᴰ x row.content
      → Memᴰ x' row'.content
      → x.seq ≡ x'.seq
      → PathsApart (run cfg ss (new_durable cfg)).catalog.files × (row ≡ row') × (x ≡ x')
  run-once ss row row' x x' h m m' hx hx' e =
      let d = run cfg ss (new_durable cfg) in
      let (segs, _, inv) = run_new-Holding cfg ss h in
      let (same_row, same) = Holding-once segs d row row' x x' inv m m' hx hx' e in
      (InOrder-apart segs d.catalog inv.2.0, same_row, same)
