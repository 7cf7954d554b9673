-- ===== src/Store/Durable/Complete.antt =====
-- `flush` of internal/logstore/durable.go, when it returns nil, has written all that was taken.
use mathlib.Core.Path.{subst}
use mathlib.Core.List.{Memᴰ}
use mathlib.Core.List.Memᴰ
use mathlib.Core.List.Memᴰ.{head}
use rtail.Base.{
  ℕ, ◌≡◌, refl, sym, ap, ◌⊎◌, inl, inr, Bool, true, not, ◌||◌, Option, some, List, [], ◌∷◌, ◌++◌,
  arith, ◌==◌, if_split, take, Bytes,
}
use rtail.Store.Memory.{Record, Event}
use rtail.Store.Durable.{Config, whole, Answers, Batch, Durable, segment, remove}
use rtail.Store.Durable.Cycle.{
  row_of, persist, replay, retry, back_off, rotate, flush_sealed, seal_and_flush, flush,
}
use rtail.Store.Durable.Runs.{
  numbers, ingest, append, kicked_flush, recover, open_durable, crashed, Step, append_step,
  flush_step, kicked_step, crash_step, step, run, new_durable,
}
use rtail.Store.Durable.Order.{RisingAll, RisingAll-prefix, RisingAll-take}
use rtail.Store.Durable.Landing.{Landed}
use rtail.Store.Durable.Persist.{persist-Landed}
use rtail.Store.Durable.Batches.{Sorts, batch_of-Sorts}
use rtail.Store.Durable.Sealed.{segment-mem, mem-without}
use rtail.Store.Durable.Replays.{Intact, Kept, replay-Advances, retry-Advances}
use rtail.Store.Durable.Invariant.{mem-last, Kept-seal, Inv}
use rtail.Store.Durable.Flushes.{Holding, Inv-Advances, seal-Inv, sealed_state}
use rtail.Store.Durable.Listed.{replay-gone, Listed, retry-Listed}
use rtail.Store.Durable.Recovery.{numbers-mem}
use rtail.Store.Ring.{Ring}
use rtail.Store.Durable.Sound.{taken, Healthy, HealthyRun, step-Holding, new_durable-Holding}

module _ {P : Type 0} (cfg : Config P) where
  abbrev pub Lists : Durable P → Type 0
  Lists d = Listed cfg [] d.log d.catalog d.unflushed

  -- `flush` behind the rotation puts its segment on the list, unless its records have landed.
  flush_sealed-Lists :
      (a : Answers) (retire : Bool) (segs : List (List (Record P))) (xs : List (Record P)) (n : ℕ)
      (batch : Batch P) (d : Durable P)
      → RisingAll 0 segs
      → Memᴰ xs segs
      → segment n d.log.sealed ≡ some xs
      → Sorts batch xs
      → Kept cfg segs d.log d.catalog
      → ((k : ℕ) (ys : List (Record P))
          → Memᴰ (k, ys) d.log.sealed
          → (k ≡ n) ⊎ (Landed cfg [] d.catalog ys ⊎ Memᴰ k d.unflushed))
      → Lists (flush_sealed cfg a retire n batch d).0
  unfolding flush_sealed remove
  flush_sealed-Lists a retire segs xs n batch d up mem found sorts kept others =
      let (ok, grows, landed) =
        persist-Landed cfg segs a n batch xs d.catalog up mem sorts kept.0 in
      let c = (persist cfg a n batch d.catalog).0 in
      let Good : Durable P × Bool → Type 0 = λ r. Lists r.0 in
      let known : (k : ℕ) (ys : List (Record P))
          → Memᴰ (k, ys) d.log.sealed
          → (k ≡ n) ⊎ (Landed cfg [] c ys ⊎ Memᴰ k d.unflushed) =
        λ k ys h. elim (others k ys h) [
          | inl this ↦ inl this
          | inr (inl done) ↦
              inr (inl (λ s first rest e. grows (row_of cfg s first rest) (done s first rest e)))
          | inr (inr todo) ↦ inr (inr todo)
        ] in
      let this_one : (k : ℕ) (ys : List (Record P)) → Memᴰ (k, ys) d.log.sealed → k ≡ n → xs ≡ ys =
        λ k ys h e. ground (
          arith,
          found,
          segment-mem n ys d.log.sealed kept.2 (subst (λ j. Memᴰ (j, ys) d.log.sealed) e h),
        ) in
      let all_on : Listed cfg [] d.log c (d.unflushed ++ n ∷ []) = λ k ys h. elim (known k ys h) [
        | inl this ↦ inr (Memᴰ.append_right d.unflushed (head this))
        | inr (inl done) ↦ inl done
        | inr (inr todo) ↦ inr (Memᴰ.append_left (n ∷ []) todo)
      ] in
      let some_on : (persist cfg a n batch d.catalog).1 ≡ true → Listed cfg [] d.log c d.unflushed =
        λ fine k ys h. elim (known k ys h) [
          | inl this ↦ inl (subst (Landed cfg [] c) (this_one k ys h this) (landed fine))
          | inr rest ↦ rest
        ] in
      if_split Good (persist cfg a n batch d.catalog).1
        (λ fine.
          if_split Good (not retire) (λ _. some_on fine)
            (λ _.
              if_split Good (a.remove_ok n)
                (λ _ k ys h. some_on fine k ys (mem-without n k ys d.log.sealed h)) (λ _. all_on)))
        (λ _. all_on)

  seal_and_flush-Lists :
      (a : Answers) (retire : Bool) (segs : List (List (Record P))) (d : Durable P)
      → Inv cfg segs d
      → Lists d
      → Lists (seal_and_flush cfg a retire d).0
  unfolding seal_and_flush back_off rotate
  seal_and_flush-Lists a retire segs d inv lists =
      let Good : Durable P × Bool → Type 0 = λ r. Lists r.0 in
      if_split Good (d.closed || d.rows == 0) (λ _. lists)
        (λ _.
          if_split Good (not a.rotate_ok) (λ _. lists)
            (λ _.
              let inv' = seal-Inv cfg segs d inv in
              let d' = sealed_state cfg d in
              let found =
                segment-mem d.log.number d.log.active d'.log.sealed inv'.2.2
                  (Memᴰ.append_right d.log.sealed (head refl)) in
              flush_sealed-Lists a retire (segs ++ d.log.active ∷ []) d.log.active d.log.number
                d.batch d' inv.0 (Memᴰ.append_right segs (head refl)) found
                (rw inv.3 (batch_of-Sorts d.log.active)) inv'.2
                (λ k ys h. elim (mem-last d.log.sealed (d.log.number, d.log.active) (k, ys) h) [
                  | inl old ↦ inr (lists k ys old)
                  | inr this ↦ inl (ap (λ s. s.0) this)
                ])))

  flush-Lists :
      (a : Answers) (retire : Bool) (history : List (Record P)) (d : Durable P)
      → ((n : ℕ) → Intact (a.reading n))
      → Holding cfg history d
      → Lists d
      → Lists (flush cfg a retire d).0
  unfolding flush
  flush-Lists a retire history d intact (segs, _, inv) lists =
      let Good : Durable P × Bool → Type 0 = λ r. Lists r.0 in
      let r = retry cfg a d.unflushed d.log d.catalog in
      let d' : Durable P = record d { log = r.0; catalog = r.1; unflushed = r.2 } in
      let up = RisingAll-prefix 0 segs d.log.active inv.0 in
      let adv = retry-Advances cfg segs a d.unflushed d.log d.catalog up intact inv.2 in
      if_split Good d.closed (λ _. lists)
        (λ _.
          seal_and_flush-Lists a retire segs d' (Inv-Advances cfg segs d d' refl refl refl adv inv)
            (retry-Listed cfg segs a d.unflushed d.log d.catalog up intact inv.2 lists))

  append-Lists :
      (a : Answers) (rec : Record P) (d : Durable P) → Lists d → Lists (append cfg a rec d).0
  unfolding append ingest
  append-Lists a rec d lists =
      if_split (λ (r : Durable P × Option (List (Event P) × Bool)). Lists r.0) (not a.append_ok)
        (λ _. lists) (λ _. lists)

  recover-unflushed :
      (a : Answers) (ns : List ℕ) (d : Durable P) (k : ℕ)
      → Memᴰ k d.unflushed
      → Memᴰ k (recover cfg a ns d).unflushed
  unfolding recover
  recover-unflushed a [] d k m = m
  recover-unflushed a (n ∷ ns) d k m = recover-unflushed a ns _ k (
      if_split (Memᴰ k) (replay cfg a n d.log d.catalog).fine (λ _. m)
        (λ _. Memᴰ.append_left (n ∷ []) m))

  -- What the opening of the store leaves on disk, it puts on the list.
  recover-Lists :
      (a : Answers) (segs : List (List (Record P))) (ns : List ℕ) (d : Durable P)
      → RisingAll 0 segs
      → ((n : ℕ) → a.reading n ≡ whole)
      → Kept cfg segs d.log d.catalog
      → ((k : ℕ) (xs : List (Record P))
          → Memᴰ (k, xs) d.log.sealed
          → Memᴰ k ns ⊎ Memᴰ k d.unflushed)
      → Lists (recover cfg a ns d)
  unfolding recover
  recover-Lists a segs [] d up w kept todo =
      λ n xs h. elim (todo n xs h) [ inl nothing ↦ elim nothing [ ] | inr m ↦ inr m ]
  recover-Lists a segs (n ∷ ns) d up w kept todo =
      let r = replay cfg a n d.log d.catalog in
      let first =
        replay-Advances cfg segs a n d.log d.catalog up
          (subst Intact (sym (w n)) (unfold Intact in tt)) kept in
      recover-Lists a segs ns _ up w first.0 (λ k xs h. elim (todo k xs (first.1.2 k xs h)) [
        | inl in_ns ↦ elim (Memᴰ.cases_cons in_ns) [
          | inl same ↦ inr (
              if_split (Memᴰ k) r.fine
                (λ fine. absurd (
                  replay-gone cfg a n xs d.log d.catalog fine
                    (subst (λ j. Memᴰ (j, xs) r.log.sealed) same h)))
                (λ _. Memᴰ.append_right d.unflushed (head same)))
          | inr later ↦ inl later
        ]
        | inr m ↦ inr (if_split (Memᴰ k) r.fine (λ _. m) (λ _. Memᴰ.append_left (n ∷ []) m))
      ])

  crash-Lists :
      (a : Answers) (kept : ℕ) (order : List Bytes) (streams : List (Bytes × Ring (Record P)))
      (history : List (Record P)) (d : Durable P)
      → ((n : ℕ) → a.reading n ≡ whole)
      → Holding cfg history d
      → Lists (open_durable cfg a order streams (crashed cfg kept d.log) d.catalog)
  unfolding open_durable crashed
  crash-Lists a kept order streams history d w (segs, _, (up, _, ok, _, _)) =
      let xs = take kept d.log.active in
      let sealed = d.log.sealed ++ (d.log.number, xs) ∷ [] in
      recover-Lists a (segs ++ xs ∷ []) (numbers sealed) _
        (RisingAll-take 0 kept segs d.log.active up) w (Kept-seal cfg segs xs d.log d.catalog ok)
        (λ k ys h. inl (numbers-mem k ys sealed h))

  step-Lists :
      (s : Step cfg) (history : List (Record P)) (d : Durable P)
      → Healthy cfg s d
      → Holding cfg history d
      → Lists d
      → Lists (step cfg s d)
  unfolding Healthy step kicked_flush
  step-Lists (append_step a rec) history d h holding lists = append-Lists a rec d lists
  step-Lists (flush_step a retire) history d h holding lists =
      flush-Lists a retire history d h holding lists
  step-Lists (kicked_step a) history d h holding lists =
      flush-Lists a true history d h holding lists
  step-Lists (crash_step a kept order streams) history d h holding lists =
      crash-Lists a kept order streams history d h holding

  run-Lists :
      (ss : List (Step cfg)) (history : List (Record P)) (d : Durable P)
      → HealthyRun cfg ss d
      → Holding cfg history d
      → Lists d
      → Lists (run cfg ss d)
  unfolding HealthyRun run
  run-Lists [] history d h holding lists = lists
  run-Lists (s ∷ ss) history d h holding lists =
      run-Lists ss (taken cfg s d history) (step cfg s d) h.1
        (step-Holding cfg s history d h.0 holding) (step-Lists s history d h.0 holding lists)

  pub run_new-Lists :
      (ss : List (Step cfg))
      → HealthyRun cfg ss (new_durable cfg)
      → Lists (run cfg ss (new_durable cfg))
  run_new-Lists ss h =
      run-Lists ss [] (new_durable cfg) h (new_durable-Holding cfg) (λ n xs m. elim m [ ])
