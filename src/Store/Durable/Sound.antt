-- ===== src/Store/Durable/Sound.antt =====
-- The runs of internal/logstore/durable.go's store over appends, flushes and crashes: what it has
-- taken, it holds.
use mathlib.Core.Path.{subst}
use mathlib.Core.List.{Memᴰ}
use mathlib.Core.List.Memᴰ
use mathlib.Core.List.Memᴰ.{head, tail}
use rtail.Base.{
  ℕ, ◌+◌, ◌-◌, ◌^◌, ◌<◌, ◌≡◌, refl, sym, ap, ◌∙◌, inl, inr, true, List, [], ◌∷◌, ◌++◌, append_assoc,
  if◌then◌else◌, Bool-cases, length, take,
}
use rtail.Store.Memory.{Record, numbered}
use rtail.Store.Durable.{Config, whole, Answers, Durable, batch_from}
use rtail.Store.Durable.Runs.{
  ingest, append, kicked_flush, Step, append_step, flush_step, kicked_step, crash_step, step, run,
  new_durable,
}
use rtail.Store.Durable.Order.{Rising, top, RisingAll}
use rtail.Store.Durable.Landing.{PathsApart, InOrder}
use rtail.Store.Durable.Replays.{Intact}
use rtail.Store.Durable.Flushes.{joined, joined-last, Holding}
use rtail.Store.Durable.Invariant.{append-Inv}
use rtail.Store.Durable.Flushes.{flush-Holding}
use rtail.Store.Durable.Crash.{crash-Holding}

module _ {P : Type 0} where
  pub joined-mem :
      (segs : List (List (Record P))) (x : Record P)
      → Memᴰ x (joined segs)
      → (xs : List (Record P)) × Memᴰ xs segs × Memᴰ x xs
  unfolding joined
  joined-mem [] x h = elim h [ ]
  joined-mem (xs ∷ segs) x h = elim (Memᴰ.append_cases xs h) [
    | inl here ↦ (xs, head refl, here)
    | inr later ↦ let (ys, m, h') = joined-mem segs x later in (ys, tail m, h')
  ]

  pub mem-joined :
      (segs : List (List (Record P))) (xs : List (Record P)) (x : Record P)
      → Memᴰ xs segs
      → Memᴰ x xs
      → Memᴰ x (joined segs)
  unfolding joined
  mem-joined [] xs x m h = elim m [ ]
  mem-joined (ys ∷ segs) xs x (head e) h = Memᴰ.append_left (joined segs) (subst (Memᴰ x) e h)
  mem-joined (ys ∷ segs) xs x (tail m) h = Memᴰ.append_right ys (mem-joined segs xs x m h)

  Rising-append :
      (m : ℕ) (xs ys : List (Record P)) → Rising m xs → Rising (top m xs) ys → Rising m (xs ++ ys)
  unfolding Rising top
  Rising-append m [] ys r h = h
  Rising-append m (x ∷ xs) ys r h = (r.0, Rising-append x.seq xs ys r.1 h)

  pub joined-Rising :
      (m : ℕ) (segs : List (List (Record P))) → RisingAll m segs → Rising m (joined segs)
  unfolding RisingAll joined Rising
  joined-Rising m [] r = tt
  joined-Rising m (xs ∷ segs) r =
      Rising-append m xs (joined segs) r.0 (joined-Rising (top m xs) segs r.1)

module _ {P : Type 0} (cfg : Config P) where
  -- What the store has taken: an append adds its record, and a crash that leaves `kept` records of
  -- the active segment takes the others of that segment away.
  unfoldable pub taken : Step cfg → Durable P → List (Record P) → List (Record P)
  unfolding numbered
  taken (append_step a rec) d history =
      if a.append_ok then history ++ numbered d.seq rec ∷ [] else history
  taken (flush_step a retire) d history = history
  taken (kicked_step a) d history = history
  taken (crash_step a kept order streams) d history =
      take (length history - (length d.log.active - kept)) history

  unfoldable pub taken_in : List (Step cfg) → Durable P → List (Record P) → List (Record P)
  unfolding taken step
  taken_in [] d history = history
  taken_in (s ∷ ss) d history = taken_in ss (step cfg s d) (taken s d history)

  -- Numbers are left, no segment is damaged, and an opening can read the segments.
  unfoldable pub Healthy : Step cfg → Durable P → Type 0
  unfolding Intact
  Healthy (append_step a rec) d = d.seq + 1 < 2 ^ 64
  Healthy (flush_step a retire) d = (n : ℕ) → Intact (a.reading n)
  Healthy (kicked_step a) d = (n : ℕ) → Intact (a.reading n)
  Healthy (crash_step a kept order streams) d = (n : ℕ) → a.reading n ≡ whole

  unfoldable pub HealthyRun : List (Step cfg) → Durable P → Type 0
  unfolding Healthy step
  HealthyRun [] d = Unit
  HealthyRun (s ∷ ss) d = Healthy s d × HealthyRun ss (step cfg s d)

  append-active :
      (a : Answers) (rec : Record P) (d : Durable P)
      (Good : List (Record P) → List (Record P) → Type 0) (history : List (Record P))
      → Good d.log.active history
      → Good (d.log.active ++ numbered d.seq rec ∷ []) (history ++ numbered d.seq rec ∷ [])
      → Good
          (append cfg a rec d).0.log.active
          (if a.append_ok then history ++ numbered d.seq rec ∷ [] else history)
  unfolding append ingest numbered
  append-active a rec d Good history same one = elim (Bool-cases a.append_ok) [
    | inl answered ↦ rw answered one
    | inr refused ↦ rw refused same
  ]

  append-Holding :
      (a : Answers) (rec : Record P) (history : List (Record P)) (d : Durable P)
      → d.seq + 1 < 2 ^ 64
      → Holding cfg history d
      → Holding cfg
          (if a.append_ok then history ++ numbered d.seq rec ∷ [] else history)
          (append cfg a rec d).0
  append-Holding a rec history d room (segs, e, inv) =
      let one : joined (segs ++ (d.log.active ++ numbered d.seq rec ∷ []) ∷ [])
          ≡ history ++ numbered d.seq rec ∷ [] =
        joined-last segs (d.log.active ++ numbered d.seq rec ∷ [])
        ∙ sym (append_assoc (joined segs) d.log.active (numbered d.seq rec ∷ []))
        ∙ ap (◌++ numbered d.seq rec ∷ []) (sym (joined-last segs d.log.active) ∙ e) in
      (
        segs,
        append-active a rec d (λ active history'. joined (segs ++ active ∷ []) ≡ history') history e
            one,
        append-Inv cfg a rec segs d room inv,
      )

  pub step-Holding :
      (s : Step cfg) (history : List (Record P)) (d : Durable P)
      → Healthy s d
      → Holding cfg history d
      → Holding cfg (taken s d history) (step cfg s d)
  unfolding Healthy taken step kicked_flush
  step-Holding (append_step a rec) history d h holding = append-Holding a rec history d h holding
  step-Holding (flush_step a retire) history d h holding =
      flush-Holding cfg a retire history d h holding
  step-Holding (kicked_step a) history d h holding = flush-Holding cfg a true history d h holding
  step-Holding (crash_step a kept order streams) history d h holding =
      crash-Holding cfg a kept order streams history d h holding

  pub run-Holding :
      (ss : List (Step cfg)) (history : List (Record P)) (d : Durable P)
      → HealthyRun ss d
      → Holding cfg history d
      → Holding cfg (taken_in ss d history) (run cfg ss d)
  unfolding HealthyRun taken_in run
  run-Holding [] history d h holding = holding
  run-Holding (s ∷ ss) history d h holding =
      run-Holding ss (taken s d history) (step cfg s d) h.1 (step-Holding s history d h.0 holding)

  pub new_durable-Holding : Holding cfg [] (new_durable cfg)
  unfolding joined InOrder RisingAll Rising batch_from PathsApart
  new_durable-Holding = (
    [],
    refl,
    (
      (tt, tt),
      (λ xs m x h. elim (Memᴰ.cases_cons m) [
        | inl e ↦ elim (subst (Memᴰ x) e h) [ ]
        | inr nothing ↦ elim nothing [ ]
      ]),
      (
        ((λ row m. elim m [ ]), tt, λ row m. elim m [ ]),
        (λ n xs m. elim m [ ]),
        tt,
        λ xs m. elim m [ ],
      ),
      refl,
      refl,
    ),
  )

  pub run_new-Holding :
      (ss : List (Step cfg))
      → HealthyRun ss (new_durable cfg)
      → Holding cfg (taken_in ss (new_durable cfg) []) (run cfg ss (new_durable cfg))
  run_new-Holding ss h = run-Holding ss [] (new_durable cfg) h new_durable-Holding
