-- ===== src/Store/Durable/Replays.antt =====
-- `replay` and `retry` of internal/logstore/durable.go: a segment leaves the log only once its records
-- have landed.
use mathlib.Core.Path.{subst}
use mathlib.Core.List.{Memᴰ}
use rtail.Base.{
  ℕ, ◌<◌, ◌≡◌, refl, ◌∙◌, ◌⊎◌, inl, inr, Bool, true, false, some, List, [], ◌∷◌, arith, ◌==◌,
  ==_iff, Bool-cases, if_split, option_split,
}
use rtail.Store.Memory.{Record}
use rtail.Store.Durable.{
  Config, Catalog, Log, Reading, whole, damaged, unreadable, Answers, batch_from, highest, segment,
  remove, delivered,
}
use rtail.Store.Durable.Cycle.{
  row_of, persist, Replayed, retire_segment, replay_records, replay, retry,
}
use rtail.Store.Durable.Batches.{batch_of-Sorts}
use rtail.Store.Durable.Order.{RisingAll}
use rtail.Store.Durable.Landing.{InOrder, Landed, Grows}
use rtail.Store.Durable.Persist.{persist-Landed}
use rtail.Store.Durable.Sealed.{
  Apart, mem-segment, segment-mem, mem-without, without-mem, Apart-without,
}

-- No damage was met, though reading may have failed.
unfoldable pub Intact : Reading → Type 0
Intact whole = Unit
Intact (damaged k) = ⊥
Intact (unreadable k) = Unit

module _ {P : Type 0} (cfg : Config P) (segs : List (List (Record P))) where
  -- What holds of log and catalog, when these segments have been sealed: each of them is still in
  -- the log, or has landed.
  abbrev pub Kept : Log P → Catalog P → Type 0
  Kept l c =
      InOrder cfg segs c
      × ((n : ℕ) (xs : List (Record P)) → Memᴰ (n, xs) l.sealed → Memᴰ xs segs × (n < l.number))
      × Apart l.sealed
      × ((xs : List (Record P))
          → Memᴰ xs segs
          → ((n : ℕ) × Memᴰ (n, xs) l.sealed) ⊎ Landed cfg segs c xs)

  pub Kept-Grows :
      (l : Log P) (c c' : Catalog P)
      → InOrder cfg segs c'
      → Grows cfg segs c c'
      → Kept l c
      → Kept l c'
  Kept-Grows l c c' ok grows (_, listed, apart, safe) = (
    ok,
    listed,
    apart,
    λ xs m. elim (safe xs m) [
      | inl on_disk ↦ inl on_disk
      | inr landed ↦ inr (λ s first rest e. grows (row_of cfg s first rest) (landed s first rest e))
    ],
  )

  -- A segment whose records have landed may go.
  pub Kept-remove :
      (n : ℕ) (xs : List (Record P)) (l : Log P) (c : Catalog P)
      → segment n l.sealed ≡ some xs
      → Landed cfg segs c xs
      → Kept l c
      → Kept (remove n l) c
  unfolding remove
  Kept-remove n xs l c e landed (ok, listed, apart, safe) = (
    ok,
    (λ m ys h. listed m ys (mem-without n m ys l.sealed h)),
    Apart-without n l.sealed apart,
    λ ys m. elim (safe ys m) [
      | inl (k, h) ↦ elim (Bool-cases (k == n)) [
        | inl same ↦
            let found : segment n l.sealed ≡ some ys =
              subst (λ j. segment j l.sealed ≡ some ys) ((==_iff k n).0 same)
                (segment-mem k ys l.sealed apart h) in
            let ys_xs : xs ≡ ys = ground (arith, e, found) in
            inr (subst (Landed cfg segs c) ys_xs landed)
        | inr other ↦ inl (k, without-mem n k ys l.sealed other h)
      ]
      | inr done ↦ inr done
    ],
  )

  -- The log keeps its active segment, and only loses sealed ones.
  abbrev pub Shrinks : Log P → Log P → Type 0
  Shrinks l l' =
      (l'.active ≡ l.active)
      × (l'.number ≡ l.number)
      × ((n : ℕ) (xs : List (Record P)) → Memᴰ (n, xs) l'.sealed → Memᴰ (n, xs) l.sealed)

  pub Shrinks-refl : (l : Log P) → Shrinks l l
  Shrinks-refl l = (refl, refl, λ n xs h. h)

  pub Shrinks-remove : (n : ℕ) (l : Log P) → Shrinks l (remove n l)
  unfolding remove
  Shrinks-remove n l = (refl, refl, λ m xs h. mem-without n m xs l.sealed h)

  abbrev pub Advances : Log P → Catalog P → Log P → Catalog P → Type 0
  Advances l c l' c' = Kept l' c' × Shrinks l l' × Grows cfg segs c c'

  -- `replay` behind `persist`, on a whole segment.
  retire_segment-Advances :
      (a : Answers) (n m : ℕ) (l : Log P) (c : Catalog P) (r : Catalog P × Bool)
      (xs : List (Record P))
      → segment n l.sealed ≡ some xs
      → Kept l r.0
      → Grows cfg segs c r.0
      → (r.1 ≡ true → Landed cfg segs r.0 xs)
      → Advances l c
          (retire_segment cfg a n l whole m r).log
          (retire_segment cfg a n l whole m r).catalog
  unfolding retire_segment
  retire_segment-Advances a n m l c (c', false) xs e kept grows landed =
      (kept, Shrinks-refl l, grows)
  retire_segment-Advances a n m l c (c', true) xs e kept grows landed =
      if_split (λ (r : Replayed cfg). Advances l c r.log r.catalog) (a.remove_ok n)
        (λ _. (Kept-remove n xs l c' e (landed refl) kept, Shrinks-remove n l, grows))
        (λ _. (kept, Shrinks-refl l, grows))

  replay_records-Advances :
      (a : Answers) (n : ℕ) (l : Log P) (c : Catalog P) (reading : Reading) (xs : List (Record P))
      → RisingAll 0 segs
      → Intact reading
      → segment n l.sealed ≡ some xs
      → Kept l c
      → Advances l c
          (replay_records cfg a n l c reading xs).log
          (replay_records cfg a n l c reading xs).catalog
  unfolding replay_records delivered Intact
  replay_records-Advances a n l c (unreadable k) xs up i e kept = (kept, Shrinks-refl l, λ row m. m)
  replay_records-Advances a n l c (damaged k) xs up i e kept = elim i [ ]
  replay_records-Advances a n l c whole xs up i e kept =
      let mem = (kept.1 n xs (mem-segment n xs l.sealed e)).0 in
      let (ok, grows, landed) =
        persist-Landed cfg segs a n (batch_from [] xs) xs c up mem (batch_of-Sorts xs) kept.0 in
      retire_segment-Advances a n (highest 0 xs) l c (persist cfg a n (batch_from [] xs) c) xs e
        (Kept-Grows l c _ ok grows kept) grows landed

  pub replay-Advances :
      (a : Answers) (n : ℕ) (l : Log P) (c : Catalog P)
      → RisingAll 0 segs
      → Intact (a.reading n)
      → Kept l c
      → Advances l c (replay cfg a n l c).log (replay cfg a n l c).catalog
  unfolding replay
  replay-Advances a n l c up i kept =
      option_split (λ (r : Replayed cfg). Advances l c r.log r.catalog) (segment n l.sealed) _ _
        (λ _. (kept, Shrinks-refl l, λ row m. m))
        (λ xs e. replay_records-Advances a n l c (a.reading n) xs up i e kept)

  pub Advances-trans :
      (l l' l'' : Log P) (c c' c'' : Catalog P)
      → Advances l c l' c'
      → Advances l' c' l'' c''
      → Advances l c l'' c''
  Advances-trans l l' l'' c c' c'' (_, (a, n, s), g) (kept, (a', n', s'), g') =
      (kept, (a' ∙ a, n' ∙ n, λ k xs h. s k xs (s' k xs h)), λ row m. g' row (g row m))

  pub retry-Advances :
      (a : Answers) (ns : List ℕ) (l : Log P) (c : Catalog P)
      → RisingAll 0 segs
      → ((n : ℕ) → Intact (a.reading n))
      → Kept l c
      → Advances l c (retry cfg a ns l c).0 (retry cfg a ns l c).1
  unfolding retry
  retry-Advances a [] l c up i kept = (kept, Shrinks-refl l, λ row m. m)
  retry-Advances a (n ∷ ns) l c up i kept =
      let first = replay-Advances a n l c up (i n) kept in
      Advances-trans l _ _ c _ _ first
        (retry-Advances a ns (replay cfg a n l c).log (replay cfg a n l c).catalog up i first.0)
