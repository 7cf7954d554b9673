-- ===== src/Store/Durable/Recovery.antt =====
-- The opening of the store after a crash, `OpenDurable` and `recover` of
-- internal/logstore/durable.go, gives out no number a second time.
use mathlib.Core.Path.{subst}
use mathlib.Core.List.{Memᴰ}
use mathlib.Core.List.Memᴰ
use mathlib.Core.List.Memᴰ.{head, tail}
use rtail.Base.{
  ℕ, ◌≤◌, ◌≡◌, refl, sym, ap, ◌⊎◌, inl, inr, Bool, true, false, some, List, [], ◌∷◌, arith, ltb,
  ◌==◌, if◌then◌else◌, ==_iff, Bool-cases, if_split, option_split, bytes_eq, bytes_eq_iff,
}
use rtail.Store.Memory.{Record, of_stream}
use rtail.Store.Durable.{
  Config, Catalog, Log, whole, Answers, Durable, batch_from, highest, segment, remove, delivered,
}
use rtail.Store.Durable.Cycle.{row_of, persist, Replayed, retire_segment, replay_records, replay}
use rtail.Store.Durable.Runs.{recover, numbers}
use rtail.Store.Durable.Order.{RisingAll}
use rtail.Store.Durable.Landing.{highest-mem, InOrder, Landed}
use rtail.Store.Durable.Sealed.{Apart, segment-mem, without-mem}
use rtail.Store.Durable.Replays.{
  Intact, Kept, Advances, Shrinks-refl, replay-Advances, Advances-trans,
}

module _ {P : Type 0} where
  pub numbers-mem :
      (n : ℕ) (xs : List (Record P)) (sealed : List (ℕ × List (Record P)))
      → Memᴰ (n, xs) sealed
      → Memᴰ n (numbers sealed)
  numbers-mem n xs [] h = elim h [ ]
  numbers-mem n xs (s ∷ sealed) (head e) = head (ap (λ p. p.0) e)
  numbers-mem n xs (s ∷ sealed) (tail h) = tail (numbers-mem n xs sealed h)

  pub mem-of_stream :
      (x : Record P) (xs : List (Record P)) → Memᴰ x xs → Memᴰ x (of_stream x.stream xs)
  unfolding of_stream
  mem-of_stream x [] h = elim h [ ]
  mem-of_stream x (y ∷ xs) (head e) =
      let here : of_stream x.stream (y ∷ xs) ≡ y ∷ of_stream x.stream xs =
        ground (arith, (bytes_eq_iff y.stream x.stream).1 (sym (ap (λ z. z.stream) e))) in
      subst (Memᴰ x) (sym here) (head e)
  mem-of_stream x (y ∷ xs) (tail h) =
      if_split (Memᴰ x) (bytes_eq y.stream x.stream) (λ _. tail (mem-of_stream x xs h))
        (λ _. mem-of_stream x xs h)

  pub uncons :
      (xs : List (Record P)) (x : Record P)
      → Memᴰ x xs
      → (first : Record P) × (rest : List (Record P)) × (xs ≡ first ∷ rest)
  uncons [] x h = elim h [ ]
  uncons (y ∷ xs) x h = (y, xs, refl)

module _ {P : Type 0} (cfg : Config P) where
  retire_segment-highest :
      (a : Answers) (n : ℕ) (l : Log P) (m : ℕ) (r : Catalog P × Bool)
      → (retire_segment cfg a n l whole m r).highest_seq ≡ m
  unfolding retire_segment
  retire_segment-highest a n l m (c, false) = refl
  retire_segment-highest a n l m (c, true) =
      if_split (λ (r : Replayed cfg). r.highest_seq ≡ m) (a.remove_ok n) (λ _. refl) (λ _. refl)

  -- A segment that can be read counts with all its numbers.
  replay-highest :
      (a : Answers) (n : ℕ) (l : Log P) (c : Catalog P) (xs : List (Record P))
      → a.reading n ≡ whole
      → segment n l.sealed ≡ some xs
      → (replay cfg a n l c).highest_seq ≡ highest 0 xs
  unfolding replay replay_records delivered
  replay-highest a n l c xs w e =
      option_split (λ (r : Replayed cfg). r.highest_seq ≡ highest 0 xs) (segment n l.sealed) _ _
        (λ none_there. absurd (ground (arith, e, none_there)))
        (λ ys found.
          let same : ys ≡ xs = ground (arith, e, found) in
          rw (w, same)
            (retire_segment-highest a n l (highest 0 xs) (persist cfg a n (batch_from [] xs) c)))

  retire_segment-others :
      (a : Answers) (n k : ℕ) (xs : List (Record P)) (l : Log P) (m : ℕ) (r : Catalog P × Bool)
      → (k == n) ≡ false
      → Memᴰ (k, xs) l.sealed
      → Memᴰ (k, xs) (retire_segment cfg a n l whole m r).log.sealed
  unfolding retire_segment remove
  retire_segment-others a n k xs l m (c, false) other h = h
  retire_segment-others a n k xs l m (c, true) other h =
      if_split (λ (r : Replayed cfg). Memᴰ (k, xs) r.log.sealed) (a.remove_ok n)
        (λ _. without-mem n k xs l.sealed other h) (λ _. h)

  replay-others :
      (a : Answers) (n k : ℕ) (xs : List (Record P)) (l : Log P) (c : Catalog P)
      → a.reading n ≡ whole
      → (k == n) ≡ false
      → Memᴰ (k, xs) l.sealed
      → Memᴰ (k, xs) (replay cfg a n l c).log.sealed
  unfolding replay replay_records delivered
  replay-others a n k xs l c w other h =
      option_split (λ (r : Replayed cfg). Memᴰ (k, xs) r.log.sealed) (segment n l.sealed) _ _
        (λ _. h)
        (λ ys e. rw w (
          retire_segment-others a n k xs l (highest 0 ys) (persist cfg a n (batch_from [] ys) c)
            other h))

  abbrev pub Covered : ℕ → List (Record P) → Type 0
  Covered seq xs = (x : Record P) → Memᴰ x xs → x.seq ≤ seq

  -- The catalog's highest number covers what has landed.
  pub Landed-Covered :
      (segs : List (List (Record P))) (c : Catalog P) (xs : List (Record P))
      → InOrder cfg segs c
      → Landed cfg segs c xs
      → Covered c.max_seq xs
  unfolding InOrder row_of
  Landed-Covered segs c xs (_, _, low) landed x h =
      let own = mem-of_stream x xs h in
      let (first, rest, e) = uncons (of_stream x.stream xs) x own in
      let row = row_of cfg x.stream first rest in
      let below : x.seq ≤ row.max_seq = highest-mem 0 (first ∷ rest) x (subst (Memᴰ x) e own) in
      omega (arith, below, low row (landed x.stream first rest e))

module _ {P : Type 0} (cfg : Config P) (segs : List (List (Record P))) where
  -- The records of a segment are counted in, or their segment is still to be read.
  abbrev pub Left : List ℕ → ℕ → Log P → Type 0
  Left ns seq l =
      (xs : List (Record P))
      → Memᴰ xs segs
      → Covered cfg seq xs ⊎ ((n : ℕ) × Memᴰ n ns × Memᴰ (n, xs) l.sealed)

  replay-Left :
      (a : Answers) (n : ℕ) (ns : List ℕ) (seq : ℕ) (l : Log P) (c : Catalog P)
      → a.reading n ≡ whole
      → Apart l.sealed
      → Left (n ∷ ns) seq l
      → let r = replay cfg a n l c in
        Left ns (if ltb seq r.highest_seq then r.highest_seq else seq) r.log
  replay-Left a n ns seq l c w apart left xs m =
      let r = replay cfg a n l c in
      let seq' = if ltb seq r.highest_seq then r.highest_seq else seq in
      let up : seq ≤ seq' = ground arith in
      let high : r.highest_seq ≤ seq' = ground arith in
      elim (left xs m) [
        | inl done ↦ inl (λ x h. omega (arith, up, done x h))
        | inr (k, in_ns, h) ↦ elim (Bool-cases (k == n)) [
          | inl same ↦
              let here : segment n l.sealed ≡ some xs =
                subst (λ j. segment j l.sealed ≡ some xs) ((==_iff k n).0 same)
                  (segment-mem k xs l.sealed apart h) in
              inl (λ x hx.
                omega (arith, high, replay-highest cfg a n l c xs w here, highest-mem 0 xs x hx))
          | inr other ↦ elim (Memᴰ.cases_cons in_ns) [
            | inl equal ↦ absurd (ground (arith, other, (==_iff k n).1 equal))
            | inr later ↦ inr (k, later, replay-others cfg a n k xs l c w other h)
          ]
        ]
      ]

  pub recover-memory :
      (a : Answers) (ns : List ℕ) (d : Durable P)
      → ((recover cfg a ns d).batch ≡ d.batch) × ((recover cfg a ns d).rows ≡ d.rows)
  unfolding recover
  recover-memory a [] d = (refl, refl)
  recover-memory a (n ∷ ns) d = recover-memory a ns _

  pub recover-Advances :
      (a : Answers) (ns : List ℕ) (d : Durable P)
      → RisingAll 0 segs
      → ((n : ℕ) → a.reading n ≡ whole)
      → Kept cfg segs d.log d.catalog
      → Left ns d.seq d.log
      → Advances cfg segs d.log d.catalog (recover cfg a ns d).log (recover cfg a ns d).catalog
        × ((xs : List (Record P)) → Memᴰ xs segs → Covered cfg (recover cfg a ns d).seq xs)
  unfolding recover
  recover-Advances a [] d up w kept left = (
    (kept, Shrinks-refl cfg segs d.log, λ row m. m),
    λ xs m. elim (left xs m) [ inl done ↦ done | inr (n, nothing, h) ↦ elim nothing [ ] ],
  )
  recover-Advances a (n ∷ ns) d up w kept left =
      let r = replay cfg a n d.log d.catalog in
      let first =
        replay-Advances cfg segs a n d.log d.catalog up
          (subst Intact (sym (w n)) (unfold Intact in tt)) kept in
      let (rest, covered) =
        recover-Advances a ns _ up w first.0
          (replay-Left a n ns d.seq d.log d.catalog (w n) kept.2 left) in
      (Advances-trans cfg segs d.log r.log _ d.catalog r.catalog _ first rest, covered)
