-- ===== src/Store/Durable/Listed.antt =====
-- What `flush` of internal/logstore/durable.go still has to write is on its retry list.
use mathlib.Core.Path.{subst}
use mathlib.Core.List.{Memᴰ}
use mathlib.Core.List.Memᴰ
use mathlib.Core.List.Memᴰ.{head, tail}
use rtail.Base.{
  ℕ, ◌≡◌, refl, sym, ap, ◌⊎◌, inl, inr, Bool, true, false, List, [], ◌∷◌, arith, ◌==◌, ==_iff,
  Bool-cases, if_split, option_split,
}
use rtail.Store.Memory.{Record}
use rtail.Store.Durable.{
  Config, Catalog, Log, Reading, whole, damaged, unreadable, Answers, without, segment, remove,
}
use rtail.Store.Durable.Cycle.{row_of, Replayed, retire_segment, replay_records, replay, retry}
use rtail.Store.Durable.Order.{RisingAll}
use rtail.Store.Durable.Landing.{Landed}
use rtail.Store.Durable.Replays.{Intact, Kept, replay-Advances, retry-Advances}

module _ {P : Type 0} where
  mem-without-ne :
      (n : ℕ) (xs : List (Record P)) (sealed : List (ℕ × List (Record P)))
      → ¬ Memᴰ (n, xs) (without n sealed)
  unfolding without
  mem-without-ne n xs [] h = elim h [ ]
  mem-without-ne n xs ((k, ys) ∷ rest) h = elim (Bool-cases (k == n)) [
    | inl same ↦
        let skip : without n ((k, ys) ∷ rest) ≡ without n rest = rw same refl in
        mem-without-ne n xs rest (subst (Memᴰ (n, xs)) skip h)
    | inr other ↦
        let keep : without n ((k, ys) ∷ rest) ≡ (k, ys) ∷ without n rest = rw other refl in
        elim (Memᴰ.cases_cons (subst (Memᴰ (n, xs)) keep h)) [
          | inl this ↦ absurd (ground (arith, other, (==_iff k n).1 (sym (ap (λ s. s.0) this))))
          | inr later ↦ mem-without-ne n xs rest later
        ]
  ]

module _ {P : Type 0} (cfg : Config P) where
  -- A segment that `replay` is done with is gone.
  retire_segment-gone :
      (a : Answers) (n m : ℕ) (xs : List (Record P)) (l : Log P) (reading : Reading)
      (r : Catalog P × Bool)
      → (retire_segment cfg a n l reading m r).fine ≡ true
      → ¬ Memᴰ (n, xs) (retire_segment cfg a n l reading m r).log.sealed
  unfolding retire_segment remove
  retire_segment-gone a n m xs l reading (c, false) = λ fine _. absurd (ground (arith, fine))
  retire_segment-gone a n m xs l (damaged k) (c, true) =
      if_split (λ (r : Replayed cfg). r.fine ≡ true → ¬ Memᴰ (n, xs) r.log.sealed)
        (a.quarantine_ok n) (λ _ _. mem-without-ne n xs l.sealed)
        (λ _ fine. absurd (ground (arith, fine)))
  retire_segment-gone a n m xs l whole (c, true) =
      if_split (λ (r : Replayed cfg). r.fine ≡ true → ¬ Memᴰ (n, xs) r.log.sealed) (a.remove_ok n)
        (λ _ _. mem-without-ne n xs l.sealed) (λ _ fine. absurd (ground (arith, fine)))
  retire_segment-gone a n m xs l (unreadable k) (c, true) =
      if_split (λ (r : Replayed cfg). r.fine ≡ true → ¬ Memᴰ (n, xs) r.log.sealed) (a.remove_ok n)
        (λ _ _. mem-without-ne n xs l.sealed) (λ _ fine. absurd (ground (arith, fine)))

  replay_records-gone :
      (a : Answers) (n : ℕ) (xs ys : List (Record P)) (l : Log P) (c : Catalog P)
      (reading : Reading)
      → (replay_records cfg a n l c reading ys).fine ≡ true
      → ¬ Memᴰ (n, xs) (replay_records cfg a n l c reading ys).log.sealed
  unfolding replay_records
  replay_records-gone a n xs ys l c (unreadable k) = λ fine. absurd (ground (arith, fine))
  replay_records-gone a n xs ys l c (damaged k) = retire_segment-gone a n _ xs l (damaged k) _
  replay_records-gone a n xs ys l c whole = retire_segment-gone a n _ xs l whole _

  pub replay-gone :
      (a : Answers) (n : ℕ) (xs : List (Record P)) (l : Log P) (c : Catalog P)
      → (replay cfg a n l c).fine ≡ true
      → ¬ Memᴰ (n, xs) (replay cfg a n l c).log.sealed
  unfolding replay
  replay-gone a n xs l c =
      option_split (λ (r : Replayed cfg). r.fine ≡ true → ¬ Memᴰ (n, xs) r.log.sealed)
        (segment n l.sealed) _ _ (λ _ fine. absurd (ground (arith, fine)))
        (λ ys _. replay_records-gone a n xs ys l c (a.reading n))

module _ {P : Type 0} (cfg : Config P) (segs : List (List (Record P))) where
  -- What `retry` leaves on disk of its segments, it keeps on the list.
  retry-remaining :
      (a : Answers) (ns : List ℕ) (l : Log P) (c : Catalog P) (k : ℕ) (xs : List (Record P))
      → RisingAll 0 segs
      → ((n : ℕ) → Intact (a.reading n))
      → Kept cfg segs l c
      → Memᴰ k ns
      → Memᴰ (k, xs) (retry cfg a ns l c).0.sealed
      → Memᴰ k (retry cfg a ns l c).2
  unfolding retry
  retry-remaining a [] l c k xs up i kept m h = m
  retry-remaining a (n ∷ ns) l c k xs up i kept m h =
      let r = replay cfg a n l c in
      let first = replay-Advances cfg segs a n l c up (i n) kept in
      let rest = retry-Advances cfg segs a ns r.log r.catalog up i first.0 in
      let remaining = (retry cfg a ns r.log r.catalog).2 in
      elim (Memᴰ.cases_cons m) [
        | inl same ↦
            if_split (Memᴰ k) r.fine
              (λ fine. absurd (
                replay-gone cfg a n xs l c fine
                  (subst (λ j. Memᴰ (j, xs) r.log.sealed) same (rest.1.2 k xs h))))
              (λ _. head same)
        | inr later ↦
            let kept_on = retry-remaining a ns r.log r.catalog k xs up i first.0 later h in
            if_split (Memᴰ k) r.fine (λ _. kept_on) (λ _. tail kept_on)
      ]

  -- A segment on disk is on the retry list, unless its records have landed.
  abbrev pub Listed : Log P → Catalog P → List ℕ → Type 0
  Listed l c unflushed =
      (n : ℕ) (xs : List (Record P))
      → Memᴰ (n, xs) l.sealed
      → Landed cfg segs c xs ⊎ Memᴰ n unflushed

  pub retry-Listed :
      (a : Answers) (ns : List ℕ) (l : Log P) (c : Catalog P)
      → RisingAll 0 segs
      → ((n : ℕ) → Intact (a.reading n))
      → Kept cfg segs l c
      → Listed l c ns
      → let r = retry cfg a ns l c in Listed r.0 r.1 r.2
  retry-Listed a ns l c up i kept listed n xs h =
      let adv = retry-Advances cfg segs a ns l c up i kept in
      elim (listed n xs (adv.1.2 n xs h)) [
        | inl landed ↦
            inl (λ s first rest e. adv.2 (row_of cfg s first rest) (landed s first rest e))
        | inr todo ↦ inr (retry-remaining a ns l c n xs up i kept todo h)
      ]
