-- ===== src/Store/Durable/Invariant.antt =====
-- The invariant of `Durable` in internal/logstore/durable.go, kept by Append and by flush.
use mathlib.Core.Path.{subst}
use mathlib.Core.List.{Memᴰ}
use mathlib.Core.List.Memᴰ
use mathlib.Core.List.Memᴰ.{head}
use native.Mathlib.Nat.{mod-eq_of_lt}
use rtail.Base.{
  ℕ, ◌+◌, ◌%◌, ◌^◌, ◌≤◌, ◌<◌, ◌≡◌, refl, sym, ap, ◌∙◌, ◌⊎◌, inl, inr, Bool, not, Option, some, List,
  [], ◌∷◌, ◌++◌, arith, if_split, length, length-append,
}
use rtail.Store.Memory.{Record, Event, numbered}
use rtail.Store.Durable.{
  Config, Catalog, Log, Answers, Batch, Durable, add_record, batch_from, segment,
}
use rtail.Store.Durable.Cycle.{persist, flush_sealed}
use rtail.Store.Durable.Runs.{ingest, append}
use rtail.Store.Durable.Batches.{Sorts, batch_from-append}
use rtail.Store.Durable.Order.{RisingAll, RisingAll-record}
use rtail.Store.Durable.Landing.{InOrder}
use rtail.Store.Durable.Persist.{persist-Landed}
use rtail.Store.Durable.Sealed.{Apart-append}
use rtail.Store.Durable.Replays.{
  Kept, Advances, Kept-Grows, Kept-remove, Shrinks-refl, Shrinks-remove,
}

pub mem-last {ℓ} :
    {A : Type ℓ} (xs : List A) (y x : A) → Memᴰ x (xs ++ y ∷ []) → Memᴰ x xs ⊎ (x ≡ y)
mem-last xs y x h = elim (Memᴰ.append_cases xs h) [
  | inl old ↦ inl old
  | inr new ↦ elim (Memᴰ.cases_cons new) [ inl same ↦ inr same | inr nothing ↦ elim nothing [ ] ]
]

module _ {P : Type 0} (cfg : Config P) where
  -- A segment is sealed under the next number.
  pub Kept-seal :
      (segs : List (List (Record P))) (xs : List (Record P)) (l : Log P) (c : Catalog P)
      → Kept cfg segs l c
      → Kept cfg
          (segs ++ xs ∷ [])
          (record { number = l.number + 1; active = []; sealed = l.sealed ++ (l.number, xs) ∷ [] })
          c
  unfolding InOrder
  Kept-seal segs xs l c ((made, apart_rows, low), listed, apart, safe) = (
    (
      (λ row m.
          let (ys, first, rest, mem, e, shape) = made row m in
          (ys, first, rest, Memᴰ.append_left (xs ∷ []) mem, e, shape)),
      apart_rows,
      low,
    ),
    (λ n ys h. elim (Memᴰ.append_cases l.sealed h) [
      | inl old ↦
          let (m, small) = listed n ys old in (Memᴰ.append_left (xs ∷ []) m, omega (arith, small))
      | inr new ↦ elim (Memᴰ.cases_cons new) [
        | inl same ↦
            let en : n ≡ l.number = ap (λ p. p.0) same in
            (Memᴰ.append_right segs (head (ap (λ p. p.1) same)), omega (arith, en))
        | inr nothing ↦ elim nothing [ ]
      ]
    ]),
    Apart-append l.number xs l.sealed apart (λ m ys h. (listed m ys h).1),
    λ ys m. elim (Memᴰ.append_cases segs m) [
      | inl old ↦ elim (safe ys old) [
        | inl (n, h) ↦ inl (n, Memᴰ.append_left ((l.number, xs) ∷ []) h)
        | inr landed ↦ inr landed
      ]
      | inr new ↦ elim (Memᴰ.cases_cons new) [
        | inl same ↦
            inl (l.number, Memᴰ.append_right l.sealed (head (ap (λ ys. (l.number, ys)) same)))
        | inr nothing ↦ elim nothing [ ]
      ]
    ],
  )

  -- The state, when these segments have been sealed.
  abbrev pub Inv : List (List (Record P)) → Durable P → Type 0
  Inv segs d =
      RisingAll 0 (segs ++ d.log.active ∷ [])
      × ((xs : List (Record P))
          → Memᴰ xs (segs ++ d.log.active ∷ [])
          → (x : Record P) → Memᴰ x xs
          → x.seq ≤ d.seq)
      × Kept cfg segs d.log d.catalog
      × (d.batch ≡ batch_from [] d.log.active)
      × (d.rows ≡ length d.log.active)

  pub append-Inv :
      (a : Answers) (rec : Record P) (segs : List (List (Record P))) (d : Durable P)
      → d.seq + 1 < 2 ^ 64
      → Inv segs d
      → Inv segs (append cfg a rec d).0
  unfolding append ingest numbered
  append-Inv a rec segs d room (up, low, kept, batch, rows) =
      let seq : (d.seq + 1) % 2 ^ 64 ≡ d.seq + 1 = mod-eq_of_lt room in
      let rec' = numbered d.seq rec in
      if_split (λ (r : Durable P × Option (List (Event P) × Bool)). Inv segs r.0) (not a.append_ok)
        (λ _. (up, (λ xs m x h. omega (arith, seq, low xs m x h)), kept, batch, rows))
        (λ _. (
          RisingAll-record 0 segs d.log.active rec' up (omega (arith, seq))
              (λ ys m y h. omega (arith, seq, low ys m y h)),
          (λ xs m x h. elim (mem-last segs (d.log.active ++ rec' ∷ []) xs m) [
            | inl old ↦ omega (arith, seq, low xs (Memᴰ.append_left (d.log.active ∷ []) old) x h)
            | inr new ↦ elim (mem-last d.log.active rec' x (subst (Memᴰ x) new h)) [
              | inl older ↦
                  omega (arith, seq, low d.log.active (Memᴰ.append_right segs (head refl)) x older)
              | inr this ↦
                  let number : x.seq ≡ (d.seq + 1) % 2 ^ 64 = ap (λ (z : Record P). z.seq) this in
                  omega (arith, number)
            ]
          ]),
          kept,
          ap (add_record rec') batch ∙ sym (batch_from-append d.log.active [] rec'),
          omega (arith, rows, length-append d.log.active (rec' ∷ [])),
        ))

  -- `flush` behind the rotation, for the last segment sealed
  pub flush_sealed-Kept :
      (a : Answers) (retire : Bool) (segs : List (List (Record P))) (xs : List (Record P)) (n : ℕ)
      (batch : Batch P) (d : Durable P)
      → RisingAll 0 segs
      → Memᴰ xs segs
      → segment n d.log.sealed ≡ some xs
      → Sorts batch xs
      → Kept cfg segs d.log d.catalog
      → Advances cfg segs d.log d.catalog
          (flush_sealed cfg a retire n batch d).0.log
          (flush_sealed cfg a retire n batch d).0.catalog
  unfolding flush_sealed
  flush_sealed-Kept a retire segs xs n batch d up mem found sorts kept =
      let (ok, grows, landed) =
        persist-Landed cfg segs a n batch xs d.catalog up mem sorts kept.0 in
      let kept' =
        Kept-Grows cfg segs d.log d.catalog (persist cfg a n batch d.catalog).0 ok grows kept in
      let Good : Durable P × Bool → Type 0 =
        λ r. Advances cfg segs d.log d.catalog r.0.log r.0.catalog in
      if_split Good (persist cfg a n batch d.catalog).1
        (λ fine.
          if_split Good (not retire) (λ _. (kept', Shrinks-refl cfg segs d.log, grows))
            (λ _.
              if_split Good (a.remove_ok n)
                (λ _. (
                  Kept-remove cfg segs n xs d.log _ found (landed fine) kept',
                  Shrinks-remove cfg segs n d.log,
                  grows,
                ))
                (λ _. (kept', Shrinks-refl cfg segs d.log, grows))))
        (λ _. (kept', Shrinks-refl cfg segs d.log, grows))
