-- ===== src/Store/Durable/Flushes.antt =====
-- `flush` of internal/logstore/durable.go keeps the invariant and loses no record.
use mathlib.Core.Path.{subst}
use mathlib.Core.List.{Memᴰ}
use mathlib.Core.List.Memᴰ
use mathlib.Core.List.Memᴰ.{head}
use rtail.Base.{
  ℕ, ◌+◌, ◌≡◌, refl, sym, ap, ◌∙◌, inl, inr, Bool, not, ◌||◌, List, [], ◌∷◌, ◌++◌, append_assoc,
  append-nil, ◌==◌, if_split,
}
use rtail.Store.Memory.{Record}
use rtail.Store.Durable.{Config, Answers, Batch, Durable, batch_from}
use rtail.Store.Durable.Cycle.{
  persist, retry, back_off, rotate, flush_sealed, seal_and_flush, flush,
}
use rtail.Store.Durable.Batches.{batch_of-Sorts}
use rtail.Store.Durable.Order.{RisingAll-prefix, RisingAll-fresh}
use rtail.Store.Durable.Sealed.{segment-mem}
use rtail.Store.Durable.Replays.{Intact, Advances, retry-Advances}
use rtail.Store.Durable.Invariant.{mem-last, Kept-seal, Inv, flush_sealed-Kept}

module _ {P : Type 0} where
  unfoldable pub joined : List (List (Record P)) → List (Record P)
  joined [] = []
  joined (xs ∷ segs) = xs ++ joined segs

  pub joined-last :
      (segs : List (List (Record P))) (xs : List (Record P))
      → joined (segs ++ xs ∷ []) ≡ joined segs ++ xs
  unfolding joined
  joined-last [] xs = append-nil xs
  joined-last (ys ∷ segs) xs =
      ap (ys ++◌) (joined-last segs xs) ∙ sym (append_assoc ys (joined segs) xs)

module _ {P : Type 0} (cfg : Config P) where
  -- The store has taken these records.
  abbrev pub Holding : List (Record P) → Durable P → Type 0
  Holding history d =
      (segs : List (List (Record P))) × (joined (segs ++ d.log.active ∷ []) ≡ history)
      × Inv cfg segs d

  -- What is in memory and in the log's active segment may stay while sealed segments land.
  pub Inv-Advances :
      (segs : List (List (Record P))) (d d' : Durable P)
      → d'.seq ≡ d.seq
      → d'.batch ≡ d.batch
      → d'.rows ≡ d.rows
      → Advances cfg segs d.log d.catalog d'.log d'.catalog
      → Inv cfg segs d
      → Inv cfg segs d'
  Inv-Advances segs d d' seq batch rows (kept, (active, _, _), _) (up, low, _, same, size) =
      (rw active up, rw (active, seq) low, kept, rw (active, batch) same, rw (active, rows) size)

  flush_sealed-memory :
      (a : Answers) (retire : Bool) (n : ℕ) (batch : Batch P) (d : Durable P)
      → ((flush_sealed cfg a retire n batch d).0.seq ≡ d.seq)
        × ((flush_sealed cfg a retire n batch d).0.batch ≡ d.batch)
        × ((flush_sealed cfg a retire n batch d).0.rows ≡ d.rows)
  unfolding flush_sealed
  flush_sealed-memory a retire n batch d =
      let Good : Durable P × Bool → Type 0 =
        λ r. (r.0.seq ≡ d.seq) × (r.0.batch ≡ d.batch) × (r.0.rows ≡ d.rows) in
      if_split Good (persist cfg a n batch d.catalog).1
        (λ _.
          if_split Good (not retire) (λ _. (refl, refl, refl))
            (λ _.
              if_split Good (a.remove_ok n) (λ _. (refl, refl, refl)) (λ _. (refl, refl, refl))))
        (λ _. (refl, refl, refl))

  -- The state behind the rotation
  abbrev pub sealed_state : Durable P → Durable P
  sealed_state d = record d {
    log = record {
      number = d.log.number + 1;
      active = [];
      sealed = d.log.sealed ++ (d.log.number, d.log.active) ∷ [];
    };
    batch = [];
    rows = 0;
    bytes = 0;
    backoff = 0;
    quiet = 0;
  }

  pub seal-Inv :
      (segs : List (List (Record P))) (d : Durable P)
      → Inv cfg segs d
      → Inv cfg (segs ++ d.log.active ∷ []) (sealed_state d)
  unfolding batch_from
  seal-Inv segs d (up, low, kept, batch, rows) = (
    RisingAll-fresh 0 (segs ++ d.log.active ∷ []) up,
    (λ xs m x h. elim (mem-last (segs ++ d.log.active ∷ []) [] xs m) [
      | inl old ↦ low xs old x h
      | inr new ↦ elim (subst (Memᴰ x) new h) [ ]
    ]),
    Kept-seal cfg segs d.log.active d.log d.catalog kept,
    refl,
    refl,
  )

  seal_and_flush-Holding :
      (a : Answers) (retire : Bool) (history : List (Record P)) (d : Durable P)
      → Holding history d
      → Holding history (seal_and_flush cfg a retire d).0
  unfolding seal_and_flush back_off rotate
  seal_and_flush-Holding a retire history d (segs, e, inv) =
      let Good : Durable P × Bool → Type 0 = λ r. Holding history r.0 in
      if_split Good (d.closed || d.rows == 0) (λ _. (segs, e, inv))
        (λ _.
          if_split Good (not a.rotate_ok) (λ _. (segs, e, inv))
            (λ _.
              let segs' = segs ++ d.log.active ∷ [] in
              let d' = sealed_state d in
              let inv' = seal-Inv segs d inv in
              let found =
                segment-mem d.log.number d.log.active d'.log.sealed inv'.2.2
                  (Memᴰ.append_right d.log.sealed (head refl)) in
              let adv =
                flush_sealed-Kept cfg a retire segs' d.log.active d.log.number d.batch d' inv.0
                  (Memᴰ.append_right segs (head refl)) found
                  (rw inv.3 (batch_of-Sorts d.log.active)) inv'.2 in
              let (seq, batch, rows) = flush_sealed-memory a retire d.log.number d.batch d' in
              (
                segs',
                rw (adv.1.0) (joined-last segs' [] ∙ append-nil (joined segs') ∙ e),
                Inv-Advances segs' d' (flush_sealed cfg a retire d.log.number d.batch d').0 seq
                    batch rows adv inv',
              )))

  pub flush-Holding :
      (a : Answers) (retire : Bool) (history : List (Record P)) (d : Durable P)
      → ((n : ℕ) → Intact (a.reading n))
      → Holding history d
      → Holding history (flush cfg a retire d).0
  unfolding flush
  flush-Holding a retire history d intact (segs, e, inv) =
      let Good : Durable P × Bool → Type 0 = λ r. Holding history r.0 in
      let r = retry cfg a d.unflushed d.log d.catalog in
      let d' : Durable P = record d { log = r.0; catalog = r.1; unflushed = r.2 } in
      let adv =
        retry-Advances cfg segs a d.unflushed d.log d.catalog
          (RisingAll-prefix 0 segs d.log.active inv.0) intact inv.2 in
      if_split Good d.closed (λ _. (segs, e, inv))
        (λ _.
          seal_and_flush-Holding a retire history d'
            (segs, rw (adv.1.0) e, Inv-Advances segs d d' refl refl refl adv inv))
