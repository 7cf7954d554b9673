-- ===== src/Store/Durable/Flushed.antt =====
-- `Flush` of internal/logstore/durable.go, when it returns nil, leaves nothing that is not in a file.
use mathlib.Core.Path.{subst}
use mathlib.Core.List.{Memᴰ}
use mathlib.Core.List.Memᴰ
use mathlib.Core.List.Memᴰ.{head}
use rtail.Base.{
  ℕ, ◌≡◌, refl, sym, ap, ◌∙◌, inl, inr, Bool, true, false, not, ◌||◌, List, [], ◌∷◌, ◌++◌,
  append-nil, arith, ◌==◌, ==_iff, if_split, length,
}
use rtail.Store.Memory.{Record, of_stream}
use rtail.Store.Durable.{Config, Row, Catalog, Answers, Batch, Durable}
use rtail.Store.Durable.Cycle.{
  row_of, persist, retry, back_off, rotate, flush_sealed, seal_and_flush, flush,
}
use rtail.Store.Durable.Runs.{Step, run, new_durable}
use rtail.Store.Durable.Order.{RisingAll, RisingAll-prefix}
use rtail.Store.Durable.Landing.{Landed}
use rtail.Store.Durable.Persist.{persist-Landed}
use rtail.Store.Durable.Batches.{batch_of-Sorts}
use rtail.Store.Durable.Replays.{Intact, Kept, retry-Advances}
use rtail.Store.Durable.Invariant.{mem-last, Inv}
use rtail.Store.Durable.Flushes.{joined, joined-last, Holding, Inv-Advances, seal-Inv, sealed_state}
use rtail.Store.Durable.Listed.{retry-Listed}
use rtail.Store.Durable.Sound.{taken_in, HealthyRun, run_new-Holding}
use rtail.Store.Durable.Recovery.{mem-of_stream, uncons}
use rtail.Store.Durable.Sound.{joined-mem}
use rtail.Store.Durable.Complete.{Lists, run_new-Lists}

length_zero : {A : Type 0} (xs : List A) → length xs ≡ 0 → xs ≡ []
length_zero [] h = refl
length_zero (x ∷ xs) h = absurd (omega (arith, h))

module _ {P : Type 0} (cfg : Config P) where
  abbrev AllLanded : List (List (Record P)) → Catalog P → Type 0
  AllLanded segs c = (xs : List (Record P)) → Memᴰ xs segs → Landed cfg [] c xs

  -- All that was sealed has landed, and nothing else is left.
  abbrev Flushed : List (Record P) → Durable P → Type 0
  Flushed history d =
      (segs : List (List (Record P))) × (joined segs ≡ history) × AllLanded segs d.catalog

  flush_sealed-catalog :
      (a : Answers) (retire : Bool) (n : ℕ) (batch : Batch P) (d : Durable P)
      → (flush_sealed cfg a retire n batch d).1 ≡ true
      → ((persist cfg a n batch d.catalog).1 ≡ true)
        × ((flush_sealed cfg a retire n batch d).0.catalog ≡ (persist cfg a n batch d.catalog).0)
  unfolding flush_sealed
  flush_sealed-catalog a retire n batch d =
      let c = (persist cfg a n batch d.catalog).0 in
      let ok = (persist cfg a n batch d.catalog).1 in
      let Good : Durable P × Bool → Type 0 = λ r. r.1 ≡ true → (ok ≡ true) × (r.0.catalog ≡ c) in
      if_split Good ok
        (λ fine.
          if_split Good (not retire) (λ _ _. (fine, refl))
            (λ _. if_split Good (a.remove_ok n) (λ _ _. (fine, refl)) (λ _ _. (fine, refl))))
        (λ _ e. absurd (ground (arith, e)))

  seal_and_flush-Flushed :
      (a : Answers) (retire : Bool) (segs : List (List (Record P))) (d : Durable P)
      → d.closed ≡ false
      → Inv cfg segs d
      → AllLanded segs d.catalog
      → (seal_and_flush cfg a retire d).1 ≡ true
      → Flushed (joined (segs ++ d.log.active ∷ [])) (seal_and_flush cfg a retire d).0
  unfolding seal_and_flush back_off rotate
  seal_and_flush-Flushed a retire segs d alive inv landed =
      let history = joined (segs ++ d.log.active ∷ []) in
      let Good : Durable P × Bool → Type 0 = λ r. r.1 ≡ true → Flushed history r.0 in
      if_split Good (d.closed || d.rows == 0)
        (λ empty _.
          let no_rows : d.rows ≡ 0 = (==_iff d.rows 0).0 (ground (arith, alive, empty)) in
          let none_active : d.log.active ≡ [] =
            length_zero d.log.active (omega (arith, no_rows, inv.4)) in
          (
            segs,
            sym (append-nil (joined segs))
                ∙ ap (joined segs ++◌) (sym none_active)
                ∙ sym (joined-last segs d.log.active),
            landed,
          ))
        (λ _.
          if_split Good (not a.rotate_ok) (λ _ e. absurd (ground (arith, e)))
            (λ _ e.
              let segs' = segs ++ d.log.active ∷ [] in
              let d' = sealed_state cfg d in
              let inv' = seal-Inv cfg segs d inv in
              let mem : Memᴰ d.log.active segs' = Memᴰ.append_right segs (head refl) in
              let (_, grows, all) =
                persist-Landed cfg segs' a d.log.number d.batch d.log.active d.catalog inv.0 mem
                  (rw inv.3 (batch_of-Sorts d.log.active)) inv'.2.0 in
              let (fine, same) = flush_sealed-catalog a retire d.log.number d.batch d' e in
              (
                segs',
                refl,
                rw same (λ xs m. elim (mem-last segs d.log.active xs m) [
                  | inl old ↦ λ s first rest e'.
                      grows (row_of cfg s first rest) (landed xs old s first rest e')
                  | inr this ↦
                      subst (Landed cfg [] (persist cfg a d.log.number d.batch d.catalog).0)
                        (sym this) (all fine)
                ]),
              )))

  retry-AllLanded :
      (a : Answers) (segs : List (List (Record P))) (d : Durable P)
      → RisingAll 0 segs
      → ((n : ℕ) → Intact (a.reading n))
      → Kept cfg segs d.log d.catalog
      → Lists cfg d
      → (retry cfg a d.unflushed d.log d.catalog).2 ≡ []
      → AllLanded segs (retry cfg a d.unflushed d.log d.catalog).1
  retry-AllLanded a segs d up intact kept lists done xs m =
      let adv = retry-Advances cfg segs a d.unflushed d.log d.catalog up intact kept in
      elim (adv.0.3 xs m) [
        | inl (n, h) ↦
            elim (retry-Listed cfg segs a d.unflushed d.log d.catalog up intact kept lists n xs h) [
              | inl landed ↦ landed
              | inr left ↦ elim (subst (Memᴰ n) done left) [ ]
            ]
        | inr landed ↦ landed
      ]

  abbrev no_more : List ℕ → Bool
  no_more remaining = elim remaining [ [] ↦ true | _ ↦ false ]

  no_more-nil : (remaining : List ℕ) → no_more remaining ≡ true → remaining ≡ []
  no_more-nil [] h = refl
  no_more-nil (n ∷ ns) h = absurd (ground (arith, h))

  flush-Flushed :
      (a : Answers) (retire : Bool) (history : List (Record P)) (d : Durable P)
      → d.closed ≡ false
      → ((n : ℕ) → Intact (a.reading n))
      → Holding cfg history d
      → Lists cfg d
      → (flush cfg a retire d).1 ≡ true
      → Flushed history (flush cfg a retire d).0
  unfolding flush
  flush-Flushed a retire history d alive intact (segs, e, inv) lists =
      let Good : Durable P × Bool → Type 0 = λ r. r.1 ≡ true → Flushed history r.0 in
      let r = retry cfg a d.unflushed d.log d.catalog in
      let d' : Durable P = record d { log = r.0; catalog = r.1; unflushed = r.2 } in
      let up = RisingAll-prefix 0 segs d.log.active inv.0 in
      let adv = retry-Advances cfg segs a d.unflushed d.log d.catalog up intact inv.2 in
      if_split Good d.closed (λ closed. absurd (ground (arith, alive, closed)))
        (λ _ fine.
          let done = no_more-nil r.2 (ground (arith, fine)) in
          let landed = retry-AllLanded a segs d up intact inv.2 lists done in
          let flushed =
            seal_and_flush-Flushed a retire segs d' alive
              (Inv-Advances cfg segs d d' refl refl refl adv inv) landed (ground (arith, fine)) in
          let same : joined (segs ++ d'.log.active ∷ []) ≡ history = rw (adv.1.0) e in
          subst (λ h. Flushed h (seal_and_flush cfg a retire d').0) same flushed)

  -- Under the conditions of run-Found, if a flush of a store that is not closed returns nil and
  -- met no damaged segment, then every record taken before it is in a file that the catalog has:
  -- those of the active segment, and those of every segment that an earlier flush or an opening
  -- left on disk.
  pub flush-written :
      (ss : List (Step cfg)) (a : Answers) (retire : Bool) (x : Record P)
      → HealthyRun cfg ss (new_durable cfg)
      → (run cfg ss (new_durable cfg)).closed ≡ false
      → ((n : ℕ) → Intact (a.reading n))
      → (flush cfg a retire (run cfg ss (new_durable cfg))).1 ≡ true
      → Memᴰ x (taken_in cfg ss (new_durable cfg) [])
      → (row : Row P) × Memᴰ row (flush cfg a retire (run cfg ss (new_durable cfg))).0.catalog.files
        × Memᴰ x row.content
  unfolding row_of
  flush-written ss a retire x h alive intact fine m =
      let (segs, e, landed) =
        flush-Flushed a retire _ (run cfg ss (new_durable cfg)) alive intact
          (run_new-Holding cfg ss h) (run_new-Lists cfg ss h) fine in
      let (xs, mem, hx) = joined-mem segs x (subst (Memᴰ x) (sym e) m) in
      let own = mem-of_stream x xs hx in
      let (first, rest, shape) = uncons (of_stream x.stream xs) x own in
      (
        row_of cfg x.stream first rest,
        landed xs mem x.stream first rest shape,
        subst (Memᴰ x) shape own,
      )
