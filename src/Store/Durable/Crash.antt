-- ===== src/Store/Durable/Crash.antt =====
-- A crash of the store of internal/logstore/durable.go, and its opening, keep all but the newest records.
use mathlib.Core.Path.{subst}
use mathlib.Core.List.{Memᴰ}
use rtail.Base.{
  ℕ, ◌+◌, ◌-◌, ◌≤◌, ◌≡◌, refl, sym, ap, ◌∙◌, inl, inr, List, [], ◌∷◌, ◌++◌, append-nil, arith, leb,
  Bool-cases, length, take, length-append, take_all, Bytes,
}
use rtail.Store.Memory.{Record}
use rtail.Store.Durable.{Config, Log, whole, Answers, Durable, batch_from}
use rtail.Store.Durable.Runs.{recover, numbers, open_durable, crashed, new_durable}
use rtail.Store.Durable.Order.{RisingAll-take, RisingAll-fresh}
use rtail.Store.Durable.Invariant.{mem-last, Kept-seal}
use rtail.Store.Durable.Flushes.{joined, joined-last, Holding}
use rtail.Store.Durable.Recovery.{
  numbers-mem, Landed-Covered, Left, recover-memory, recover-Advances,
}
use rtail.Store.Ring.{Ring}
use rtail.Base.{take-append_ge}

module _ {P : Type 0} where
  take-back :
      (A B : List (Record P)) (k : ℕ)
      → take (length (A ++ B) - (length B - k)) (A ++ B) ≡ A ++ take k B
  take-back A B k =
      let n = length (A ++ B) - (length B - k) in
      let far : length A ≤ n = omega (arith, length-append A B) in
      let rest : take (n - length A) B ≡ take k B = elim (Bool-cases (leb k (length B))) [
        | inl le ↦
            let same : n - length A ≡ k = ground (arith, length-append A B, le) in
            ap (λ m. take m B) same
        | inr gt ↦
            take_all (n - length A) B (ground (arith, length-append A B, gt))
            ∙ sym (take_all k B (ground (arith, gt)))
      ] in
      take-append_ge n A B far ∙ ap (A ++◌) rest

module _ {P : Type 0} (cfg : Config P) where
  pub crash-Holding :
      (a : Answers) (kept : ℕ) (order : List Bytes) (streams : List (Bytes × Ring (Record P)))
      (history : List (Record P)) (d : Durable P)
      → ((n : ℕ) → a.reading n ≡ whole)
      → Holding cfg history d
      → Holding cfg
          (take (length history - (length d.log.active - kept)) history)
          (open_durable cfg a order streams (crashed cfg kept d.log) d.catalog)
  unfolding open_durable crashed
  crash-Holding a kept order streams history d w (segs, e, (up, low, ok, batch, rows)) =
      let xs = take kept d.log.active in
      let segs' = segs ++ xs ∷ [] in
      let up' = RisingAll-take 0 kept segs d.log.active up in
      let ok' = Kept-seal cfg segs xs d.log d.catalog ok in
      let l : Log P = record {
        number = d.log.number + 1;
        active = [];
        sealed = d.log.sealed ++ (d.log.number, xs) ∷ [];
      } in
      let d0 : Durable P = record (new_durable cfg) {
        seq = d.catalog.max_seq;
        log = l;
        catalog = d.catalog;
      } in
      let left : Left cfg segs' (numbers l.sealed) d.catalog.max_seq l = λ ys m. elim (ok'.3 ys m) [
        | inl (n, h) ↦ inr (n, numbers-mem n ys l.sealed h, h)
        | inr landed ↦ inl (Landed-Covered cfg segs' d.catalog ys ok'.0 landed)
      ] in
      let (adv, covered) = recover-Advances cfg segs' a (numbers l.sealed) d0 up' w ok' left in
      let (same_batch, same_rows) = recover-memory cfg segs' a (numbers l.sealed) d0 in
      let d' = recover cfg a (numbers l.sealed) d0 in
      let none_active : d'.log.active ≡ [] = adv.1.0 in
      (
        segs',
        rw none_active (
            joined-last segs' []
            ∙ append-nil (joined segs')
            ∙ joined-last segs xs
            ∙ sym (take-back (joined segs) d.log.active kept)
            ∙ ap (λ h. take (length h - (length d.log.active - kept)) h)
                (sym (joined-last segs d.log.active) ∙ e)),
        (
          rw none_active (RisingAll-fresh 0 segs' up'),
          (λ ys m x h. elim (mem-last segs' d'.log.active ys m) [
            | inl old ↦ covered ys old x h
            | inr new ↦ elim (subst (Memᴰ x) (new ∙ none_active) h) [ ]
          ]),
          adv.0,
          same_batch ∙ rw none_active (unfold batch_from in refl),
          same_rows ∙ rw none_active refl,
        ),
      )
