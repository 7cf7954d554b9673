-- ===== src/Store/Memory/Backlog.antt =====
-- `Append` and `Backlog` of internal/logstore/memory.go over a whole history.
use mathlib.Core.Path.{subst}
use rtail.Base.{
  ℕ, ◌-◌, ◌<◌, ◌≡◌, refl, sym, ap, ◌∙◌, inl, inr, true, false, Option, none, some, List, [], ◌∷◌,
  ◌++◌, map, append_assoc, append-nil, arith, Bool-cases, option_split, drop, Bytes, bytes_eq,
  bytes_eq_iff, lookup, put, lookup-put_hit, lookup-put_miss,
}
use rtail.Store.Ring.{Ring, limited, new_ring, push, slice, newest}
use rtail.Store.Ring.History.{slice-Follows, new_ring-Follows, Follows, push-Follows}
use rtail.Store.Memory.{
  capacity, Record, Memory, Event, new_memory, numbered, append, backlog_of, append_all, stored,
  of_stream,
}

module _ {P : Type 0} where
  pub of_stream-hit :
      (s : Bytes) (xs : List (Record P)) (y : Record P)
      → bytes_eq y.stream s ≡ true
      → of_stream s (xs ++ y ∷ []) ≡ of_stream s xs ++ y ∷ []
  unfolding of_stream
  of_stream-hit s [] y h = ground (arith, h)
  of_stream-hit s (x ∷ xs) y h = ground (arith, h, of_stream-hit s xs y h)

  pub of_stream-miss :
      (s : Bytes) (xs : List (Record P)) (y : Record P)
      → bytes_eq y.stream s ≡ false
      → of_stream s (xs ++ y ∷ []) ≡ of_stream s xs
  unfolding of_stream
  of_stream-miss s [] y h = ground (arith, h)
  of_stream-miss s (x ∷ xs) y h = ground (arith, h, of_stream-miss s xs y h)

  -- What the map has for a stream follows that stream's records.
  unfoldable Serves : ℕ → Option (Ring (Record P)) → List (Record P) → Type 0
  Serves size none xs = xs ≡ []
  Serves size (some r) xs = Follows size r xs

  abbrev Keeps : Memory P → List (Record P) → Type 0
  Keeps m history =
      (0 < m.size) × ((s : Bytes) → Serves m.size (lookup s m.streams) (of_stream s history))

  -- `put` behind a push keeps the map in step with the history.
  put-Serves :
      (size : ℕ) (y : Record P) (r : Ring (Record P)) (m : List (Bytes × Ring (Record P)))
      (history : List (Record P)) (s : Bytes)
      → (bytes_eq y.stream s ≡ true → Follows size r (of_stream s history ++ y ∷ []))
      → Serves size (lookup s m) (of_stream s history)
      → Serves size (lookup s (put y.stream r m)) (of_stream s (history ++ y ∷ []))
  unfolding Serves
  put-Serves size y r m history s hit old = elim (Bool-cases (bytes_eq y.stream s)) [
    | inl e ↦
        subst (λ o. Serves size o (of_stream s (history ++ y ∷ [])))
          (sym (lookup-put_hit y.stream s r m e))
          (subst (Follows size r) (sym (of_stream-hit s history y e)) (hit e))
    | inr e ↦
        subst (λ o. Serves size o (of_stream s (history ++ y ∷ [])))
          (sym (lookup-put_miss y.stream s r m e))
          (subst (Serves size (lookup s m)) (sym (of_stream-miss s history y e)) old)
  ]

  append-Keeps :
      (x : Record P) (m : Memory P) (history : List (Record P))
      → Keeps m history
      → Keeps (append x m).0 (history ++ numbered m.seq x ∷ [])
  unfolding append numbered Serves
  append-Keeps x m history (hs, h) =
      let y = numbered m.seq x in
      let at : (o : Option (Ring (Record P))) (s : Bytes)
          → lookup x.stream m.streams ≡ o
          → bytes_eq x.stream s ≡ true
          → Serves m.size o (of_stream s history) =
        λ o s e hit.
          let same : x.stream ≡ s = (bytes_eq_iff x.stream s).0 hit in
          subst (λ o'. Serves m.size o' (of_stream s history))
            (ap (λ k. lookup k m.streams) (sym same) ∙ e) (h s) in
      option_split (λ (r : Memory P × List (Event P)). Keeps r.0 (history ++ y ∷ []))
        (lookup x.stream m.streams) _ _
        (λ e. (
          hs,
          λ s.
              put-Serves m.size y (push y (new_ring m.size)) m.streams history s
                (λ hit.
                  subst (λ xs. Follows m.size (push y (new_ring m.size)) (xs ++ y ∷ []))
                    (sym (at none s e hit))
                    (push-Follows m.size y (new_ring m.size) [] hs
                      (new_ring-Follows (Record P) m.size hs)))
                (h s),
        ))
        (λ buffer e. (
          hs,
          λ s.
              put-Serves m.size y (push y buffer) m.streams history s
                (λ hit.
                  push-Follows m.size y buffer (of_stream s history) hs (at (some buffer) s e hit))
                (h s),
        ))

  seq-append : (x : Record P) (m : Memory P) → (append x m).0.seq ≡ (numbered m.seq x).seq
  unfolding append numbered
  seq-append x m =
      option_split (λ (r : Memory P × List (Event P)). r.0.seq ≡ (numbered m.seq x).seq)
        (lookup x.stream m.streams) _ _ (λ _. refl) (λ _ _. refl)

  size-append : (x : Record P) (m : Memory P) → (append x m).0.size ≡ m.size
  unfolding append
  size-append x m =
      option_split (λ (r : Memory P × List (Event P)). r.0.size ≡ m.size)
        (lookup x.stream m.streams) _ _ (λ _. refl) (λ _ _. refl)

  append_all-Keeps :
      (xs : List (Record P)) (m : Memory P) (history : List (Record P))
      → Keeps m history
      → Keeps (append_all xs m) (history ++ stored m.seq xs)
  unfolding append_all stored
  append_all-Keeps [] m history h = subst (Keeps m) (sym (append-nil history)) h
  append_all-Keeps (x ∷ xs) m history h =
      let y = numbered m.seq x in
      let ih =
        append_all-Keeps xs (append x m).0 (history ++ y ∷ []) (append-Keeps x m history h) in
      subst (Keeps (append_all xs (append x m).0))
        (append_assoc history (y ∷ []) _ ∙ ap (λ n. history ++ (y ∷ stored n xs)) (seq-append x m))
        ih

  size-append_all : (xs : List (Record P)) (m : Memory P) → (append_all xs m).size ≡ m.size
  unfolding append_all
  size-append_all [] m = refl
  size-append_all (x ∷ xs) m = size-append_all xs (append x m).0 ∙ size-append x m

  newest-nil : (n : ℕ) → newest {R = Record P} n [] ≡ []
  unfolding newest
  newest-nil n = let e : 0 - n ≡ 0 = omega arith in ap {B = List (Record P)} (λ k. drop k []) e

  backlog_of-Serves :
      (limit size : ℕ) (o : Option (Ring (Record P))) (xs : List (Record P))
      → Serves size o xs
      → (elim o [ none ↦ [] | some buffer ↦ slice limit buffer ])
        ≡ map some (newest (limited limit size) xs)
  unfolding Serves
  backlog_of-Serves limit size none xs h =
      sym (ap (λ ys. map some (newest (limited limit size) ys)) h ∙ ap (map some) (newest-nil _))
  backlog_of-Serves limit size (some r) xs h = slice-Follows limit size r xs h

new_memory-Keeps : (P : Type 0) (size : ℕ) → Keeps (new_memory {P = P} size) []
unfolding new_memory lookup of_stream Serves
new_memory-Keeps P size = (ground arith, λ s. refl)

module _ {P : Type 0} where
  -- After any records are appended to a new memory store, the backlog of a named stream is the
  -- newest records of that stream, oldest first and with the sequence numbers that Append gave
  -- them: as many as the limit says, or as the store keeps for a stream.
  pub backlog_of-append_all :
      (size limit : ℕ) (s : Bytes) (xs : List (Record P))
      → backlog_of s limit (append_all xs (new_memory size))
        ≡ map some (newest (limited limit (capacity size)) (of_stream s (stored 0 xs)))
  unfolding backlog_of new_memory
  backlog_of-append_all size limit s xs =
      let start : Memory P = new_memory size in
      let (_, h) = append_all-Keeps xs start [] (new_memory-Keeps P size) in
      let m : Memory P = append_all xs start in
      backlog_of-Serves limit m.size (lookup s m.streams) (of_stream s (stored 0 xs)) (h s)
      ∙ ap (λ n. map some (newest (limited limit n) (of_stream s (stored 0 xs))))
          (size-append_all xs start)
