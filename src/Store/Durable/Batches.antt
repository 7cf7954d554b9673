-- ===== src/Store/Durable/Batches.antt =====
-- The batch of internal/logstore/durable.go: the records of the active segment, stream by stream.
use mathlib.Core.Path.{subst}
use mathlib.Core.List.{Memᴰ}
use rtail.Base.{
  ◌<◌, ◌≡◌, refl, sym, ap, ◌∙◌, inl, inr, Option, none, some, List, [], ◌∷◌, ◌++◌, append_assoc,
  append-nil, arith, Bool-cases, Option-cases, option_split, length, length-append, Bytes, bytes_eq,
  bytes_eq_iff, lookup, put, lookup-put_hit, lookup-put_miss, Distinct, lookup-mem, mem-lookup,
  Distinct-put,
}
use rtail.Store.Memory.{Record, of_stream}
use rtail.Store.Memory.Backlog.{of_stream-hit, of_stream-miss}
use rtail.Store.Durable.{Batch, add_record, batch_from}

module _ {P : Type 0} where
  -- What a batch has for a stream is that stream's records, and there are some.
  unfoldable pub Entry : Option (List (Record P)) → List (Record P) → Type 0
  Entry none ys = ys ≡ []
  Entry (some xs) ys = (xs ≡ ys) × (0 < length xs)

  unfoldable pub Sorts : Batch P → List (Record P) → Type 0
  unfolding Entry
  Sorts batch xs = Distinct batch × ((s : Bytes) → Entry (lookup s batch) (of_stream s xs))

  put-Sorts :
      (x : Record P) (records : List (Record P)) (batch : Batch P) (xs : List (Record P))
      → Sorts batch xs
      → records ≡ of_stream x.stream xs ++ x ∷ []
      → Sorts (put x.stream records batch) (xs ++ x ∷ [])
  unfolding Sorts Entry
  put-Sorts x records batch xs (d, h) e = (
    Distinct-put x.stream records batch d,
    λ s. elim (Bool-cases (bytes_eq x.stream s)) [
      | inl hit ↦
          let same = (bytes_eq_iff x.stream s).0 hit in
          let size : 0 < length records =
            omega (arith, ap length e, length-append (of_stream x.stream xs) (x ∷ [])) in
          let whole : records ≡ of_stream s (xs ++ x ∷ []) =
            e ∙ ap (λ k. of_stream k xs ++ x ∷ []) same ∙ sym (of_stream-hit s xs x hit) in
          rw (lookup-put_hit x.stream s records batch hit) (whole, size)
      | inr miss ↦
          rw (lookup-put_miss x.stream s records batch miss, of_stream-miss s xs x miss) (h s)
    ],
  )

  Sorts-lookup :
      (s : Bytes) (batch : Batch P) (xs : List (Record P)) (o : Option (List (Record P)))
      → Sorts batch xs
      → lookup s batch ≡ o
      → Entry o (of_stream s xs)
  unfolding Sorts
  Sorts-lookup s batch xs o h e = subst (λ o'. Entry o' (of_stream s xs)) e (h.1 s)

  add_record-Sorts :
      (x : Record P) (batch : Batch P) (xs : List (Record P))
      → Sorts batch xs
      → Sorts (add_record x batch) (xs ++ x ∷ [])
  unfolding add_record Entry
  add_record-Sorts x batch xs h =
      option_split (λ b. Sorts b (xs ++ x ∷ [])) (lookup x.stream batch) _ _
        (λ e.
          put-Sorts x (x ∷ []) batch xs h
            (ap (◌++ x ∷ []) (sym (Sorts-lookup x.stream batch xs none h e))))
        (λ records e.
          put-Sorts x (records ++ x ∷ []) batch xs h
            (ap (◌++ x ∷ []) (Sorts-lookup x.stream batch xs (some records) h e).0))

  batch_from-Sorts :
      (xs : List (Record P)) (batch : Batch P) (ys : List (Record P))
      → Sorts batch ys
      → Sorts (batch_from batch xs) (ys ++ xs)
  unfolding batch_from
  batch_from-Sorts [] batch ys h = subst (Sorts batch) (sym (append-nil ys)) h
  batch_from-Sorts (x ∷ xs) batch ys h =
      subst (Sorts (batch_from (add_record x batch) xs)) (append_assoc ys (x ∷ []) xs)
        (batch_from-Sorts xs (add_record x batch) (ys ++ x ∷ []) (add_record-Sorts x batch ys h))

  pub batch_of-Sorts : (xs : List (Record P)) → Sorts (batch_from [] xs) xs
  unfolding Sorts Entry lookup of_stream
  batch_of-Sorts xs = batch_from-Sorts xs [] [] (tt, λ s. refl)

  -- One more record in the segment is one more in the batch.
  pub batch_from-append :
      (xs : List (Record P)) (batch : Batch P) (x : Record P)
      → batch_from batch (xs ++ x ∷ []) ≡ add_record x (batch_from batch xs)
  unfolding batch_from
  batch_from-append [] batch x = refl
  batch_from-append (y ∷ xs) batch x = batch_from-append xs (add_record y batch) x

  pub Sorts-mem :
      (s : Bytes) (records : List (Record P)) (batch : Batch P) (xs : List (Record P))
      → Sorts batch xs
      → Memᴰ (s, records) batch
      → (records ≡ of_stream s xs) × (0 < length records)
  unfolding Sorts Entry
  Sorts-mem s records batch xs h m =
      Sorts-lookup s batch xs (some records) h (lookup-mem s records batch h.0 m)

  pub mem-Sorts :
      (s : Bytes) (first : Record P) (rest : List (Record P)) (batch : Batch P)
      (xs : List (Record P))
      → Sorts batch xs
      → of_stream s xs ≡ first ∷ rest
      → Memᴰ (s, first ∷ rest) batch
  unfolding Entry
  mem-Sorts s first rest batch xs h e = elim (Option-cases (lookup s batch)) [
    | inl n ↦ absurd (ground (arith, e, Sorts-lookup s batch xs none h n))
    | inr (zs, n) ↦
        let same = (Sorts-lookup s batch xs (some zs) h n).0 ∙ e in
        mem-lookup s (first ∷ rest) batch (n ∙ ap some same)
  ]
