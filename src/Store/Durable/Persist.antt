-- ===== src/Store/Durable/Persist.antt =====
-- `persist`, `replay` and `retry` of internal/logstore/durable.go, with the catalog's `Register`.
use mathlib.Core.Path.{subst}
use mathlib.Core.List.{Memᴰ}
use mathlib.Core.List.Memᴰ
use mathlib.Core.List.Memᴰ.{head, tail}
use rtail.Base.{
  ℕ, ◌≤◌, ◌≡◌, refl, sym, ap, ◌∙◌, inl, inr, Bool, true, false, List, [], ◌∷◌, ◌++◌, arith, ltb,
  if◌then◌else◌, Bool-cases, if_split, drop, Bytes,
}
use rtail.Store.Memory.{Record, of_stream}
use rtail.Store.Durable.{
  ObjectName, path_eq, Config, Row, Catalog, Answers, Batch, has_path, register,
}
use rtail.Store.Durable.Cycle.{row_of, write_streams, nothing_to_write, persist}
use rtail.Store.Durable.Batches.{Sorts, Sorts-mem, mem-Sorts}
use rtail.Store.Durable.Order.{RisingAll}
use rtail.Store.Durable.Landing.{
  path_eq_iff, Produced, PathsApart, InOrder, Landed, Grows, has_path-mem, registered-Landed,
}

module _ {P : Type 0} where
  mem-has_path :
      (row : Row P) (files : List (Row P)) → Memᴰ row files → has_path row.path files ≡ true
  unfolding has_path
  mem-has_path row [] h = elim h [ ]
  mem-has_path row (r ∷ rs) (head e) =
      let same = (path_eq_iff r.path row.path).1 (ap (λ (z : Row P). z.path) (sym e)) in
      ground (arith, same)
  mem-has_path row (r ∷ rs) (tail h) = ground (arith, mem-has_path row rs h)

  has_path-append :
      (p : ObjectName) (files : List (Row P)) (row : Row P)
      → has_path p files ≡ false
      → path_eq row.path p ≡ false
      → has_path p (files ++ row ∷ []) ≡ false
  unfolding has_path
  has_path-append p [] row h e = ground (arith, e)
  has_path-append p (r ∷ rs) row h e =
      ground (arith, h, has_path-append p rs row (ground (arith, h)) e)

module _ {P : Type 0} (cfg : Config P) (segs : List (List (Record P))) where
  PathsApart-append :
      (files : List (Row P)) (row : Row P)
      → PathsApart files
      → has_path row.path files ≡ false
      → PathsApart (files ++ row ∷ [])
  unfolding PathsApart has_path
  PathsApart-append [] row a h = (refl, tt)
  PathsApart-append (r ∷ rs) row a h =
      let apart : path_eq row.path r.path ≡ false =
        ground (arith, h, path_eq_iff row.path r.path, path_eq_iff r.path row.path) in
      (has_path-append r.path rs row a.0 apart, PathsApart-append rs row a.1 (ground (arith, h)))

  register-InOrder :
      (row : Row P) (c : Catalog P)
      → Produced cfg segs row
      → InOrder cfg segs c
      → InOrder cfg segs (register row c)
        × Grows cfg segs c (register row c)
        × (has_path row.path c.files ≡ false → Memᴰ row (register row c).files)
  unfolding register InOrder
  register-InOrder row c made (all, apart, low) =
      if_split
        (λ (c' : Catalog P).
          InOrder cfg segs c'
          × Grows cfg segs c c'
          × (has_path row.path c.files ≡ false → Memᴰ row c'.files))
        (has_path row.path c.files)
        (λ e. ((all, apart, low), (λ r m. m), λ e'. absurd (ground (arith, e, e'))))
        (λ e.
          let bound : (m : ℕ)
              → m ≤ c.max_seq
              → m ≤ (if ltb c.max_seq row.max_seq then row.max_seq else c.max_seq) =
            λ m l. ground (arith, l) in
          (
            (
              (λ r m. elim (Memᴰ.append_cases c.files m) [
                | inl old ↦ all r old
                | inr new ↦ elim (Memᴰ.cases_cons new) [
                  | inl same ↦ subst (Produced cfg segs) (sym same) made
                  | inr none_there ↦ elim none_there [ ]
                ]
              ]),
              PathsApart-append c.files row apart e,
              (λ r m. elim (Memᴰ.append_cases c.files m) [
                | inl old ↦ bound r.max_seq (low r old)
                | inr new ↦ elim (Memᴰ.cases_cons new) [
                  | inl same ↦
                      let l : r.max_seq ≡ row.max_seq = ap (λ (z : Row P). z.max_seq) same in
                      ground (arith, l)
                  | inr none_there ↦ elim none_there [ ]
                ]
              ]),
            ),
            (λ r m. Memᴰ.append_left (row ∷ []) m),
            λ e'. Memᴰ.append_right c.files (head refl),
          ))

  -- What the writing of a batch leaves behind, by its verdict.
  abbrev Wrote : Batch P → Catalog P → Catalog P × Bool → Type 0
  Wrote batch c r =
      InOrder cfg segs r.0
      × Grows cfg segs c r.0
      × (r.1 ≡ true
          → (s : Bytes) (first : Record P) (rest : List (Record P)) → Memᴰ (s, first ∷ rest) batch
          → Memᴰ (row_of cfg s first rest) r.0.files)

  Wrote-cons :
      (e : Bytes × List (Record P)) (batch : Batch P) (c c' : Catalog P) (r : Catalog P × Bool)
      → Grows cfg segs c c'
      → (r.1 ≡ true
          → (s : Bytes) (first : Record P) (rest : List (Record P)) → (s, first ∷ rest) ≡ e
          → Memᴰ (row_of cfg s first rest) r.0.files)
      → Wrote batch c' r
      → Wrote (e ∷ batch) c r
  Wrote-cons e batch c c' r grows this (ok, grows', all) = (
    ok,
    (λ row m. grows' row (grows row m)),
    λ fine s first rest m. elim (Memᴰ.cases_cons m) [
      | inl same ↦ this fine s first rest same
      | inr later ↦ all fine s first rest later
    ],
  )

  row_of-pair :
      (s s' : Bytes) (f f' : Record P) (rs rs' : List (Record P))
      → ◌≡◌ {A = Bytes × List (Record P)} (s, f ∷ rs) (s', f' ∷ rs')
      → row_of cfg s f rs ≡ row_of cfg s' f' rs'
  row_of-pair s s' f f' rs rs' e =
      let es : s ≡ s' = ap (λ p. p.0) e in
      let el : f ∷ rs ≡ f' ∷ rs' = ap (λ p. p.1) e in
      let ef : f ≡ f' = ground (arith, el) in
      let er : rs ≡ rs' = ap (drop 1) el in
      ap (λ k. row_of cfg k f rs) es ∙ ap (λ g. row_of cfg s' g rs) ef ∙ ap (row_of cfg s' f') er

  has_path-Grows :
      (c c' : Catalog P) (p : ObjectName)
      → Grows cfg segs c c'
      → has_path p c.files ≡ true
      → has_path p c'.files ≡ true
  has_path-Grows c c' p grows h =
      let (row, m, same) = has_path-mem cfg segs p c.files h in
      subst (λ q. has_path q c'.files ≡ true) same (mem-has_path row c'.files (grows row m))

  write_streams-Wrote :
      (registered write_ok : ObjectName → Bool) (batch : Batch P) (c : Catalog P)
      (xs : List (Record P))
      → RisingAll 0 segs
      → Memᴰ xs segs
      → ((s : Bytes) (records : List (Record P))
          → Memᴰ (s, records) batch
          → records ≡ of_stream s xs)
      → ((p : ObjectName) → registered p ≡ true → has_path p c.files ≡ true)
      → InOrder cfg segs c
      → Wrote batch c (write_streams cfg registered write_ok batch c)
  unfolding write_streams
  write_streams-Wrote registered write_ok [] c xs up mem entries known ok =
      (ok, (λ row m. m), λ fine s first rest m. elim m [ ])
  write_streams-Wrote registered write_ok ((stream, []) ∷ batch) c xs up mem entries known ok =
      Wrote-cons (stream, []) batch c c _ (λ row m. m)
        (λ fine s first rest same.
          absurd (ground (arith, ap (λ (e : Bytes × List (Record P)). e.1) same)))
        (write_streams-Wrote registered write_ok batch c xs up mem (λ s rs m. entries s rs (tail m))
          known ok)
  write_streams-Wrote registered write_ok ((stream, first ∷ rest) ∷ batch) c xs up mem entries known
        ok =
      let row : Row P = row_of cfg stream first rest in
      let e : of_stream stream xs ≡ first ∷ rest =
        sym (entries stream (first ∷ rest) (head refl)) in
      let made : Produced cfg segs row = (xs, first, rest, mem, e, refl) in
      let (ok', grows, new) = register-InOrder row c made ok in
      let below : (s : Bytes) (records : List (Record P))
          → Memᴰ (s, records) batch
          → records ≡ of_stream s xs =
        λ s rs m. entries s rs (tail m) in
      let passed = write_streams-Wrote registered write_ok batch c xs up mem below known ok in
      let there : Memᴰ row (register row c).files = elim (Bool-cases (has_path row.path c.files)) [
        | inl old ↦ grows row (registered-Landed cfg segs c xs stream first rest up ok mem e old)
        | inr fresh ↦ new fresh
      ] in
      let landed =
        write_streams-Wrote registered write_ok batch (register row c) xs up mem below
          (λ p k. has_path-Grows c (register row c) p grows (known p k)) ok' in
      if_split (Wrote ((stream, first ∷ rest) ∷ batch) c) (registered row.path)
        (λ k.
          Wrote-cons (stream, first ∷ rest) batch c c _ (λ r m. m)
            (λ fine s f rs same.
              subst (λ r. Memᴰ r (write_streams cfg registered write_ok batch c).0.files)
                (sym (row_of-pair s stream f first rs rest same))
                (passed.1 row (
                  registered-Landed cfg segs c xs stream first rest up ok mem e
                    (known row.path k))))
            passed)
        (λ _.
          if_split (Wrote ((stream, first ∷ rest) ∷ batch) c) (write_ok row.path)
            (λ _.
              Wrote-cons (stream, first ∷ rest) batch c (register row c) _ grows
                (λ fine s f rs same.
                  subst
                    (λ r.
                      Memᴰ r (write_streams cfg registered write_ok batch (register row c)).0.files)
                    (sym (row_of-pair s stream f first rs rest same)) (landed.1 row there))
                landed)
            (λ _.
              Wrote-cons (stream, first ∷ rest) batch c c _ (λ r m. m)
                (λ fine. absurd (ground (arith, fine)))
                (passed.0, passed.1, λ fine. absurd (ground (arith, fine)))))

  nothing_there :
      (batch : Batch P) (s : Bytes) (first : Record P) (rest : List (Record P))
      → nothing_to_write cfg batch ≡ true
      → Memᴰ (s, first ∷ rest) batch
      → ⊥
  unfolding nothing_to_write
  nothing_there [] s first rest e m = elim m [ ]
  nothing_there ((k, []) ∷ batch) s first rest e m = elim (Memᴰ.cases_cons m) [
    | inl same ↦ ground (arith, ap (λ (p : Bytes × List (Record P)). p.1) same)
    | inr later ↦ nothing_there batch s first rest e later
  ]
  nothing_there ((k, f ∷ rs) ∷ batch) s first rest e m = ground (arith, e)

  -- A segment's batch is persisted: the catalog stays in order, and a nil error means that every
  -- stream has its file.
  pub persist-Landed :
      (a : Answers) (n : ℕ) (batch : Batch P) (xs : List (Record P)) (c : Catalog P)
      → RisingAll 0 segs
      → Memᴰ xs segs
      → Sorts batch xs
      → InOrder cfg segs c
      → InOrder cfg segs (persist cfg a n batch c).0
        × Grows cfg segs c (persist cfg a n batch c).0
        × ((persist cfg a n batch c).1 ≡ true → Landed cfg segs (persist cfg a n batch c).0 xs)
  unfolding persist
  persist-Landed a n batch xs c up mem sorts ok =
      let P' : Catalog P × Bool → Type 0 =
        λ r. InOrder cfg segs r.0 × Grows cfg segs c r.0 × (r.1 ≡ true → Landed cfg segs r.0 xs) in
      if_split P' (nothing_to_write cfg batch)
        (λ e. (
          ok,
          (λ row m. m),
          λ _ s first rest h.
              absurd (nothing_there batch s first rest e (mem-Sorts s first rest batch xs sorts h)),
        ))
        (λ _.
          if_split P' (a.intend_ok n)
            (λ _.
              let (ok', grows, all) =
                write_streams-Wrote (λ p. has_path p c.files) a.write_ok batch c xs up mem
                  (λ s records m. (Sorts-mem s records batch xs sorts m).0) (λ p k. k) ok in
              (
                ok',
                grows,
                λ fine s first rest h.
                    all fine s first rest (mem-Sorts s first rest batch xs sorts h),
              ))
            (λ _. (ok, (λ row m. m), λ fine. absurd (ground (arith, fine)))))
