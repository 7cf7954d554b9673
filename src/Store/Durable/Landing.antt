-- ===== src/Store/Durable/Landing.antt =====
-- `persist` of internal/logstore/durable.go: every file holds what one segment has of one stream, and no
-- stream of a segment lands twice.
use mathlib.Core.Path.{subst}
use mathlib.Core.List.{Memᴰ}
use mathlib.Core.List.Memᴰ
use mathlib.Core.List.Memᴰ.{head, tail}
use rtail.Base.{
  ℕ, ◌≤◌, ◌≡◌, refl, sym, ap, ◌∙◌, ◌↔◌, inl, inr, true, false, List, [], ◌∷◌, arith, ltb,
  if◌then◌else◌, Bool-cases, drop, Bytes, bytes_eq, bytes_eq_iff,
}
use rtail.Store.Memory.{Record, of_stream}
use rtail.Store.Durable.{ObjectName, path_eq, Config, Row, Catalog, highest, has_path}
use rtail.Store.Durable.Cycle.{object_name, row_of}
use rtail.Store.Durable.Order.{RisingAll, one_segment, one_record}

pub path_eq_iff : (p q : ObjectName) → (path_eq p q ≡ true) ↔ (p ≡ q)
unfolding path_eq
path_eq_iff p q = ground (arith, bytes_eq_iff p.segment q.segment)

module _ {P : Type 0} where
  pub of_stream-mem :
      (s : Bytes) (xs : List (Record P)) (x : Record P)
      → Memᴰ x (of_stream s xs)
      → Memᴰ x xs × (x.stream ≡ s)
  unfolding of_stream
  of_stream-mem s [] x h = elim h [ ]
  of_stream-mem s (y ∷ xs) x h = elim (Bool-cases (bytes_eq y.stream s)) [
    | inl e ↦
        let taken : of_stream s (y ∷ xs) ≡ y ∷ of_stream s xs = ground (arith, e) in
        elim (Memᴰ.cases_cons (subst (Memᴰ x) taken h)) [
          | inl e' ↦ (head e', ap (λ z. z.stream) e' ∙ (bytes_eq_iff y.stream s).0 e)
          | inr h' ↦ let (m, same) = of_stream-mem s xs x h' in (tail m, same)
        ]
    | inr e ↦
        let left : of_stream s (y ∷ xs) ≡ of_stream s xs = ground (arith, e) in
        let (m, same) = of_stream-mem s xs x (subst (Memᴰ x) left h) in (tail m, same)
  ]

  of_stream-first :
      (s : Bytes) (xs : List (Record P)) (first : Record P) (rest : List (Record P))
      → of_stream s xs ≡ first ∷ rest
      → Memᴰ first xs × (first.stream ≡ s)
  of_stream-first s xs first rest e =
      of_stream-mem s xs first (subst (Memᴰ first) (sym e) (head refl))

  highest-below : (m : ℕ) (xs : List (Record P)) → m ≤ highest m xs
  unfolding highest
  highest-below m [] = omega arith
  highest-below m (x ∷ xs) = ground (arith, highest-below m xs, highest-below x.seq xs)

  pub highest-mem : (m : ℕ) (xs : List (Record P)) (x : Record P) → Memᴰ x xs → x.seq ≤ highest m xs
  unfolding highest
  highest-mem m [] x h = elim h [ ]
  highest-mem m (y ∷ xs) x (head e) =
      ground (arith, ap (λ z. z.seq) e, highest-below m xs, highest-below y.seq xs)
  highest-mem m (y ∷ xs) x (tail h) = highest-mem (if ltb m y.seq then y.seq else m) xs x h

module _ {P : Type 0} where
  unfoldable pub PathsApart : List (Row P) → Type 0
  PathsApart [] = Unit
  PathsApart (r ∷ rs) = (has_path r.path rs ≡ false) × PathsApart rs

module _ {P : Type 0} (cfg : Config P) (segs : List (List (Record P))) where
  -- The file holds all that a segment has of a stream, under the name that follows from it.
  abbrev pub Produced : Row P → Type 0
  Produced row =
      (xs : List (Record P)) × (first : Record P) × (rest : List (Record P)) × Memᴰ xs segs
      × (of_stream row.stream xs ≡ first ∷ rest)
      × (row ≡ row_of cfg row.stream first rest)

  -- What holds of the catalog's rows at any time.
  unfoldable pub InOrder : Catalog P → Type 0
  unfolding PathsApart
  InOrder c =
      ((row : Row P) → Memᴰ row c.files → Produced row)
      × PathsApart c.files
      × ((row : Row P) → Memᴰ row c.files → row.max_seq ≤ c.max_seq)

  -- Every stream of the segment has its file.
  abbrev pub Landed : Catalog P → List (Record P) → Type 0
  Landed c xs =
      (s : Bytes) (first : Record P) (rest : List (Record P))
      → of_stream s xs ≡ first ∷ rest
      → Memᴰ (row_of cfg s first rest) c.files

  abbrev pub Grows : Catalog P → Catalog P → Type 0
  Grows c c' = (row : Row P) → Memᴰ row c.files → Memᴰ row c'.files

  pub has_path-mem :
      (p : ObjectName) (files : List (Row P))
      → has_path p files ≡ true
      → (row : Row P) × Memᴰ row files × (row.path ≡ p)
  unfolding has_path
  has_path-mem p [] h = absurd (ground (arith, h))
  has_path-mem p (r ∷ rs) h = elim (Bool-cases (path_eq r.path p)) [
    | inl e ↦ (r, head refl, (path_eq_iff r.path p).0 e)
    | inr e ↦ let (row, m, same) = has_path-mem p rs (ground (arith, e, h)) in (row, tail m, same)
  ]

  -- A path that is registered is registered for these very records.
  pub registered-Landed :
      (c : Catalog P) (xs : List (Record P)) (s : Bytes) (first : Record P) (rest : List (Record P))
      → RisingAll 0 segs
      → InOrder c
      → Memᴰ xs segs
      → of_stream s xs ≡ first ∷ rest
      → has_path (object_name cfg first) c.files ≡ true
      → Memᴰ (row_of cfg s first rest) c.files
  unfolding InOrder object_name row_of
  registered-Landed c xs s first rest up ok mem e h =
      let (row, m, same) = has_path-mem (object_name cfg first) c.files h in
      let (ys, first', rest', mem', e', shape) = ok.0 row m in
      let (in_xs, stream) = of_stream-first s xs first rest e in
      let (in_ys, stream') = of_stream-first row.stream ys first' rest' e' in
      let number : first'.seq ≡ first.seq =
        ap (λ p. p.first_seq) (sym (ap (λ (r : Row P). r.path) shape) ∙ same) in
      let segment_same : ys ≡ xs =
        one_segment 0 segs ys xs first' first up mem' mem in_ys in_xs number in
      let first_same : first' ≡ first =
        one_record 0 segs xs first' first up mem (subst (Memᴰ first') segment_same in_ys) in_xs
          number in
      let stream_same : row.stream ≡ s = sym stream' ∙ ap (λ z. z.stream) first_same ∙ stream in
      let whole : first' ∷ rest' ≡ first ∷ rest =
        sym e'
        ∙ ap (of_stream row.stream) segment_same
        ∙ ap (λ k. of_stream k xs) stream_same
        ∙ e in
      let rest_same : rest' ≡ rest = ap (drop 1) whole in
      let this : row ≡ row_of cfg s first rest =
        shape
        ∙ ap (λ k. row_of cfg k first' rest') stream_same
        ∙ ap (λ f. row_of cfg s f rest') first_same
        ∙ ap (row_of cfg s first) rest_same in
      subst (λ r. Memᴰ r c.files) this m
