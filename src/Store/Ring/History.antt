-- ===== src/Store/Ring/History.antt =====
-- The ring of internal/logstore/memory.go against the whole history of its pushes.
use mathlib.Core.Path.{subst}
use rtail.Base.{
  ℕ, zero, suc, ◌+◌, ◌-◌, ◌%◌, ◌≤◌, ◌<◌, min, ◌≡◌, refl, sym, ap, ◌∙◌, Option, none, some, List, [],
  ◌∷◌, ◌++◌, map, append_assoc, append-nil, arith, ◌==◌, ==_iff, if_split, length, get_elem?, drop,
  length-append, length-drop, length-replicate, drop-length,
}
use rtail.Store.Ring.{
  Ring, limited, new_ring, push_full, push_room, push, slice_from, slice, newest, push_all,
}
use rtail.Store.Ring.Window.{length-set, Contains, push_full-Contains, push_room-Contains}

module _ {R : Type 0} where
  drop-drop : (a b : ℕ) (xs : List R) → drop a (drop b xs) ≡ drop (b + a) xs
  drop-drop zero b xs = let e : b ≡ b + 0 = omega arith in ap (λ n. drop n xs) e
  drop-drop (suc a) zero xs = let e : suc a ≡ 0 + suc a = omega arith in ap (λ n. drop n xs) e
  drop-drop (suc a) (suc b) [] =
      let e : suc (b + suc a) ≡ suc b + suc a = omega arith in ap (λ n. drop n []) e
  drop-drop (suc a) (suc b) (x ∷ xs) =
      let e : suc (b + suc a) ≡ suc b + suc a = omega arith in
      drop-drop (suc a) b xs ∙ ap (λ n. drop n (x ∷ xs)) e

  drop-append_le : (n : ℕ) (xs ys : List R) → n ≤ length xs → drop n (xs ++ ys) ≡ drop n xs ++ ys
  drop-append_le zero xs ys h = refl
  drop-append_le (suc n) [] ys h = absurd (omega arith)
  drop-append_le (suc n) (x ∷ xs) ys h = drop-append_le n xs ys (omega arith)

  length-newest : (n : ℕ) (xs : List R) → length (newest n xs) ≡ min n (length xs)
  unfolding newest
  length-newest n xs = omega (arith, length-drop (length xs - n) xs)

  newest-newest : (a b : ℕ) (xs : List R) → a ≤ b → newest a (newest b xs) ≡ newest a xs
  unfolding newest
  newest-newest a b xs h =
      let e : (length xs - b) + (length (drop (length xs - b) xs) - a) ≡ length xs - a =
        omega (arith, h, length-drop (length xs - b) xs) in
      drop-drop _ (length xs - b) xs ∙ ap (λ n. drop n xs) e

  newest-append :
      (n : ℕ) (xs : List R) (x : R)
      → 0 < n
      → newest n (newest n xs ++ x ∷ []) ≡ newest n (xs ++ x ∷ [])
  unfolding newest
  newest-append n xs x h =
      let m = length xs - n in
      let e : m + (length (drop m xs ++ x ∷ []) - n) ≡ length (xs ++ x ∷ []) - n = omega (
        arith,
        h,
        length-append (drop m xs) (x ∷ []),
        length-drop m xs,
        length-append xs (x ∷ []),
      ) in
      ap (drop (length (drop m xs ++ x ∷ []) - n))
        (sym (drop-append_le m xs (x ∷ []) (omega arith)))
      ∙ drop-drop _ m (xs ++ x ∷ [])
      ∙ ap (λ k. drop k (xs ++ x ∷ [])) e

  push-Contains :
      (x : R) (r : Ring R) (xs : List R)
      → Contains r xs
      → Contains (push x r) (newest (length r.items) (xs ++ x ∷ []))
  unfolding push newest Contains
  push-Contains x r xs h =
      let size = length r.items in
      if_split (λ r'. Contains r' (newest size (xs ++ x ∷ []))) (r.count == size)
        (λ e.
          let full : r.count ≡ size = (==_iff r.count size).0 e in
          let one : 1 ≡ length (xs ++ x ∷ []) - size =
            omega (arith, full, h.1, length-append xs (x ∷ [])) in
          subst (λ n. Contains (push_full x r) (drop n (xs ++ x ∷ []))) one
            (push_full-Contains x r xs h full))
        (λ e.
          let room : r.count < size = ground (arith, e, h.2) in
          let none_lost : 0 ≡ length (xs ++ x ∷ []) - size =
            omega (arith, room, h.1, length-append xs (x ∷ [])) in
          subst (λ n. Contains (push_room x r) (drop n (xs ++ x ∷ []))) none_lost
            (push_room-Contains x r xs h room))

  length-push : (x : R) (r : Ring R) → length (push x r).items ≡ length r.items
  unfolding push push_full push_room
  length-push x r =
      if_split (λ (r' : Ring R). length r'.items ≡ length r.items) (r.count == length r.items)
        (λ _. length-set r.items ((r.start + r.count) % length r.items) (some x))
        (λ _. length-set r.items ((r.start + r.count) % length r.items) (some x))

  -- The ring has this size and holds the newest records of the history.
  abbrev pub Follows : ℕ → Ring R → List R → Type 0
  Follows size r history = (length r.items ≡ size) × Contains r (newest size history)

  pub push-Follows :
      (size : ℕ) (x : R) (r : Ring R) (history : List R)
      → 0 < size
      → Follows size r history
      → Follows size (push x r) (history ++ x ∷ [])
  push-Follows size x r history h (e, c) = (
    length-push x r ∙ e,
    subst (Contains (push x r))
        (ap (λ n. newest n (newest size history ++ x ∷ [])) e ∙ newest-append size history x h)
        (push-Contains x r (newest size history) c),
  )

  pub push_all-Follows :
      (size : ℕ) (xs : List R) (r : Ring R) (history : List R)
      → 0 < size
      → Follows size r history
      → Follows size (push_all xs r) (history ++ xs)
  unfolding push_all
  push_all-Follows size [] r history h f = subst (Follows size r) (sym (append-nil history)) f
  push_all-Follows size (x ∷ xs) r history h f =
      subst (Follows size (push_all xs (push x r))) (append_assoc history (x ∷ []) xs) (
        push_all-Follows size xs (push x r) (history ++ x ∷ []) h
          (push-Follows size x r history h f))

  drop-get :
      (n : ℕ) (xs : List R)
      → n < length xs
      → (x : R) × (get_elem? xs n ≡ some x) × (drop n xs ≡ x ∷ drop (n + 1) xs)
  drop-get n [] h = absurd (omega arith)
  drop-get zero (x ∷ xs) h = (x, refl, refl)
  drop-get (suc n) (x ∷ xs) h =
      let (y, e, e') = drop-get n xs (omega arith) in
      let k : suc (n + 1) ≡ suc n + 1 = omega arith in (y, e, e' ∙ ap (λ m. y ∷ drop m (x ∷ xs)) k)

  slice_from-Contains :
      (r : Ring R) (xs : List R) (i n : ℕ)
      → Contains r xs
      → i + n ≡ r.count
      → slice_from r i n ≡ map some (drop i xs)
  unfolding slice_from Contains
  slice_from-Contains r xs i zero c e =
      let all : drop i xs ≡ [] = ap (λ k. drop k xs) (omega (arith, e, c.1)) ∙ drop-length xs in
      sym (ap (map some) all)
  slice_from-Contains r xs i (suc n) c e =
      let (y, get, d) = drop-get i xs (omega (arith, e, c.1)) in
      let ih = slice_from-Contains r xs (i + 1) n c (omega (arith, e)) in
      rw (c.3 i (omega (arith, e)), get, d, ih) refl

  slice-Contains :
      (limit : ℕ) (r : Ring R) (xs : List R)
      → Contains r xs
      → slice limit r ≡ map some (newest (limited limit r.count) xs)
  unfolding slice newest limited Contains
  slice-Contains limit r xs c =
      let n = limited limit r.count in
      let fits : n ≤ r.count = unfold limited in (ground arith) in
      let e : r.count - n ≡ length xs - n = omega (arith, c.1) in
      slice_from-Contains r xs (r.count - n) n c (omega (arith, fits))
      ∙ ap (λ k. map some (drop k xs)) e

  newest-limited :
      (limit size count : ℕ) (xs : List R)
      → count ≡ min size (length xs)
      → newest (limited limit count) (newest size xs) ≡ newest (limited limit size) xs
  unfolding newest limited
  newest-limited limit size count xs h =
      let fits : limited limit count ≤ size = ground (arith, h) in
      let e : length xs - limited limit count ≡ length xs - limited limit size =
        ground (arith, h) in
      newest-newest (limited limit count) size xs fits ∙ ap (λ k. drop k xs) e

pub new_ring-Follows : (R : Type 0) (size : ℕ) → 0 < size → Follows size (new_ring {R = R} size) []
unfolding new_ring Contains newest
new_ring-Follows R size h = (
  length-replicate size none,
  (
    omega (arith, h, length-replicate {A = Option R} size none),
    omega (arith, length-drop {A = R} (0 - size) []),
    omega arith,
    λ i hi. absurd (omega (arith, hi)),
  ),
)

pub slice-Follows :
    {R : Type 0} (limit size : ℕ) (r : Ring R) (history : List R)
    → Follows size r history
    → slice limit r ≡ map some (newest (limited limit size) history)
unfolding Contains
slice-Follows limit size r history (e, c) =
    slice-Contains limit r (newest size history) c
    ∙ ap (map some)
        (newest-limited limit size r.count history (sym c.1 ∙ length-newest size history))

-- After any records are pushed into a new ring of positive size, slice returns the newest of them,
-- oldest first: as many as the limit says, or as the ring has room for.
pub slice-push_all :
    {R : Type 0} (size limit : ℕ) (xs : List R)
    → 0 < size
    → slice limit (push_all xs (new_ring size)) ≡ map some (newest (limited limit size) xs)
slice-push_all {R} size limit xs h =
    slice-Follows limit size (push_all xs (new_ring size)) xs
      (push_all-Follows size xs (new_ring size) [] h (new_ring-Follows R size h))
