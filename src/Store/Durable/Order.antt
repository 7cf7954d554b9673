-- ===== src/Store/Durable/Order.antt =====
-- Sequence numbers that rise through the segments tell records, and so files, apart.
use mathlib.Core.Path.{subst}
use mathlib.Core.List.{Memᴰ}
use mathlib.Core.List.Memᴰ.{head, tail}
use rtail.Base.{ℕ, zero, suc, ◌≤◌, ◌<◌, ◌≡◌, refl, sym, ap, ◌∙◌, List, [], ◌∷◌, ◌++◌, arith, take}
use rtail.Store.Memory.{Record}

module _ {P : Type 0} where
  unfoldable pub Rising : ℕ → List (Record P) → Type 0
  Rising m [] = Unit
  Rising m (x ∷ xs) = (m < x.seq) × Rising x.seq xs

  unfoldable pub top : ℕ → List (Record P) → ℕ
  top m [] = m
  top m (x ∷ xs) = top x.seq xs

  unfoldable pub RisingAll : ℕ → List (List (Record P)) → Type 0
  unfolding Rising top
  RisingAll m [] = Unit
  RisingAll m (xs ∷ segs) = Rising m xs × RisingAll (top m xs) segs

  Rising-above : (m : ℕ) (xs : List (Record P)) (x : Record P) → Rising m xs → Memᴰ x xs → m < x.seq
  unfolding Rising
  Rising-above m [] x r h = elim h [ ]
  Rising-above m (y ∷ xs) x r (head e) = omega (arith, r.0, ap (λ z. z.seq) e)
  Rising-above m (y ∷ xs) x r (tail h) = omega (arith, r.0, Rising-above y.seq xs x r.1 h)

  le-top : (m : ℕ) (xs : List (Record P)) → Rising m xs → m ≤ top m xs
  unfolding Rising top
  le-top m [] r = omega arith
  le-top m (x ∷ xs) r = omega (arith, r.0, le-top x.seq xs r.1)

  Rising-below :
      (m : ℕ) (xs : List (Record P)) (x : Record P) → Rising m xs → Memᴰ x xs → x.seq ≤ top m xs
  unfolding Rising top
  Rising-below m [] x r h = elim h [ ]
  Rising-below m (y ∷ xs) x r (head e) = omega (arith, ap (λ z. z.seq) e, le-top y.seq xs r.1)
  Rising-below m (y ∷ xs) x r (tail h) = Rising-below y.seq xs x r.1 h

  RisingAll-above :
      (m : ℕ) (segs : List (List (Record P))) (xs : List (Record P)) (x : Record P)
      → RisingAll m segs
      → Memᴰ xs segs
      → Memᴰ x xs
      → m < x.seq
  unfolding RisingAll
  RisingAll-above m [] xs x r h hx = elim h [ ]
  RisingAll-above m (ys ∷ segs) xs x r (head e) hx = Rising-above m ys x r.0 (subst (Memᴰ x) e hx)
  RisingAll-above m (ys ∷ segs) xs x r (tail h) hx =
      omega (arith, le-top m ys r.0, RisingAll-above (top m ys) segs xs x r.1 h hx)

  -- Records with the same number stand in the same segment, and are the same.
  pub one_segment :
      (m : ℕ) (segs : List (List (Record P))) (xs ys : List (Record P)) (x y : Record P)
      → RisingAll m segs
      → Memᴰ xs segs
      → Memᴰ ys segs
      → Memᴰ x xs
      → Memᴰ y ys
      → x.seq ≡ y.seq
      → xs ≡ ys
  unfolding RisingAll
  one_segment m [] xs ys x y r hx hy hx' hy' e = elim hx [ ]
  one_segment m (zs ∷ segs) xs ys x y r (head ex) (head ey) hx' hy' e = ex ∙ sym ey
  one_segment m (zs ∷ segs) xs ys x y r (head ex) (tail hy) hx' hy' e =
      let low = Rising-below m zs x r.0 (subst (Memᴰ x) ex hx') in
      absurd (omega (arith, low, e, RisingAll-above (top m zs) segs ys y r.1 hy hy'))
  one_segment m (zs ∷ segs) xs ys x y r (tail hx) (head ey) hx' hy' e =
      let low = Rising-below m zs y r.0 (subst (Memᴰ y) ey hy') in
      absurd (omega (arith, low, e, RisingAll-above (top m zs) segs xs x r.1 hx hx'))
  one_segment m (zs ∷ segs) xs ys x y r (tail hx) (tail hy) hx' hy' e =
      one_segment (top m zs) segs xs ys x y r.1 hx hy hx' hy' e

  Rising-unique :
      (m : ℕ) (xs : List (Record P)) (x y : Record P)
      → Rising m xs
      → Memᴰ x xs
      → Memᴰ y xs
      → x.seq ≡ y.seq
      → x ≡ y
  unfolding Rising
  Rising-unique m [] x y r hx hy e = elim hx [ ]
  Rising-unique m (z ∷ xs) x y r (head ex) (head ey) e = ex ∙ sym ey
  Rising-unique m (z ∷ xs) x y r (head ex) (tail hy) e =
      absurd (omega (arith, e, ap (λ z. z.seq) ex, Rising-above z.seq xs y r.1 hy))
  Rising-unique m (z ∷ xs) x y r (tail hx) (head ey) e =
      absurd (omega (arith, e, ap (λ z. z.seq) ey, Rising-above z.seq xs x r.1 hx))
  Rising-unique m (z ∷ xs) x y r (tail hx) (tail hy) e = Rising-unique z.seq xs x y r.1 hx hy e

  Rising-of :
      (m : ℕ) (segs : List (List (Record P))) (xs : List (Record P))
      → RisingAll m segs
      → Memᴰ xs segs
      → (k : ℕ) × Rising k xs
  unfolding RisingAll
  Rising-of m [] xs r h = elim h [ ]
  Rising-of m (ys ∷ segs) xs r (head e) = (m, subst (Rising m) (sym e) r.0)
  Rising-of m (ys ∷ segs) xs r (tail h) = Rising-of (top m ys) segs xs r.1 h

  pub one_record :
      (m : ℕ) (segs : List (List (Record P))) (xs : List (Record P)) (x y : Record P)
      → RisingAll m segs
      → Memᴰ xs segs
      → Memᴰ x xs
      → Memᴰ y xs
      → x.seq ≡ y.seq
      → x ≡ y
  one_record m segs xs x y r h hx hy e =
      let (k, r') = Rising-of m segs xs r h in Rising-unique k xs x y r' hx hy e

  pub RisingAll-prefix :
      (m : ℕ) (segs : List (List (Record P))) (xs : List (Record P))
      → RisingAll m (segs ++ xs ∷ [])
      → RisingAll m segs
  unfolding RisingAll
  RisingAll-prefix m [] xs r = tt
  RisingAll-prefix m (ys ∷ segs) xs r = (r.0, RisingAll-prefix (top m ys) segs xs r.1)

  Rising-append :
      (m : ℕ) (xs : List (Record P)) (x : Record P)
      → Rising m xs
      → m < x.seq
      → ((y : Record P) → Memᴰ y xs → y.seq < x.seq)
      → Rising m (xs ++ x ∷ [])
  unfolding Rising
  Rising-append m [] x r h below = (h, tt)
  Rising-append m (y ∷ xs) x r h below =
      (r.0, Rising-append y.seq xs x r.1 (below y (head refl)) (λ z hz. below z (tail hz)))

  top-below :
      (k : ℕ) (ys : List (Record P)) (x : Record P)
      → k < x.seq
      → ((y : Record P) → Memᴰ y ys → y.seq < x.seq)
      → top k ys < x.seq
  unfolding top
  top-below k [] x hk hys = hk
  top-below k (y ∷ ys) x hk hys = top-below y.seq ys x (hys y (head refl)) (λ z hz. hys z (tail hz))

  -- A record with a number above all others may come last.
  pub RisingAll-record :
      (m : ℕ) (segs : List (List (Record P))) (xs : List (Record P)) (x : Record P)
      → RisingAll m (segs ++ xs ∷ [])
      → m < x.seq
      → ((ys : List (Record P))
          → Memᴰ ys (segs ++ xs ∷ [])
          → (y : Record P) → Memᴰ y ys
          → y.seq < x.seq)
      → RisingAll m (segs ++ (xs ++ x ∷ []) ∷ [])
  unfolding RisingAll
  RisingAll-record m [] xs x r h below =
      (Rising-append m xs x r.0 h (λ y hy. below xs (head refl) y hy), tt)
  RisingAll-record m (zs ∷ segs) xs x r h below = (
    r.0,
    RisingAll-record (top m zs) segs xs x r.1
        (top-below m zs x h (λ y hy. below zs (head refl) y hy)) (λ ys hys. below ys (tail hys)),
  )

  Rising-take : (m k : ℕ) (xs : List (Record P)) → Rising m xs → Rising m (take k xs)
  unfolding Rising
  Rising-take m zero xs r = tt
  Rising-take m (suc k) [] r = tt
  Rising-take m (suc k) (x ∷ xs) r = (r.0, Rising-take x.seq k xs r.1)

  pub RisingAll-take :
      (m k : ℕ) (segs : List (List (Record P))) (xs : List (Record P))
      → RisingAll m (segs ++ xs ∷ [])
      → RisingAll m (segs ++ take k xs ∷ [])
  unfolding RisingAll
  RisingAll-take m k [] xs r = (Rising-take m k xs r.0, tt)
  RisingAll-take m k (ys ∷ segs) xs r = (r.0, RisingAll-take (top m ys) k segs xs r.1)

  -- A new segment starts empty.
  pub RisingAll-fresh :
      (m : ℕ) (segs : List (List (Record P))) → RisingAll m segs → RisingAll m (segs ++ [] ∷ [])
  unfolding RisingAll Rising
  RisingAll-fresh m [] r = (tt, tt)
  RisingAll-fresh m (ys ∷ segs) r = (r.0, RisingAll-fresh (top m ys) segs r.1)

  pub mem-take : (k : ℕ) (xs : List (Record P)) (x : Record P) → Memᴰ x (take k xs) → Memᴰ x xs
  mem-take zero xs x h = elim h [ ]
  mem-take (suc k) [] x h = h
  mem-take (suc k) (y ∷ xs) x (head e) = head e
  mem-take (suc k) (y ∷ xs) x (tail h) = tail (mem-take k xs x h)
