-- ===== src/Store/Durable/Sealed.antt =====
-- The sealed segments that internal/logstore/durable.go finds on disk, by their numbers.
use mathlib.Core.Path.{subst}
use mathlib.Core.List.{Memᴰ}
use mathlib.Core.List.Memᴰ
use mathlib.Core.List.Memᴰ.{head, tail}
use rtail.Base.{
  ℕ, ◌<◌, ◌≡◌, refl, sym, ap, ◌∙◌, inl, inr, false, none, some, List, [], ◌∷◌, ◌++◌, arith, ◌==◌,
  ==_iff, Bool-cases, if_split,
}
use rtail.Store.Memory.{Record}
use rtail.Store.Durable.{without, segment}

module _ {P : Type 0} where
  abbrev pub Apart : List (ℕ × List (Record P)) → Type 0
  Apart [] = Unit
  Apart ((n, xs) ∷ rest) = (segment n rest ≡ none) × Apart rest

  pub mem-segment :
      (n : ℕ) (xs : List (Record P)) (sealed : List (ℕ × List (Record P)))
      → segment n sealed ≡ some xs
      → Memᴰ (n, xs) sealed
  unfolding segment
  mem-segment n xs [] h = absurd (ground (arith, h))
  mem-segment n xs ((m, ys) ∷ rest) h = elim (Bool-cases (m == n)) [
    | inl e ↦
        let en : m ≡ n = (==_iff m n).0 e in
        let ex : ys ≡ xs = ground (arith, e, h) in
        head (ap (λ k. (k, xs)) (sym en) ∙ ap (λ w. (m, w)) (sym ex))
    | inr e ↦ tail (mem-segment n xs rest (ground (arith, e, h)))
  ]

  pub segment-mem :
      (n : ℕ) (xs : List (Record P)) (sealed : List (ℕ × List (Record P)))
      → Apart sealed
      → Memᴰ (n, xs) sealed
      → segment n sealed ≡ some xs
  unfolding segment
  segment-mem n xs [] d h = elim h [ ]
  segment-mem n xs ((m, ys) ∷ rest) d (head e) =
      let en : m ≡ n = ap (λ p. p.0) (sym e) in
      let ex : ys ≡ xs = ap (λ p. p.1) (sym e) in ground (arith, en, ex)
  segment-mem n xs ((m, ys) ∷ rest) d (tail h) =
      let ih = segment-mem n xs rest d.1 h in
      elim (Bool-cases (m == n)) [
        | inl e ↦
            let none_there : segment n rest ≡ none =
              subst (λ j. segment j rest ≡ none) ((==_iff m n).0 e) d.0 in
            absurd (ground (arith, ih, none_there))
        | inr e ↦ ground (arith, e, ih)
      ]

  pub mem-without :
      (n m : ℕ) (xs : List (Record P)) (sealed : List (ℕ × List (Record P)))
      → Memᴰ (m, xs) (without n sealed)
      → Memᴰ (m, xs) sealed
  unfolding without
  mem-without n m xs [] h = h
  mem-without n m xs ((k, ys) ∷ rest) h = elim (Bool-cases (k == n)) [
    | inl e ↦
        let gone : without n ((k, ys) ∷ rest) ≡ without n rest = ground (arith, e) in
        tail (mem-without n m xs rest (subst (Memᴰ (m, xs)) gone h))
    | inr e ↦
        let kept : without n ((k, ys) ∷ rest) ≡ (k, ys) ∷ without n rest = ground (arith, e) in
        elim (Memᴰ.cases_cons (subst (Memᴰ (m, xs)) kept h)) [
          | inl same ↦ head same
          | inr later ↦ tail (mem-without n m xs rest later)
        ]
  ]

  pub without-mem :
      (n m : ℕ) (xs : List (Record P)) (sealed : List (ℕ × List (Record P)))
      → (m == n) ≡ false
      → Memᴰ (m, xs) sealed
      → Memᴰ (m, xs) (without n sealed)
  unfolding without
  without-mem n m xs [] e h = h
  without-mem n m xs ((k, ys) ∷ rest) e h = elim (Memᴰ.cases_cons h) [
    | inl same ↦
        let k_same : k ≡ m = ap (λ p. p.0) (sym same) in
        let kept : (k, ys) ∷ without n rest ≡ without n ((k, ys) ∷ rest) =
          ground (arith, e, k_same) in
        subst (Memᴰ (m, xs)) kept (head same)
    | inr later ↦
        let ih = without-mem n m xs rest e later in
        if_split (Memᴰ (m, xs)) (k == n) (λ _. ih) (λ _. tail ih)
  ]

  segment-without :
      (n m : ℕ) (sealed : List (ℕ × List (Record P)))
      → segment m sealed ≡ none
      → segment m (without n sealed) ≡ none
  unfolding segment without
  segment-without n m [] h = h
  segment-without n m ((k, ys) ∷ rest) h = ground (arith, h, segment-without n m rest)

  pub Apart-without :
      (n : ℕ) (sealed : List (ℕ × List (Record P))) → Apart sealed → Apart (without n sealed)
  unfolding without
  Apart-without n [] d = d
  Apart-without n ((k, ys) ∷ rest) d =
      if_split Apart (k == n) (λ _. Apart-without n rest d.1)
        (λ _. (segment-without n k rest d.0, Apart-without n rest d.1))

  segment-append :
      (n k : ℕ) (xs : List (Record P)) (sealed : List (ℕ × List (Record P)))
      → segment k sealed ≡ none
      → (n == k) ≡ false
      → segment k (sealed ++ (n, xs) ∷ []) ≡ none
  unfolding segment
  segment-append n k xs [] h e = ground (arith, e)
  segment-append n k xs ((m, ys) ∷ rest) h e =
      ground (arith, h, segment-append n k xs rest (ground (arith, h)) e)

  -- A new number, above all others, comes last.
  pub Apart-append :
      (n : ℕ) (xs : List (Record P)) (sealed : List (ℕ × List (Record P)))
      → Apart sealed
      → ((m : ℕ) (ys : List (Record P)) → Memᴰ (m, ys) sealed → m < n)
      → Apart (sealed ++ (n, xs) ∷ [])
  Apart-append n xs [] d below = (unfold segment in refl, tt)
  Apart-append n xs ((m, ys) ∷ rest) d below =
      let l : m < n = below m ys (head refl) in
      (
        segment-append n m xs rest d.0 (ground (arith, l)),
        Apart-append n xs rest d.1 (λ k zs h. below k zs (tail h)),
      )
