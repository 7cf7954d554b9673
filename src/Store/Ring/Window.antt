-- ===== src/Store/Ring/Window.antt =====
-- The ring of internal/logstore/memory.go holds the newest records of a history.
use native.Mathlib.Nat.{mod-eq_of_lt, mod-eq-sub-mod, mod-lt}
use rtail.Base.{
  ℕ, zero, suc, ◌+◌, ◌-◌, ◌%◌, ◌≤◌, ◌<◌, ◌≡◌, refl, sym, ap, ◌∙◌, ◌≢◌, ◌⊎◌, inl, inr, Option, none,
  some, List, [], ◌∷◌, ◌++◌, arith, ltb, ltb→lt, Bool-cases, length, get_elem?, set, drop,
  length-append, length-drop,
}
use rtail.Store.Ring.{Ring, push_full, push_room, item_at}

mod_cases :
    (a size : ℕ)
    → a < size + size
    → ((a < size) × (a % size ≡ a)) ⊎ ((size ≤ a) × (a % size + size ≡ a))
mod_cases a size h = elim (Bool-cases (ltb a size)) [
  | inl e ↦ let l : a < size = ltb→lt a size e in inl (l, mod-eq_of_lt l)
  | inr e ↦
      let l : size ≤ a = ground (arith, e) in
      let small : a - size < size = omega (arith, h, l) in
      let m : a % size ≡ a - size = mod-eq-sub-mod l ∙ mod-eq_of_lt small in
      inr (l, omega (arith, m, l))
]

module _ {R : Type 0} where
  pub length-set : (xs : List R) (i : ℕ) (v : R) → length (set xs i v) ≡ length xs
  length-set [] i v = refl
  length-set (x ∷ xs) zero v = refl
  length-set (x ∷ xs) (suc i) v = ap suc (length-set xs i v)

  get-set_same : (xs : List R) (i : ℕ) (v : R) → i < length xs → get_elem? (set xs i v) i ≡ some v
  get-set_same [] i v h = absurd (omega arith)
  get-set_same (x ∷ xs) zero v h = refl
  get-set_same (x ∷ xs) (suc i) v h = get-set_same xs i v (omega arith)

  get-set_other :
      (xs : List R) (i j : ℕ) (v : R) → i ≢ j → get_elem? (set xs i v) j ≡ get_elem? xs j
  get-set_other [] i j v h = refl
  get-set_other (x ∷ xs) zero zero v h = absurd (h refl)
  get-set_other (x ∷ xs) zero (suc j) v h = refl
  get-set_other (x ∷ xs) (suc i) zero v h = refl
  get-set_other (x ∷ xs) (suc i) (suc j) v h = get-set_other xs i j v (λ e. h (ap suc e))

  get-append_le : (xs ys : List R) (i : ℕ) → i < length xs → get_elem? (xs ++ ys) i ≡ get_elem? xs i
  get-append_le [] ys i h = absurd (omega arith)
  get-append_le (x ∷ xs) ys zero h = refl
  get-append_le (x ∷ xs) ys (suc i) h = get-append_le xs ys i (omega arith)

  get-append_end : (xs : List R) (y : R) → get_elem? (xs ++ y ∷ []) (length xs) ≡ some y
  get-append_end [] y = refl
  get-append_end (x ∷ xs) y = get-append_end xs y

  get-drop : (n : ℕ) (xs : List R) (i : ℕ) → get_elem? (drop n xs) i ≡ get_elem? xs (n + i)
  get-drop zero xs i = let e : i ≡ 0 + i = omega arith in ap (get_elem? xs) e
  get-drop (suc n) [] i = refl
  get-drop (suc n) (x ∷ xs) i =
      let e : suc (n + i) ≡ suc n + i = omega arith in get-drop n xs i ∙ ap (get_elem? (x ∷ xs)) e

module _ {R : Type 0} where
  pub item_at-same :
      (items : List (Option R)) (i : ℕ) (x : R)
      → i < length items
      → item_at (set items i (some x)) i ≡ some x
  unfolding item_at
  item_at-same items i x h =
      ap (λ o. elim o [ none ↦ none | some item ↦ item ]) (get-set_same items i (some x) h)

  item_at-other :
      (items : List (Option R)) (i j : ℕ) (x : R)
      → i ≢ j
      → item_at (set items i (some x)) j ≡ item_at items j
  unfolding item_at
  item_at-other items i j x h =
      ap (λ o. elim o [ none ↦ none | some item ↦ item ]) (get-set_other items i j (some x) h)

-- Where the newest record goes, and where the others stand afterwards.
end_apart :
    (start size count i : ℕ)
    → start < size
    → count < size
    → i < count
    → (start + count) % size ≢ (start + i) % size
end_apart start size count i h hc hi e = omega (
  arith,
  h,
  hc,
  hi,
  e,
  mod_cases (start + count) size (omega arith),
  mod_cases (start + i) size (omega arith),
)

full_end : (start size : ℕ) → start < size → (start + size) % size ≡ start
full_end start size h = omega (arith, h, mod_cases (start + size) size (omega arith))

full_shift :
    (start size i : ℕ)
    → start < size
    → i < size
    → ((start + 1) % size + i) % size ≡ (start + (1 + i)) % size
full_shift start size i h hi =
    let small : (start + 1) % size < size = mod-lt (start + 1) (omega (arith, h)) in
    omega (
      arith,
      h,
      hi,
      small,
      mod_cases (start + 1) size (omega arith),
      mod_cases (start + (1 + i)) size (omega arith),
      mod_cases ((start + 1) % size + i) size (omega arith),
    )

full_apart : (start size i : ℕ) → start < size → 1 + i < size → start ≢ (start + (1 + i)) % size
full_apart start size i h hi e =
    omega (arith, h, hi, e, mod_cases (start + (1 + i)) size (omega arith))

module _ {R : Type 0} where
  -- The ring holds these records, oldest first.
  unfoldable pub Contains : Ring R → List R → Type 0
  unfolding item_at
  Contains r xs =
      (r.start < length r.items)
      × (length xs ≡ r.count)
      × (r.count ≤ length r.items)
      × ((i : ℕ) → i < r.count → item_at r.items ((r.start + i) % length r.items) ≡ get_elem? xs i)

  pub push_room-Contains :
      (x : R) (r : Ring R) (xs : List R)
      → Contains r xs
      → r.count < length r.items
      → Contains (push_room x r) (xs ++ x ∷ [])
  unfolding Contains push_room
  push_room-Contains x r xs (hs, hl, hc, h) room =
      let size = length r.items in
      let new = (r.start + r.count) % size in
      let at : (i : ℕ)
          → i < r.count + 1
          → item_at (set r.items new (some x)) ((r.start + i) % size) ≡ get_elem? (xs ++ x ∷ []) i =
        λ i hi. elim (Bool-cases (ltb i r.count)) [
          | inl e ↦
              let l : i < r.count = ltb→lt i r.count e in
              item_at-other r.items new ((r.start + i) % size) x
                (end_apart r.start size r.count i hs room l)
              ∙ h i l
              ∙ sym (get-append_le xs (x ∷ []) i (omega arith))
          | inr e ↦
              let l : i ≡ r.count = ground (arith, e, hi) in
              let l' : length xs ≡ i = omega (arith, l, hl) in
              ap (λ k. item_at (set r.items new (some x)) ((r.start + k) % size)) l
              ∙ item_at-same r.items new x (mod-lt (r.start + r.count) (omega arith))
              ∙ sym (get-append_end xs x)
              ∙ ap (get_elem? (xs ++ x ∷ [])) l'
        ] in
      (
        rw (length-set r.items new (some x)) hs,
        omega (arith, hl, length-append xs (x ∷ [])),
        rw (length-set r.items new (some x)) (omega (arith, room)),
        rw (length-set r.items new (some x)) at,
      )

  pub push_full-Contains :
      (x : R) (r : Ring R) (xs : List R)
      → Contains r xs
      → r.count ≡ length r.items
      → Contains (push_full x r) (drop 1 (xs ++ x ∷ []))
  unfolding Contains push_full
  push_full-Contains x r xs (hs, hl, hc, h) full =
      let size = length r.items in
      let new = (r.start + r.count) % size in
      let new_eq : new ≡ r.start = ap (λ n. (r.start + n) % size) full ∙ full_end r.start size hs in
      let at : (i : ℕ)
          → i < r.count
          → item_at (set r.items new (some x)) (((r.start + 1) % size + i) % size)
            ≡ get_elem? (drop 1 (xs ++ x ∷ [])) i =
        λ i hi.
          ap (item_at (set r.items new (some x)))
            (full_shift r.start size i hs (omega (arith, full, hi)))
          ∙ elim (Bool-cases (ltb (1 + i) r.count)) [
            | inl e ↦
                let l : 1 + i < r.count = ltb→lt (1 + i) r.count e in
                item_at-other r.items new ((r.start + (1 + i)) % size) x
                  (λ e'. full_apart r.start size i hs (omega (arith, l, full)) (sym new_eq ∙ e'))
                ∙ h (1 + i) l
                ∙ sym (get-append_le xs (x ∷ []) (1 + i) (omega arith))
            | inr e ↦
                let l : 1 + i ≡ r.count = ground (arith, e, hi) in
                let l' : length xs ≡ 1 + i = omega (arith, l, hl) in
                ap (λ k. item_at (set r.items new (some x)) ((r.start + k) % size)) l
                ∙ item_at-same r.items new x (mod-lt (r.start + r.count) (omega arith))
                ∙ sym (get-append_end xs x)
                ∙ ap (get_elem? (xs ++ x ∷ [])) l'
          ]
          ∙ sym (get-drop 1 (xs ++ x ∷ []) i) in
      (
        rw (length-set r.items new (some x)) (mod-lt (r.start + 1) (omega (arith, hs))),
        omega (arith, hl, full, hs, length-drop 1 (xs ++ x ∷ []), length-append xs (x ∷ [])),
        rw (length-set r.items new (some x)) hc,
        rw (length-set r.items new (some x)) at,
      )
