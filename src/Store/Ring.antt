-- ===== src/Store/Ring.antt =====
-- `ring` of internal/logstore/memory.go. An entry is `none` where the slice holds a nil pointer, and
-- where an index is out of range.
pub mod Window
pub mod History
use rtail.Base.{
  ℕ, zero, suc, ◌+◌, ◌-◌, ◌*◌, ◌/◌, ◌%◌, ◌^◌, ◌≤◌, ◌<◌, min, String, ◌≡◌, refl, sym, ap, ◌∙◌, ◌≢◌,
  ◌↔◌, ◌⊎◌, inl, inr, Bool, true, false, not, ◌&&◌, ◌||◌, Option, none, some, List, [], ◌∷◌, ◌++◌,
  map, append_assoc, append-nil, arith, ltb, leb, ◌==◌, if◌then◌else◌, ltb→lt, lt→ltb, ==_iff,
  Bool-cases, Option-cases, if_split, option_split, elim_split, length, get_elem?, set, take, drop,
  replicate, length-append, length-take, length-drop, take-append-drop, take-length, drop-length,
  take_all, Bytes, IsByte, codes, bytes_eq, bytes_eq_iff, All, All-append, All-take, All-drop,
}

pub record Ring (R : Type 0) : Type 0 where
  pub items : List (Option R)
  pub start : ℕ
  pub count : ℕ

-- How many of `count` records `slice` returns for a limit.
unfoldable pub limited : ℕ → ℕ → ℕ
limited limit count = if ltb 0 limit && ltb limit count then limit else count

module _ {R : Type 0} where
  unfoldable pub new_ring : ℕ → Ring R
  new_ring size = record { items = replicate size none; start = 0; count = 0 }

  abbrev pub write_end : R → Ring R → List (Option R)
  write_end rec r = set r.items ((r.start + r.count) % length r.items) (some rec)

  -- `push` on a full ring, where the oldest record goes
  unfoldable pub push_full : R → Ring R → Ring R
  push_full rec r = record {
    items = write_end rec r;
    start = (r.start + 1) % length r.items;
    count = r.count;
  }

  -- `push` on a ring with room
  unfoldable pub push_room : R → Ring R → Ring R
  push_room rec r = record { items = write_end rec r; start = r.start; count = r.count + 1 }

  unfoldable pub push : R → Ring R → Ring R
  unfolding push_full push_room
  push rec r = if r.count == length r.items then push_full rec r else push_room rec r

  unfoldable pub item_at : List (Option R) → ℕ → Option R
  item_at items i = elim (get_elem? items i) [ none ↦ none | some item ↦ item ]

  -- `n` rounds of the loop of `slice`, from `i` on
  unfoldable pub slice_from : Ring R → ℕ → ℕ → List (Option R)
  unfolding item_at
  slice_from r i zero = []
  slice_from r i (suc n) = item_at r.items ((r.start + i) % length r.items) ∷ slice_from r (i + 1) n

  unfoldable pub slice : ℕ → Ring R → List (Option R)
  unfolding slice_from limited
  slice limit r = let count = limited limit r.count in slice_from r (r.count - count) count

  -- The newest `n`, oldest first.
  unfoldable pub newest : ℕ → List R → List R
  newest n xs = drop (length xs - n) xs

  -- Every record of a list, one after the other.
  unfoldable pub push_all : List R → Ring R → Ring R
  push_all [] r = r
  push_all (x ∷ xs) r = push_all xs (push x r)
