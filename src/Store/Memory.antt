-- ===== src/Store/Memory.antt =====
-- `Memory` of internal/logstore/memory.go: `Append`, and `Backlog` of a named stream. What the fanout
-- is told is a list of events. `P` stands for the rest of a record.
pub mod Backlog
use rtail.Base.{
  ℕ, zero, suc, ◌+◌, ◌-◌, ◌*◌, ◌/◌, ◌%◌, ◌^◌, ◌≤◌, ◌<◌, min, String, ◌≡◌, refl, sym, ap, ◌∙◌, ◌≢◌,
  ◌↔◌, ◌⊎◌, inl, inr, Bool, true, false, not, ◌&&◌, ◌||◌, Option, none, some, List, [], ◌∷◌, ◌++◌,
  map, append_assoc, append-nil, arith, ltb, leb, ◌==◌, if◌then◌else◌, ltb→lt, lt→ltb, ==_iff,
  Bool-cases, Option-cases, if_split, option_split, elim_split, length, get_elem?, set, take, drop,
  replicate, length-append, length-take, length-drop, length-replicate, take-append-drop,
  take-length, drop-length, take_all, Bytes, IsByte, codes, lookup, put, bytes_eq, bytes_eq_iff,
  All, All-append, All-take, All-drop,
}
use rtail.Store.Ring.{
  Ring, limited, new_ring, write_end, push_full, push_room, push, item_at, slice_from, slice,
  newest, push_all,
}

abbrev pub default_backlog : ℕ
default_backlog = 100

pub record Record (P : Type 0) : Type 0 where
  pub stream : Bytes
  pub seq : ℕ
  pub rest : P

pub record Memory (P : Type 0) : Type 0 where
  pub seq : ℕ
  pub size : ℕ
  pub order : List Bytes
  pub streams : List (Bytes × Ring (Record P))

pub data Event (P : Type 0) : Type 0 where
  streams_known : List Bytes → Event P
  line : Record P → Event P

-- The records that a store of this size keeps for each stream.
abbrev pub capacity : ℕ → ℕ
capacity size = if ltb size 1 then default_backlog else size

module _ {P : Type 0} where
  unfoldable pub new_memory : ℕ → Memory P
  new_memory size = record { seq = 0; size = capacity size; order = []; streams = [] }

  -- `atomic.Uint64`, so the number wraps.
  unfoldable pub numbered : ℕ → Record P → Record P
  numbered seq rec = record rec { seq = (seq + 1) % 2 ^ 64 }

  unfoldable pub append : Record P → Memory P → Memory P × List (Event P)
  unfolding numbered lookup put new_ring push
  append rec m =
      let rec' = numbered m.seq rec in
      elim (lookup rec.stream m.streams) [
        | some buffer ↦ (
          record m { seq = rec'.seq; streams = put rec.stream (push rec' buffer) m.streams },
          line rec' ∷ [],
        )
        | none ↦
            let order = m.order ++ rec.stream ∷ [] in
            (
              record m {
                seq = rec'.seq;
                order = order;
                streams = put rec.stream (push rec' (new_ring m.size)) m.streams;
              },
              streams_known order ∷ line rec' ∷ [],
            )
      ]

  -- `Backlog` of a stream that has a name
  unfoldable pub backlog_of : Bytes → ℕ → Memory P → List (Option (Record P))
  unfolding lookup slice
  backlog_of stream limit m = elim (lookup stream m.streams) [
    | none ↦ []
    | some buffer ↦ slice limit buffer
  ]

  unfoldable pub append_all : List (Record P) → Memory P → Memory P
  unfolding append
  append_all [] m = m
  append_all (x ∷ xs) m = append_all xs (append x m).0

  -- The records as `Append` stores them, from this sequence number on.
  unfoldable pub stored : ℕ → List (Record P) → List (Record P)
  unfolding numbered
  stored seq [] = []
  stored seq (x ∷ xs) = numbered seq x ∷ stored (numbered seq x).seq xs

  -- The records of a stream.
  unfoldable pub of_stream : Bytes → List (Record P) → List (Record P)
  of_stream s [] = []
  of_stream s (x ∷ xs) = let rest = of_stream s xs in if bytes_eq x.stream s then x ∷ rest else rest
