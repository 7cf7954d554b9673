-- ===== src/Store/Tests.antt =====
-- Runs of internal/logstore/memory.go at concrete inputs.
use rtail.Base.{ℕ, ◌≡◌, refl, some, List, [], ◌∷◌, map, arith, codes}
use rtail.Store.Ring.{
  limited, new_ring, push_full, push_room, push, item_at, slice_from, slice, newest, push_all,
}
use rtail.Store.Ring.History.{slice-push_all}
use rtail.Store.Memory.{Record, capacity, new_memory, backlog_of, append_all, stored, of_stream}
use rtail.Store.Memory.Backlog.{backlog_of-append_all}

abbrev five : List ℕ
five = 1 ∷ 2 ∷ 3 ∷ 4 ∷ 5 ∷ []

abbrev web : ℕ → Record ℕ
web n = record { stream = codes "web"; seq = 0; rest = n }

abbrev db : ℕ → Record ℕ
db n = record { stream = codes "db"; seq = 0; rest = n }

abbrev traffic : List (Record ℕ)
traffic = web 1 ∷ db 2 ∷ web 3 ∷ web 4 ∷ db 5 ∷ []

last_two : slice 2 (push_all five (new_ring 3)) ≡ some 4 ∷ some 5 ∷ []
unfolding slice push_all new_ring push push_full push_room limited item_at slice_from
last_two = refl

slice-push_all_example : slice 2 (push_all five (new_ring 3)) ≡ map some (newest (limited 2 3) five)
slice-push_all_example = slice-push_all 3 2 five (omega arith)

backlog_of-append_all_example :
    backlog_of (codes "web") 2 (append_all traffic (new_memory 10))
    ≡ map some (newest (limited 2 (capacity 10)) (of_stream (codes "web") (stored 0 traffic)))
backlog_of-append_all_example = backlog_of-append_all 10 2 (codes "web") traffic
