-- ===== src/Store/Fanout/Tests.antt =====
-- Runs of a Fanout.
use rtail.Base.{
  ℕ, ◌≡◌, refl, Bool, false, Option, none, some, List, [], ◌∷◌, bytes_eq, codes, length,
}
use rtail.Store.Memory.{Record}
use rtail.Store.Fanout.{
  Fanout, new_fanout, Call, subscribes, closes, publishes, lists, receives, shuts, calls,
}
use rtail.Store.Fanout.Safety.{Safe, calls-Safe}

abbrev web_line : Record ℕ
web_line = record { stream = codes "web"; seq = 1; rest = 0 }

-- A feed of one place and one of everything: the second line finds the first full, and is dropped.
abbrev busy : List (Call ℕ)
busy =
    subscribes (codes "web") 1
    ∷ subscribes [] 0
    ∷ publishes web_line
    ∷ publishes web_line
    ∷ lists (codes "web" ∷ [])
    ∷ receives 0
    ∷ closes 0
    ∷ closes 0
    ∷ shuts
    ∷ subscribes [] 4
    ∷ closes 2
    ∷ publishes web_line
    ∷ []

-- What is queued for a subscription, what it has lost, and whether it is open
abbrev state_of : ℕ → Option (Fanout ℕ) → Option (ℕ × ℕ × Bool)
state_of p none = none
state_of p (some f) = elim (f.heap p) [
  | none ↦ none
  | some s ↦ some (length s.queue, s.dropped, s.is_open)
]

busy_first : state_of 0 (calls busy new_fanout) ≡ some (0, 2, false)
unfolding calls bytes_eq
busy_first = refl

busy_second : state_of 1 (calls busy new_fanout) ≡ some (3, 0, false)
unfolding calls bytes_eq
busy_second = refl

calls-Safe_example : (f : Fanout ℕ) × (calls busy new_fanout ≡ some f) × Safe f
calls-Safe_example = calls-Safe busy
