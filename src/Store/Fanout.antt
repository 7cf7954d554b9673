-- ===== src/Store/Fanout.antt =====
-- `Fanout` and `Subscription` of internal/logstore/logstore.go. Each method is one step under the lock; `none`
-- is a panic. A pointer is the number of the subscription, in the order of their making.
pub mod Safety
mod Tests
use rtail.Base.{
  ℕ, suc, ◌+◌, ◌%◌, ◌^◌, ◌<◌, ◌≡◌, Bool, true, false, not, ◌||◌, Option, none, some, List, [], ◌∷◌,
  ◌++◌, ltb, ◌==◌, if◌then◌else◌, Bytes, bytes_eq, length,
}
use rtail.Store.Memory.{Record, Event, streams_known, line}

module _ {V : Type 0} where
  -- A Go map with numbers as keys
  unfoldable pub find : ℕ → List (ℕ × V) → Option V
  find k [] = none
  find k ((j, v) ∷ m) = let later = find k m in if j == k then some v else later

  unfoldable pub erase : ℕ → List (ℕ × V) → List (ℕ × V)
  erase k [] = []
  erase k ((j, v) ∷ m) = let later = erase k m in if j == k then later else (j, v) ∷ later

  unfoldable pub insert : ℕ → V → List (ℕ × V) → List (ℕ × V)
  unfolding erase
  insert k v m = (k, v) ∷ erase k m

  unfoldable pub keys : List (ℕ × V) → List ℕ
  keys [] = []
  keys ((j, v) ∷ m) = j ∷ keys m

pub record Subscription (P : Type 0) : Type 0 where
  pub stream : Bytes
  -- The channel: its size, what is in it, and whether it is not closed
  pub room : ℕ
  pub queue : List (Event P)
  pub is_open : Bool
  pub dropped : ℕ
  -- `once` has run
  pub detached : Bool

pub record Fanout (P : Type 0) : Type 0 where
  pub next : ℕ
  pub subs : List (ℕ × ℕ)
  pub ids : List (ℕ × ℕ)
  pub closed : Bool
  pub made : ℕ
  pub heap : ℕ → Option (Subscription P)

module _ {P : Type 0} where
  unfoldable pub update :
      (ℕ → Option (Subscription P)) → ℕ → Subscription P → ℕ → Option (Subscription P)
  update heap p s q = if p == q then some s else heap q

  abbrev pub new_fanout : Fanout P
  new_fanout = record { next = 0; subs = []; ids = []; closed = false; made = 0; heap = λ p. none }

  -- `Subscribe`, and the pointer that it returns
  unfoldable pub subscribe : Bytes → ℕ → Fanout P → ℕ × Fanout P
  unfolding update insert
  subscribe stream buffer f =
      let sub : Subscription P = record {
        stream = stream;
        room = if ltb buffer 1 then 256 else buffer;
        queue = [];
        is_open = not f.closed;
        dropped = 0;
        detached = false;
      } in
      let heap = update f.heap f.made sub in
      if f.closed then (f.made, record f { made = suc f.made; heap = heap }) else (
        f.made,
        record f {
          next = (f.next + 1) % 2 ^ 64;
          subs = insert f.next f.made f.subs;
          ids = insert f.made f.next f.ids;
          made = suc f.made;
          heap = heap;
        },
      )

  -- `close(sub.ch)`
  unfoldable pub close_channel : ℕ → Fanout P → Option (Fanout P)
  unfolding update
  close_channel p f = elim (f.heap p) [
    | none ↦ none
    | some s ↦
        if s.is_open
        then some (record f { heap = update f.heap p (record s { is_open = false }) })
        else none
  ]

  unfoldable pub detach : ℕ → ℕ → Fanout P → Option (Fanout P)
  unfolding erase close_channel
  detach id p f = close_channel p (record f { subs = erase id f.subs; ids = erase p f.ids })

  unfoldable pub remove_subscription : ℕ → Fanout P → Option (Fanout P)
  unfolding find detach
  remove_subscription p f = elim (find p f.ids) [ none ↦ some f | some id ↦ detach id p f ]

  -- `Subscription.Close`
  unfoldable pub close_subscription : ℕ → Fanout P → Option (Fanout P)
  unfolding remove_subscription update
  close_subscription p f = elim (f.heap p) [
    | none ↦ some f
    | some s ↦
        if s.detached
        then some f
        else remove_subscription p
            (record f { heap = update f.heap p (record s { detached = true }) })
  ]

  -- What `send` does to a channel that is open
  unfoldable pub offered : Event P → Subscription P → Subscription P
  offered event s =
      if ltb (length s.queue) s.room
      then record s { queue = s.queue ++ event ∷ [] }
      else record s { dropped = (s.dropped + 1) % 2 ^ 64 }

  unfoldable pub send : Event P → ℕ → Fanout P → Option (Fanout P)
  unfolding offered update
  send event p f = elim (f.heap p) [
    | none ↦ none
    | some s ↦
        if s.is_open then some (record f { heap = update f.heap p (offered event s) }) else none
  ]

  -- A loop over `subs`, which skips what the loop has deleted
  unfoldable pub each :
      (ℕ → ℕ → Fanout P → Option (Fanout P)) → List ℕ → Fanout P → Option (Fanout P)
  unfolding find
  each g [] f = some f
  each g (id ∷ rest) f = elim (find id f.subs) [
    | none ↦ each g rest f
    | some p ↦ elim (g id p f) [ none ↦ none | some f' ↦ each g rest f' ]
  ]

  unfoldable pub wants : Bytes → Option (Subscription P) → Bool
  wants stream none = false
  wants stream (some s) = bytes_eq s.stream [] || bytes_eq s.stream stream

  unfoldable pub publish_line : Record P → Fanout P → Option (Fanout P)
  unfolding each send wants keys
  publish_line rec f =
      each (λ id p f'. if wants rec.stream (f'.heap p) then send (line rec) p f' else some f')
        (keys f.subs) f

  unfoldable pub publish_streams : List Bytes → Fanout P → Option (Fanout P)
  unfolding each send keys
  publish_streams streams f = each (λ id p f'. send (streams_known streams) p f') (keys f.subs) f

  -- `Fanout.Close`
  unfoldable pub close_fanout : Fanout P → Option (Fanout P)
  unfolding each detach keys
  close_fanout f =
      if f.closed then some f else each detach (keys f.subs) (record f { closed = true })

  -- A reader takes the next event of a channel.
  unfoldable pub receive : ℕ → Fanout P → Fanout P
  unfolding update
  receive p f = elim (f.heap p) [
    | none ↦ f
    | some s ↦ elim s.queue [
      | [] ↦ f
      | event ∷ rest ↦ record f { heap = update f.heap p (record s { queue = rest }) }
    ]
  ]

pub data Call (P : Type 0) : Type 0 where
  subscribes : Bytes → ℕ → Call P
  closes : ℕ → Call P
  publishes : Record P → Call P
  lists : List Bytes → Call P
  receives : ℕ → Call P
  shuts : Call P

module _ {P : Type 0} where
  unfoldable pub call : Call P → Fanout P → Option (Fanout P)
  unfolding subscribe close_subscription publish_line publish_streams receive close_fanout
  call (subscribes stream buffer) f = some (subscribe stream buffer f).1
  call (closes p) f = close_subscription p f
  call (publishes rec) f = publish_line rec f
  call (lists streams) f = publish_streams streams f
  call (receives p) f = some (receive p f)
  call shuts f = close_fanout f

  unfoldable pub calls : List (Call P) → Fanout P → Option (Fanout P)
  unfolding call
  calls [] f = some f
  calls (c ∷ cs) f = elim (call c f) [ none ↦ none | some f' ↦ calls cs f' ]
