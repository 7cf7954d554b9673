-- ===== src/Wal/Replay.antt =====
-- `Log.Replay` and `zeroToEnd` of internal/wal/wal.go, over the bytes of one segment. A record is
-- what `decode` makes of a payload, and `visit` is the caller's callback with its state. Errors of
-- the reader other than the end of the file, and of opening it, are left out.
pub mod Fuel
pub mod RoundTrip
pub mod Sound
pub mod Recovery
use rtail.Base.{
  ℕ, zero, suc, ◌+◌, ◌-◌, ◌≤◌, ◌<◌, ◌≡◌, refl, Bool, true, false, not, ◌&&◌, ◌||◌, Option, none,
  some, List, [], ◌∷◌, ◌++◌, arith, Bytes, ◌==◌, ltb, leb, if◌then◌else◌, length, take, drop,
  length-drop, bytes_eq,
}
use rtail.Wal.Frame.{magic, max_frame, get_u32, checksum}

-- What wraps `ErrCorrupt`.
pub data Damage : Type 0 where
  bad_header too_long checksum_mismatch undecodable : Damage

-- `done` is nil, and `stopped` an error of the callback. `stuck` is no Go value: the loop of the
-- model ran out of fuel.
pub data Outcome (E : Type 0) : Type 0 where
  done : Outcome E
  corrupt : Damage → Outcome E
  stopped : E → Outcome E
  stuck : Outcome E

-- `io.ReadFull`: `none` is `io.EOF` or `io.ErrUnexpectedEOF`.
unfoldable pub read_full : ℕ → Bytes → Option (Bytes × Bytes)
read_full n bs = if leb n (length bs) then some (take n bs, drop n bs) else none

unfoldable pub uint32 : Bytes → ℕ
unfolding get_u32
uint32 (a ∷ b ∷ c ∷ d ∷ _) = get_u32 a b c d
uint32 _ = 0

unfoldable pub zero_to_end : Bytes → Bool
zero_to_end [] = true
zero_to_end (b ∷ bs) = b == 0 && zero_to_end bs

module _ {Rec E S : Type 0} (decode : Bytes → Option Rec) (visit : Rec → S → S × Option E) where
  -- The rest of the loop, as a function of what is left of the file.
  abbrev pub Rest : Type 0
  Rest = Bytes → S → S × Outcome E

  -- Behind the callback: the loop goes on, or its error is returned.
  unfoldable pub after_visit : S × Option E → (S → S × Outcome E) → S × Outcome E
  after_visit (s, none) next = next s
  after_visit (s, some e) next = (s, stopped e)

  -- One intact payload: decoded, and handed to the callback.
  unfoldable pub deliver : Bytes → S → (S → S × Outcome E) → S × Outcome E
  deliver payload s next = elim (decode payload) [
    | none ↦ (s, corrupt undecodable)
    | some rec ↦ after_visit (visit rec s) next
  ]

  -- The body behind the frame's header.
  unfoldable pub read_payload : ℕ → ℕ → Bytes → S → Rest → S × Outcome E
  read_payload size sum rest s next =
      if ltb max_frame size then (s, corrupt too_long) else elim (read_full size rest) [
        | none ↦ (s, done)
        | some (payload, rest') ↦
            if size == 0 || not (checksum payload == sum)
            then (s, if zero_to_end rest' then done else corrupt checksum_mismatch)
            else deliver payload s (next rest')
      ]

  unfoldable pub round : Bytes → S → Rest → S × Outcome E
  round bs s next = elim (read_full 8 bs) [
    | none ↦ (s, done)
    | some (header, rest) ↦
        read_payload (uint32 (take 4 header)) (uint32 (drop 4 header)) rest s next
  ]

  unfoldable pub loop : ℕ → Bytes → S → S × Outcome E
  loop zero bs s = (s, stuck)
  loop (suc f) bs s = round bs s (loop f)

  -- Each round takes eight bytes at least, so the fuel is enough.
  unfoldable pub read_frames : Bytes → S → S × Outcome E
  read_frames bs s = loop (length bs + 1) bs s

  unfoldable pub replay : Bytes → S → S × Outcome E
  replay bs s = elim (read_full (length magic) bs) [
    | none ↦ (s, done)
    | some (header, rest) ↦
        if bytes_eq header magic then read_frames rest s else (s, corrupt bad_header)
  ]
