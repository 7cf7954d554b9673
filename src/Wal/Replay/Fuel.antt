-- ===== src/Wal/Replay/Fuel.antt =====
-- The fuel of `read_frames` is enough: it is a fixed point of `round`.
use rtail.Base.{
  ℕ, zero, suc, ◌+◌, ◌≤◌, ◌<◌, ◌≡◌, ◌∙◌, ◌⊎◌, ap, Option, none, some, arith, Bytes, inl, inr,
  length, take, drop, length-drop,
}
use mathlib.Core.Path.{fun_ext}
use rtail.Wal.Replay.{Rest, read_full, deliver, read_payload, round, loop, read_frames}

pub read_full_enough :
    (n : ℕ) (bs : Bytes) → n ≤ length bs → read_full n bs ≡ some (take n bs, drop n bs)
unfolding read_full
read_full_enough n bs h = ground arith

pub read_full_short : (n : ℕ) (bs : Bytes) → length bs < n → read_full n bs ≡ none
unfolding read_full
read_full_short n bs h = ground arith

pub lt_cases : (a b : ℕ) → (a < b) ⊎ (b ≤ a)
lt_cases a b = grind arith

module _ {Rec E S : Type 0} (decode : Bytes → Option Rec) (visit : Rec → S → S × Option E) where
  read_payload_cong :
      (size sum : ℕ) (rest : Bytes) (s : S) (f g : Rest decode visit)
      → ((bs : Bytes) (t : S) → length bs ≤ length rest → f bs t ≡ g bs t)
      → read_payload decode visit size sum rest s f ≡ read_payload decode visit size sum rest s g
  unfolding read_payload read_full
  read_payload_cong size sum rest s f g h = ground (
    arith,
    ap (deliver decode visit (take size rest) s)
        (fun_ext (λ t. h (drop size rest) t (omega (arith, length-drop size rest)))),
  )

  round_cong :
      (bs : Bytes) (s : S) (f g : Rest decode visit)
      → ((r : Bytes) (t : S) → length r < length bs → f r t ≡ g r t)
      → round decode visit bs s f ≡ round decode visit bs s g
  unfolding round
  round_cong bs s f g h = elim (lt_cases (length bs) 8) [
    | inl short ↦ rw (read_full_short 8 bs short, round)
    | inr long ↦
        rw (read_full_enough 8 bs long, round)
          (read_payload_cong _ _ _ s f g (λ r t le. h r t (omega (arith, length-drop 8 bs))))
  ]

  loop-eq-loop :
      (f g : ℕ) (bs : Bytes) (s : S)
      → length bs < f
      → length bs < g
      → loop decode visit f bs s ≡ loop decode visit g bs s
  unfolding loop
  loop-eq-loop zero g bs s hf hg = absurd (omega arith)
  loop-eq-loop (suc f) zero bs s hf hg = absurd (omega arith)
  loop-eq-loop (suc f) (suc g) bs s hf hg =
      round_cong bs s _ _ (λ r t lt. loop-eq-loop f g r t (omega arith) (omega arith))

  -- The equation of the loop, with no fuel in it.
  pub read_frames_lem :
      (bs : Bytes) (s : S)
      → read_frames decode visit bs s ≡ round decode visit bs s (read_frames decode visit)
  unfolding read_frames loop
  read_frames_lem bs s =
      loop-eq-loop (length bs + 1) (suc (length bs)) bs s (omega arith) (omega arith)
      ∙ round_cong bs s _ _ (λ r t lt. loop-eq-loop (length bs) (length r + 1) r t lt (omega arith))
