-- ===== src/Rql/Operator/Leftmost.antt =====
-- `splitOperator` of internal/rql/parse.go: seven searches of the chunk against one reading from
-- the left.
use rtail.Base.{
  ℕ, zero, suc, ◌+◌, ◌<◌, ◌≡◌, refl, ap, ◌∙◌, inl, inr, Bool, true, false, Option, none, some, List,
  [], ◌∷◌, arith, ltb, ◌==◌, if◌then◌else◌, Option-cases, length, take, drop, All,
}
use rtail.Rql.Syntax.{Text, Op}
use rtail.Rql.Operator.{
  has_prefix, index_of, operators, Best, improves, consider, best_operator, split_at,
  split_operator, operator_here, behind, first_operator,
}

-- The operator of a `best` that is 0, with its length.
unfoldable here : Best → Option (Op × ℕ)
here none = none
here (some (best, op, size)) = if best == 0 then some (op, size) else none

unfoldable longer : Bool → Text × Op → Option (Op × ℕ) → Option (Op × ℕ)
longer false o h = h
longer true (needle, op) none = some (op, length needle)
longer true (needle, op) (some (op', size)) =
    if ltb size (length needle) then some (op, length needle) else some (op', size)

unfoldable longest : Text → List (Text × Op) → Option (Op × ℕ) → Option (Op × ℕ)
longest chunk [] h = h
longest chunk (o ∷ os) h = longest chunk os (longer (has_prefix o.0 chunk) o h)

-- A text of this shape cannot stand in front of an empty chunk.
abbrev NonEmpty : Text × Op → Type 0
NonEmpty o = 0 < length o.0

here-consider :
    (chunk : Text) (o : Text × Op) (b : Best)
    → NonEmpty o
    → here (consider chunk o b) ≡ longer (has_prefix o.0 chunk) o (here b)
unfolding consider improves here longer index_of has_prefix
here-consider [] o none h = ground arith
here-consider [] o (some b) h = ground arith
here-consider (c ∷ s) (needle, op) none h = ground arith
here-consider (c ∷ s) (needle, op) (some (best, op', size)) h = ground arith

here-best_operator :
    (chunk : Text) (os : List (Text × Op)) (b : Best)
    → All NonEmpty os
    → here (best_operator chunk os b) ≡ longest chunk os (here b)
unfolding best_operator longest
here-best_operator chunk [] b h = refl
here-best_operator chunk (o ∷ os) b h =
    here-best_operator chunk os (consider chunk o b) h.1
    ∙ ap (longest chunk os) (here-consider chunk o b h.0)

unfoldable cut_here : Text → Option (Op × ℕ) → Option (Op × Text)
cut_here chunk none = none
cut_here chunk (some (op, size)) = some (op, drop size chunk)

longest_operator :
    (c : ℕ) (s : Text) → cut_here (c ∷ s) (longest (c ∷ s) operators none) ≡ operator_here c s
unfolding cut_here longest longer has_prefix operator_here
longest_operator c [] = ground arith
longest_operator c (d ∷ s) = ground arith

unfoldable shift : Best → Best
shift none = none
shift (some (best, op, size)) = some (suc best, op, size)

consider-shift :
    (c : ℕ) (s : Text) (o : Text × Op) (b : Best)
    → has_prefix o.0 (c ∷ s) ≡ false
    → consider (c ∷ s) o (shift b) ≡ shift (consider s o b)
unfolding consider improves index_of shift
consider-shift c s o none h = ground arith
consider-shift c s o (some b) h = ground arith

best_operator-shift :
    (c : ℕ) (s : Text) (os : List (Text × Op)) (b : Best)
    → All (λ o. has_prefix o.0 (c ∷ s) ≡ false) os
    → best_operator (c ∷ s) os (shift b) ≡ shift (best_operator s os b)
unfolding best_operator
best_operator-shift c s [] b h = refl
best_operator-shift c s (o ∷ os) b h =
    ap (best_operator (c ∷ s) os) (consider-shift c s o b h.0)
    ∙ best_operator-shift c s os (consider s o b) h.1

no_prefix :
    (c : ℕ) (s : Text)
    → operator_here c s ≡ none
    → All (λ o. has_prefix o.0 (c ∷ s) ≡ false) operators
unfolding has_prefix operator_here
no_prefix c [] h = ground arith
no_prefix c (d ∷ s) h = ground arith

split_at-here :
    (c : ℕ) (s : Text) (b : Best) (o : Op) (rest : Text)
    → cut_here (c ∷ s) (here b) ≡ some (o, rest)
    → split_at (c ∷ s) b ≡ some ([], o, rest)
unfolding here split_at cut_here
split_at-here c s none o rest h = ground arith
split_at-here c s (some (zero, op, size)) o rest h = ground arith
split_at-here c s (some (suc best, op, size)) o rest h = ground arith

split_at-shift :
    (c : ℕ) (s : Text) (b : Best) → split_at (c ∷ s) (shift b) ≡ behind c (split_at s b)
unfolding shift split_at behind
split_at-shift c s none = refl
split_at-shift c s (some (best, op, size)) =
    let e : suc best + size ≡ suc (best + size) = omega arith in
    ap (λ n. some (c ∷ take best s, op, drop n (c ∷ s))) e

-- The split by seven searches is the one of a reading from the left: it is at the first operator
-- character, which joins the next character where the two make an operator.
pub split_operator-eq-first_operator : (chunk : Text) → split_operator chunk ≡ first_operator chunk
unfolding split_operator first_operator best_operator consider index_of shift here
split_operator-eq-first_operator [] = refl
split_operator-eq-first_operator (c ∷ s) = elim (Option-cases (operator_here c s)) [
  | inl e ↦
      ap (split_at (c ∷ s)) (best_operator-shift c s operators none (no_prefix c s e))
      ∙ split_at-shift c s (best_operator s operators none)
      ∙ ap (behind c) (split_operator-eq-first_operator s)
      ∙ ground (arith, e)
  | inr ((o, rest), e) ↦
      split_at-here c s (best_operator (c ∷ s) operators none) o rest (
        ap (cut_here (c ∷ s)) (here-best_operator (c ∷ s) operators none (ground arith))
        ∙ longest_operator c s
        ∙ e)
      ∙ ground (arith, e)
]
