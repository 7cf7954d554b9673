-- ===== src/Rql/Operator.antt =====
-- `splitOperator` of internal/rql/parse.go, and the reading of it: the split is at the first operator
-- character, which joins the next one where the two make an operator.
pub mod Leftmost
use rtail.Base.{
  ℕ, zero, suc, ◌+◌, ◌-◌, ◌≡◌, ◌∙◌, ap, refl, Bool, true, false, ◌&&◌, ◌||◌, Option, none, some,
  List, [], ◌∷◌, ◌==◌, ltb, if◌then◌else◌, arith, Bytes, take, drop, length, codes, option_split,
  Bool-cases, inl, inr,
}
use rtail.Rql.Syntax.{Text, Op, equals, contains, matches, less, less_equal, greater, greater_equal}

unfoldable pub has_prefix : Text → Text → Bool
has_prefix [] s = true
has_prefix (p ∷ ps) [] = false
has_prefix (p ∷ ps) (c ∷ s) = p == c && has_prefix ps s

-- `strings.Index`
unfoldable pub index_of : Text → Text → Option ℕ
unfolding has_prefix
index_of needle [] = if has_prefix needle [] then some 0 else none
index_of needle (c ∷ s) =
    let later = index_of needle s in
    if has_prefix needle (c ∷ s) then some 0 else elim later [ none ↦ none | some i ↦ some (suc i) ]

abbrev pub operators : List (Text × Op)
operators =
    (codes ":~", matches)
    ∷ (codes ">=", greater_equal)
    ∷ (codes "<=", less_equal)
    ∷ (codes "=", equals)
    ∷ (codes ":", contains)
    ∷ (codes ">", greater)
    ∷ (codes "<", less)
    ∷ []

-- The variables `best`, `bestOp` and `bestLen` of the loop; `none` is a `best` of -1.
abbrev pub Best : Type 0
Best = Option (ℕ × Op × ℕ)

unfoldable pub improves : ℕ → ℕ → Best → Bool
improves i n none = true
improves i n (some (best, op, size)) = ltb i best || (i == best && ltb size n)

unfoldable pub consider : Text → Text × Op → Best → Best
unfolding improves
consider chunk (candidate, op) best = elim (index_of candidate chunk) [
  | none ↦ best
  | some i ↦ if improves i (length candidate) best then some (i, op, length candidate) else best
]

unfoldable pub best_operator : Text → List (Text × Op) → Best → Best
best_operator chunk [] best = best
best_operator chunk (o ∷ os) best = best_operator chunk os (consider chunk o best)

-- Field, operator and rest; `none` is a `found` of false.
abbrev pub Split : Type 0
Split = Option (Text × Op × Text)

unfoldable pub split_at : Text → Best → Split
split_at chunk none = none
split_at chunk (some (best, op, size)) = some (take best chunk, op, drop (best + size) chunk)

unfoldable pub split_operator : Text → Split
unfolding split_at
split_operator chunk = split_at chunk (best_operator chunk operators none)

-- What a split starts with, at the first character of a text.
unfoldable pub operator_here : ℕ → Text → Option (Op × Text)
operator_here c [] =
    if c == b'='
    then some (equals, [])
    else if c == b':'
    then some (contains, [])
    else if c == b'>'
    then some (greater, [])
    else if c == b'<'
    then some (less, [])
    else none
operator_here c (d ∷ s) =
    if c == b'='
    then some (equals, d ∷ s)
    else if c == b':'
    then (if d == b'~' then some (matches, s) else some (contains, d ∷ s))
    else if c == b'>'
    then (if d == b'=' then some (greater_equal, s) else some (greater, d ∷ s))
    else if c == b'<'
    then (if d == b'=' then some (less_equal, s) else some (less, d ∷ s))
    else none

unfoldable pub behind : ℕ → Split → Split
behind c none = none
behind c (some (field, op, rest)) = some (c ∷ field, op, rest)

-- The reading that the comment on `parseChunk` gives.
unfoldable pub first_operator : Text → Split
unfolding behind
first_operator [] = none
first_operator (c ∷ s) =
    let later = behind c (first_operator s) in
    elim (operator_here c s) [ some (op, rest) ↦ some ([], op, rest) | none ↦ later ]
