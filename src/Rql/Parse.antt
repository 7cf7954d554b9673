-- ===== src/Rql/Parse.antt =====
-- The parser of internal/rql/parse.go. Its state is the list of the tokens from `pos` on; `stuck` stands
-- for an index out of range, where Go panics, and for fuel that is used up. Floats, with
-- `strconv.ParseFloat` and the test for a finite number, are parameters.
mod Ended
mod Pieces
mod Rounds
pub mod Sound
use rtail.Base.{
  ℕ, zero, suc, ◌+◌, ◌-◌, ◌*◌, ◌/◌, ◌%◌, ◌^◌, ◌≤◌, ◌<◌, min, String, ◌≡◌, refl, sym, ap, ◌∙◌, ◌≢◌,
  ◌↔◌, ◌⊎◌, inl, inr, Bool, true, false, not, ◌&&◌, ◌||◌, Option, none, some, List, [], ◌∷◌, ◌++◌,
  map, append_assoc, append-nil, arith, ltb, leb, ◌==◌, if◌then◌else◌, ltb→lt, lt→ltb, ==_iff,
  Bool-cases, Option-cases, if_split, option_split, elim_split, length, get_elem?, set, take, drop,
  replicate, length-append, length-take, length-drop, take-append-drop, take-length, drop-length,
  take_all, Bytes, IsByte, codes, bytes_eq, bytes_eq_iff, All, All-append, All-take, All-drop,
}
use rtail.Rql.Syntax.{
  Text, Op, Literal, Node, Nodes, TokenKind, kind_eq, Token, Message, Result, ◌>>=◌, equals,
  contains, matches, less, less_equal, greater, greater_equal, exists, string, number, bool, null,
  wildcard, comparison, full_text, all_of, any_of, negation, nil, cons, token_word, token_string,
  token_lparen, token_rparen, token_eof, unterminated, unexpected, nothing_after_and,
  nothing_after_not, empty_parens, missing_close, unexpected_close, unexpected_end, no_field,
  no_value, star_needs_equals, ok, err, stuck,
}
use rtail.Rql.Operator.{
  has_prefix, index_of, operators, Best, improves, consider, best_operator, Split, split_at,
  split_operator, operator_here, behind, first_operator,
}
use rtail.Rql.Lex.{
  is_space, opens_quote, quoted_from, stops_word, scan_word, Step, string_token, word_token,
  next_token, lex_from, lex, escape_rune, escape, quoted,
}

unfoldable pub keyword : Token → Text → Bool
keyword t w = kind_eq t.kind token_word && bytes_eq w t.text

unfoldable pub peek : List Token → Result Token
peek [] = stuck
peek (t ∷ ts) = ok t

-- `unicode.ToLower`, as far as it reaches ASCII letters
unfoldable pub to_lower : Text → Text
to_lower [] = []
to_lower (c ∷ s) =
    let rest = to_lower s in
    if leb b'A' c && leb c b'Z'
    then (c + 32) ∷ rest
    else if c == 0x130
    then b'i' ∷ rest
    else if c == 0x212A
    then b'k' ∷ rest
    else c ∷ rest

unfoldable pub contains_x : Text → Bool
contains_x [] = false
contains_x (c ∷ s) = (c == b'x' || c == b'X') || contains_x s

unfoldable pub op_eq : Op → Op → Bool
op_eq equals equals = true
op_eq contains contains = true
op_eq matches matches = true
op_eq less less = true
op_eq less_equal less_equal = true
op_eq greater greater = true
op_eq greater_equal greater_equal = true
op_eq exists exists = true
op_eq _ _ = false

module _ {F : Type 0} where
  unfoldable pub nodes : List (Node F) → Nodes F
  nodes [] = nil
  nodes (x ∷ xs) = cons x (nodes xs)

  unfoldable pub conjunction : List (Node F) → Node F
  unfolding nodes
  conjunction (x ∷ []) = x
  conjunction children = all_of (nodes children)

  unfoldable pub disjunction : Node F → List (Node F) → Node F
  unfolding nodes
  disjunction left [] = left
  disjunction left (x ∷ xs) = any_of (nodes (x ∷ xs))

  -- `children` behind one more round of `parseOr`
  unfoldable pub add_child : Node F → List (Node F) → Node F → List (Node F)
  add_child left [] right = left ∷ right ∷ []
  add_child left (x ∷ xs) right = (x ∷ xs) ++ right ∷ []

module _ {F : Type 0} (parse_float : Text → Option F) (is_finite : F → Bool) where
  abbrev pub Parsed : Type 0
  Parsed = Result (Node F × List Token)

  unfoldable pub number_of : Text → Option F → Literal F
  number_of s none = string false s
  number_of s (some n) = if is_finite n && not (contains_x s) then number n s else string false s

  unfoldable pub literal_of : Text → Literal F
  unfolding number_of
  literal_of s =
      let low = to_lower s in
      if bytes_eq low (codes "true")
      then bool true s
      else if bytes_eq low (codes "false")
      then bool false s
      else if bytes_eq low (codes "null") || bytes_eq low (codes "nil")
      then null s
      else number_of s (parse_float s)

  unfoldable pub missing_value : Text → Op → Token → List Token → Parsed
  missing_value field op t [] = stuck
  missing_value field op t (next ∷ ts) =
      if kind_eq next.kind token_string && next.adjacent
      then ok (comparison field op (string true next.text), ts)
      else err no_value t.pos

  unfoldable pub chunk_of : Token → List Token → Split → Parsed
  unfolding missing_value
  chunk_of t ts none = ok (full_text t.text, ts)
  chunk_of t ts (some ([], op, rest)) = err no_field t.pos
  chunk_of t ts (some (c ∷ field, op, [])) = missing_value (c ∷ field) op t ts
  chunk_of t ts (some (c ∷ field, op, d ∷ rest)) =
      if bytes_eq (d ∷ rest) (codes "*")
      then if op_eq op equals
        then ok (comparison (c ∷ field) exists wildcard, ts)
        else err star_needs_equals t.pos
      else ok (comparison (c ∷ field) op (literal_of (d ∷ rest)), ts)

  unfoldable pub parse_chunk : Token → List Token → Parsed
  unfolding chunk_of
  parse_chunk t ts = chunk_of t ts (split_operator t.text)

  unfoldable pub close_paren : Node F × List Token → Parsed
  close_paren (inner, []) = stuck
  close_paren (inner, t ∷ ts) =
      if kind_eq t.kind token_rparen then ok (inner, ts) else err missing_close t.pos

  -- `parsePrimary` at a token; `or` is `parseOr`.
  unfoldable pub primary_of : (List Token → Parsed) → Token → List Token → TokenKind → Parsed
  unfolding parse_chunk close_paren
  primary_of or t ts token_lparen = peek ts >>= (λ u. elim (kind_eq u.kind token_rparen) [
    | true ↦ err empty_parens t.pos
    | false ↦ or ts >>= close_paren
  ])
  primary_of or t ts token_rparen = err unexpected_close t.pos
  primary_of or t ts token_string = ok (full_text t.text, ts)
  primary_of or t ts token_eof = err unexpected_end t.pos
  primary_of or t ts token_word = parse_chunk t ts

  unfoldable pub negated : Parsed → Parsed
  negated r = r >>= (λ (child, ts). ok (negation child, ts))

  -- `parseUnary` at a token
  unfoldable pub unary_of :
      (List Token → Parsed) → (List Token → Parsed) → Token → List Token → Parsed
  unfolding negated keyword peek
  unary_of unary primary t ts = elim (keyword t (codes "NOT")) [
    | true ↦ peek ts >>= (λ u. elim (kind_eq u.kind token_eof) [
      | true ↦ err nothing_after_not t.pos
      | false ↦ negated (unary ts)
    ])
    | false ↦ elim (keyword t (codes "-")) [
      | true ↦ peek ts >>= (λ u.
          elim (u.adjacent && (kind_eq u.kind token_string || kind_eq u.kind token_lparen)) [
            | true ↦ negated (primary ts)
            | false ↦ primary (t ∷ ts)
          ])
      | false ↦
          elim (kind_eq t.kind token_word
            && (has_prefix (codes "-") t.text && ltb 1 (length t.text))) [
              | true ↦ negated (primary (record t { text = drop 1 t.text } ∷ ts))
              | false ↦ primary (t ∷ ts)
            ]
    ]
  ]

  -- A round of the loop of `parseAnd`; `more` is the rest of the loop.
  unfoldable pub and_round :
      (List Token → Parsed)
      → (List (Node F) → List Token → Parsed)
      → List (Node F)
      → Token
      → List Token
      → Parsed
  unfolding keyword peek
  and_round unary more children t ts =
      let next : List Token → Parsed =
        λ us. unary us >>= (λ (child, vs). more (children ++ child ∷ []) vs) in
      elim (kind_eq t.kind token_eof || (kind_eq t.kind token_rparen || keyword t (codes "OR"))) [
        | true ↦ ok (conjunction children, t ∷ ts)
        | false ↦ elim (keyword t (codes "AND")) [
          | true ↦ peek ts >>= (λ u.
              elim (kind_eq u.kind token_eof || kind_eq u.kind token_rparen) [
                | true ↦ err nothing_after_and u.pos
                | false ↦ next ts
              ])
          | false ↦ next (t ∷ ts)
        ]
      ]

  -- A round of the loop of `parseOr`.
  unfoldable pub or_round :
      (List Token → Parsed)
      → (List (Node F) → List Token → Parsed)
      → Node F
      → List (Node F)
      → Token
      → List Token
      → Parsed
  unfolding keyword
  or_round and more left children t ts = elim (keyword t (codes "OR")) [
    | true ↦ and ts >>= (λ (right, us). more (add_child left children right) us)
    | false ↦ ok (disjunction left children, t ∷ ts)
  ]

  unfoldable mutual
    unfolding primary_of unary_of and_round or_round

    pub parse_or : ℕ → List Token → Parsed
    parse_or zero ts = stuck
    parse_or (suc n) ts = parse_and n ts >>= (λ (left, us). or_rest n left [] us)

    pub or_rest : ℕ → Node F → List (Node F) → List Token → Parsed
    or_rest zero left children ts = stuck
    or_rest (suc n) left children [] = stuck
    or_rest (suc n) left children (t ∷ ts) =
        or_round (parse_and n) (or_rest n left) left children t ts

    pub parse_and : ℕ → List Token → Parsed
    parse_and zero ts = stuck
    parse_and (suc n) ts = parse_unary n ts >>= (λ (first, us). and_rest n (first ∷ []) us)

    pub and_rest : ℕ → List (Node F) → List Token → Parsed
    and_rest zero children ts = stuck
    and_rest (suc n) children [] = stuck
    and_rest (suc n) children (t ∷ ts) = and_round (parse_unary n) (and_rest n) children t ts

    pub parse_unary : ℕ → List Token → Parsed
    parse_unary zero ts = stuck
    parse_unary (suc n) [] = stuck
    parse_unary (suc n) (t ∷ ts) = unary_of (parse_unary n) (parse_primary n) t ts

    pub parse_primary : ℕ → List Token → Parsed
    parse_primary zero ts = stuck
    parse_primary (suc n) [] = stuck
    parse_primary (suc n) (t ∷ ts) = primary_of (parse_or n) t ts t.kind

  unfoldable pub ends : Node F × List Token → Result (Option (Node F))
  ends (node, []) = stuck
  ends (node, t ∷ ts) = if kind_eq t.kind token_eof then ok (some node) else err unexpected t.pos

  -- `Parse` behind `lex`
  unfoldable pub parse_tokens : List Token → Result (Option (Node F))
  unfolding ends peek
  parse_tokens ts = peek ts >>= (λ t. elim (kind_eq t.kind token_eof) [
    | true ↦ ok none
    | false ↦ parse_or (5 * length ts + 4) ts >>= ends
  ])

  -- `none` is the nil Node.
  unfoldable pub parse : Text → Result (Option (Node F))
  parse input = lex input >>= parse_tokens
