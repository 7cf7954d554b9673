-- ===== src/Rql/Lex.antt =====
-- The lexer of internal/rql/parse.go, with `quoted` of internal/rql/ast.go. A position is counted in
-- code points, as the source does; a text argument is the input from the position on.
pub mod Quoted
pub mod Placed
pub mod Blank
use rtail.Base.{
  ℕ, zero, suc, ◌+◌, ◌-◌, ◌*◌, ◌/◌, ◌%◌, ◌^◌, ◌≤◌, ◌<◌, min, String, ◌≡◌, refl, sym, ap, ◌∙◌, ◌≢◌,
  ◌↔◌, ◌⊎◌, inl, inr, Bool, true, false, not, ◌&&◌, ◌||◌, Option, none, some, List, [], ◌∷◌, ◌++◌,
  map, append_assoc, append-nil, arith, ltb, leb, ◌==◌, if◌then◌else◌, ltb→lt, lt→ltb, ==_iff,
  Bool-cases, Option-cases, if_split, option_split, length, get_elem?, set, take, drop, replicate,
  length-append, length-take, length-drop, take-append-drop, take-length, drop-length, take_all,
  Bytes, IsByte, codes, bytes_eq, bytes_eq_iff, All, All-append, All-take, All-drop,
}
use rtail.Rql.Syntax.{
  Text, Op, Literal, Node, Nodes, TokenKind, Token, Message, Result, ◌>>=◌, equals, contains,
  matches, less, less_equal, greater, greater_equal, exists, string, number, bool, null, wildcard,
  comparison, full_text, all_of, any_of, negation, nil, cons, token_word, token_string,
  token_lparen, token_rparen, token_eof, unterminated, unexpected, nothing_after_and,
  nothing_after_not, empty_parens, missing_close, unexpected_close, unexpected_end, no_field,
  no_value, star_needs_equals, ok, err, stuck,
}
use rtail.Rql.Operator.{
  has_prefix, index_of, operators, Best, improves, consider, best_operator, Split, split_at,
  split_operator, operator_here, behind, first_operator,
}

-- `unicode.IsSpace`
unfoldable pub is_space : ℕ → Bool
is_space c =
    (leb 9 c && leb c 13)
    || (c == 0x20
        || (c == 0x85
            || (c == 0xA0
                || (c == 0x1680
                    || ((leb 0x2000 c && leb c 0x200A)
                        || (c == 0x2028
                            || (c == 0x2029 || (c == 0x202F || (c == 0x205F || c == 0x3000)))))))))

unfoldable pub opens_quote : Text → Bool
opens_quote prefix =
    if bytes_eq prefix (codes "-")
    then true
    else elim (split_operator prefix) [ some (field, op, []) ↦ true | _ ↦ false ]

-- `lexQuoted` from `i` on: the text between the quotes, then the runes behind the closing one with
-- their position.
unfoldable pub quoted_from : ℕ → ℕ → Text → ℕ → Text → Result (Text × Text × ℕ)
quoted_from quote start sb i [] = err unterminated start
quoted_from quote start sb i (c ∷ []) =
    if c == b'\\'
    then err unterminated start
    else if c == quote
    then ok (sb, [], i + 1)
    else err unterminated start
quoted_from quote start sb i (c ∷ d ∷ s) = elim (c == b'\\') [
  | true ↦ quoted_from quote start (sb ++ d ∷ []) (i + 2) s
  | false ↦ elim (c == quote) [
    | true ↦ ok (sb, d ∷ s, i + 1)
    | false ↦ quoted_from quote start (sb ++ c ∷ []) (i + 1) (d ∷ s)
  ]
]

unfoldable pub stops_word : Text → ℕ → Bool
unfolding is_space opens_quote
stops_word w c =
    is_space c || (c == b'(' || (c == b')' || (c == b'"' || (c == b'\'' && opens_quote w))))

unfoldable pub scan_word : Text → Text → Text × Text
scan_word w [] = (w, [])
scan_word w (c ∷ s) = elim (stops_word w c) [
  | true ↦ (w, c ∷ s)
  | false ↦ scan_word (w ++ c ∷ []) s
]

abbrev pub Step : Type 0
Step = Token × Text × ℕ

unfoldable pub string_token : Bool → ℕ → Text × Text × ℕ → Step
string_token space start (s, rest, next) =
    (record { kind = token_string; text = s; pos = start; adjacent = not space }, rest, next)

unfoldable pub word_token : Bool → ℕ → Text × Text → Step
word_token space start (s, rest) = (
  record { kind = token_word; text = s; pos = start; adjacent = not space },
  rest,
  start + length s,
)

-- The `switch` of `lex` at a rune that is no space.
unfoldable pub next_token : Bool → ℕ → ℕ → Text → Result Step
unfolding string_token word_token
next_token space i c s =
    let paren : TokenKind → Step =
      λ k. (record { kind = k; text = []; pos = i; adjacent = not space }, s, i + 1) in
    if c == b'('
    then ok (paren token_lparen)
    else if c == b')'
    then ok (paren token_rparen)
    else if c == b'"' || c == b'\''
    then quoted_from c i [] (i + 1) s >>= (λ r. ok (string_token space i r))
    else ok (word_token space i (scan_word [] (c ∷ s)))

unfoldable pub lex_from : ℕ → Bool → ℕ → Text → Result (List Token)
lex_from zero space i s = stuck
lex_from (suc f) space i [] =
    ok (record { kind = token_eof; text = []; pos = i; adjacent = false } ∷ [])
lex_from (suc f) space i (c ∷ s) = elim (is_space c) [
  | true ↦ lex_from f true (i + 1) s
  | false ↦
      next_token space i c s
      >>= (λ (t, rest, next). lex_from f false next rest >>= (λ ts. ok (t ∷ ts)))
]

-- Every round takes a rune at least.
unfoldable pub lex : Text → Result (List Token)
lex input = lex_from (length input + 1) true 0 input

-- What `strings.NewReplacer` writes for a rune.
unfoldable pub escape_rune : ℕ → Text
escape_rune c =
    if c == b'\\' then b'\\' ∷ b'\\' ∷ [] else if c == b'"' then b'\\' ∷ b'"' ∷ [] else c ∷ []

unfoldable pub escape : Text → Text
unfolding escape_rune
escape [] = []
escape (c ∷ s) = escape_rune c ++ escape s

unfoldable pub quoted : Text → Text
quoted s = b'"' ∷ (escape s ++ b'"' ∷ [])
