-- ===== src/Rql/Tests.antt =====
-- Runs of internal/rql/parse.go and internal/rql/ast.go at concrete inputs.
use rtail.Base.{
  ℕ, ◌+◌, ◌-◌, ◌*◌, ◌≡◌, refl, Bool, true, false, not, ◌&&◌, Option, none, some, [], ◌∷◌, ◌++◌, leb,
  if◌then◌else◌, length, codes, bytes_eq,
}
use rtail.Rql.Syntax.{
  Text, kind_eq, ◌>>=◌, equals, greater_equal, string, number, comparison, full_text, all_of,
  any_of, negation, nil, cons, token_string, missing_close, ok, err,
}
use rtail.Rql.Operator.{
  has_prefix, index_of, improves, consider, best_operator, split_at, split_operator, first_operator,
}
use rtail.Rql.Operator.Leftmost.{split_operator-eq-first_operator}
use rtail.Rql.Lex.{
  is_space, opens_quote, quoted_from, stops_word, scan_word, string_token, word_token, next_token,
  lex_from, lex, quoted,
}
use rtail.Rql.Lex.Quoted.{lex_from-quoted}
use rtail.Rql.Lex.Placed.{Lexed, lex-Lexed}
use rtail.Rql.Parse.{
  keyword, peek, to_lower, contains_x, op_eq, nodes, conjunction, disjunction, add_child, number_of,
  literal_of, missing_value, chunk_of, parse_chunk, close_paren, primary_of, negated, unary_of,
  and_round, or_round, parse_or, ends, parse_tokens, parse,
}
use rtail.Rql.Parse.Sound.{Answered, parse-Answered}

-- Decimal digits, in the place of `strconv.ParseFloat`.
unfoldable digits : ℕ → Text → Option ℕ
digits n [] = some n
digits n (c ∷ s) =
    let rest = digits (10 * n + (c - b'0')) s in if leb b'0' c && leb c b'9' then rest else none

abbrev any_number : ℕ → Bool
any_number n = true

abbrev query : Text
query = codes "level>=ERROR OR -\"a b\" status=200"

two_sides :
    parse (digits 0) any_number query
    ≡ ok (
        some (
          any_of (
            cons (comparison (codes "level") greater_equal (string false (codes "ERROR"))) (
              cons
                (all_of (
                  cons
                    (negation (full_text (codes "a b")))
                    (cons (comparison (codes "status") equals (number 200 (codes "200"))) nil)))
                nil))))
unfolding parse parse_tokens parse_or lex lex_from is_space next_token scan_word stops_word
    quoted_from kind_eq bytes_eq has_prefix split_operator best_operator consider index_of
    disjunction add_child conjunction literal_of to_lower opens_quote string_token word_token
    improves split_at and_round chunk_of close_paren contains_x ends keyword missing_value negated
    nodes number_of op_eq or_round parse_chunk peek primary_of unary_of digits
two_sides = refl

open_paren : parse (digits 0) any_number (codes "(a OR b") ≡ err missing_close 7
unfolding parse parse_tokens parse_or lex lex_from is_space next_token scan_word stops_word kind_eq
    bytes_eq has_prefix split_operator best_operator consider index_of
open_paren = refl

split_operator-eq-first_operator_example :
    split_operator (codes "level>=ERROR:~x") ≡ first_operator (codes "level>=ERROR:~x")
split_operator-eq-first_operator_example =
    split_operator-eq-first_operator (codes "level>=ERROR:~x")

lex_from-quoted_example : lex_from 5 true 0 (quoted (codes "a \"b\\") ++ codes " c") ≡ (
    lex_from 4 false (0 + length (quoted (codes "a \"b\\"))) (codes " c") >>= (λ ts.
      ok (
        record { kind = token_string; text = codes "a \"b\\"; pos = 0; adjacent = not true } ∷ ts)))
lex_from-quoted_example = lex_from-quoted 4 true 0 (codes "a \"b\\") (codes " c")

lex-Lexed_example : Lexed query 0 (lex query)
lex-Lexed_example = lex-Lexed query

parse-Answered_example : Answered (digits 0) any_number query (parse (digits 0) any_number query)
parse-Answered_example = parse-Answered (digits 0) any_number query
