-- ===== src/Rql/Lex/Quoted.antt =====
-- `quoted` of internal/rql/ast.go read back by `lexQuoted` of internal/rql/parse.go.
use rtail.Base.{
  ℕ, suc, ◌+◌, ◌≡◌, refl, sym, ap, ◌∙◌, Bool, true, false, not, [], ◌∷◌, ◌++◌, append_assoc,
  append-nil, arith, ◌==◌, if_split, length, length-append,
}
use rtail.Rql.Syntax.{Text, ◌>>=◌, token_string, token_eof, ok}
use rtail.Rql.Lex.{
  is_space, quoted_from, string_token, next_token, lex_from, lex, escape_rune, escape, quoted,
}

escape_rune_cons : (c : ℕ) → (d : ℕ) × (ds : Text) × (escape_rune c ≡ d ∷ ds)
unfolding escape_rune
escape_rune_cons c =
    if_split (λ t. (d : ℕ) × (ds : Text) × (t ≡ d ∷ ds)) (c == b'\\')
      (λ _. (b'\\', b'\\' ∷ [], refl))
      (λ _.
        if_split (λ t. (d : ℕ) × (ds : Text) × (t ≡ d ∷ ds)) (c == b'"')
          (λ _. (b'\\', b'"' ∷ [], refl)) (λ _. (c, [], refl)))

escape_cons : (s rest : Text) → (d : ℕ) × (ds : Text) × (escape s ++ b'"' ∷ rest ≡ d ∷ ds)
unfolding escape
escape_cons [] rest = (b'"', rest, refl)
escape_cons (c ∷ s) rest =
    let (d, ds, e) = escape_rune_cons c in
    (d, (ds ++ escape s) ++ b'"' ∷ rest, ap (λ t. (t ++ escape s) ++ b'"' ∷ rest) e)

quoted_from-escape_rune :
    (start : ℕ) (sb : Text) (i c d : ℕ) (ds : Text)
    → quoted_from b'"' start sb i (escape_rune c ++ d ∷ ds)
      ≡ quoted_from b'"' start (sb ++ c ∷ []) (i + length (escape_rune c)) (d ∷ ds)
unfolding quoted_from escape_rune
quoted_from-escape_rune start sb i c d ds = ground arith

-- The closing quote ends the string, whatever follows it.
closing_quote :
    (start : ℕ) (sb : Text) (i : ℕ) (rest : Text)
    → quoted_from b'"' start sb i (b'"' ∷ rest) ≡ ok (sb, rest, i + 1)
unfolding quoted_from
closing_quote start sb i [] = refl
closing_quote start sb i (c ∷ rest) = refl

quoted_from-escape :
    (start : ℕ) (sb : Text) (i : ℕ) (s rest : Text)
    → quoted_from b'"' start sb i (escape s ++ b'"' ∷ rest)
      ≡ ok (sb ++ s, rest, i + length (escape s) + 1)
unfolding escape
quoted_from-escape start sb i [] rest =
    let e : i + 1 ≡ i + 0 + 1 = omega arith in
    rw (append-nil sb, sym e) (closing_quote start sb i rest)
quoted_from-escape start sb i (c ∷ s) rest =
    let (d, ds, tail) = escape_cons s rest in
    let ih = quoted_from-escape start (sb ++ c ∷ []) (i + length (escape_rune c)) s rest in
    let size : (i + length (escape_rune c)) + length (escape s) + 1
        ≡ i + length (escape_rune c ++ escape s) + 1 =
      omega (arith, length-append (escape_rune c) (escape s)) in
    ap (quoted_from b'"' start sb i)
      (append_assoc (escape_rune c) (escape s) (b'"' ∷ rest) ∙ ap (escape_rune c ++◌) tail)
    ∙ quoted_from-escape_rune start sb i c d ds
    ∙ ap (quoted_from b'"' start (sb ++ c ∷ []) (i + length (escape_rune c))) (sym tail)
    ∙ ih
    ∙ ap (λ t. ok (t, rest, (i + length (escape_rune c)) + length (escape s) + 1))
        (append_assoc sb (c ∷ []) s)
    ∙ ap (λ n. ok (sb ++ c ∷ s, rest, n)) size

-- A text rendered by quoted, in front of any other input, is lexed as one string token with that
-- text, and the lexer goes on directly behind it.
pub lex_from-quoted :
    (f : ℕ) (space : Bool) (i : ℕ) (s rest : Text)
    → lex_from (suc f) space i (quoted s ++ rest) ≡ (
        lex_from f false (i + length (quoted s)) rest >>= (λ ts.
          ok (record { kind = token_string; text = s; pos = i; adjacent = not space } ∷ ts)))
unfolding lex_from next_token quoted is_space string_token
lex_from-quoted f space i s rest =
    let size : i + 1 + length (escape s) + 1 ≡ i + suc (length (escape s ++ b'"' ∷ [])) =
      omega (arith, length-append (escape s) (b'"' ∷ [])) in
    rw (append_assoc (escape s) (b'"' ∷ []) rest, quoted_from-escape i [] (i + 1) s rest, size) refl

-- A text that `quoted` renders is lexed as one quoted string with that text, then the end.
pub lex-quoted :
    (s : Text)
    → lex (quoted s)
      ≡ ok (
          record { kind = token_string; text = s; pos = 0; adjacent = false }
          ∷ record { kind = token_eof; text = []; pos = length (quoted s); adjacent = false }
          ∷ [])
unfolding lex lex_from quoted
lex-quoted s =
    let n = length (escape s ++ b'"' ∷ []) in
    let end : 0 + length (quoted s) ≡ length (quoted s) = omega arith in
    let fuel : length (quoted s) + 1 ≡ suc (suc n) = omega arith in
    ap (λ f. lex_from f true 0 (quoted s)) fuel
    ∙ ap (lex_from (suc (suc n)) true 0) (sym (append-nil (quoted s)))
    ∙ lex_from-quoted (suc n) true 0 s []
    ∙ ap
        (λ p. ok (
          record { kind = token_string; text = s; pos = 0; adjacent = false }
          ∷ record { kind = token_eof; text = []; pos = p; adjacent = false }
          ∷ []))
        end
