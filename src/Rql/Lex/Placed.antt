-- ===== src/Rql/Lex/Placed.antt =====
-- What the tokens of internal/rql/parse.go say about the input.
use rtail.Base.{
  ℕ, zero, suc, ◌+◌, ◌≤◌, ◌<◌, ◌≡◌, refl, sym, ap, ◌∙◌, ◌⊎◌, Bool, true, false, ◌||◌, List, [], ◌∷◌,
  ◌++◌, append_assoc, append-nil, arith, ◌==◌, ==_iff, if_split, elim_split, length, length-append,
  bytes_eq, All,
}
use mathlib.Core.Path.{subst}
use rtail.Rql.Syntax.{
  kind_eq, Text, TokenKind, Token, Result, ◌>>=◌, token_word, token_string, token_lparen,
  token_rparen, token_eof, unterminated, ok, err, stuck,
}
use rtail.Rql.Operator.{split_operator, best_operator, consider, index_of, split_at, has_prefix}
use rtail.Rql.Lex.{
  is_space, opens_quote, quoted_from, stops_word, scan_word, Step, string_token, word_token,
  next_token, lex_from, lex,
}

-- What stands at a token of this kind and text, which begins in front of `s`.
unfoldable pub Shows : TokenKind → Text → Text → Type 0
Shows token_lparen w s = (rest : Text) × (s ≡ b'(' ∷ rest)
Shows token_rparen w s = (rest : Text) × (s ≡ b')' ∷ rest)
Shows token_eof w s = s ≡ []
Shows token_word w s =
    (rest : Text) × (s ≡ w ++ rest) × (0 < length w) × All (λ c. is_space c ≡ false) w
Shows token_string w s = (c : ℕ) × (rest : Text) × (s ≡ c ∷ rest) × ((c ≡ b'"') ⊎ (c ≡ b'\''))

unfoldable pub Placed : Text → Token → Type 0
unfolding Shows
Placed input t =
    (before : Text) × (after : Text) × (input ≡ before ++ after)
    × (length before ≡ t.pos)
    × Shows t.kind t.text after

-- The tokens stand at rising positions from `i` on; the last is the end of the input, and only it.
unfoldable pub Rising : Text → ℕ → List Token → Type 0
unfolding Placed
Rising input i [] = ⊥
Rising input i (t ∷ []) = Placed input t × (kind_eq t.kind token_eof ≡ true) × (i ≤ t.pos)
Rising input i (t ∷ u ∷ ts) =
    Placed input t
    × (kind_eq t.kind token_eof ≡ false)
    × (i ≤ t.pos)
    × Rising input (suc t.pos) (u ∷ ts)

unfoldable pub Lexed : Text → ℕ → Result (List Token) → Type 0
unfolding Rising
Lexed input i (ok ts) = Rising input i ts
Lexed input i (err m p) = (m ≡ unterminated) × (p < length input)
Lexed input i stuck = ⊥

unfoldable Unquoted : Text → ℕ → ℕ → Result (Text × Text × ℕ) → Type 0
Unquoted s start i (ok (t, rest, next)) =
    (read : Text) × (s ≡ read ++ rest) × (next ≡ i + length read)
Unquoted s start i (err m p) = (m ≡ unterminated) × (p ≡ start)
Unquoted s start i stuck = ⊥

Unquoted-cons :
    (c : ℕ) (s : Text) (start i : ℕ) (r : Result (Text × Text × ℕ))
    → Unquoted s start (i + 1) r
    → Unquoted (c ∷ s) start i r
unfolding Unquoted
Unquoted-cons c s start i (ok r) (read, e, n) = (c ∷ read, ap (◌∷◌ c) e, omega arith)
Unquoted-cons c s start i (err m p) h = h
Unquoted-cons c s start i stuck h = elim h [ ]

quoted_from-Unquoted :
    (quote start : ℕ) (sb : Text) (i : ℕ) (s : Text)
    → Unquoted s start i (quoted_from quote start sb i s)
unfolding quoted_from Unquoted
quoted_from-Unquoted quote start sb i [] = (refl, refl)
quoted_from-Unquoted quote start sb i (c ∷ []) =
    if_split (Unquoted (c ∷ []) start i) (c == b'\\') (λ _. (refl, refl))
      (λ _.
        if_split (Unquoted (c ∷ []) start i) (c == quote) (λ _. (c ∷ [], refl, refl))
          (λ _. (refl, refl)))
quoted_from-Unquoted quote start sb i (c ∷ d ∷ s) =
    elim_split (Unquoted (c ∷ d ∷ s) start i) (c == b'\\')
      (λ _.
        let two : i + 2 ≡ i + 1 + 1 = omega arith in
        let ih = quoted_from-Unquoted quote start (sb ++ d ∷ []) (i + 2) s in
        Unquoted-cons c (d ∷ s) start i _ (
          Unquoted-cons d s start (i + 1) _ (
            subst (λ j. Unquoted s start j (quoted_from quote start (sb ++ d ∷ []) (i + 2) s)) two
              ih)))
      (λ _.
        elim_split (Unquoted (c ∷ d ∷ s) start i) (c == quote) (λ _. (c ∷ [], refl, refl))
          (λ _.
            Unquoted-cons c (d ∷ s) start i _
              (quoted_from-Unquoted quote start (sb ++ c ∷ []) (i + 1) (d ∷ s))))

-- What is read of a word so far has no space in it.
abbrev Solid : Text → Type 0
Solid = All (λ c. is_space c ≡ false)

unfoldable Scanned : Text → Text → Text × Text → Type 0
Scanned w s (v, rest) = (more : Text) × (v ≡ w ++ more) × (s ≡ more ++ rest) × Solid more

is_space-stops_word : (w : Text) (c : ℕ) → stops_word w c ≡ false → is_space c ≡ false
unfolding stops_word
is_space-stops_word w c h = ground arith

scan_word-Scanned : (w s : Text) → Scanned w s (scan_word w s)
unfolding scan_word Scanned
scan_word-Scanned w [] = ([], sym (append-nil w), refl, tt)
scan_word-Scanned w (c ∷ s) =
    elim_split (Scanned w (c ∷ s)) (stops_word w c) (λ _. ([], sym (append-nil w), refl, tt))
      (λ e.
        let (more, ev, es, solid) = scan_word-Scanned (w ++ c ∷ []) s in
        let calm : is_space c ≡ false = is_space-stops_word w c e in
        (c ∷ more, ev ∙ append_assoc w (c ∷ []) more, ap (◌∷◌ c) es, (calm, solid)))

-- A step of the lexer reads a rune at least, and says what stands there.
unfoldable pub Stepped : Text → ℕ → Result Step → Type 0
unfolding Shows
Stepped s i (ok (t, rest, next)) =
    (t.pos ≡ i)
    × (kind_eq t.kind token_eof ≡ false)
    × Shows t.kind t.text s
    × ((read : Text) × (s ≡ read ++ rest) × (next ≡ i + length read) × (0 < length read))
Stepped s i (err m p) = (m ≡ unterminated) × (p ≡ i)
Stepped s i stuck = ⊥

string-Stepped :
    (space : Bool) (i c : ℕ) (s : Text) (r : Result (Text × Text × ℕ))
    → (c ≡ b'"') ⊎ (c ≡ b'\'')
    → Unquoted s i (i + 1) r
    → Stepped (c ∷ s) i (r >>= (λ x. ok (string_token space i x)))
unfolding Unquoted Stepped string_token Shows kind_eq
string-Stepped space i c s (ok (t, rest, next)) quote (read, e, n) =
    (refl, refl, (c, s, refl, quote), (c ∷ read, ap (◌∷◌ c) e, omega arith, omega arith))
string-Stepped space i c s (err m p) quote h = h
string-Stepped space i c s stuck quote h = elim h [ ]

word-Stepped :
    (space : Bool) (i c : ℕ) (s : Text) (r : Text × Text)
    → is_space c ≡ false
    → Scanned (c ∷ []) s r
    → Stepped (c ∷ s) i (ok (word_token space i r))
unfolding Scanned Stepped word_token Shows kind_eq
word-Stepped space i c s (v, rest) calm (more, ev, es, solid) =
    let whole : c ∷ s ≡ v ++ rest = rw (ev, es) refl in
    let size : 0 < length v = rw ev (omega arith) in
    (refl, refl, (rest, whole, size, subst Solid (sym ev) (calm, solid)), (v, whole, refl, size))

no_quote_first : opens_quote [] ≡ false
unfolding opens_quote split_operator best_operator consider index_of bytes_eq split_at has_prefix
no_quote_first = refl

starts_word :
    (c : ℕ) (s : Text)
    → is_space c ≡ false
    → (c == b'(') ≡ false
    → (c == b')') ≡ false
    → (c == b'"' || c == b'\'') ≡ false
    → scan_word [] (c ∷ s) ≡ scan_word (c ∷ []) s
unfolding scan_word stops_word
starts_word c s h1 h2 h3 h4 = ground (arith, no_quote_first)

pub next_token-Stepped :
    (space : Bool) (i c : ℕ) (s : Text)
    → is_space c ≡ false
    → Stepped (c ∷ s) i (next_token space i c s)
unfolding next_token Stepped Shows word_token kind_eq
next_token-Stepped space i c s h =
    if_split (Stepped (c ∷ s) i) (c == b'(')
      (λ e.
        (refl, refl, (s, ap (λ x. x ∷ s) ((==_iff c b'(').0 e)), (c ∷ [], refl, refl, omega arith)))
      (λ e1.
        if_split (Stepped (c ∷ s) i) (c == b')')
          (λ e. (
            refl,
            refl,
            (s, ap (λ x. x ∷ s) ((==_iff c b')').0 e)),
            (c ∷ [], refl, refl, omega arith),
          ))
          (λ e2.
            if_split (Stepped (c ∷ s) i) (c == b'"' || c == b'\'')
              (λ e.
                string-Stepped space i c s _ (ground (arith, e))
                  (quoted_from-Unquoted c i [] (i + 1) s))
              (λ e3. rw (starts_word c s h e1 e2 e3) (
                word-Stepped space i c s (scan_word (c ∷ []) s) h (scan_word-Scanned (c ∷ []) s)))))

Rising-weaken :
    (input : Text) (i j : ℕ) (ts : List Token) → i ≤ j → Rising input j ts → Rising input i ts
unfolding Rising
Rising-weaken input i j [] h r = r
Rising-weaken input i j (t ∷ []) h (p, k, l) = (p, k, omega arith)
Rising-weaken input i j (t ∷ u ∷ ts) h (p, k, l, r) = (p, k, omega arith, r)

Lexed-weaken :
    (input : Text) (i j : ℕ) (r : Result (List Token)) → i ≤ j → Lexed input j r → Lexed input i r
unfolding Lexed
Lexed-weaken input i j (ok ts) h r = Rising-weaken input i j ts h r
Lexed-weaken input i j (err m p) h r = r
Lexed-weaken input i j stuck h r = r

Rising-cons :
    (input : Text) (t : Token) (next : ℕ) (ts : List Token)
    → Placed input t
    → kind_eq t.kind token_eof ≡ false
    → t.pos < next
    → Rising input next ts
    → Rising input t.pos (t ∷ ts)
unfolding Rising
Rising-cons input t next [] p k l r = elim r [ ]
Rising-cons input t next (u ∷ ts) p k l r =
    (p, k, omega arith, Rising-weaken input (suc t.pos) next (u ∷ ts) (omega arith) r)

Lexed-cons :
    (input : Text) (t : Token) (next : ℕ) (r : Result (List Token))
    → Placed input t
    → kind_eq t.kind token_eof ≡ false
    → t.pos < next
    → Lexed input next r
    → Lexed input t.pos (r >>= (λ ts. ok (t ∷ ts)))
unfolding Lexed
Lexed-cons input t next (ok ts) p k l r = Rising-cons input t next ts p k l r
Lexed-cons input t next (err m q) p k l r = r
Lexed-cons input t next stuck p k l r = r

-- What is left behind a step is lexed by `next`.
abbrev Rest : Text → ℕ → (ℕ → Text → Result (List Token)) → Type 0
Rest input size next =
    (before rest : Text)
    → input ≡ before ++ rest
    → length rest < size
    → Lexed input (length before) (next (length before) rest)

Lexed-step :
    (input before s : Text) (next : ℕ → Text → Result (List Token)) (r : Result Step)
    → input ≡ before ++ s
    → 0 < length s
    → Stepped s (length before) r
    → Rest input (length s) next
    → Lexed input (length before) (r >>= (λ (t, rest, i). next i rest >>= (λ ts. ok (t ∷ ts))))
unfolding Stepped Lexed Placed
Lexed-step input before s next (ok (t, rest, i)) e some_left (at, kind, shows, (read, es, en, size))
      left =
    let whole : input ≡ (before ++ read) ++ rest =
      e ∙ ap (before ++◌) es ∙ sym (append_assoc before read rest) in
    let shorter : length rest < length s = rw es (omega (arith, length-append read rest)) in
    let there : length (before ++ read) ≡ i = length-append before read ∙ sym en in
    let tail : Lexed input i (next i rest) =
      subst (λ j. Lexed input j (next j rest)) there (left (before ++ read) rest whole shorter) in
    subst (λ j. Lexed input j (next i rest >>= (λ ts. ok (t ∷ ts)))) at
      (Lexed-cons input t i (next i rest) (before, s, e, sym at, shows) kind (omega arith) tail)
Lexed-step input before s next (err m p) e some_left (unended, at) left =
    let size : length input ≡ length before + length s = ap length e ∙ length-append before s in
    (unended, omega arith)
Lexed-step input before s next stuck e some_left h left = h

lex_from-Lexed :
    (input : Text) (f : ℕ) (space : Bool) (before s : Text)
    → input ≡ before ++ s
    → length s < f
    → Lexed input (length before) (lex_from f space (length before) s)
unfolding lex_from Lexed Rising Placed Shows kind_eq
lex_from-Lexed input zero space before s e h = absurd (omega arith)
lex_from-Lexed input (suc f) space before [] e h = ((before, [], e, refl, refl), refl, omega arith)
lex_from-Lexed input (suc f) space before (c ∷ s) e h =
    let whole : input ≡ (before ++ c ∷ []) ++ s = e ∙ sym (append_assoc before (c ∷ []) s) in
    let size : length (before ++ c ∷ []) ≡ length before + 1 = length-append before (c ∷ []) in
    elim_split (Lexed input (length before)) (is_space c)
      (λ _. Lexed-weaken input (length before) (length before + 1) _ (omega arith) (
        subst (λ i. Lexed input i (lex_from f true i s)) size
          (lex_from-Lexed input f true (before ++ c ∷ []) s whole (omega arith))))
      (λ calm.
        Lexed-step input before (c ∷ s) (lex_from f false) _ e (omega arith)
          (next_token-Stepped space (length before) c s calm)
          (λ before' rest e' h'. lex_from-Lexed input f false before' rest e' (omega arith)))

-- Lexing ends. It fails only by an unterminated string that starts inside the input. Otherwise the
-- tokens stand at rising positions, each where the input shows it, and the last one, which alone
-- is the end, at the end of the input; a word is the piece of the input that stands at its
-- position, is not empty and has no space.
pub lex-Lexed : (input : Text) → Lexed input 0 (lex input)
unfolding lex
lex-Lexed input = lex_from-Lexed input (length input + 1) true [] input refl (omega arith)
