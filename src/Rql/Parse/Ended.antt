-- ===== src/Rql/Parse/Ended.antt =====
-- The tokens that the parser of internal/rql/parse.go works on, and what its functions leave.
use rtail.Base.{
  ℕ, suc, ◌+◌, ◌≤◌, ◌<◌, ◌≡◌, refl, sym, ap, ◌∙◌, true, false, List, [], ◌∷◌, arith, length,
  length-append,
}
use rtail.Rql.Syntax.{
  Text, Op, Literal, Node, Nodes, TokenKind, kind_eq, Token, Result, ◌>>=◌, exists, wildcard,
  comparison, full_text, all_of, any_of, negation, nil, cons, token_word, token_string,
  token_lparen, token_rparen, token_eof, ok, err, stuck,
}
use rtail.Rql.Parse.{keyword, peek}
use rtail.Rql.Lex.Placed.{Placed, Rising}

-- The last token is the end of the query, and only it; positions are at most `bound`.
unfoldable pub Ended : ℕ → List Token → Type 0
Ended bound [] = ⊥
Ended bound (t ∷ []) = (kind_eq t.kind token_eof ≡ true) × (t.pos ≤ bound)
Ended bound (t ∷ u ∷ ts) =
    (kind_eq t.kind token_eof ≡ false) × (t.pos ≤ bound) × Ended bound (u ∷ ts)

pub no_tokens : (bound : ℕ) → Ended bound [] → ⊥
unfolding Ended
no_tokens bound h = h

pub Ended-pos : (bound : ℕ) (t : Token) (ts : List Token) → Ended bound (t ∷ ts) → t.pos ≤ bound
unfolding Ended
Ended-pos bound t [] h = h.1
Ended-pos bound t (u ∷ ts) h = h.1

pub Ended-tail :
    (bound : ℕ) (t : Token) (ts : List Token)
    → kind_eq t.kind token_eof ≡ false
    → Ended bound (t ∷ ts)
    → Ended bound ts
unfolding Ended
Ended-tail bound t [] k h = absurd (ground (arith, k, h.0))
Ended-tail bound t (u ∷ ts) k h = h.2

-- What is at the front may be exchanged for a token of the same kind and position.
pub Ended-front :
    (bound : ℕ) (t t' : Token) (ts : List Token)
    → t.kind ≡ t'.kind
    → t.pos ≡ t'.pos
    → Ended bound (t ∷ ts)
    → Ended bound (t' ∷ ts)
unfolding Ended
Ended-front bound t t' [] k p h = (rw (sym k) h.0, rw (sym p) h.1)
Ended-front bound t t' (u ∷ ts) k p h = (rw (sym k) h.0, rw (sym p) h.1, h.2)

pub Rising-Ended :
    (input : Text) (i : ℕ) (ts : List Token) → Rising input i ts → Ended (length input) ts
unfolding Rising Ended Placed
Rising-Ended input i [] h = h
Rising-Ended input i (t ∷ []) (p, k, l) =
    let size : length input ≡ length p.0 + length p.1 = ap length p.2 ∙ length-append p.0 p.1 in
    let at : t.pos ≤ length input = omega (arith, p.3) in (k, at)
Rising-Ended input i (t ∷ u ∷ ts) (p, k, l, r) =
    let size : length input ≡ length p.0 + length p.1 = ap length p.2 ∙ length-append p.0 p.1 in
    let at : t.pos ≤ length input = omega (arith, p.3) in
    (k, at, Rising-Ended input (suc t.pos) (u ∷ ts) r)

module _ {F : Type 0} where
  unfoldable pub count : Nodes F → ℕ
  count nil = 0
  count (cons x xs) = suc (count xs)

  unfoldable pub WildcardOk : Op → Literal F → Type 0
  WildcardOk op wildcard = op ≡ exists
  WildcardOk op _ = Unit

  -- A conjunction or disjunction has at least two children, a comparison names its field, and a
  -- wildcard stands with `OpExists` only.
  unfoldable mutual
    unfolding count WildcardOk

    pub Wf : Node F → Type 0
    Wf (comparison field op l) = (0 < length field) × WildcardOk op l
    Wf (full_text s) = Unit
    Wf (all_of ns) = (2 ≤ count ns) × WfAll ns
    Wf (any_of ns) = (2 ≤ count ns) × WfAll ns
    Wf (negation n) = Wf n

    pub WfAll : Nodes F → Type 0
    WfAll nil = Unit
    WfAll (cons x xs) = Wf x × WfAll xs

  -- A call on fewer than `size` tokens is answered by a node and fewer tokens, or by an error at a
  -- position up to `bound`.
  unfoldable pub Good : ℕ → ℕ → Result (Node F × List Token) → Type 0
  unfolding Wf Ended
  Good bound size (ok (node, ts)) = Wf node × Ended bound ts × (length ts < size)
  Good bound size (err m p) = p ≤ bound
  Good bound size stuck = ⊥

  pub Good-weaken :
      (bound a b : ℕ) (r : Result (Node F × List Token)) → a ≤ b → Good bound a r → Good bound b r
  unfolding Good
  Good-weaken bound a b (ok r) h (w, e, l) = (w, e, omega arith)
  Good-weaken bound a b (err m p) h g = g
  Good-weaken bound a b stuck h g = g

  -- What follows a call may count on its node and on what it leaves.
  pub Good-bind :
      (bound a b : ℕ) (r : Result (Node F × List Token))
      (next : Node F × List Token → Result (Node F × List Token))
      → Good bound a r
      → ((node : Node F) (ts : List Token)
          → Wf node
          → Ended bound ts
          → length ts < a
          → Good bound b (next (node, ts)))
      → Good bound b (r >>= next)
  unfolding Good
  Good-bind bound a b (ok (node, ts)) next (w, e, l) h = h node ts w e l
  Good-bind bound a b (err m p) next g h = g
  Good-bind bound a b stuck next g h = elim g [ ]

  -- `f` answers well on fewer than `size` tokens.
  abbrev pub Parses : ℕ → ℕ → (List Token → Result (Node F × List Token)) → Type 0
  Parses bound size f =
      (ts : List Token) → Ended bound ts → length ts < size → Good bound (length ts) (f ts)

  pub peek-Good :
      (bound size : ℕ) (ts : List Token) (next : Token → Result (Node F × List Token))
      → Ended bound ts
      → ((t : Token) → t.pos ≤ bound → Good bound size (next t))
      → Good bound size (peek ts >>= next)
  unfolding peek Good
  peek-Good bound size [] next e h = elim e [ ]
  peek-Good bound size (t ∷ ts) next e h = h t (Ended-pos bound t ts e)

pub no_eof :
    (k : TokenKind) (w : TokenKind)
    → kind_eq k w ≡ true
    → kind_eq w token_eof ≡ false
    → kind_eq k token_eof ≡ false
unfolding kind_eq
no_eof token_word w h h' = refl
no_eof token_string w h h' = refl
no_eof token_lparen w h h' = refl
no_eof token_rparen w h h' = refl
no_eof token_eof token_eof h h' = h'
no_eof token_eof token_word h h' = sym h
no_eof token_eof token_string h h' = sym h
no_eof token_eof token_lparen h h' = sym h
no_eof token_eof token_rparen h h' = sym h

pub keyword-no_eof : (t : Token) (w : Text) → keyword t w ≡ true → kind_eq t.kind token_eof ≡ false
unfolding keyword kind_eq
keyword-no_eof t w h = no_eof t.kind token_word (ground (arith, h)) refl
