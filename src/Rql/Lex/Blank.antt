-- ===== src/Rql/Lex/Blank.antt =====
-- `lex` of internal/rql/parse.go finds nothing only where there is nothing but space.
use rtail.Base.{
  ℕ, zero, suc, ◌+◌, ◌≡◌, ◌⊎◌, inl, inr, Bool, true, false, List, [], ◌∷◌, arith, elim_split,
  length, All,
}
use rtail.Rql.Syntax.{Text, kind_eq, Token, Result, ◌>>=◌, token_eof, ok, err, stuck}
use rtail.Rql.Lex.{is_space, Step, next_token, lex_from, lex}
use rtail.Rql.Lex.Placed.{Stepped, next_token-Stepped}

abbrev pub Blank : Text → Type 0
Blank = All (λ c. is_space c ≡ true)

-- Tokens that begin with the end come from a blank text.
unfoldable pub EmptyIfBlank : Text → Result (List Token) → Type 0
EmptyIfBlank s (ok (t ∷ ts)) = (kind_eq t.kind token_eof ≡ false) ⊎ Blank s
EmptyIfBlank s _ = Unit

EmptyIfBlank-step :
    (s s' : Text) (i : ℕ) (next : ℕ → Text → Result (List Token)) (r : Result Step)
    → Stepped s i r
    → EmptyIfBlank s' (r >>= (λ (t, rest, j). next j rest >>= (λ ts. ok (t ∷ ts))))
unfolding Stepped EmptyIfBlank
EmptyIfBlank-step s s' i next (err m p) h = tt
EmptyIfBlank-step s s' i next stuck h = tt
EmptyIfBlank-step s s' i next (ok (t, rest, j)) h = tail (next j rest)
  where
    tail : (r : Result (List Token)) → EmptyIfBlank s' (r >>= (λ ts. ok (t ∷ ts)))
    tail (ok ts) = inl h.1
    tail (err m p) = tt
    tail stuck = tt

EmptyIfBlank-cons :
    (c : ℕ) (s : Text) (r : Result (List Token))
    → is_space c ≡ true
    → EmptyIfBlank s r
    → EmptyIfBlank (c ∷ s) r
unfolding EmptyIfBlank
EmptyIfBlank-cons c s (ok []) h e = tt
EmptyIfBlank-cons c s (ok (t ∷ ts)) h (inl k) = inl k
EmptyIfBlank-cons c s (ok (t ∷ ts)) h (inr b) = inr (h, b)
EmptyIfBlank-cons c s (err m p) h e = tt
EmptyIfBlank-cons c s stuck h e = tt

lex_from-EmptyIfBlank :
    (f : ℕ) (space : Bool) (i : ℕ) (s : Text) → EmptyIfBlank s (lex_from f space i s)
unfolding lex_from EmptyIfBlank
lex_from-EmptyIfBlank zero space i s = tt
lex_from-EmptyIfBlank (suc f) space i [] = inr tt
lex_from-EmptyIfBlank (suc f) space i (c ∷ s) =
    elim_split (EmptyIfBlank (c ∷ s)) (is_space c)
      (λ e.
        EmptyIfBlank-cons c s (lex_from f true (i + 1) s) e
          (lex_from-EmptyIfBlank f true (i + 1) s))
      (λ e.
        EmptyIfBlank-step (c ∷ s) (c ∷ s) i (lex_from f false) (next_token space i c s)
          (next_token-Stepped space i c s e))

pub lex-EmptyIfBlank : (input : Text) → EmptyIfBlank input (lex input)
unfolding lex
lex-EmptyIfBlank input = lex_from-EmptyIfBlank (length input + 1) true 0 input

pub EmptyIfBlank-eof :
    (s : Text) (t : Token) (ts : List Token)
    → kind_eq t.kind token_eof ≡ true
    → EmptyIfBlank s (ok (t ∷ ts))
    → Blank s
unfolding EmptyIfBlank
EmptyIfBlank-eof s t ts k (inl k') = absurd (ground (arith, k, k'))
EmptyIfBlank-eof s t ts k (inr b) = b
