-- ===== src/Rql/Parse/Sound.antt =====
-- `Parse` of internal/rql/parse.go: it ends, stays inside its tokens, and builds a proper tree.
use rtail.Base.{
  ℕ, zero, suc, ◌+◌, ◌*◌, ◌≤◌, refl, inl, Bool, Option, none, some, List, [], ◌∷◌, arith, if_split,
  elim_split, length,
}
use rtail.Rql.Syntax.{Text, Node, kind_eq, Token, Result, ◌>>=◌, token_eof, ok, err, stuck}
use rtail.Rql.Lex.{lex}
use rtail.Rql.Lex.Blank.{Blank, EmptyIfBlank, EmptyIfBlank-eof, lex-EmptyIfBlank}
use rtail.Rql.Lex.Placed.{Rising, Lexed, lex-Lexed}
use rtail.Rql.Parse.{
  peek, parse_or, or_rest, parse_and, and_rest, parse_unary, parse_primary, ends, parse_tokens,
  parse,
}
use rtail.Rql.Parse.Ended.{
  no_tokens, Ended, Ended-pos, Rising-Ended, Wf, Good, Good-weaken, Good-bind,
}
use rtail.Rql.Parse.Pieces.{primary_of-Good, unary_of-Good}
use rtail.Rql.Parse.Rounds.{Operands, Factors, and_round-Good, or_round-Good}

module _ {F : Type 0} (parse_float : Text → Option F) (is_finite : F → Bool) where
  module _ (bound : ℕ) where
    -- With fuel `f` the function answers well on all tokens that need no more; `own` is what it needs
    -- beyond five for each token.
    abbrev Answers : ℕ → ℕ → (List Token → Result (Node F × List Token)) → Type 0
    Answers own f parser =
        (ts : List Token)
        → Ended bound ts
        → 5 * length ts + own ≤ f
        → Good bound (length ts) (parser ts)

    abbrev Loops :
        ℕ
        → ℕ
        → (List (Node F) → Type 0)
        → (List (Node F) → List Token → Result (Node F × List Token))
        → Type 0
    Loops own f P more =
        (xs : List (Node F)) (ts : List Token)
        → P xs
        → Ended bound ts
        → 5 * length ts + own ≤ f
        → Good bound (suc (length ts)) (more xs ts)

    abbrev AllAnswer : ℕ → Type 0
    AllAnswer f =
        Answers 1 f (parse_primary parse_float is_finite f)
        × Answers 2 f (parse_unary parse_float is_finite f)
        × Answers 3 f (parse_and parse_float is_finite f)
        × Answers 4 f (parse_or parse_float is_finite f)
        × Loops 3 f Factors (and_rest parse_float is_finite f)
        × ((left : Node F) → Loops 4 f (Operands left) (or_rest parse_float is_finite f left))

    parse_primary-Answers :
        (f : ℕ) → AllAnswer f → Answers 1 (suc f) (parse_primary parse_float is_finite (suc f))
    unfolding parse_primary
    parse_primary-Answers f ih [] e h = absurd (no_tokens bound e)
    parse_primary-Answers f ih (t ∷ ts) e h =
        primary_of-Good parse_float is_finite bound (parse_or parse_float is_finite f) t ts t.kind
          refl (λ us e' l. ih.3 us e' (omega arith)) e

    parse_unary-Answers :
        (f : ℕ) → AllAnswer f → Answers 2 (suc f) (parse_unary parse_float is_finite (suc f))
    unfolding parse_unary
    parse_unary-Answers f ih [] e h = absurd (no_tokens bound e)
    parse_unary-Answers f ih (t ∷ ts) e h =
        unary_of-Good parse_float is_finite bound _ _ t ts (λ us e' l. ih.1 us e' (omega arith))
          (λ us e' l. ih.0 us e' (omega arith)) e

    parse_and-Answers :
        (f : ℕ) → AllAnswer f → Answers 3 (suc f) (parse_and parse_float is_finite (suc f))
    unfolding parse_and
    parse_and-Answers f ih ts e h =
        Good-bind bound (length ts) (length ts) (parse_unary parse_float is_finite f ts) _
          (ih.1 ts e (omega arith))
          (λ first us w e' l.
            Good-weaken bound (suc (length us)) (length ts) _ (omega arith)
              (ih.4 (first ∷ []) us (omega arith, (w, tt)) e' (omega arith)))

    parse_or-Answers :
        (f : ℕ) → AllAnswer f → Answers 4 (suc f) (parse_or parse_float is_finite (suc f))
    unfolding parse_or Operands
    parse_or-Answers f ih ts e h =
        Good-bind bound (length ts) (length ts) (parse_and parse_float is_finite f ts) _
          (ih.2 ts e (omega arith))
          (λ left us w e' l.
            Good-weaken bound (suc (length us)) (length ts) _ (omega arith)
              (ih.5 left [] us (w, tt, inl refl) e' (omega arith)))

    and_rest-Loops :
        (f : ℕ) → AllAnswer f → Loops 3 (suc f) Factors (and_rest parse_float is_finite (suc f))
    unfolding and_rest
    and_rest-Loops f ih xs [] w e h = absurd (no_tokens bound e)
    and_rest-Loops f ih xs (t ∷ ts) w e h =
        and_round-Good parse_float is_finite bound _ _ xs t ts (λ us e' l. ih.1 us e' (omega arith))
          (λ ys us w' e' l. ih.4 ys us w' e' (omega arith)) w e

    or_rest-Loops :
        (f : ℕ)
        → AllAnswer f
        → (left : Node F)
        → Loops 4 (suc f) (Operands left) (or_rest parse_float is_finite (suc f) left)
    unfolding or_rest
    or_rest-Loops f ih left xs [] w e h = absurd (no_tokens bound e)
    or_rest-Loops f ih left xs (t ∷ ts) w e h =
        or_round-Good parse_float is_finite bound _ _ left xs t ts
          (λ us e' l. ih.2 us e' (omega arith))
          (λ ys us w' e' l. ih.5 left ys us w' e' (omega arith)) w e

    parsers-AllAnswer : (f : ℕ) → AllAnswer f
    parsers-AllAnswer zero = (
      (λ ts e h. absurd (omega arith)),
      (λ ts e h. absurd (omega arith)),
      (λ ts e h. absurd (omega arith)),
      (λ ts e h. absurd (omega arith)),
      (λ xs ts w e h. absurd (omega arith)),
      (λ left xs ts w e h. absurd (omega arith)),
    )
    parsers-AllAnswer (suc f) =
        let ih = parsers-AllAnswer f in
        (
          parse_primary-Answers f ih,
          parse_unary-Answers f ih,
          parse_and-Answers f ih,
          parse_or-Answers f ih,
          and_rest-Loops f ih,
          or_rest-Loops f ih,
        )

  -- What `Parse` promises: an answer in every case, a proper tree, or a position in the input.
  unfoldable pub Answered : Text → Result (Option (Node F)) → Type 0
  Answered input (ok none) = Blank input
  Answered input (ok (some node)) = Wf node
  Answered input (err m p) = p ≤ length input
  Answered input stuck = ⊥

  ends-Answered :
      (input : Text) (size : ℕ) (r : Result (Node F × List Token))
      → Good (length input) size r
      → Answered input (r >>= ends parse_float is_finite)
  unfolding Good Answered ends
  ends-Answered input size (ok (node, [])) (w, e, l) = no_tokens (length input) e
  ends-Answered input size (ok (node, t ∷ ts)) (w, e, l) =
      if_split (Answered input) (kind_eq t.kind token_eof) (λ _. w)
        (λ _. Ended-pos (length input) t ts e)
  ends-Answered input size (err m p) h = h
  ends-Answered input size stuck h = h

  parse_tokens-Answered :
      (input : Text) (r : Result (List Token))
      → Lexed input 0 r
      → EmptyIfBlank input r
      → Answered input (r >>= parse_tokens parse_float is_finite)
  unfolding parse_tokens Answered Lexed peek Rising
  parse_tokens-Answered input (ok []) h b = h
  parse_tokens-Answered input (ok (t ∷ ts)) h b =
      let e = Rising-Ended input 0 (t ∷ ts) h in
      elim_split (Answered input) (kind_eq t.kind token_eof) (λ k. EmptyIfBlank-eof input t ts k b)
        (λ _.
          ends-Answered input (length (t ∷ ts)) _ (
            (parsers-AllAnswer (length input) (5 * length (t ∷ ts) + 4)).3 (t ∷ ts) e
              (omega arith)))
  parse_tokens-Answered input (err m p) h b = omega (arith, h.1)
  parse_tokens-Answered input stuck h b = h

  -- Parse answers every input, without running out of the tokens: by the nil Node where the input
  -- is nothing but space, by a tree in which every conjunction and disjunction has two children at
  -- least, every comparison names a field and a wildcard stands with OpExists only, or by an error
  -- at a position not behind the end of the input. This holds whatever ParseFloat reads.
  pub parse-Answered : (input : Text) → Answered input (parse parse_float is_finite input)
  unfolding parse
  parse-Answered input =
      parse_tokens-Answered input (lex input) (lex-Lexed input) (lex-EmptyIfBlank input)
