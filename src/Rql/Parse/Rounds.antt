-- ===== src/Rql/Parse/Rounds.antt =====
-- The loops of `parseAnd` and `parseOr` of internal/rql/parse.go, round by round.
use rtail.Base.{
  ℕ, suc, ◌≤◌, ◌<◌, ◌≡◌, refl, ap, ◌⊎◌, inr, Bool, ◌||◌, Option, List, [], ◌∷◌, ◌++◌, arith,
  elim_split, length, length-append, codes, All, All-append,
}
use rtail.Rql.Syntax.{
  Text, Node, kind_eq, Token, Result, ◌>>=◌, token_rparen, token_eof, nothing_after_and, ok, err,
}
use rtail.Rql.Parse.{keyword, nodes, conjunction, disjunction, add_child, and_round, or_round}
use rtail.Rql.Parse.Ended.{
  Ended, Ended-tail, count, Wf, WfAll, Good, Good-weaken, Good-bind, Parses, peek-Good,
  keyword-no_eof,
}

module _ {F : Type 0} where
  nodes-WfAll : (xs : List (Node F)) → All Wf xs → WfAll (nodes xs)
  unfolding nodes Wf
  nodes-WfAll [] h = tt
  nodes-WfAll (x ∷ xs) h = (h.0, nodes-WfAll xs h.1)

  count-nodes : (xs : List (Node F)) → count (nodes xs) ≡ length xs
  unfolding nodes count
  count-nodes [] = refl
  count-nodes (x ∷ xs) = ap suc (count-nodes xs)

  conjunction-Wf : (xs : List (Node F)) → 0 < length xs → All Wf xs → Wf (conjunction xs)
  unfolding conjunction Wf
  conjunction-Wf [] h w = absurd (omega arith)
  conjunction-Wf (x ∷ []) h w = w.0
  conjunction-Wf (x ∷ y ∷ xs) h w =
      (omega (arith, count-nodes (x ∷ y ∷ xs)), nodes-WfAll (x ∷ y ∷ xs) w)

  -- `children` of `parseOr`, with `left`: none yet, or two and more.
  unfoldable pub Operands : Node F → List (Node F) → Type 0
  Operands left xs = Wf left × All Wf xs × (length xs ≡ 0 ⊎ 2 ≤ length xs)

  disjunction-Wf :
      (left : Node F) (xs : List (Node F)) → Operands left xs → Wf (disjunction left xs)
  unfolding disjunction Wf Operands
  disjunction-Wf left [] h = h.0
  disjunction-Wf left (x ∷ xs) h =
      (omega (arith, count-nodes (x ∷ xs), h.2), nodes-WfAll (x ∷ xs) h.1)

  add_child-Operands :
      (left : Node F) (xs : List (Node F)) (right : Node F)
      → Operands left xs
      → Wf right
      → Operands left (add_child left xs right)
  unfolding add_child Operands
  add_child-Operands left [] right h w = (h.0, (h.0, (w, tt)), inr (omega arith))
  add_child-Operands left (x ∷ xs) right h w = (
    h.0,
    All-append Wf (x ∷ xs) (right ∷ []) h.1 (w, tt),
    inr (omega (arith, h.2, length-append xs (right ∷ []))),
  )

  -- `more` answers well with children of this kind on fewer than `size` tokens, all of which it
  -- may leave.
  abbrev pub Continues :
      ℕ
      → ℕ
      → (List (Node F) → Type 0)
      → (List (Node F) → List Token → Result (Node F × List Token))
      → Type 0
  Continues bound size P more =
      (xs : List (Node F)) (ts : List Token)
      → P xs
      → Ended bound ts
      → length ts < size
      → Good bound (suc (length ts)) (more xs ts)

  abbrev pub Factors : List (Node F) → Type 0
  Factors xs = (0 < length xs) × All Wf xs

module _ {F : Type 0} (parse_float : Text → Option F) (is_finite : F → Bool) where
  pub and_round-Good :
      (bound : ℕ) (unary : List Token → Result (Node F × List Token))
      (more : List (Node F) → List Token → Result (Node F × List Token)) (xs : List (Node F))
      (t : Token) (ts : List Token)
      → Parses bound (suc (suc (length ts))) unary
      → Continues bound (suc (length ts)) Factors more
      → Factors xs
      → Ended bound (t ∷ ts)
      → Good bound (suc (suc (length ts))) (and_round parse_float is_finite unary more xs t ts)
  unfolding and_round Good kind_eq
  and_round-Good bound unary more xs t ts hu hm w e =
      let n = suc (suc (length ts)) in
      let next : (us : List Token)
          → Ended bound us
          → length us < n
          → Good bound n (unary us >>= (λ (child, vs). more (xs ++ child ∷ []) vs)) =
        λ us e' l. Good-bind bound (length us) n (unary us) _ (hu us e' l) (λ child vs wc ev lv.
          Good-weaken bound (suc (length vs)) n (more (xs ++ child ∷ []) vs) (omega arith) (
            hm (xs ++ child ∷ []) vs
              (
                omega (arith, length-append xs (child ∷ [])),
                All-append Wf xs (child ∷ []) w.1 (wc, tt),
              )
              ev (omega arith))) in
      elim_split (Good bound n)
        (kind_eq t.kind token_eof || (kind_eq t.kind token_rparen || keyword t (codes "OR")))
        {x = ok (conjunction xs, t ∷ ts)} (λ _. (conjunction-Wf xs w.0 w.1, e, omega arith))
        (λ _.
          elim_split (Good bound n) (keyword t (codes "AND"))
            (λ k.
              let e' = Ended-tail bound t ts (keyword-no_eof t (codes "AND") k) e in
              peek-Good bound n ts _ e' (λ u at.
                elim_split (Good bound n) (kind_eq u.kind token_eof || kind_eq u.kind token_rparen)
                  {x = err nothing_after_and u.pos} (λ _. at) (λ _. next ts e' (omega arith))))
            (λ _. next (t ∷ ts) e (omega arith)))

  pub or_round-Good :
      (bound : ℕ) (and : List Token → Result (Node F × List Token))
      (more : List (Node F) → List Token → Result (Node F × List Token)) (left : Node F)
      (xs : List (Node F)) (t : Token) (ts : List Token)
      → Parses bound (suc (length ts)) and
      → Continues bound (length ts) (Operands left) more
      → Operands left xs
      → Ended bound (t ∷ ts)
      → Good bound (suc (suc (length ts))) (or_round parse_float is_finite and more left xs t ts)
  unfolding or_round Good kind_eq
  or_round-Good bound and more left xs t ts ha hm w e =
      let n = suc (suc (length ts)) in
      elim_split (Good bound n) (keyword t (codes "OR"))
        (λ k.
          let e' = Ended-tail bound t ts (keyword-no_eof t (codes "OR") k) e in
          Good-bind bound (length ts) n (and ts) _ (ha ts e' (omega arith)) (λ right us wr eu lu.
            Good-weaken bound (suc (length us)) n (more (add_child left xs right) us) (omega arith)
              (hm (add_child left xs right) us (add_child-Operands left xs right w wr) eu
                (omega arith))))
        (λ _. (disjunction-Wf left xs w, e, omega arith))
