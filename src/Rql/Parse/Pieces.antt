-- ===== src/Rql/Parse/Pieces.antt =====
-- The pieces of the parser of internal/rql/parse.go, each on the assumption that the functions it
-- calls answer well.
use rtail.Base.{
  ℕ, suc, ◌≤◌, ◌<◌, ◌≡◌, refl, Bool, not, ◌&&◌, ◌||◌, Option, none, some, List, [], ◌∷◌, arith,
  if_split, elim_split, length, drop, codes, bytes_eq,
}
use rtail.Rql.Syntax.{
  Text, Op, Node, TokenKind, kind_eq, Token, Result, equals, token_word, token_string, token_lparen,
  token_rparen, token_eof, ok, err, stuck,
}
use rtail.Rql.Operator.{Split, split_operator}
use rtail.Rql.Parse.{
  keyword, peek, to_lower, contains_x, op_eq, number_of, literal_of, missing_value, chunk_of,
  parse_chunk, close_paren, primary_of, negated, unary_of,
}
use rtail.Rql.Parse.Ended.{
  Ended, Ended-pos, Ended-tail, Ended-front, WildcardOk, Wf, Good, Good-bind, Parses, peek-Good,
  no_eof, keyword-no_eof,
}

module _ {F : Type 0} (parse_float : Text → Option F) (is_finite : F → Bool) where
  number_of-WildcardOk :
      (op : Op) (s : Text) (n : Option F) → WildcardOk op (number_of parse_float is_finite s n)
  unfolding number_of WildcardOk
  number_of-WildcardOk op s none = tt
  number_of-WildcardOk op s (some n) =
      if_split (WildcardOk op) (is_finite n && not (contains_x s)) (λ _. tt) (λ _. tt)

  literal_of-WildcardOk : (op : Op) (s : Text) → WildcardOk op (literal_of parse_float is_finite s)
  unfolding literal_of number_of WildcardOk
  literal_of-WildcardOk op s =
      let low = to_lower s in
      if_split (WildcardOk op) (bytes_eq low (codes "true")) (λ _. tt)
        (λ _.
          if_split (WildcardOk op) (bytes_eq low (codes "false")) (λ _. tt)
            (λ _.
              if_split (WildcardOk op) (bytes_eq low (codes "null") || bytes_eq low (codes "nil"))
                (λ _. tt) (λ _. number_of-WildcardOk op s (parse_float s))))

  missing_value-Good :
      (bound c : ℕ) (field : Text) (op : Op) (t : Token) (ts : List Token)
      → t.pos ≤ bound
      → Ended bound ts
      → Good bound (suc (length ts)) (missing_value parse_float is_finite (c ∷ field) op t ts)
  unfolding missing_value Good Wf WildcardOk Ended kind_eq
  missing_value-Good bound c field op t [] at e = e
  missing_value-Good bound c field op t (next ∷ ts) at e =
      if_split (Good bound (suc (length (next ∷ ts))))
        (kind_eq next.kind token_string && next.adjacent)
        (λ h. (
          (omega arith, tt),
          Ended-tail bound next ts (no_eof next.kind token_string (ground (arith, h)) refl) e,
          omega arith,
        ))
        (λ _. at)

  chunk_of-Good :
      (bound : ℕ) (t : Token) (ts : List Token) (s : Split)
      → t.pos ≤ bound
      → Ended bound ts
      → Good bound (suc (length ts)) (chunk_of parse_float is_finite t ts s)
  unfolding chunk_of Good Wf WildcardOk Ended
  chunk_of-Good bound t ts none at e = (tt, e, omega arith)
  chunk_of-Good bound t ts (some ([], op, rest)) at e = at
  chunk_of-Good bound t ts (some (c ∷ field, op, [])) at e =
      missing_value-Good bound c field op t ts at e
  chunk_of-Good bound t ts (some (c ∷ field, op, d ∷ rest)) at e =
      if_split (Good bound (suc (length ts))) (bytes_eq (d ∷ rest) (codes "*"))
        (λ _.
          if_split (Good bound (suc (length ts))) (op_eq op equals)
            (λ _. ((omega arith, refl), e, omega arith)) (λ _. at))
        (λ _. ((omega arith, literal_of-WildcardOk op (d ∷ rest)), e, omega arith))

  close_paren-Good :
      (bound size : ℕ) (node : Node F) (ts : List Token)
      → Wf node
      → Ended bound ts
      → length ts < size
      → Good bound size (close_paren parse_float is_finite (node, ts))
  unfolding close_paren Good kind_eq
  close_paren-Good bound size node [] w e h = e
  close_paren-Good bound size node (t ∷ ts) w e h =
      if_split (Good bound size) (kind_eq t.kind token_rparen)
        (λ k. (w, Ended-tail bound t ts (no_eof t.kind token_rparen k refl) e, omega arith))
        (λ _. Ended-pos bound t ts e)

  pub primary_of-Good :
      (bound : ℕ) (or : List Token → Result (Node F × List Token)) (t : Token) (ts : List Token)
      (k : TokenKind)
      → t.kind ≡ k
      → Parses bound (suc (length ts)) or
      → Ended bound (t ∷ ts)
      → Good bound (suc (length ts)) (primary_of parse_float is_finite or t ts k)
  unfolding primary_of Good kind_eq peek Wf parse_chunk
  primary_of-Good bound or t ts token_lparen k p e =
      let at = Ended-pos bound t ts e in
      let e' = Ended-tail bound t ts (rw k refl) e in
      peek-Good bound (suc (length ts)) ts _ e' (λ u _.
        elim_split (Good bound (suc (length ts))) (kind_eq u.kind token_rparen) (λ _. at)
          (λ _.
            Good-bind bound (length ts) (suc (length ts)) (or ts)
              (close_paren parse_float is_finite) (p ts e' (omega arith))
              (λ node us w e'' l.
                close_paren-Good bound (suc (length ts)) node us w e'' (omega arith))))
  primary_of-Good bound or t ts token_rparen k p e = Ended-pos bound t ts e
  primary_of-Good bound or t ts token_string k p e =
      (tt, Ended-tail bound t ts (rw k refl) e, omega arith)
  primary_of-Good bound or t ts token_eof k p e = Ended-pos bound t ts e
  primary_of-Good bound or t ts token_word k p e =
      chunk_of-Good bound t ts (split_operator t.text) (Ended-pos bound t ts e)
        (Ended-tail bound t ts (rw k refl) e)

  negated-Good :
      (bound a b : ℕ) (r : Result (Node F × List Token))
      → a ≤ b
      → Good bound a r
      → Good bound b (negated parse_float is_finite r)
  unfolding negated Good Wf
  negated-Good bound a b (ok (node, ts)) h (w, e, l) = (w, e, omega arith)
  negated-Good bound a b (err m p) h g = g
  negated-Good bound a b stuck h g = g

  pub unary_of-Good :
      (bound : ℕ) (unary primary : List Token → Result (Node F × List Token)) (t : Token)
      (ts : List Token)
      → Parses bound (suc (length ts)) unary
      → Parses bound (suc (suc (length ts))) primary
      → Ended bound (t ∷ ts)
      → Good bound (suc (length ts)) (unary_of parse_float is_finite unary primary t ts)
  unfolding unary_of Good kind_eq
  unary_of-Good bound unary primary t ts hu hp e =
      let n = suc (length ts) in
      let plain : Good bound n (primary (t ∷ ts)) = hp (t ∷ ts) e (omega arith) in
      elim_split (Good bound n) (keyword t (codes "NOT"))
        (λ k.
          let e' = Ended-tail bound t ts (keyword-no_eof t (codes "NOT") k) e in
          peek-Good bound n ts _ e' (λ u _.
            elim_split (Good bound n) (kind_eq u.kind token_eof) (λ _. Ended-pos bound t ts e)
              (λ _.
                negated-Good bound (length ts) n (unary ts) (omega arith)
                  (hu ts e' (omega arith)))))
        (λ _.
          elim_split (Good bound n) (keyword t (codes "-"))
            (λ k.
              let e' = Ended-tail bound t ts (keyword-no_eof t (codes "-") k) e in
              peek-Good bound n ts _ e' (λ u _.
                elim_split (Good bound n) _
                  (λ _.
                    negated-Good bound (length ts) n (primary ts) (omega arith)
                      (hp ts e' (omega arith)))
                  (λ _. plain)))
            (λ _.
              elim_split (Good bound n) _
                (λ _.
                  let t' : Token = record t { text = drop 1 t.text } in
                  negated-Good bound n n (primary (t' ∷ ts)) (omega arith)
                    (hp (t' ∷ ts) (Ended-front bound t t' ts refl refl e) (omega arith)))
                (λ _. plain)))
