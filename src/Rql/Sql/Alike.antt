-- ===== src/Rql/Sql/Alike.antt =====
-- The text that `ToSQL` of internal/rql/sql.go writes does not depend on the values of a query.
use rtail.Base.{◌≡◌, refl, sym, ap, Bool, Option, none, some, List, [], ◌∷◌, ◌++◌, arith, codes}
use rtail.Rql.Parse.{op_eq}
use rtail.Rql.Syntax.{
  Text, Op, Literal, Node, Nodes, equals, contains, matches, exists, string, number, bool, null,
  wildcard, comparison, full_text, all_of, any_of, negation, nil, cons,
}
use rtail.Rql.Values.{
  Library, str_of, is_null_literal, timestamp, CompileError, bad_pattern, Compiled, fine, fails,
  ◌>>=◌,
}
use rtail.Rql.Values.{if_both, fine_inj}
use rtail.Rql.Sql.{
  FieldKind, field_string, field_number, field_bool, field_json, field_severity, field_timestamp,
  Resolver, text_arg, time_arg, operator, cast_text, Args, Emitted, join_texts, bound, compile_text,
  compile_ordered, compile_resolved, compile_comparison, compile, compile_parts, to_sql,
}
use rtail.Base.{Bool-cases, inl, inr, Option-cases}

module _ {F : Type 0} where
  -- Literals of the same kind
  pub data SameKind : Literal F → Literal F → Type 0 where
    both_string : (q q' : Bool) (t t' : Text) → SameKind (string q t) (string q' t')
    both_number : (x x' : F) (t t' : Text) → SameKind (number x t) (number x' t')
    both_bool : (b b' : Bool) (t t' : Text) → SameKind (bool b t) (bool b' t')
    both_null : (t t' : Text) → SameKind (null t) (null t')
    both_wildcard : SameKind wildcard wildcard

  -- Queries that differ in their values only
  mutual
    pub data Alike : Node F → Node F → Type 0 where
      same_comparison :
          (field : Text) (op : Op) (l l' : Literal F)
          → SameKind l l'
          → Alike (comparison field op l) (comparison field op l')
      same_text : (value value' : Text) → Alike (full_text value) (full_text value')
      same_all : (ns ns' : Nodes F) → AlikeAll ns ns' → Alike (all_of ns) (all_of ns')
      same_any : (ns ns' : Nodes F) → AlikeAll ns ns' → Alike (any_of ns) (any_of ns')
      same_negation : (n n' : Node F) → Alike n n' → Alike (negation n) (negation n')

    pub data AlikeAll : Nodes F → Nodes F → Type 0 where
      same_nil : AlikeAll nil nil
      same_cons :
          (n n' : Node F) (ns ns' : Nodes F)
          → Alike n n'
          → AlikeAll ns ns'
          → AlikeAll (cons n ns) (cons n' ns')

module _ {F T : Type 0} where
  -- If both succeed, they write the same.
  unfoldable pub SameText :
      {A : Type 0} → Compiled (A × Args F T) → Compiled (A × Args F T) → Type 0
  SameText (fine r) (fine r') = r.0 ≡ r'.0
  SameText _ _ = Unit

  texts_of :
      (x y : Compiled (Emitted F T)) (r r' : Emitted F T)
      → SameText x y
      → x ≡ fine r
      → y ≡ fine r'
      → r.0 ≡ r'.0
  unfolding SameText
  texts_of (fine a) (fine b) r r' h e e' = cc (h, fine_inj a r e, fine_inj b r' e')
  texts_of (fine a) (fails f) r r' h e e' = absurd (ground (arith, e'))
  texts_of (fails f) y r r' h e e' = absurd (ground (arith, e))

  SameText-then :
      {A : Type 0} (g : A → Text) (x y : Compiled (A × Args F T))
      → SameText x y
      → SameText (x >>= λ r. fine (g r.0, r.1)) (y >>= λ r. fine (g r.0, r.1))
  unfolding SameText
  SameText-then g (fine r) (fine r') h = ap g h
  SameText-then g (fine r) (fails e) h = tt
  SameText-then g (fails e) (fine r') h = tt
  SameText-then g (fails e) (fails e') h = tt

  SameText-cons :
      (t t' : Text) (xs ys : Compiled (List Text × Args F T))
      → t ≡ t'
      → SameText xs ys
      → SameText (xs >>= λ rs. fine (t ∷ rs.0, rs.1)) (ys >>= λ rs. fine (t' ∷ rs.0, rs.1))
  unfolding SameText
  SameText-cons t t' (fine rs) (fine rs') e h = cc (e, h)
  SameText-cons t t' (fine rs) (fails e') e h = tt
  SameText-cons t t' (fails e') (fine rs) e h = tt
  SameText-cons t t' (fails e') (fails e'') e h = tt

  SameText-fails :
      {A : Type 0} (x : Compiled (A × Args F T)) (e : CompileError) → SameText x (fails e)
  unfolding SameText
  SameText-fails (fine r) e = tt
  SameText-fails (fails e') e = tt

  SameText-parts :
      (x y : Compiled (Emitted F T)) (xs ys : Args F T → Compiled (List Text × Args F T))
      → SameText x y
      → ((a a' : Args F T) → SameText (xs a) (ys a'))
      → SameText
          (x >>= λ r. xs r.1 >>= λ rs. fine (r.0 ∷ rs.0, rs.1))
          (y >>= λ r. ys r.1 >>= λ rs. fine (r.0 ∷ rs.0, rs.1))
  unfolding SameText
  SameText-parts (fine r) (fine r') xs ys h hs =
      SameText-cons r.0 r'.0 (xs r.1) (ys r'.1) h (hs r.1 r'.1)
  SameText-parts (fine r) (fails e) xs ys h hs =
      SameText-fails (xs r.1 >>= λ rs. fine (r.0 ∷ rs.0, rs.1)) e
  SameText-parts (fails e) y xs ys h hs = tt

module _ {F T : Type 0} where
  texts_same :
      (value value' : Text) (args args' : Args F T)
      → SameText (fine (compile_text value args)) (fine (compile_text value' args'))
  unfolding SameText compile_text
  texts_same value value' args args' = refl

  nil_same : (args args' : Args F T) → SameText {A = List Text} (fine ([], args)) (fine ([], args'))
  unfolding SameText
  nil_same args args' = refl

module _ {F T : Type 0} (lib : Library F T) where
  SameText-time :
      (before : Text) (at at' : Compiled T) (args args' : Args F T)
      → SameText
          (at >>= λ t. fine (bound before (codes ")") (time_arg t) args))
          (at' >>= λ t. fine (bound before (codes ")") (time_arg t) args'))
  unfolding SameText bound
  SameText-time before (fine t) (fine t') args args' = refl
  SameText-time before (fine t) (fails e) args args' = tt
  SameText-time before (fails e) (fine t) args args' = tt
  SameText-time before (fails e) (fails e') args args' = tt

  ordered-SameText :
      (e : Text) (kind : FieldKind) (op : Op) (l l' : Literal F) (args args' : Args F T)
      → SameKind l l'
      → SameText (compile_ordered lib e kind op l args) (compile_ordered lib e kind op l' args')
  unfolding compile_ordered SameText bound
  ordered-SameText e field_severity op l l' args args' h = elim (Bool-cases (op_eq op equals)) [
    | inl same ↦ rw same refl
    | inr other ↦ rw other refl
  ]
  ordered-SameText e field_timestamp op l l' args args' h =
      SameText-time (codes "(" ++ e ++ codes " " ++ operator op ++ codes " ") (timestamp lib l)
        (timestamp lib l') args args'
  ordered-SameText e field_number op _ _ args args' (both_string q q' t t') = refl
  ordered-SameText e field_number op _ _ args args' (both_number x x' t t') = refl
  ordered-SameText e field_number op _ _ args args' (both_bool b b' t t') = refl
  ordered-SameText e field_number op _ _ args args' (both_null t t') = refl
  ordered-SameText e field_number op _ _ args args' both_wildcard = refl
  ordered-SameText e field_bool op _ _ args args' (both_string q q' t t') = refl
  ordered-SameText e field_bool op _ _ args args' (both_number x x' t t') = refl
  ordered-SameText e field_bool op _ _ args args' (both_bool b b' t t') = refl
  ordered-SameText e field_bool op _ _ args args' (both_null t t') = refl
  ordered-SameText e field_bool op _ _ args args' both_wildcard = refl
  ordered-SameText e field_string op _ _ args args' (both_string q q' t t') = refl
  ordered-SameText e field_string op _ _ args args' (both_number x x' t t') = refl
  ordered-SameText e field_string op _ _ args args' (both_bool b b' t t') = refl
  ordered-SameText e field_string op _ _ args args' (both_null t t') = refl
  ordered-SameText e field_string op _ _ args args' both_wildcard = refl
  ordered-SameText e field_json op _ _ args args' (both_string q q' t t') = refl
  ordered-SameText e field_json op _ _ args args' (both_number x x' t t') = refl
  ordered-SameText e field_json op _ _ args args' (both_bool b b' t t') = refl
  ordered-SameText e field_json op _ _ args args' (both_null t t') = refl
  ordered-SameText e field_json op _ _ args args' both_wildcard = refl

  null-SameKind : (l l' : Literal F) → SameKind l l' → is_null_literal l ≡ is_null_literal l'
  unfolding is_null_literal
  null-SameKind _ _ (both_string q q' t t') = refl
  null-SameKind _ _ (both_number x x' t t') = refl
  null-SameKind _ _ (both_bool b b' t t') = refl
  null-SameKind _ _ (both_null t t') = refl
  null-SameKind _ _ both_wildcard = refl

  pattern-SameText :
      (before : Text) (o o' : Option (Text → Bool)) (l l' : Literal F) (args args' : Args F T)
      → SameText
          (elim o as (λ x. Compiled (Emitted F T)) [
            | none ↦ fails (bad_pattern (str_of l))
            | some pattern ↦ fine (bound before (codes ")") (text_arg (str_of l)) args)
          ])
          (elim o' as (λ x. Compiled (Emitted F T)) [
            | none ↦ fails (bad_pattern (str_of l'))
            | some pattern ↦ fine (bound before (codes ")") (text_arg (str_of l')) args')
          ])
  unfolding SameText bound
  pattern-SameText before (some p) (some p') l l' args args' = refl
  pattern-SameText before (some p) none l l' args args' = tt
  pattern-SameText before none (some p') l l' args args' = tt
  pattern-SameText before none none l l' args args' = tt

  resolved-SameText :
      (e : Text) (kind : FieldKind) (op : Op) (l l' : Literal F) (args args' : Args F T)
      → SameKind l l'
      → SameText (compile_resolved lib e kind op l args) (compile_resolved lib e kind op l' args')
  unfolding compile_resolved
  resolved-SameText e kind op l l' args args' h =
      let R : Compiled (Emitted F T) → Compiled (Emitted F T) → Type 0 = SameText in
      rw (sym (null-SameKind l l' h)) (
        if_both R (op_eq op exists) (λ _. unfold SameText in refl)
          (λ _.
            if_both R (is_null_literal l)
              (λ _.
                if_both R (op_eq op equals) (λ _. unfold SameText in refl)
                  (λ _. unfold SameText in tt))
              (λ _.
                if_both R (op_eq op contains) (λ _. unfold SameText in unfold bound in refl)
                  (λ _.
                    if_both R (op_eq op matches)
                      (λ _.
                        pattern-SameText (codes "regexp_matches(" ++ cast_text e kind ++ codes ", ")
                          _ _ l l' args args')
                      (λ _. ordered-SameText e kind op l l' args args' h)))))

  module _ (resolve : Resolver) where
    comparison-SameText :
        (field : Text) (op : Op) (l l' : Literal F) (args args' : Args F T)
        → SameKind l l'
        → SameText
            (compile_comparison lib resolve field op l args)
            (compile_comparison lib resolve field op l' args')
    unfolding compile_comparison
    comparison-SameText field op l l' args args' h = elim (Option-cases (resolve field)) [
      | inl missing ↦ rw (missing, compile_comparison) (unfold SameText in refl)
      | inr ((e, kind), found) ↦
          rw (found, compile_comparison) (resolved-SameText e kind op l l' args args' h)
    ]

    mutual
      unfolding compile compile_text

      pub compile-SameText :
          (n n' : Node F) (args args' : Args F T)
          → Alike n n'
          → SameText (compile lib resolve n args) (compile lib resolve n' args')
      compile-SameText _ _ args args' (same_comparison field op l l' h) =
          comparison-SameText field op l l' args args' h
      compile-SameText _ _ args args' (same_text value value') = texts_same value value' args args'
      compile-SameText _ _ args args' (same_all ns ns' h) =
          SameText-then (λ ts. codes "(" ++ join_texts (codes " AND ") ts ++ codes ")")
            (compile_parts lib resolve ns args) (compile_parts lib resolve ns' args')
            (compile_parts-SameText ns ns' args args' h)
      compile-SameText _ _ args args' (same_any ns ns' h) =
          SameText-then (λ ts. codes "(" ++ join_texts (codes " OR ") ts ++ codes ")")
            (compile_parts lib resolve ns args) (compile_parts lib resolve ns' args')
            (compile_parts-SameText ns ns' args args' h)
      compile-SameText _ _ args args' (same_negation n n' h) =
          SameText-then (λ t. codes "NOT coalesce(" ++ t ++ codes ", FALSE)")
            (compile lib resolve n args) (compile lib resolve n' args')
            (compile-SameText n n' args args' h)

      compile_parts-SameText :
          (ns ns' : Nodes F) (args args' : Args F T)
          → AlikeAll ns ns'
          → SameText (compile_parts lib resolve ns args) (compile_parts lib resolve ns' args')
      compile_parts-SameText _ _ args args' same_nil = nil_same args args'
      compile_parts-SameText _ _ args args' (same_cons n n' ns ns' h hs) =
          SameText-parts (compile lib resolve n args) (compile lib resolve n' args')
            (compile_parts lib resolve ns) (compile_parts lib resolve ns')
            (compile-SameText n n' args args' h) (λ a a'. compile_parts-SameText ns ns' a a' hs)

    -- Two queries that have the same shape, fields, operators and kinds of value, and differ in
    -- their values only, have the same SQL text where both compile: no value is written into it.
    pub to_sql-Alike :
        (n n' : Node F) (text text' : Text) (args args' : Args F T)
        → Alike n n'
        → to_sql lib resolve (some n) ≡ fine (text, args)
        → to_sql lib resolve (some n') ≡ fine (text', args')
        → text ≡ text'
    unfolding to_sql
    to_sql-Alike n n' text text' args args' h e e' =
        texts_of (compile lib resolve n []) (compile lib resolve n' []) (text, args) (text', args')
          (compile-SameText n n' [] [] h) e e'
