-- ===== src/Rql/Sql/Plan.antt =====
-- The conditions that `ToSQL` of internal/rql/sql.go writes, as a tree in front of their text.
use rtail.Base.{ℕ, ◌≡◌, refl, Bool, none, some, List, [], ◌∷◌, ◌++◌, if◌then◌else◌, codes}
use rtail.Rql.Syntax.{
  Text, Op, Literal, Node, Nodes, equals, contains, matches, exists, string, number, bool, null,
  wildcard, comparison, full_text, all_of, any_of, negation, nil, cons,
}
use rtail.Rql.Parse.{op_eq}
use rtail.Rql.Values.{
  Library, str_of, is_null_literal, if_both, rank, level_of, timestamp, null_needs_equals,
  bad_pattern, Compiled, fine, fails, ◌>>=◌, map_fine, bind-map_fine,
}
use rtail.Rql.Sql.{
  FieldKind, field_string, field_number, field_bool, field_json, field_severity, field_timestamp,
  Resolver, Arg, text_arg, float_arg, bool_arg, int_arg, time_arg, operator, severity_case,
  cast_text, like_pattern, Args, Emitted, join_texts, bound, compile_text, compile_ordered,
  compile_resolved, compile_comparison, compile, compile_parts,
}
use rtail.Base.{Bool-cases, Option-cases, inl, inr}

mutual
  pub data Condition (F T : Type 0) : Type 0 where
    sql_false : Condition F T
    text_match : Text → Condition F T
    is_null is_not_null : Text → Condition F T
    part_match pattern_match : Text → FieldKind → Text → Condition F T
    level_is : Text → Text → Condition F T
    level_order : Text → Op → ℕ → Condition F T
    number_order cast_order : Text → Op → F → Condition F T
    bool_order : Text → Op → Bool → Condition F T
    time_order : Text → Op → T → Condition F T
    text_order : Text → Op → Text → Condition F T
    and_all or_all : Conditions F T → Condition F T
    not_true : Condition F T → Condition F T

  pub data Conditions (F T : Type 0) : Type 0 where
    none_of : Conditions F T
    one_more : Condition F T → Conditions F T → Conditions F T

-- `(a ? b)`, for an operator between
unfoldable pub ordering : {F T : Type 0} → Text → Op → Arg F T → Args F T → Emitted F T
unfolding bound operator
ordering a op value args =
    bound (codes "(" ++ a ++ codes " " ++ operator op ++ codes " ") (codes ")") value args

module _ {F T : Type 0} where
  unfoldable mutual
    unfolding ordering bound compile_text severity_case cast_text like_pattern join_texts

    pub render : Condition F T → Args F T → Emitted F T
    render sql_false args = (codes "FALSE", args)
    render (text_match value) args = compile_text value args
    render (is_null e) args = (codes "(" ++ e ++ codes " IS NULL)", args)
    render (is_not_null e) args = (codes "(" ++ e ++ codes " IS NOT NULL)", args)
    render (part_match e kind value) args =
        bound (codes "(" ++ cast_text e kind ++ codes " ILIKE ") (codes " ESCAPE '\\')")
          (text_arg (like_pattern value)) args
    render (pattern_match e kind value) args =
        bound (codes "regexp_matches(" ++ cast_text e kind ++ codes ", ") (codes ")")
          (text_arg value) args
    render (level_is e level) args =
        bound (codes "(" ++ e ++ codes " = ") (codes ")") (text_arg level) args
    render (level_order e op r) args = ordering (severity_case e) op (int_arg r) args
    render (number_order e op x) args = ordering e op (float_arg x) args
    render (cast_order e op x) args =
        bound (codes "(try_cast(" ++ e ++ codes " AS DOUBLE) " ++ operator op ++ codes " ")
          (codes ")") (float_arg x) args
    render (bool_order e op b) args = ordering e op (bool_arg b) args
    render (time_order e op at) args = ordering e op (time_arg at) args
    render (text_order e op t) args = ordering e op (text_arg t) args
    render (and_all cs) args =
        let (parts, args') = render_parts cs args in
        (codes "(" ++ join_texts (codes " AND ") parts ++ codes ")", args')
    render (or_all cs) args =
        let (parts, args') = render_parts cs args in
        (codes "(" ++ join_texts (codes " OR ") parts ++ codes ")", args')
    render (not_true c) args =
        let (inner, args') = render c args in
        (codes "NOT coalesce(" ++ inner ++ codes ", FALSE)", args')

    pub render_parts : Conditions F T → Args F T → List Text × Args F T
    render_parts none_of args = ([], args)
    render_parts (one_more c cs) args =
        let (part, args') = render c args in
        let (parts, args'') = render_parts cs args' in (part ∷ parts, args'')

module _ {F T : Type 0} (lib : Library F T) where
  unfoldable pub plan_ordered : Text → FieldKind → Op → Literal F → Compiled (Condition F T)
  plan_ordered e field_severity op literal =
      let level = level_of lib literal in
      fine (if op_eq op equals then level_is e level else level_order e op (rank lib level))
  plan_ordered e field_number op (number x t) = fine (number_order e op x)
  plan_ordered e field_number op literal = fine sql_false
  plan_ordered e field_bool op (bool b t) = fine (bool_order e op b)
  plan_ordered e field_bool op literal = fine sql_false
  plan_ordered e field_timestamp op literal =
      timestamp lib literal >>= λ at. fine (time_order e op at)
  plan_ordered e kind op (number x t) = fine (cast_order e op x)
  plan_ordered e kind op literal = fine (text_order e op (str_of literal))

  unfoldable pub plan_resolved : Text → FieldKind → Op → Literal F → Compiled (Condition F T)
  unfolding plan_ordered
  plan_resolved e kind op literal =
      if op_eq op exists
      then fine (is_not_null e)
      else if is_null_literal literal
      then (if op_eq op equals then fine (is_null e) else fails null_needs_equals)
      else if op_eq op contains
      then fine (part_match e kind (str_of literal))
      else if op_eq op matches
      then elim (lib.compile_pattern (str_of literal)) [
        | none ↦ fails (bad_pattern (str_of literal))
        | some pattern ↦ fine (pattern_match e kind (str_of literal))
      ]
      else plan_ordered e kind op literal

  abbrev pub written : Args F T → Compiled (Condition F T) → Compiled (Emitted F T)
  written args c = map_fine (λ c'. render c' args) c

  written_time :
      (e : Text) (op : Op) (args : Args F T) (at : Compiled T)
      → (at >>= λ t. fine (ordering e op (time_arg t) args))
        ≡ written args (at >>= λ t. fine (time_order e op t))
  unfolding render
  written_time e op args (fine t) = refl
  written_time e op args (fails err) = refl

  compile_ordered-plan_ordered :
      (e : Text) (kind : FieldKind) (op : Op) (literal : Literal F) (args : Args F T)
      → compile_ordered lib e kind op literal args ≡ written args (plan_ordered e kind op literal)
  unfolding compile_ordered plan_ordered render ordering
  compile_ordered-plan_ordered e field_severity op literal args =
      elim (Bool-cases (op_eq op equals)) [ inl equal ↦ rw equal refl | inr other ↦ rw other refl ]
  compile_ordered-plan_ordered e field_number op (string q t) args = refl
  compile_ordered-plan_ordered e field_number op (number x t) args = refl
  compile_ordered-plan_ordered e field_number op (bool b t) args = refl
  compile_ordered-plan_ordered e field_number op (null t) args = refl
  compile_ordered-plan_ordered e field_number op wildcard args = refl
  compile_ordered-plan_ordered e field_bool op (string q t) args = refl
  compile_ordered-plan_ordered e field_bool op (number x t) args = refl
  compile_ordered-plan_ordered e field_bool op (bool b t) args = refl
  compile_ordered-plan_ordered e field_bool op (null t) args = refl
  compile_ordered-plan_ordered e field_bool op wildcard args = refl
  compile_ordered-plan_ordered e field_timestamp op literal args =
      written_time e op args (timestamp lib literal)
  compile_ordered-plan_ordered e field_string op (string q t) args = refl
  compile_ordered-plan_ordered e field_string op (number x t) args = refl
  compile_ordered-plan_ordered e field_string op (bool b t) args = refl
  compile_ordered-plan_ordered e field_string op (null t) args = refl
  compile_ordered-plan_ordered e field_string op wildcard args = refl
  compile_ordered-plan_ordered e field_json op (string q t) args = refl
  compile_ordered-plan_ordered e field_json op (number x t) args = refl
  compile_ordered-plan_ordered e field_json op (bool b t) args = refl
  compile_ordered-plan_ordered e field_json op (null t) args = refl
  compile_ordered-plan_ordered e field_json op wildcard args = refl

  compile_matches :
      (e : Text) (kind : FieldKind) (literal : Literal F) (args : Args F T)
      → elim (lib.compile_pattern (str_of literal)) as (λ o. Compiled (Emitted F T)) [
        | none ↦ fails (bad_pattern (str_of literal))
        | some pattern ↦ fine (
            bound
              (codes "regexp_matches(" ++ cast_text e kind ++ codes ", ")
              (codes ")")
              (text_arg (str_of literal))
              args)
      ]
        ≡ written args
            (elim (lib.compile_pattern (str_of literal)) as (λ o. Compiled (Condition F T)) [
              | none ↦ fails (bad_pattern (str_of literal))
              | some pattern ↦ fine (pattern_match e kind (str_of literal))
            ])
  unfolding render
  compile_matches e kind literal args = elim (Option-cases (lib.compile_pattern (str_of literal))) [
    | inl missing ↦ rw missing refl
    | inr (pattern, found) ↦ rw found refl
  ]

  compile_resolved-plan_resolved :
      (e : Text) (kind : FieldKind) (op : Op) (literal : Literal F) (args : Args F T)
      → compile_resolved lib e kind op literal args ≡ written args (plan_resolved e kind op literal)
  unfolding compile_resolved plan_resolved render
  compile_resolved-plan_resolved e kind op literal args =
      let R : Compiled (Emitted F T) → Compiled (Condition F T) → Type 0 =
        λ x c. x ≡ written args c in
      if_both R (op_eq op exists) (λ _. refl)
        (λ _.
          if_both R (is_null_literal literal)
            (λ _. if_both R (op_eq op equals) (λ _. refl) (λ _. refl))
            (λ _.
              if_both R (op_eq op contains) (λ _. refl)
                (λ _.
                  if_both R (op_eq op matches) (λ _. compile_matches e kind literal args)
                    (λ _. compile_ordered-plan_ordered e kind op literal args))))

  module _ (resolve : Resolver) where
    unfoldable pub plan_comparison : Text → Op → Literal F → Compiled (Condition F T)
    unfolding plan_resolved
    plan_comparison field op literal = elim (resolve field) [
      | none ↦ fine sql_false
      | some (e, kind) ↦ plan_resolved e kind op literal
    ]

    unfoldable mutual
      unfolding plan_comparison

      pub plan : Node F → Compiled (Condition F T)
      plan (comparison field op literal) = plan_comparison field op literal
      plan (full_text value) = fine (text_match value)
      plan (all_of ns) = plan_parts ns >>= λ cs. fine (and_all cs)
      plan (any_of ns) = plan_parts ns >>= λ cs. fine (or_all cs)
      plan (negation n) = plan n >>= λ c. fine (not_true c)

      pub plan_parts : Nodes F → Compiled (Conditions F T)
      plan_parts nil = fine none_of
      plan_parts (cons n ns) =
          let rest = plan_parts ns in plan n >>= λ c. rest >>= λ cs. fine (one_more c cs)

    compile_comparison-plan_comparison :
        (field : Text) (op : Op) (literal : Literal F) (args : Args F T)
        → compile_comparison lib resolve field op literal args
          ≡ written args (plan_comparison field op literal)
    unfolding compile_comparison plan_comparison render
    compile_comparison-plan_comparison field op literal args = elim (Option-cases (resolve field)) [
      | inl missing ↦ rw (missing, compile_comparison, plan_comparison) refl
      | inr ((e, kind), found) ↦
          rw (found, compile_comparison, plan_comparison)
            (compile_resolved-plan_resolved e kind op literal args)
    ]

    -- What `ToSQL` writes is the text of a condition.
    mutual
      unfolding compile plan render

      pub compile-plan :
          (n : Node F) (args : Args F T) → compile lib resolve n args ≡ written args (plan n)
      compile-plan (comparison field op literal) args =
          compile_comparison-plan_comparison field op literal args
      compile-plan (full_text value) args = refl
      compile-plan (all_of ns) args =
          bind-map_fine (plan_parts ns) _ _ _ _ _ (compile_parts-plan_parts ns args) (λ cs. refl)
      compile-plan (any_of ns) args =
          bind-map_fine (plan_parts ns) _ _ _ _ _ (compile_parts-plan_parts ns args) (λ cs. refl)
      compile-plan (negation n) args =
          bind-map_fine (plan n) _ _ _ _ _ (compile-plan n args) (λ c. refl)

      pub compile_parts-plan_parts :
          (ns : Nodes F) (args : Args F T)
          → compile_parts lib resolve ns args
            ≡ map_fine (λ cs. render_parts cs args) (plan_parts ns)
      compile_parts-plan_parts nil args = refl
      compile_parts-plan_parts (cons n ns) args =
          bind-map_fine (plan n) _ _ _ _ _ (compile-plan n args) (λ c.
            bind-map_fine (plan_parts ns) _ _ _ _ _ (compile_parts-plan_parts ns (render c args).1)
              (λ cs. refl))
