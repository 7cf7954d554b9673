-- ===== src/Rql/Sql/Statement.antt =====
-- The fragment of DuckDB's SQL that internal/rql/sql.go writes: its syntax, with the text of each form
-- spelled out, and the form that each condition is.
use rtail.Base.{
  ℕ, ◌≡◌, refl, sym, ap, ◌∙◌, Option, none, some, List, [], ◌∷◌, ◌++◌, map, codes, append_assoc,
  append-nil,
}
use rtail.Rql.Syntax.{
  Text, Op, equals, contains, matches, less, less_equal, greater, greater_equal, exists,
}
use rtail.Rql.Values.{levels, default_severity_rank}
use rtail.Rql.Sql.{
  FieldKind, field_string, field_number, field_bool, field_json, field_severity, field_timestamp,
  Arg, text_arg, float_arg, bool_arg, int_arg, time_arg, operator, two_digits, rank_of, cast_text,
  like_pattern, Args, Emitted, join_texts, bound, compile_text,
}
use rtail.Rql.Sql.Plan.{
  Condition, Conditions, sql_false, text_match, is_null, is_not_null, part_match, pattern_match,
  level_is, level_order, number_order, cast_order, bool_order, time_order, text_order, and_all,
  or_all, not_true, none_of, one_more, ordering, render, render_parts,
}

pub data SqlOp : Type 0 where
  sql_equal sql_less sql_at_most sql_greater sql_at_least : SqlOp

-- A column, or its text
pub data TextExpr : Type 0 where
  bare cast_varchar : Text → TextExpr

mutual
  -- A comparison that has no operator is not SQL. In a CASE, the numerals stand as they are written.
  pub data Sql (F T : Type 0) : Type 0 where
    falsehood : Sql F T
    null_test not_null_test : Text → Sql F T
    ilike regexp : TextExpr → Text → Sql F T
    either_ilike : Text → Text → Text → Text → Sql F T
    compares : Text → Option SqlOp → Arg F T → Sql F T
    cast_compares : Text → Option SqlOp → F → Sql F T
    case_compares : Text → List (Text × Text) → Text → Option SqlOp → ℕ → Sql F T
    conjoined disjoined : Sqls F T → Sql F T
    not_coalesced : Sql F T → Sql F T

  pub data Sqls (F T : Type 0) : Type 0 where
    no_more : Sqls F T
    followed : Sql F T → Sqls F T → Sqls F T

unfoldable pub op_text : Option SqlOp → Text
op_text none = []
op_text (some sql_equal) = codes "="
op_text (some sql_less) = codes "<"
op_text (some sql_at_most) = codes "<="
op_text (some sql_greater) = codes ">"
op_text (some sql_at_least) = codes ">="

unfoldable pub expr_text : TextExpr → Text
expr_text (bare e) = e
expr_text (cast_varchar e) = codes "CAST(" ++ e ++ codes " AS VARCHAR)"

unfoldable pub whens_text : List (Text × Text) → Text
whens_text [] = []
whens_text ((name, numeral) ∷ whens) =
    codes " WHEN '" ++ name ++ codes "' THEN " ++ numeral ++ whens_text whens

unfoldable pub case_text : Text → List (Text × Text) → Text → Text
unfolding whens_text
case_text e whens default =
    codes "CASE WHEN nullif("
    ++ e
    ++ codes ", '') IS NULL THEN NULL ELSE CASE upper("
    ++ e
    ++ codes ")"
    ++ whens_text whens
    ++ codes " ELSE "
    ++ default
    ++ codes " END END"

-- What follows the first part
unfoldable pub after_first : Text → List Text → Text
after_first sep [] = []
after_first sep (t ∷ ts) = sep ++ (t ++ after_first sep ts)

unfoldable pub separated : Text → List Text → Text
unfolding after_first
separated sep [] = []
separated sep (t ∷ ts) = t ++ after_first sep ts

module _ {F T : Type 0} where
  -- The text, and the arguments after those bound before
  unfoldable mutual
    unfolding op_text expr_text case_text separated

    pub print : Sql F T → Args F T → Emitted F T
    print falsehood args = (codes "FALSE", args)
    print (null_test e) args = (codes "(" ++ e ++ codes " IS NULL)", args)
    print (not_null_test e) args = (codes "(" ++ e ++ codes " IS NOT NULL)", args)
    print (ilike x pattern) args = (
      codes "(" ++ expr_text x ++ codes " ILIKE " ++ codes "?" ++ codes " ESCAPE '\\')",
      args ++ text_arg pattern ∷ [],
    )
    print (regexp x pattern) args = (
      codes "regexp_matches(" ++ expr_text x ++ codes ", " ++ codes "?" ++ codes ")",
      args ++ text_arg pattern ∷ [],
    )
    print (either_ilike e p e' p') args = (
      codes "(" ++ e ++ codes " ILIKE ? ESCAPE '\\' OR " ++ e' ++ codes " ILIKE ? ESCAPE '\\')",
      (args ++ text_arg p ∷ []) ++ text_arg p' ∷ [],
    )
    print (compares e o value) args = (
      codes "(" ++ e ++ codes " " ++ op_text o ++ codes " " ++ codes "?" ++ codes ")",
      args ++ value ∷ [],
    )
    print (cast_compares e o x) args = (
      codes "(try_cast("
          ++ e
          ++ codes " AS DOUBLE) "
          ++ op_text o
          ++ codes " "
          ++ codes "?"
          ++ codes ")",
      args ++ float_arg x ∷ [],
    )
    print (case_compares e whens default o r) args = (
      codes "("
          ++ case_text e whens default
          ++ codes " "
          ++ op_text o
          ++ codes " "
          ++ codes "?"
          ++ codes ")",
      args ++ int_arg r ∷ [],
    )
    print (conjoined ss) args =
        let (parts, args') = print_parts ss args in
        (codes "(" ++ separated (codes " AND ") parts ++ codes ")", args')
    print (disjoined ss) args =
        let (parts, args') = print_parts ss args in
        (codes "(" ++ separated (codes " OR ") parts ++ codes ")", args')
    print (not_coalesced s) args =
        let (inner, args') = print s args in
        (codes "NOT coalesce(" ++ inner ++ codes ", FALSE)", args')

    pub print_parts : Sqls F T → Args F T → List Text × Args F T
    print_parts no_more args = ([], args)
    print_parts (followed s ss) args =
        let (part, args') = print s args in
        let (parts, args'') = print_parts ss args' in (part ∷ parts, args'')

unfoldable pub sql_op : Op → Option SqlOp
sql_op equals = some sql_equal
sql_op less = some sql_less
sql_op less_equal = some sql_at_most
sql_op greater = some sql_greater
sql_op greater_equal = some sql_at_least
sql_op op = none

unfoldable pub expr_of : Text → FieldKind → TextExpr
expr_of e field_string = bare e
expr_of e kind = cast_varchar e

unfoldable pub level_whens : List (Text × Text)
unfolding levels rank_of two_digits
level_whens = map (λ level. (level, two_digits (rank_of level))) levels

unfoldable pub other_level : Text
unfolding default_severity_rank two_digits
other_level = two_digits default_severity_rank

module _ {F T : Type 0} where
  unfoldable mutual
    unfolding sql_op expr_of like_pattern

    pub sql_of : Condition F T → Sql F T
    sql_of sql_false = falsehood
    sql_of (text_match value) =
        either_ilike (codes "msg") (like_pattern value) (codes "raw") (like_pattern value)
    sql_of (is_null e) = null_test e
    sql_of (is_not_null e) = not_null_test e
    sql_of (part_match e kind value) = ilike (expr_of e kind) (like_pattern value)
    sql_of (pattern_match e kind value) = regexp (expr_of e kind) value
    sql_of (level_is e level) = compares e (some sql_equal) (text_arg level)
    sql_of (level_order e op r) = case_compares e level_whens other_level (sql_op op) r
    sql_of (number_order e op x) = compares e (sql_op op) (float_arg x)
    sql_of (cast_order e op x) = cast_compares e (sql_op op) x
    sql_of (bool_order e op b) = compares e (sql_op op) (bool_arg b)
    sql_of (time_order e op at) = compares e (sql_op op) (time_arg at)
    sql_of (text_order e op t) = compares e (sql_op op) (text_arg t)
    sql_of (and_all cs) = conjoined (sqls_of cs)
    sql_of (or_all cs) = disjoined (sqls_of cs)
    sql_of (not_true c) = not_coalesced (sql_of c)

    pub sqls_of : Conditions F T → Sqls F T
    sqls_of none_of = no_more
    sqls_of (one_more c cs) = followed (sql_of c) (sqls_of cs)

operator-op_text : (op : Op) → operator op ≡ op_text (sql_op op)
unfolding operator op_text sql_op
operator-op_text equals = refl
operator-op_text contains = refl
operator-op_text matches = refl
operator-op_text less = refl
operator-op_text less_equal = refl
operator-op_text greater = refl
operator-op_text greater_equal = refl
operator-op_text exists = refl

cast_text-expr_text : (e : Text) (kind : FieldKind) → cast_text e kind ≡ expr_text (expr_of e kind)
unfolding cast_text expr_text expr_of
cast_text-expr_text e field_string = refl
cast_text-expr_text e field_number = refl
cast_text-expr_text e field_bool = refl
cast_text-expr_text e field_json = refl
cast_text-expr_text e field_severity = refl
cast_text-expr_text e field_timestamp = refl

join_texts-separated : (sep : Text) (ts : List Text) → join_texts sep ts ≡ separated sep ts
unfolding join_texts separated
join_texts-separated sep [] = refl
join_texts-separated sep (t ∷ []) = sym (append-nil t)
join_texts-separated sep (t ∷ u ∷ ts) =
    append_assoc t sep (join_texts sep (u ∷ ts))
    ∙ ap (λ r. t ++ (sep ++ r)) (join_texts-separated sep (u ∷ ts))

level_order-print :
    {F T : Type 0} (e : Text) (op : Op) (r : ℕ) (args : Args F T)
    → render (level_order e op r) args ≡ print (sql_of (level_order e op r)) args
unfolding render print sql_of ordering bound case_text level_whens other_level
level_order-print e op r args = rw (operator-op_text op) refl

spaced : (e : Text) → e ++ codes " " ++ codes "=" ++ codes " " ≡ e ++ codes " = "
spaced e =
    append_assoc (e ++ codes " ") (codes "=") (codes " ") ∙ append_assoc e (codes " ") (codes "= ")

text_match-print :
    {F T : Type 0} (value : Text) (args : Args F T)
    → render (text_match value) args ≡ print (sql_of (text_match value)) args
unfolding render print sql_of compile_text
text_match-print value args = refl

module _ {F T : Type 0} where
  -- A condition has the text of its form.
  mutual
    unfolding render print sql_of ordering bound

    pub render-print : (c : Condition F T) (args : Args F T) → render c args ≡ print (sql_of c) args
    render-print sql_false args = refl
    render-print (text_match value) args = text_match-print value args
    render-print (is_null e) args = refl
    render-print (is_not_null e) args = refl
    render-print (part_match e kind value) args = rw (cast_text-expr_text e kind) refl
    render-print (pattern_match e kind value) args = rw (cast_text-expr_text e kind) refl
    render-print (level_is e level) args = rw (spaced e) refl
    render-print (level_order e op r) args = level_order-print e op r args
    render-print (number_order e op x) args = rw (operator-op_text op) refl
    render-print (cast_order e op x) args = rw (operator-op_text op) refl
    render-print (bool_order e op b) args = rw (operator-op_text op) refl
    render-print (time_order e op at) args = rw (operator-op_text op) refl
    render-print (text_order e op t) args = rw (operator-op_text op) refl
    render-print (and_all cs) args =
        rw
          (
            render_parts-print_parts cs args,
            join_texts-separated (codes " AND ") (print_parts (sqls_of cs) args).0,
          )
          refl
    render-print (or_all cs) args =
        rw
          (
            render_parts-print_parts cs args,
            join_texts-separated (codes " OR ") (print_parts (sqls_of cs) args).0,
          )
          refl
    render-print (not_true c) args = rw (render-print c args) refl

    render_parts-print_parts :
        (cs : Conditions F T) (args : Args F T)
        → render_parts cs args ≡ print_parts (sqls_of cs) args
    render_parts-print_parts none_of args = refl
    render_parts-print_parts (one_more c cs) args =
        rw (render-print c args, render_parts-print_parts cs (print (sql_of c) args).1) refl
