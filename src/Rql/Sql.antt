-- ===== src/Rql/Sql.antt =====
-- `ToSQL` of internal/rql/sql.go. The compiler's state, its arguments, is passed along.
pub mod Plan
pub mod Statement
pub mod Holes
pub mod Planned
pub mod Bindings
pub mod Alike
use rtail.Base.{
  ℕ, zero, suc, ◌+◌, ◌-◌, ◌/◌, ◌%◌, ◌<◌, ◌^◌, ◌≡◌, refl, sym, ap, ◌∙◌, Bool, true, false, not, ◌&&◌,
  ◌||◌, Option, none, some, List, [], ◌∷◌, ◌++◌, map, arith, ltb, leb, ◌==◌, if◌then◌else◌, codes,
  bytes_eq, lookup,
}
use rtail.Rql.Syntax.{
  Text, Op, Literal, Node, Nodes, equals, contains, matches, less, less_equal, greater,
  greater_equal, exists, string, number, bool, null, wildcard, comparison, full_text, all_of,
  any_of, negation, nil, cons,
}
use rtail.Rql.Parse.{op_eq}
use rtail.Rql.Values.{
  Library, str_of, is_null_literal, rank, severity_rank, levels, default_severity_rank, level_of,
  timestamp, CompileError, null_needs_equals, bad_pattern, not_a_timestamp, Compiled, fine, fails,
  ◌>>=◌,
}

pub data FieldKind : Type 0 where
  field_string field_number field_bool field_json field_severity field_timestamp : FieldKind

-- `Resolver`: `none` where it answers false
abbrev pub Resolver : Type 0
Resolver = Text → Option (Text × FieldKind)

pub data Arg (F T : Type 0) : Type 0 where
  text_arg : Text → Arg F T
  float_arg : F → Arg F T
  bool_arg : Bool → Arg F T
  int_arg : ℕ → Arg F T
  time_arg : T → Arg F T

-- The `operator` of `ordered`
unfoldable pub operator : Op → Text
operator equals = codes "="
operator less = codes "<"
operator less_equal = codes "<="
operator greater = codes ">"
operator greater_equal = codes ">="
operator op = []

-- `%d`, of a number below 100
unfoldable pub two_digits : ℕ → Text
two_digits n = (48 + n / 10 % 10) ∷ (48 + n % 10) ∷ []

unfoldable pub rank_of : Text → ℕ
unfolding severity_rank
rank_of level = elim (lookup level severity_rank) [ none ↦ 0 | some r ↦ r ]

-- The loop of `severityCase`
unfoldable pub when_levels : List Text → Text
unfolding rank_of two_digits
when_levels [] = []
when_levels (level ∷ rest) =
    codes " WHEN '" ++ level ++ codes "' THEN " ++ two_digits (rank_of level) ++ when_levels rest

unfoldable pub severity_case : Text → Text
unfolding when_levels levels default_severity_rank two_digits
severity_case expr =
    codes "CASE WHEN nullif("
    ++ expr
    ++ codes ", '') IS NULL THEN NULL ELSE CASE upper("
    ++ expr
    ++ codes ")"
    ++ when_levels levels
    ++ codes " ELSE "
    ++ two_digits default_severity_rank
    ++ codes " END END"

unfoldable pub cast_text : Text → FieldKind → Text
cast_text expr field_string = expr
cast_text expr kind = codes "CAST(" ++ expr ++ codes " AS VARCHAR)"

unfoldable pub escape_like : Text → Text
escape_like [] = []
escape_like (c ∷ cs) =
    let rest = escape_like cs in if c == 92 || (c == 37 || c == 95) then 92 ∷ c ∷ rest else c ∷ rest

unfoldable pub like_pattern : Text → Text
unfolding escape_like
like_pattern value = 37 ∷ escape_like value ++ 37 ∷ []

abbrev pub Args : Type 0 → Type 0 → Type 0
Args F T = List (Arg F T)

-- A fragment, and the arguments bound so far
abbrev pub Emitted : Type 0 → Type 0 → Type 0
Emitted F T = Text × Args F T

-- `strings.Join`
unfoldable pub join_texts : Text → List Text → Text
join_texts sep [] = []
join_texts sep (t ∷ []) = t
join_texts sep (t ∷ u ∷ ts) = t ++ sep ++ join_texts sep (u ∷ ts)

module _ {F T : Type 0} where
  -- `bind` inside of a fragment
  unfoldable pub bound : (before after : Text) → Arg F T → Args F T → Emitted F T
  bound before after value args = (before ++ codes "?" ++ after, args ++ value ∷ [])

  unfoldable pub compile_text : Text → Args F T → Emitted F T
  unfolding like_pattern
  compile_text value args = (
    codes "(msg ILIKE "
        ++ codes "?"
        ++ codes " ESCAPE '\\' OR raw ILIKE "
        ++ codes "?"
        ++ codes " ESCAPE '\\')",
    (args ++ text_arg (like_pattern value) ∷ []) ++ text_arg (like_pattern value) ∷ [],
  )

module _ {F T : Type 0} (lib : Library F T) where
  -- `ordered`
  unfoldable pub compile_ordered :
      Text → FieldKind → Op → Literal F → Args F T → Compiled (Emitted F T)
  unfolding operator severity_case level_of rank timestamp bound str_of
  compile_ordered expr field_severity op literal args =
      let level = level_of lib literal in
      fine (
        if op_eq op equals
        then bound (codes "(" ++ expr ++ codes " = ") (codes ")") (text_arg level) args
        else bound (codes "(" ++ severity_case expr ++ codes " " ++ operator op ++ codes " ")
            (codes ")") (int_arg (rank lib level)) args)
  compile_ordered expr field_number op (number x t) args = fine (
      bound (codes "(" ++ expr ++ codes " " ++ operator op ++ codes " ") (codes ")") (float_arg x)
        args)
  compile_ordered expr field_number op literal args = fine (codes "FALSE", args)
  compile_ordered expr field_bool op (bool b t) args = fine (
      bound (codes "(" ++ expr ++ codes " " ++ operator op ++ codes " ") (codes ")") (bool_arg b)
        args)
  compile_ordered expr field_bool op literal args = fine (codes "FALSE", args)
  compile_ordered expr field_timestamp op literal args = timestamp lib literal >>= λ at. fine (
      bound (codes "(" ++ expr ++ codes " " ++ operator op ++ codes " ") (codes ")") (time_arg at)
        args)
  compile_ordered expr kind op (number x t) args = fine (
      bound (codes "(try_cast(" ++ expr ++ codes " AS DOUBLE) " ++ operator op ++ codes " ")
        (codes ")") (float_arg x) args)
  compile_ordered expr kind op literal args = fine (
      bound (codes "(" ++ expr ++ codes " " ++ operator op ++ codes " ") (codes ")")
        (text_arg (str_of literal)) args)

  -- `comparison`, of a field that is resolved
  unfoldable pub compile_resolved :
      Text → FieldKind → Op → Literal F → Args F T → Compiled (Emitted F T)
  unfolding cast_text like_pattern bound compile_ordered str_of is_null_literal op_eq
  compile_resolved expr kind op literal args =
      if op_eq op exists
      then fine (codes "(" ++ expr ++ codes " IS NOT NULL)", args)
      else if is_null_literal literal
      then (if op_eq op equals
          then fine (codes "(" ++ expr ++ codes " IS NULL)", args)
          else fails null_needs_equals)
      else if op_eq op contains
      then fine (
          bound (codes "(" ++ cast_text expr kind ++ codes " ILIKE ") (codes " ESCAPE '\\')")
            (text_arg (like_pattern (str_of literal))) args)
      else if op_eq op matches
      then elim (lib.compile_pattern (str_of literal)) [
        | none ↦ fails (bad_pattern (str_of literal))
        | some pattern ↦ fine (
            bound (codes "regexp_matches(" ++ cast_text expr kind ++ codes ", ") (codes ")")
              (text_arg (str_of literal)) args)
      ]
      else compile_ordered expr kind op literal args

  module _ (resolve : Resolver) where
    unfoldable pub compile_comparison : Text → Op → Literal F → Args F T → Compiled (Emitted F T)
    unfolding compile_resolved
    compile_comparison field op literal args = elim (resolve field) [
      | none ↦ fine (codes "FALSE", args)
      | some (expr, kind) ↦ compile_resolved expr kind op literal args
    ]

    -- `compile` of a query that is not empty, and the loop of `join`
    unfoldable mutual
      unfolding compile_text join_texts compile_comparison

      pub compile : Node F → Args F T → Compiled (Emitted F T)
      compile (comparison field op literal) args = compile_comparison field op literal args
      compile (full_text value) args = fine (compile_text value args)
      compile (all_of ns) args = compile_parts ns args >>= λ r.
          fine (codes "(" ++ join_texts (codes " AND ") r.0 ++ codes ")", r.1)
      compile (any_of ns) args = compile_parts ns args >>= λ r.
          fine (codes "(" ++ join_texts (codes " OR ") r.0 ++ codes ")", r.1)
      compile (negation n) args =
          compile n args >>= λ r. fine (codes "NOT coalesce(" ++ r.0 ++ codes ", FALSE)", r.1)

      pub compile_parts : Nodes F → Args F T → Compiled (List Text × Args F T)
      compile_parts nil args = fine ([], args)
      compile_parts (cons n ns) args =
          compile n args >>= λ r. compile_parts ns r.1 >>= λ rs. fine (r.0 ∷ rs.0, rs.1)

    -- `ToSQL`; `none` is the empty query.
    unfoldable pub to_sql : Option (Node F) → Compiled (Emitted F T)
    unfolding compile
    to_sql none = fine (codes "TRUE", [])
    to_sql (some n) = compile n []
