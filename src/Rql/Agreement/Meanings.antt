-- ===== src/Rql/Agreement/Meanings.antt =====
-- DuckDB's order, casts, cases and columns against those of internal/rql, one by one.
use rtail.Base.{
  ℕ, ◌<◌, ◌^◌, ◌≡◌, refl, sym, ap, ◌∙◌, Bool, true, false, ◌||◌, Option, none, some, List, [], ◌∷◌,
  map, ◌==◌, bytes_eq, lookup,
}
use rtail.Rql.Parse.{contains_x}
use rtail.Rql.Syntax.{
  Text, Op, equals, contains, matches, less, less_equal, greater, greater_equal, exists,
}
use rtail.Rql.Values.{ℤ, Library, severity_rank, default_severity_rank}
use rtail.Rql.Predicate.{
  Order, below, same, above, compare_order, compare_strings, compare_bools, compare_floats,
  compare_times, numeric_of_text,
}
use rtail.Rql.Sql.{
  FieldKind, field_string, field_number, field_bool, field_json, field_severity, field_timestamp,
}
use rtail.Rql.Sql.Plan.{
  Condition, Conditions, sql_false, text_match, is_null, is_not_null, part_match, pattern_match,
  level_is, level_order, number_order, cast_order, bool_order, time_order, text_order, and_all,
  or_all, not_true, none_of, one_more,
}
use rtail.Base.{Bool-cases, inl, inr, All}
use rtail.Rql.Sql.{two_digits}
use rtail.Rql.Sql.Statement.{
  SqlOp, sql_equal, sql_less, sql_at_most, sql_greater, sql_at_least, Sql, sql_op, expr_of,
  level_whens, other_level, sql_of, sqls_of,
}
use rtail.Rql.Agreement.{
  Cell, text_cell, and_truth, or_truth, and_of, or_of, tested_column, order_of_ranks, case_rank,
  OnlyText, IsOrder,
}
use rtail.Rql.Agreement.Duck.{
  compared, text_compared, number_order_of, bool_order_of, has_x, double_order_of, time_order_of,
  double_of_text, numeral, case_value, GoLaws, all_hold, some_hold, needs, column_of, text_value,
}

pub order_op : (op : Op) → IsOrder op → SqlOp
order_op equals h = sql_equal
order_op less h = sql_less
order_op less_equal h = sql_at_most
order_op greater h = sql_greater
order_op greater_equal h = sql_at_least
order_op contains h = absurd h
order_op matches h = absurd h
order_op exists h = absurd h

pub sql_op-order_op : (op : Op) (h : IsOrder op) → sql_op op ≡ some (order_op op h)
unfolding sql_op order_op
sql_op-order_op equals h = refl
sql_op-order_op less h = refl
sql_op-order_op less_equal h = refl
sql_op-order_op greater h = refl
sql_op-order_op greater_equal h = refl
sql_op-order_op contains h = absurd h
sql_op-order_op matches h = absurd h
sql_op-order_op exists h = absurd h

pub compared-compare_order :
    (op : Op) (h : IsOrder op) (x : Order) → compared (order_op op h) x ≡ compare_order x op
unfolding order_op compared compare_order
compared-compare_order equals h below = refl
compared-compare_order equals h same = refl
compared-compare_order equals h above = refl
compared-compare_order less h below = refl
compared-compare_order less h same = refl
compared-compare_order less h above = refl
compared-compare_order less_equal h below = refl
compared-compare_order less_equal h same = refl
compared-compare_order less_equal h above = refl
compared-compare_order greater h below = refl
compared-compare_order greater h same = refl
compared-compare_order greater h above = refl
compared-compare_order greater_equal h below = refl
compared-compare_order greater_equal h same = refl
compared-compare_order greater_equal h above = refl
compared-compare_order contains h x = absurd h
compared-compare_order matches h x = absurd h
compared-compare_order exists h x = absurd h

pub text_compared-compare_strings :
    (op : Op) (h : IsOrder op) (t u : Text)
    → text_compared (order_op op h) t u ≡ compare_strings t u op
unfolding order_op text_compared compare_strings
text_compared-compare_strings equals h t u = refl
text_compared-compare_strings less h t u = refl
text_compared-compare_strings less_equal h t u = refl
text_compared-compare_strings greater h t u = refl
text_compared-compare_strings greater_equal h t u = refl
text_compared-compare_strings contains h t u = absurd h
text_compared-compare_strings matches h t u = absurd h
text_compared-compare_strings exists h t u = absurd h

pub bool_order_of-compare_bools :
    (op : Op) (b c : Bool) → compare_order (bool_order_of b c) op ≡ compare_bools b c op
unfolding bool_order_of compare_bools
bool_order_of-compare_bools op true true = refl
bool_order_of-compare_bools op true false = refl
bool_order_of-compare_bools op false true = refl
bool_order_of-compare_bools op false false = refl

has_x-contains_x : (t : Text) → has_x t ≡ contains_x t
unfolding has_x contains_x
has_x-contains_x [] = refl
has_x-contains_x (c ∷ t) = ap (λ b. (c == 120 || c == 88) || b) (has_x-contains_x t)

-- A lookup through numerals that are read back
read_back :
    (write : ℕ → Text) (k default : Text) (d : ℕ) (m : List (Text × ℕ))
    → All (λ p. numeral 0 (write p.1) ≡ p.1) m
    → numeral 0 default ≡ d
    → case_value k (map (λ p. (p.0, write p.1)) m) default
      ≡ elim (lookup k m) [ some r ↦ r | none ↦ d ]
unfolding case_value lookup
read_back write k default d [] h e = e
read_back write k default d ((j, r) ∷ m) h e = elim (Bool-cases (bytes_eq j k)) [
  | inl hit ↦ rw (hit, case_value) h.0
  | inr miss ↦ rw (miss, case_value) (read_back write k default d m h.1 e)
]

pub level_whens-case_rank : (k : Text) → case_value k level_whens other_level ≡ case_rank k
unfolding level_whens other_level case_rank severity_rank two_digits default_severity_rank numeral
    lookup bytes_eq
level_whens-case_rank k =
    read_back two_digits k (two_digits default_severity_rank) default_severity_rank severity_rank
      all refl
  where
    all : All (λ p. numeral 0 (two_digits p.1) ≡ p.1) severity_rank
    all = (refl, (refl, (refl, (refl, (refl, (refl, (refl, (refl, (refl, (refl, tt))))))))))

pub column_of-expr_of : (e : Text) (kind : FieldKind) → column_of (expr_of e kind) ≡ e
unfolding column_of expr_of
column_of-expr_of e field_string = refl
column_of-expr_of e field_number = refl
column_of-expr_of e field_bool = refl
column_of-expr_of e field_json = refl
column_of-expr_of e field_severity = refl
column_of-expr_of e field_timestamp = refl

pub text_value-expr_of :
    {F T : Type 0} (varchar : Cell F T → Text) (e : Text) (kind : FieldKind) (c : Cell F T)
    → ((t : Text) → varchar (text_cell t) ≡ t)
    → OnlyText kind c
    → text_value varchar (expr_of e kind) c ≡ some (varchar c)
unfolding text_value expr_of OnlyText
text_value-expr_of varchar e field_string c texts (t, only) = rw only (ap some (sym (texts t)))
text_value-expr_of varchar e field_number c texts only = refl
text_value-expr_of varchar e field_bool c texts only = refl
text_value-expr_of varchar e field_json c texts only = refl
text_value-expr_of varchar e field_severity c texts only = refl
text_value-expr_of varchar e field_timestamp c texts only = refl

pub needs-tested_column : {F T : Type 0} (c : Condition F T) → needs (sql_of c) ≡ tested_column c
unfolding needs sql_of tested_column
needs-tested_column sql_false = refl
needs-tested_column (text_match value) = refl
needs-tested_column (is_null e) = refl
needs-tested_column (is_not_null e) = refl
needs-tested_column (part_match e kind value) = ap some (column_of-expr_of e kind)
needs-tested_column (pattern_match e kind value) = ap some (column_of-expr_of e kind)
needs-tested_column (level_is e level) = refl
needs-tested_column (level_order e op r) = refl
needs-tested_column (number_order e op x) = refl
needs-tested_column (cast_order e op x) = refl
needs-tested_column (bool_order e op b) = refl
needs-tested_column (time_order e op at) = refl
needs-tested_column (text_order e op t) = refl
needs-tested_column (and_all cs) = refl
needs-tested_column (or_all cs) = refl
needs-tested_column (not_true c) = refl

module _ {F T : Type 0} (truth : Sql F T → Option Bool) where
  pub all_hold-and_of :
      (cs : Conditions F T) → all_hold truth (sqls_of cs) ≡ and_of (λ c. truth (sql_of c)) cs
  unfolding all_hold and_of sqls_of
  all_hold-and_of none_of = refl
  all_hold-and_of (one_more c cs) = ap (and_truth (truth (sql_of c))) (all_hold-and_of cs)

  pub some_hold-or_of :
      (cs : Conditions F T) → some_hold truth (sqls_of cs) ≡ or_of (λ c. truth (sql_of c)) cs
  unfolding some_hold or_of sqls_of
  some_hold-or_of none_of = refl
  some_hold-or_of (one_more c cs) = ap (or_truth (truth (sql_of c))) (some_hold-or_of cs)

module _ {F T : Type 0} (lib : Library F T) (go : GoLaws lib) where
  pub double_order_of-compare_floats :
      (op : Op) (a b : F) → compare_order (double_order_of lib a b) op ≡ compare_floats lib a b op
  unfolding double_order_of compare_floats
  double_order_of-compare_floats op a b = elim (Bool-cases (lib.is_nan a)) [
    | inl nan ↦ elim (Bool-cases (lib.is_nan b)) [
      | inl nan' ↦ rw (nan, nan') refl
      | inr real' ↦ rw (nan, real') refl
    ]
    | inr real ↦ elim (Bool-cases (lib.is_nan b)) [
      | inl nan' ↦ rw (real, nan', (go.nan_unordered b a nan').0) refl
      | inr real' ↦ elim (Bool-cases (lib.float_lt a b)) [
        | inl lower ↦ rw (real, real', lower, go.lt_asymmetric a b lower) refl
        | inr not_lower ↦ rw (real, real', not_lower) refl
      ]
    ]
  ]

  pub compare_floats-order_of_ranks :
      (a b : ℕ) (op : Op)
      → a < 2 ^ 53
      → b < 2 ^ 53
      → compare_floats lib (lib.float_of_int (ℤ.pos a)) (lib.float_of_int (ℤ.pos b)) op
        ≡ compare_order (order_of_ranks a b) op
  unfolding double_order_of order_of_ranks
  compare_floats-order_of_ranks a b op small small' =
      sym (double_order_of-compare_floats op _ _)
      ∙ ap (λ x. compare_order x op)
          (rw
            (
              go.whole_number a small,
              go.whole_number b small',
              go.whole_order a b small small',
              go.whole_order b a small' small,
            )
            refl)

  pub double_of_text-numeric_of_text : (t : Text) → double_of_text lib t ≡ numeric_of_text lib t
  unfolding double_of_text numeric_of_text
  double_of_text-numeric_of_text t = rw (has_x-contains_x (lib.trim t)) refl

  pub number_order_of-order_of_ranks : (a b : ℕ) → number_order_of a b ≡ order_of_ranks a b
  unfolding number_order_of order_of_ranks
  number_order_of-order_of_ranks a b = refl

  pub time_order_of-compare_times :
      (op : Op) (a b : T) → compare_order (time_order_of lib a b) op ≡ compare_times lib a b op
  unfolding time_order_of compare_times
  time_order_of-compare_times op a b = refl
