-- ===== src/Rql/Agreement/Laws.antt =====
-- What DuckDB does with the SQL of a condition is what the live filter computes.
use rtail.Base.{
  ◌≢◌, ℕ, ◌≡◌, refl, ap, ◌∙◌, Bool, true, false, Option, none, some, [], codes, bytes_eq,
}
use rtail.Rql.Syntax.{Text, Op}
use rtail.Rql.Values.{Library, bool_value, text_of}
use rtail.Rql.Predicate.{Order, compare_order, compare_strings, compare_floats, numeric_of_text}
use rtail.Rql.Sql.{FieldKind}
use rtail.Rql.Sql.Plan.{
  Condition, text_match, part_match, pattern_match, level_order, cast_order, text_order,
}
use rtail.Base.{Bool-cases, inl, inr, bytes_eq_iff}
use rtail.Rql.Sql.{text_arg, float_arg, bool_arg, time_arg, like_pattern}
use rtail.Rql.Sql.Statement.{
  SqlOp, sql_equal, Sql, compares, cast_compares, case_compares, sql_op, expr_of, level_whens,
  other_level, sql_of, sqls_of,
}
use rtail.Rql.Agreement.{
  Cell, text_cell, bool_cell, and_truth, or_truth, and_of, or_of, order_of_ranks, case_rank,
  OnlyText, IsOrder, ConditionRow,
}
use rtail.Rql.Agreement.Duck.{
  compared, text_compared, number_order_of, double_order_of, case_value, like, GoLaws, all_hold,
  some_hold, DuckRow,
}
use rtail.Rql.Agreement.Like.{like-lower, contained-empty}
use rtail.Rql.Agreement.Meanings.{
  order_op, sql_op-order_op, compared-compare_order, text_compared-compare_strings,
  bool_order_of-compare_bools, level_whens-case_rank, column_of-expr_of, text_value-expr_of,
  needs-tested_column, all_hold-and_of, some_hold-or_of, double_order_of-compare_floats,
  compare_floats-order_of_ranks, double_of_text-numeric_of_text, number_order_of-order_of_ranks,
  time_order_of-compare_times,
}

module _ {F T : Type 0} (lib : Library F T) (go : GoLaws lib) (row : DuckRow lib) where
  abbrev pub truth_of : Condition F T → Option Bool
  truth_of c = row.truth (sql_of c)

  -- What a compared number, time or truth value finds
  pub judged :
      (op : Op) (ord : IsOrder op) (x : Order) (found : Bool) (s : Option SqlOp → Sql F T)
      → row.truth (s (some (order_op op ord))) ≡ some (compared (order_op op ord) x)
      → compare_order x op ≡ found
      → row.truth (s (sql_op op)) ≡ some found
  judged op ord x found s law e =
      ap (λ o. row.truth (s o)) (sql_op-order_op op ord)
      ∙ law
      ∙ ap some (compared-compare_order op ord x ∙ e)

  pub text_match-law :
      (value : Text) (msg raw : Option Text)
      → row.column (codes "msg") ≡ elim msg [ none ↦ none | some t ↦ some (text_cell t) ]
      → row.column (codes "raw") ≡ elim raw [ none ↦ none | some t ↦ some (text_cell t) ]
      → truth_of (text_match value)
        ≡ or_truth
            (elim msg [
              | none ↦ none
              | some t ↦ some (lib.contained (lib.lower t) (lib.lower value))
            ])
            (elim raw [
              | none ↦ none
              | some t ↦ some (lib.contained (lib.lower t) (lib.lower value))
            ])
  unfolding sql_of
  text_match-law value msg raw m r =
      row.either_law (codes "msg") (like_pattern value) (codes "raw") (like_pattern value) msg raw m
        r
      ∙ rw (found msg, found raw) refl
    where
      found :
          (o : Option Text)
          → elim o as (λ _. Option Bool) [
            | none ↦ none
            | some t ↦ some (like false (lib.lower (like_pattern value)) (lib.lower t))
          ]
            ≡ elim o as (λ _. Option Bool) [
              | none ↦ none
              | some t ↦ some (lib.contained (lib.lower t) (lib.lower value))
            ]
      found none = refl
      found (some t) = ap some (like-lower lib go value t)

  pub part_match-law :
      (e : Text) (kind : FieldKind) (part : Text) (c : Cell F T)
      → row.column e ≡ some c
      → OnlyText kind c
      → truth_of (part_match e kind part)
        ≡ some (lib.contained (lib.lower (row.varchar c)) (lib.lower part))
  unfolding sql_of
  part_match-law e kind part c at only =
      row.ilike_law (expr_of e kind) (like_pattern part) (row.varchar c) c
        (ap row.column (column_of-expr_of e kind) ∙ at)
        (text_value-expr_of row.varchar e kind c row.varchar_text only)
      ∙ ap some (like-lower lib go part (row.varchar c))

  pub pattern_match-law :
      (e : Text) (kind : FieldKind) (text : Text) (pattern : Text → Bool) (c : Cell F T)
      → row.column e ≡ some c
      → OnlyText kind c
      → lib.compile_pattern text ≡ some pattern
      → truth_of (pattern_match e kind text) ≡ some (pattern (row.varchar c))
  unfolding sql_of
  pattern_match-law e kind text pattern c at only compiled =
      row.regexp_law (expr_of e kind) text (row.varchar c) pattern c
        (ap row.column (column_of-expr_of e kind) ∙ at)
        (text_value-expr_of row.varchar e kind c row.varchar_text only) compiled

  pub level_order-law :
      (e t : Text) (op : Op) (r : ℕ)
      → IsOrder op
      → row.column e ≡ some (text_cell t)
      → t ≢ []
      → truth_of (level_order e op r)
        ≡ some (compare_order (order_of_ranks (case_rank (lib.upper t)) r) op)
  unfolding sql_of
  level_order-law e t op r ord at full =
      let there : bytes_eq t [] ≡ false = elim (Bool-cases (bytes_eq t [])) [
        | inl empty ↦ absurd (full ((bytes_eq_iff t []).0 empty))
        | inr other ↦ other
      ] in
      judged op ord (number_order_of (case_value (lib.upper t) level_whens other_level) r) _
        (λ o. case_compares e level_whens other_level o r)
        (row.case_law e t level_whens other_level (order_op op ord) r at ∙ rw there refl)
        (ap (λ n. compare_order (number_order_of n r) op) (level_whens-case_rank (lib.upper t))
          ∙ ap (λ x. compare_order x op)
              (number_order_of-order_of_ranks lib go (case_rank (lib.upper t)) r))

  pub cast_order-law :
      (e t : Text) (op : Op) (x : F)
      → IsOrder op
      → row.column e ≡ some (text_cell t)
      → truth_of (cast_order e op x)
        ≡ elim (numeric_of_text lib t) [ none ↦ none | some n ↦ some (compare_floats lib n x op) ]
  unfolding sql_of
  cast_order-law e t op x ord at =
      ap (λ o. row.truth (cast_compares e o x)) (sql_op-order_op op ord)
      ∙ row.cast_law e t (order_op op ord) x at
      ∙ rw (double_of_text-numeric_of_text lib go t) (read (numeric_of_text lib t))
    where
      read :
          (o : Option F)
          → elim o as (λ _. Option Bool) [
            | none ↦ none
            | some n ↦ some (compared (order_op op ord) (double_order_of lib n x))
          ]
            ≡ elim o as (λ _. Option Bool) [
              | none ↦ none
              | some n ↦ some (compare_floats lib n x op)
            ]
      read none = refl
      read (some n) = ap some (
          compared-compare_order op ord (double_order_of lib n x)
          ∙ double_order_of-compare_floats lib go op n x)

  pub varchar-bool : (b : Bool) → row.varchar (bool_cell b) ≡ text_of lib (bool_value b)
  unfolding text_of
  varchar-bool true = row.varchar_true
  varchar-bool false = row.varchar_false

  pub text_order-law :
      (e t u : Text) (op : Op)
      → IsOrder op
      → row.column e ≡ some (text_cell t)
      → truth_of (text_order e op u) ≡ some (compare_strings t u op)
  unfolding sql_of
  text_order-law e t u op ord at =
      ap (λ o. row.truth (compares e o (text_arg u))) (sql_op-order_op op ord)
      ∙ row.text_law e t u (order_op op ord) at
      ∙ ap some (text_compared-compare_strings op ord t u)

  unfoldable pub conditions : ConditionRow lib
  unfolding sql_of and_of or_of all_hold some_hold text_compared
  conditions = record {
    column = row.column;
    truth = truth_of;
    varchar = row.varchar;
    varchar_text = row.varchar_text;
    varchar_int = row.varchar_int;
    varchar_bool = varchar-bool;
    varchar_time = row.varchar_time;
    false_law = row.false_law;
    and_law = λ c cs.
        row.all_law (sql_of c) (sqls_of cs)
        ∙ ap (and_truth (truth_of c)) (all_hold-and_of row.truth cs);
    or_law = λ c cs.
        row.some_law (sql_of c) (sqls_of cs)
        ∙ ap (or_truth (truth_of c)) (some_hold-or_of row.truth cs);
    not_law = λ c. row.not_law (sql_of c);
    absent_law = row.absent_law;
    present_law = row.present_law;
    null_law = λ c e tests. row.null_law (sql_of c) e (needs-tested_column c ∙ tests);
    part_law = part_match-law;
    pattern_law = pattern_match-law;
    text_law = text_match-law;
    level_is_law = λ e level t at. row.text_law e t level sql_equal at;
    level_order_law = level_order-law;
    int_law = λ e op x i ord at.
        judged op ord _ _ (λ o. compares e o (float_arg x)) (row.int_law e (order_op op ord) i x at)
          (double_order_of-compare_floats lib go op (lib.float_of_int i) x);
    float_law = λ e op x n ord at.
        judged op ord _ _ (λ o. compares e o (float_arg x))
          (row.float_law e (order_op op ord) n x at) (double_order_of-compare_floats lib go op n x);
    cast_law = cast_order-law;
    bool_law = λ e op b c ord at.
        judged op ord _ _ (λ o. compares e o (bool_arg b)) (row.bool_law e (order_op op ord) c b at)
          (bool_order_of-compare_bools op c b);
    time_law = λ e op at t ord there.
        judged op ord _ _ (λ o. compares e o (time_arg at))
          (row.time_law e (order_op op ord) t at there)
          (time_order_of-compare_times lib go op t at);
    order_law = text_order-law;
    empty_part = contained-empty lib go;
    ranks_exact = compare_floats-order_of_ranks lib go;
  }
