-- ===== src/Rql/Agreement/Tests.antt =====
-- The live filter and the condition of one row.
use rtail.Base.{ℕ, ◌≡◌, refl, Bool, true, false, some, [], ◌∷◌, arith, codes, bytes_eq, lookup}
use rtail.Rql.Syntax.{
  Text, Node, equals, less, greater_equal, string, number, null, comparison, full_text, all_of,
  any_of, negation, nil, cons,
}
use rtail.Base.{All}
use rtail.Rql.Values.{is_null_literal, fine, fails}
use rtail.Rql.Predicate.{Predicate}
use rtail.Rql.Sql.{FieldKind}
use rtail.Rql.Agreement.{is_true}
use rtail.Rql.Predicate.{Predicate}
use rtail.Rql.Predicate.{to_predicate}
use rtail.Rql.Sql.{to_sql}
use rtail.Rql.Sql.{Args, text_arg, float_arg}
use rtail.Rql.Sql.Holes.{HasHoles, ends_inside, holes}
use rtail.Rql.Sql.Bindings.{to_sql-HasHoles}
use rtail.Rql.Sql.Alike.{to_sql-Alike, same_comparison, both_number}
use rtail.Rql.Agreement.Whole.{to_predicate-to_sql, Proper}
use rtail.Rql.Sql.Statement.{Sql, print}
use rtail.Rql.Agreement.Duck.{has_part, starts_with, some_suffix}
use rtail.Rql.Agreement.Example.{small_go, lower_char, small_int, upper_case, small, small_row}
use rtail.Rql.Agreement.Sample.{
  lookup-each, small_fields, small_columns, small_record, small_resolve, small_stored, no_path,
}

-- level>=warn AND (status<50 OR NOT "full")
abbrev small_query : Node ℕ
small_query = all_of (
    cons (comparison (codes "level") greater_equal (string false (codes "warn"))) (
      cons
        (any_of (
          cons (comparison (codes "status") less (number 50 (codes "50")))
            (cons (negation (full_text (codes "full"))) nil)))
        nil))

abbrev small_predicate : Predicate small no_path
small_predicate rec = elim (to_predicate small no_path small_query) [
  | fine p ↦ p rec
  | fails e ↦ false
]

small_query-passes : small_predicate small_record ≡ true
unfolding to_predicate bytes_eq small_int lookup upper_case lower_char has_part some_suffix
    starts_with
small_query-passes = refl

to_predicate-to_sql_example :
    (s : Sql ℕ ℕ) × (to_sql small small_resolve (some small_query) ≡ fine (print s []))
    × (is_true ((small_row small_columns).truth s) ≡ small_predicate small_record)
unfolding Proper is_null_literal to_predicate bytes_eq
to_predicate-to_sql_example =
    to_predicate-to_sql small no_path small_resolve small_record (small_row small_columns) small_go
      small_stored small_query small_predicate
      ((λ e. absurd (ground (arith, e))), (((λ e. absurd (ground (arith, e))), (tt, tt)), tt)) refl

small_status : Node ℕ → Bool × Text
small_status n = (
  elim (to_predicate small no_path n) as (λ _. Bool) [ fine p ↦ p small_record | fails e ↦ false ],
  elim (to_sql small small_resolve (some n)) as (λ _. Text) [ fine r ↦ r.0 | fails e ↦ [] ],
)

status_text :
    small_status (comparison (codes "status") less (number 50 (codes "50")))
    ≡ (true, codes "(status < ?)")
unfolding small_status to_predicate to_sql bytes_eq lookup small_int
status_text = refl

-- No column: the live filter finds null, the condition does not.
null_text :
    small_status (comparison (codes "shard") equals (null (codes "null"))) ≡ (true, codes "FALSE")
unfolding small_status to_predicate to_sql bytes_eq lookup
null_text = refl

abbrev PlainEntry : Text → Text × FieldKind → Type 0
PlainEntry field (e, kind) = HasHoles 0 e

plain : {e : Text} → ends_inside false e ≡ false → holes false e ≡ 0 → HasHoles 0 e
plain closed counted = record { closed = closed; counted = counted }

small_resolve-Plain :
    (field e : Text) (kind : FieldKind) → small_resolve field ≡ some (e, kind) → HasHoles 0 e
unfolding ends_inside holes
small_resolve-Plain field e kind found =
    lookup-each PlainEntry field small_fields (e, kind) all found
  where
    all : All (λ entry. PlainEntry entry.0 entry.1) small_fields
    all = (
      plain refl refl,
      (
        plain refl refl,
        (
          plain refl refl,
          (
            plain refl refl,
            (
              plain refl refl,
              (
                plain refl refl,
                (
                  plain refl refl,
                  (
                    plain refl refl,
                    (
                      plain refl refl,
                      (
                        plain refl refl,
                        (plain refl refl, (plain refl refl, (plain refl refl, tt))),
                      ),
                    ),
                  ),
                ),
              ),
            ),
          ),
        ),
      ),
    )

abbrev two_args : Args ℕ ℕ
two_args = text_arg (codes "%it's 100\\%%") ∷ text_arg (codes "%it's 100\\%%") ∷ []

abbrev text_sql : Text
text_sql = codes "(msg ILIKE ? ESCAPE '\\' OR raw ILIKE ? ESCAPE '\\')"

to_sql-HasHoles_example : HasHoles 2 text_sql
unfolding to_sql
to_sql-HasHoles_example =
    to_sql-HasHoles small small_resolve (some (full_text (codes "it's 100%"))) text_sql two_args
      small_resolve-Plain refl

to_sql-Alike_example : codes "(status < ?)" ≡ codes "(status < ?)"
unfolding to_sql lookup bytes_eq small_int
to_sql-Alike_example =
    to_sql-Alike small small_resolve (comparison (codes "status") less (number 50 (codes "50")))
      (comparison (codes "status") less (number 7 (codes "7"))) (codes "(status < ?)")
      (codes "(status < ?)") (float_arg 50 ∷ []) (float_arg 7 ∷ [])
      (same_comparison (codes "status") less (number 50 (codes "50")) (number 7 (codes "7"))
        (both_number 50 7 (codes "50") (codes "7")))
      refl refl
