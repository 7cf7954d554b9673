-- ===== src/Rql/Agreement/Example.antt =====
-- A small library, and a row that DuckDB's laws hold of, to run the theorems on.
use rtail.Base.{
  ℕ, ◌+◌, ◌-◌, ◌≡◌, refl, ap, Bool, true, false, not, ◌&&◌, Option, none, some, List, [], ◌∷◌,
  arith, ltb, leb, ◌==◌, if◌then◌else◌, codes, bytes_eq, lookup,
}
use rtail.Rql.Syntax.{Text}
use rtail.Rql.Values.{ℤ, Library, bool_value, text_of}
use rtail.Base.{map}
use rtail.Rql.Sql.{text_arg, float_arg, bool_arg, time_arg}
use rtail.Rql.Sql.Statement.{
  TextExpr, Sql, Sqls, falsehood, null_test, not_null_test, ilike, regexp, either_ilike, compares,
  cast_compares, case_compares, conjoined, disjoined, not_coalesced, no_more, followed,
}
use rtail.Rql.Agreement.Duck.{
  compared, text_compared, number_order_of, bool_order_of, double_order_of, time_order_of,
  double_of_text, case_value, like, starts_with, has_part, GoLaws, all_hold, some_hold, needs,
  column_of, text_value, DuckRow,
}
use rtail.Rql.Agreement.{
  Cell, text_cell, int_cell, float_cell, bool_cell, time_cell, is_true, or_truth,
}
use rtail.Rql.Agreement.{and_truth}
use rtail.Base.{◌*◌}
use rtail.Rql.Values.{pos, negsuc}
use rtail.Rql.Sql.{two_digits}

unfoldable pub lower_char : ℕ → ℕ
lower_char c = if leb 65 c && leb c 90 then c + 32 else c

abbrev pub lower_case : Text → Text
lower_case t = map lower_char t

unfoldable pub upper_case : Text → Text
upper_case [] = []
upper_case (c ∷ cs) = (if leb 97 c && leb c 122 then c - 32 else c) ∷ upper_case cs

unfoldable pub digits : Text → ℕ → Option ℕ
digits [] n = some n
digits (c ∷ cs) n =
    let rest = digits cs (10 * n + (c - 48)) in if leb 48 c && leb c 57 then rest else none

unfoldable pub small_int : ℤ → ℕ
small_int (pos n) = n
small_int (negsuc n) = 0

abbrev pub small : Library ℕ ℕ
small = record {
  lower = lower_case;
  upper = upper_case;
  trim = λ t. t;
  contained = has_part;
  compile_pattern = λ t. if starts_with t (codes "(") then none else some (λ u. has_part u t);
  read_float = λ t. digits t 0;
  float_of_int = small_int;
  is_nan = λ x. false;
  float_lt = ltb;
  is_whole = λ x. true;
  int_of_float = pos;
  format_int = λ i. two_digits (small_int i);
  format_float = two_digits;
  parse_time = λ layout t. digits t 0;
  microseconds = λ t. t;
  format_time = two_digits;
  time_lt = ltb;
}

abbrev pub SmallCell : Type 0
SmallCell = Cell ℕ ℕ

abbrev pub written_cell : SmallCell → Text
unfolding text_of
written_cell (text_cell t) = t
written_cell (int_cell i) = small.format_int i
written_cell (float_cell x) = small.format_float x
written_cell (bool_cell b) = text_of small (bool_value b)
written_cell (time_cell at) = small.format_time at

-- A form on one cell
unfoldable pub verdict : Sql ℕ ℕ → SmallCell → Option Bool
verdict (ilike x pattern) c = elim (text_value written_cell x c) [
  | none ↦ none
  | some t ↦ some (like false (lower_case pattern) (lower_case t))
]
verdict (regexp x text) c = elim (text_value written_cell x c) [
  | none ↦ none
  | some t ↦ elim (small.compile_pattern text) [ none ↦ none | some pattern ↦ some (pattern t) ]
]
verdict (compares e (some o) (text_arg u)) (text_cell t) = some (text_compared o t u)
verdict (compares e (some o) (float_arg x)) (int_cell i) =
    some (compared o (double_order_of small (small_int i) x))
verdict (compares e (some o) (float_arg x)) (float_cell n) =
    some (compared o (double_order_of small n x))
verdict (compares e (some o) (bool_arg b)) (bool_cell c) = some (compared o (bool_order_of c b))
verdict (compares e (some o) (time_arg at)) (time_cell t) =
    some (compared o (time_order_of small t at))
verdict (cast_compares e (some o) x) (text_cell t) = elim (double_of_text small t) [
  | none ↦ none
  | some n ↦ some (compared o (double_order_of small n x))
]
verdict (case_compares e whens default (some o) r) (text_cell t) =
    if bytes_eq t []
    then none
    else some (compared o (number_order_of (case_value (upper_case t) whens default) r))
verdict s c = none

unfoldable pub on_cell : Option SmallCell → (SmallCell → Option Bool) → Option Bool
on_cell none test = none
on_cell (some c) test = test c

unfoldable pub found_in : Option SmallCell → Text → Option Bool
found_in (some (text_cell t)) pattern = some (like false (lower_case pattern) (lower_case t))
found_in cell pattern = none

module _ (columns : List (Text × SmallCell)) where
  unfoldable pub column_null : Text → Bool
  column_null e = elim (lookup e columns) [ none ↦ true | some c ↦ false ]

  unfoldable mutual
    unfolding verdict found_in on_cell or_truth and_truth column_null column_of

    pub holds : Sql ℕ ℕ → Option Bool
    holds falsehood = some false
    holds (null_test e) = some (column_null e)
    holds (not_null_test e) = some (not (column_null e))
    holds (either_ilike e p e' p') =
        or_truth (found_in (lookup e columns) p) (found_in (lookup e' columns) p')
    holds (conjoined ss) = all_true ss
    holds (disjoined ss) = some_true ss
    holds (not_coalesced s) = some (not (is_true (holds s)))
    holds (ilike x pattern) = on_cell (lookup (column_of x) columns) (verdict (ilike x pattern))
    holds (regexp x text) = on_cell (lookup (column_of x) columns) (verdict (regexp x text))
    holds (compares e o value) = on_cell (lookup e columns) (verdict (compares e o value))
    holds (cast_compares e o x) = on_cell (lookup e columns) (verdict (cast_compares e o x))
    holds (case_compares e whens default o r) =
        on_cell (lookup e columns) (verdict (case_compares e whens default o r))

    pub all_true : Sqls ℕ ℕ → Option Bool
    all_true no_more = some true
    all_true (followed s ss) = and_truth (holds s) (all_true ss)

    pub some_true : Sqls ℕ ℕ → Option Bool
    some_true no_more = some false
    some_true (followed s ss) = or_truth (holds s) (some_true ss)

  pub all_true-all_hold : (ss : Sqls ℕ ℕ) → all_true ss ≡ all_hold holds ss
  unfolding holds all_hold
  all_true-all_hold no_more = refl
  all_true-all_hold (followed s ss) = ap (and_truth (holds s)) (all_true-all_hold ss)

  pub some_true-some_hold : (ss : Sqls ℕ ℕ) → some_true ss ≡ some_hold holds ss
  unfolding holds some_hold
  some_true-some_hold no_more = refl
  some_true-some_hold (followed s ss) = ap (or_truth (holds s)) (some_true-some_hold ss)

  on_cell-absent :
      (test : SmallCell → Option Bool) (a e : Text)
      → some a ≡ some e
      → lookup e columns ≡ none
      → on_cell (lookup a columns) test ≡ none
  unfolding on_cell
  on_cell-absent test a e tests nothing =
      let named : a ≡ e = ap (λ o. elim o as (λ _. Text) [ none ↦ a | some x ↦ x ]) tests in
      rw (named, nothing, on_cell) refl

  pub holds-null :
      (s : Sql ℕ ℕ) (e : Text) → needs s ≡ some e → lookup e columns ≡ none → holds s ≡ none
  unfolding holds needs
  holds-null falsehood e tests h = absurd (ground (arith, tests))
  holds-null (null_test a) e tests h = absurd (ground (arith, tests))
  holds-null (not_null_test a) e tests h = absurd (ground (arith, tests))
  holds-null (either_ilike a p b q) e tests h = absurd (ground (arith, tests))
  holds-null (conjoined ss) e tests h = absurd (ground (arith, tests))
  holds-null (disjoined ss) e tests h = absurd (ground (arith, tests))
  holds-null (not_coalesced s) e tests h = absurd (ground (arith, tests))
  holds-null (ilike x pattern) e tests h = on_cell-absent _ (column_of x) e tests h
  holds-null (regexp x text) e tests h = on_cell-absent _ (column_of x) e tests h
  holds-null (compares a o value) e tests h = on_cell-absent _ a e tests h
  holds-null (cast_compares a o x) e tests h = on_cell-absent _ a e tests h
  holds-null (case_compares a whens default o r) e tests h = on_cell-absent _ a e tests h

  pub holds-either :
      (e p e' p' : Text) (t t' : Option Text)
      → lookup e columns ≡ elim t [ none ↦ none | some u ↦ some (text_cell u) ]
      → lookup e' columns ≡ elim t' [ none ↦ none | some u ↦ some (text_cell u) ]
      → holds (either_ilike e p e' p')
        ≡ or_truth
            (elim t [ none ↦ none | some u ↦ some (like false (lower_case p) (lower_case u)) ])
            (elim t' [ none ↦ none | some u ↦ some (like false (lower_case p') (lower_case u)) ])
  unfolding holds found_in
  holds-either e p e' p' none none m r = rw (m, r) refl
  holds-either e p e' p' (some t) none m r = rw (m, r) refl
  holds-either e p e' p' none (some u) m r = rw (m, r) refl
  holds-either e p e' p' (some t) (some u) m r = rw (m, r) refl

  pub holds-ilike :
      (x : TextExpr) (pattern t : Text) (c : SmallCell)
      → lookup (column_of x) columns ≡ some c
      → text_value written_cell x c ≡ some t
      → holds (ilike x pattern) ≡ some (like false (lower_case pattern) (lower_case t))
  unfolding holds on_cell verdict
  holds-ilike x pattern t c at read = rw (at, read, on_cell, verdict) refl

  pub holds-regexp :
      (x : TextExpr) (text t : Text) (pattern : Text → Bool) (c : SmallCell)
      → lookup (column_of x) columns ≡ some c
      → text_value written_cell x c ≡ some t
      → small.compile_pattern text ≡ some pattern
      → holds (regexp x text) ≡ some (pattern t)
  unfolding holds on_cell verdict
  holds-regexp x text t pattern c at read compiled =
      rw (at, read, on_cell, verdict)
        (ap (λ o. elim o as (λ _. Option Bool) [ none ↦ none | some p ↦ some (p t) ]) compiled)

  unfoldable pub small_row : DuckRow small
  unfolding holds on_cell verdict column_null text_of all_hold some_hold
  small_row = record {
    column = λ e. lookup e columns;
    truth = holds;
    varchar = written_cell;
    varchar_text = λ t. refl;
    varchar_int = λ i. refl;
    varchar_true = refl;
    varchar_false = refl;
    varchar_time = λ at. refl;
    false_law = refl;
    all_law = λ s ss. all_true-all_hold (followed s ss);
    some_law = λ s ss. some_true-some_hold (followed s ss);
    not_law = λ s. refl;
    absent_law = λ e h. (rw (h, column_null) refl, rw (h, column_null) refl);
    present_law = λ e c h. (rw (h, column_null) refl, rw (h, column_null) refl);
    null_law = holds-null;
    ilike_law = holds-ilike;
    regexp_law = holds-regexp;
    either_law = holds-either;
    text_law = λ e t u o h. rw h refl;
    int_law = λ e o i x h. rw h refl;
    float_law = λ e o n x h. rw h refl;
    bool_law = λ e o c b h. rw h refl;
    time_law = λ e o t at h. rw h refl;
    cast_law = λ e t o x h. rw h refl;
    case_law = λ e t whens default o r h. rw h refl;
  }

pub lower_char-backslash : (c : ℕ) → (lower_char c == 92) ≡ (c == 92)
unfolding lower_char
lower_char-backslash c = ground arith

pub lower_char-percent : (c : ℕ) → (lower_char c == 37) ≡ (c == 37)
unfolding lower_char
lower_char-percent c = ground arith

pub lower_char-underscore : (c : ℕ) → (lower_char c == 95) ≡ (c == 95)
unfolding lower_char
lower_char-underscore c = ground arith

pub small_go : GoLaws small
unfolding lower_char small_int
small_go = record {
  fold = lower_char;
  lower_maps = λ t. refl;
  fold_backslash = lower_char-backslash;
  fold_percent = lower_char-percent;
  fold_underscore = lower_char-underscore;
  contains_part = λ t part. refl;
  nan_unordered = λ a b h. absurd (ground (arith, h));
  lt_asymmetric = λ a b h. ground (arith, h);
  whole_number = λ a small_a. refl;
  whole_order = λ a b small_a small_b. refl;
}
