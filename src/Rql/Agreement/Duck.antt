-- ===== src/Rql/Agreement/Duck.antt =====
-- What DuckDB does with the SQL that internal/rql/sql.go writes, and Go's library with texts and floats.
-- These are documented behaviours, for operators and forms of SQL and not for the program's helpers.
use rtail.Base.{
  ℕ, ◌<◌, ◌^◌, ◌≡◌, Bool, true, false, not, ◌&&◌, ◌||◌, Option, none, some, List, [], ◌∷◌, map, ltb,
  ◌==◌, if◌then◌else◌, codes, bytes_eq, lookup, ◌+◌, ◌*◌, ◌-◌,
}
use rtail.Rql.Syntax.{Text}
use rtail.Rql.Values.{ℤ, Library}
use rtail.Rql.Predicate.{Order, below, same, above, text_lt}
use rtail.Rql.Sql.{text_arg, float_arg, bool_arg, time_arg}
use rtail.Rql.Sql.Statement.{
  SqlOp, sql_equal, sql_less, sql_at_most, sql_greater, sql_at_least, TextExpr, bare, cast_varchar,
  Sql, Sqls, falsehood, null_test, not_null_test, ilike, regexp, either_ilike, compares,
  cast_compares, case_compares, conjoined, disjoined, not_coalesced, no_more, followed,
}
use rtail.Rql.Agreement.{
  Cell, text_cell, int_cell, float_cell, bool_cell, time_cell, is_true, and_truth, or_truth,
}

-- Of two ordered values
unfoldable pub compared : SqlOp → Order → Bool
compared sql_equal same = true
compared sql_less below = true
compared sql_at_most below = true
compared sql_at_most same = true
compared sql_greater above = true
compared sql_at_least above = true
compared sql_at_least same = true
compared o order = false

-- VARCHAR compares by code units.
unfoldable pub text_compared : SqlOp → Text → Text → Bool
text_compared sql_equal t u = bytes_eq t u
text_compared sql_less t u = text_lt t u
text_compared sql_at_most t u = not (text_lt u t)
text_compared sql_greater t u = text_lt u t
text_compared sql_at_least t u = not (text_lt t u)

unfoldable pub number_order_of : ℕ → ℕ → Order
number_order_of a b = if ltb a b then below else if ltb b a then above else same

unfoldable pub bool_order_of : Bool → Bool → Order
bool_order_of false true = below
bool_order_of true false = above
bool_order_of b c = same

unfoldable pub is_x : ℕ → Bool
is_x c = c == 120 || c == 88

unfoldable pub has_x : Text → Bool
unfolding is_x
has_x [] = false
has_x (c ∷ cs) = is_x c || has_x cs

module _ {F T : Type 0} (lib : Library F T) where
  -- NaN is equal to itself and above the other doubles.
  unfoldable pub double_order_of : F → F → Order
  double_order_of a b =
      if lib.is_nan a
      then (if lib.is_nan b then same else above)
      else if lib.is_nan b
      then below
      else if lib.float_lt a b
      then below
      else if lib.float_lt b a
      then above
      else same

  unfoldable pub time_order_of : T → T → Order
  time_order_of a b = if lib.time_lt a b then below else if lib.time_lt b a then above else same

  -- `try_cast` to DOUBLE: a decimal number in blanks, and no hexadecimal one
  unfoldable pub double_of_text : Text → Option F
  unfolding has_x
  double_of_text t = if has_x (lib.trim t) then none else lib.read_float (lib.trim t)

-- A numeral's value
unfoldable pub numeral : ℕ → Text → ℕ
numeral n [] = n
numeral n (c ∷ cs) = numeral (10 * n + (c - 48)) cs

-- A simple CASE of numerals
unfoldable pub case_value : Text → List (Text × Text) → Text → ℕ
unfolding numeral lookup
case_value name whens default = elim (lookup name whens) [
  | some d ↦ numeral 0 d
  | none ↦ numeral 0 default
]

unfoldable pub next_is : ℕ → (Text → Bool) → Text → Bool
next_is c rest [] = false
next_is c rest (d ∷ t) = d == c && rest t

unfoldable pub some_suffix : (Text → Bool) → Text → Bool
some_suffix rest [] = rest []
some_suffix rest (d ∷ t) = rest (d ∷ t) || some_suffix rest t

unfoldable pub next_any : (Text → Bool) → Text → Bool
next_any rest [] = false
next_any rest (d ∷ t) = rest t

unfoldable pub is_end : Text → Bool
is_end [] = true
is_end (c ∷ t) = false

-- LIKE with ESCAPE '\': % is any text and _ any character, unless a backslash stands before them.
unfoldable pub like : (escaped : Bool) → (pattern : Text) → Text → Bool
unfolding next_is some_suffix next_any is_end
like true [] t = false
like false [] t = is_end t
like true (c ∷ ps) t = next_is c (like false ps) t
like false (c ∷ ps) t =
    let exactly = next_is c (like false ps) t in
    let escaping = like true ps t in
    if c == 92
    then escaping
    else if c == 37
    then some_suffix (like false ps) t
    else if c == 95
    then next_any (like false ps) t
    else exactly

unfoldable pub starts_with : Text → Text → Bool
starts_with t [] = true
starts_with [] (d ∷ ds) = false
starts_with (c ∷ cs) (d ∷ ds) = c == d && starts_with cs ds

-- Whether the text has the part somewhere
unfoldable pub has_part : Text → Text → Bool
unfolding starts_with some_suffix
has_part t part = some_suffix (λ s. starts_with s part) t

-- Go's library, as it is documented
pub record GoLaws {F T : Type 0} (lib : Library F T) : Type 0 where
  -- ToLower maps each character, and nothing but letters.
  pub fold : ℕ → ℕ
  pub lower_maps : (t : Text) → lib.lower t ≡ map fold t
  pub fold_backslash : (c : ℕ) → (fold c == 92) ≡ (c == 92)
  pub fold_percent : (c : ℕ) → (fold c == 37) ≡ (c == 37)
  pub fold_underscore : (c : ℕ) → (fold c == 95) ≡ (c == 95)
  pub contains_part : (t part : Text) → lib.contained t part ≡ has_part t part
  -- IEEE 754: NaN is not below or above anything, no two numbers are below each other, and whole
  -- numbers below 2 ^ 53 are exact.
  pub nan_unordered :
      (a b : F) → lib.is_nan a ≡ true → (lib.float_lt a b ≡ false) × (lib.float_lt b a ≡ false)
  pub lt_asymmetric : (a b : F) → lib.float_lt a b ≡ true → lib.float_lt b a ≡ false
  pub whole_number : (a : ℕ) → a < 2 ^ 53 → lib.is_nan (lib.float_of_int (ℤ.pos a)) ≡ false
  pub whole_order :
      (a b : ℕ)
      → a < 2 ^ 53
      → b < 2 ^ 53
      → lib.float_lt (lib.float_of_int (ℤ.pos a)) (lib.float_of_int (ℤ.pos b)) ≡ ltb a b

unfoldable pub column_of : TextExpr → Text
column_of (bare e) = e
column_of (cast_varchar e) = e

module _ {F T : Type 0} where
  unfoldable pub all_hold : (Sql F T → Option Bool) → Sqls F T → Option Bool
  unfolding and_truth
  all_hold truth no_more = some true
  all_hold truth (followed s ss) = and_truth (truth s) (all_hold truth ss)

  unfoldable pub some_hold : (Sql F T → Option Bool) → Sqls F T → Option Bool
  unfolding or_truth
  some_hold truth no_more = some false
  some_hold truth (followed s ss) = or_truth (truth s) (some_hold truth ss)

  -- The column whose NULL makes the form NULL
  unfoldable pub needs : Sql F T → Option Text
  unfolding column_of
  needs (ilike x p) = some (column_of x)
  needs (regexp x p) = some (column_of x)
  needs (compares e o value) = some e
  needs (cast_compares e o x) = some e
  needs (case_compares e whens default o r) = some e
  needs s = none

  -- The text of an expression; a column that is no text has none as it is.
  unfoldable pub text_value : (Cell F T → Text) → TextExpr → Cell F T → Option Text
  text_value varchar (bare e) (text_cell t) = some t
  text_value varchar (bare e) c = none
  text_value varchar (cast_varchar e) c = some (varchar c)

-- A row of the scan: its columns, how DuckDB writes a cell as text, and what it finds of each form.
-- ILIKE is LIKE of lower case; regexp_matches is RE2, as is Go's regexp.
pub record DuckRow {F T : Type 0} (lib : Library F T) : Type 0 where
  pub column : Text → Option (Cell F T)
  pub truth : Sql F T → Option Bool
  pub varchar : Cell F T → Text
  pub varchar_text : (t : Text) → varchar (text_cell t) ≡ t
  pub varchar_int : (i : ℤ) → varchar (int_cell i) ≡ lib.format_int i
  pub varchar_true : varchar (bool_cell true) ≡ codes "true"
  pub varchar_false : varchar (bool_cell false) ≡ codes "false"
  pub varchar_time : (at : T) → varchar (time_cell at) ≡ lib.format_time at
  pub false_law : truth falsehood ≡ some false
  pub all_law :
      (s : Sql F T) (ss : Sqls F T)
      → truth (conjoined (followed s ss)) ≡ all_hold truth (followed s ss)
  pub some_law :
      (s : Sql F T) (ss : Sqls F T)
      → truth (disjoined (followed s ss)) ≡ some_hold truth (followed s ss)
  pub not_law : (s : Sql F T) → truth (not_coalesced s) ≡ some (not (is_true (truth s)))
  pub absent_law :
      (e : Text)
      → column e ≡ none
      → (truth (null_test e) ≡ some true) × (truth (not_null_test e) ≡ some false)
  pub present_law :
      (e : Text) (c : Cell F T)
      → column e ≡ some c
      → (truth (null_test e) ≡ some false) × (truth (not_null_test e) ≡ some true)
  pub null_law : (s : Sql F T) (e : Text) → needs s ≡ some e → column e ≡ none → truth s ≡ none
  pub ilike_law :
      (x : TextExpr) (pattern t : Text) (c : Cell F T)
      → column (column_of x) ≡ some c
      → text_value varchar x c ≡ some t
      → truth (ilike x pattern) ≡ some (like false (lib.lower pattern) (lib.lower t))
  pub regexp_law :
      (x : TextExpr) (text t : Text) (pattern : Text → Bool) (c : Cell F T)
      → column (column_of x) ≡ some c
      → text_value varchar x c ≡ some t
      → lib.compile_pattern text ≡ some pattern
      → truth (regexp x text) ≡ some (pattern t)
  pub either_law :
      (e p e' p' : Text) (t t' : Option Text)
      → column e ≡ elim t [ none ↦ none | some u ↦ some (text_cell u) ]
      → column e' ≡ elim t' [ none ↦ none | some u ↦ some (text_cell u) ]
      → truth (either_ilike e p e' p')
        ≡ or_truth
            (elim t [ none ↦ none | some u ↦ some (like false (lib.lower p) (lib.lower u)) ])
            (elim t' [ none ↦ none | some u ↦ some (like false (lib.lower p') (lib.lower u)) ])
  pub text_law :
      (e t u : Text) (o : SqlOp)
      → column e ≡ some (text_cell t)
      → truth (compares e (some o) (text_arg u)) ≡ some (text_compared o t u)
  pub int_law :
      (e : Text) (o : SqlOp) (i : ℤ) (x : F)
      → column e ≡ some (int_cell i)
      → truth (compares e (some o) (float_arg x))
        ≡ some (compared o (double_order_of lib (lib.float_of_int i) x))
  pub float_law :
      (e : Text) (o : SqlOp) (n x : F)
      → column e ≡ some (float_cell n)
      → truth (compares e (some o) (float_arg x)) ≡ some (compared o (double_order_of lib n x))
  pub bool_law :
      (e : Text) (o : SqlOp) (c b : Bool)
      → column e ≡ some (bool_cell c)
      → truth (compares e (some o) (bool_arg b)) ≡ some (compared o (bool_order_of c b))
  pub time_law :
      (e : Text) (o : SqlOp) (t at : T)
      → column e ≡ some (time_cell t)
      → truth (compares e (some o) (time_arg at)) ≡ some (compared o (time_order_of lib t at))
  pub cast_law :
      (e t : Text) (o : SqlOp) (x : F)
      → column e ≡ some (text_cell t)
      → truth (cast_compares e (some o) x) ≡ elim (double_of_text lib t) [
        | none ↦ none
        | some n ↦ some (compared o (double_order_of lib n x))
      ]
  pub case_law :
      (e t : Text) (whens : List (Text × Text)) (default : Text) (o : SqlOp) (r : ℕ)
      → column e ≡ some (text_cell t)
      → truth (case_compares e whens default (some o) r) ≡ (
          if bytes_eq t []
          then none
          else some (compared o (number_order_of (case_value (lib.upper t) whens default) r)))
