-- ===== src/Rql/Agreement.antt =====
-- Where a live record of internal/rql/predicate.go and its stored row meet: how records are stored, and
-- what a condition finds of a row.
pub mod Duck
pub mod Like
pub mod Meanings
pub mod Laws
pub mod Ranks
pub mod Missing
pub mod Leaves
pub mod Comparisons
pub mod Whole
mod Example
mod Sample
mod Tests
use rtail.Base.{
  ◌≢◌, ℕ, zero, suc, ◌+◌, ◌-◌, ◌/◌, ◌%◌, ◌<◌, ◌^◌, ◌≡◌, refl, sym, ap, ◌∙◌, Bool, true, false, not,
  ◌&&◌, ◌||◌, Option, none, some, List, [], ◌∷◌, ◌++◌, map, arith, ltb, leb, ◌==◌, if◌then◌else◌,
  codes, bytes_eq, lookup,
}
use rtail.Rql.Parse.{contains_x, op_eq}
use rtail.Rql.Syntax.{
  Text, Op, Literal, Node, Nodes, equals, contains, matches, less, less_equal, greater,
  greater_equal, exists, string, number, bool, null, wildcard, comparison, full_text, all_of,
  any_of, negation, nil, cons,
}
use rtail.Rql.Values.{
  ℤ, Library, Value, bool_value, int_value, float_value, str_value, json_value, LogRecord, text_of,
  is_null_literal, severity_rank, default_severity_rank,
}
use rtail.Rql.Predicate.{
  is_severity_field, is_timestamp_field, Order, below, same, above, compare_order, compare_strings,
  compare_bools, compare_floats, compare_times, numeric_of_text, timestamp_of, lookup_field,
}
use rtail.Rql.Sql.{
  FieldKind, field_string, field_number, field_bool, field_json, field_severity, field_timestamp,
  Resolver,
}
use rtail.Rql.Sql.Plan.{
  Condition, Conditions, sql_false, text_match, is_null, is_not_null, part_match, pattern_match,
  level_is, level_order, number_order, cast_order, bool_order, time_order, text_order, and_all,
  or_all, not_true, none_of, one_more,
}

pub data Cell (F T : Type 0) : Type 0 where
  text_cell : Text → Cell F T
  int_cell : ℤ → Cell F T
  float_cell : F → Cell F T
  bool_cell : Bool → Cell F T
  time_cell : T → Cell F T

-- SQL's three truth values, with `none` for NULL
abbrev pub is_true : Option Bool → Bool
is_true none = false
is_true (some b) = b

unfoldable pub and_truth : Option Bool → Option Bool → Option Bool
and_truth (some false) b = some false
and_truth (some true) b = b
and_truth none (some false) = some false
and_truth none b = none

unfoldable pub or_truth : Option Bool → Option Bool → Option Bool
or_truth (some true) b = some true
or_truth (some false) b = b
or_truth none (some true) = some true
or_truth none b = none

module _ {F T : Type 0} where
  unfoldable pub and_of : (Condition F T → Option Bool) → Conditions F T → Option Bool
  unfolding and_truth
  and_of truth none_of = some true
  and_of truth (one_more c cs) = and_truth (truth c) (and_of truth cs)

  unfoldable pub or_of : (Condition F T → Option Bool) → Conditions F T → Option Bool
  unfolding or_truth
  or_of truth none_of = some false
  or_of truth (one_more c cs) = or_truth (truth c) (or_of truth cs)

  -- The column whose NULL makes a comparison NULL
  unfoldable pub tested_column : Condition F T → Option Text
  tested_column (part_match e kind value) = some e
  tested_column (pattern_match e kind value) = some e
  tested_column (level_is e level) = some e
  tested_column (level_order e op r) = some e
  tested_column (number_order e op x) = some e
  tested_column (cast_order e op x) = some e
  tested_column (bool_order e op b) = some e
  tested_column (time_order e op at) = some e
  tested_column (text_order e op t) = some e
  tested_column c = none

unfoldable pub order_of_ranks : ℕ → ℕ → Order
order_of_ranks a b = if ltb a b then below else if ltb b a then above else same

-- The inner CASE of `severityCase`
unfoldable pub case_rank : Text → ℕ
unfolding severity_rank default_severity_rank
case_rank name = elim (lookup name severity_rank) [ some r ↦ r | none ↦ default_severity_rank ]

unfoldable pub OnlyText : {F T : Type 0} → FieldKind → Cell F T → Type 0
OnlyText {F} {T} field_string c = (t : Text) × (c ≡ text_cell t)
OnlyText kind c = Unit

-- The operators that `ordered` has
abbrev pub IsOrder : Op → Type 0
IsOrder contains = ⊥
IsOrder matches = ⊥
IsOrder exists = ⊥
IsOrder op = Unit

-- What a condition finds of a row, in terms of the live filter. Agreement/Laws.antt makes it of what
-- DuckDB does.
pub record ConditionRow {F T : Type 0} (lib : Library F T) : Type 0 where
  pub column : Text → Option (Cell F T)
  pub truth : Condition F T → Option Bool
  pub varchar : Cell F T → Text
  pub varchar_text : (t : Text) → varchar (text_cell t) ≡ t
  pub varchar_int : (i : ℤ) → varchar (int_cell i) ≡ lib.format_int i
  pub varchar_bool : (b : Bool) → varchar (bool_cell b) ≡ text_of lib (bool_value b)
  pub varchar_time : (at : T) → varchar (time_cell at) ≡ lib.format_time at
  pub false_law : truth sql_false ≡ some false
  pub and_law :
      (c : Condition F T) (cs : Conditions F T)
      → truth (and_all (one_more c cs)) ≡ and_of truth (one_more c cs)
  pub or_law :
      (c : Condition F T) (cs : Conditions F T)
      → truth (or_all (one_more c cs)) ≡ or_of truth (one_more c cs)
  pub not_law : (c : Condition F T) → truth (not_true c) ≡ some (not (is_true (truth c)))
  pub absent_law :
      (e : Text)
      → column e ≡ none
      → (truth (is_null e) ≡ some true) × (truth (is_not_null e) ≡ some false)
  pub present_law :
      (e : Text) (c : Cell F T)
      → column e ≡ some c
      → (truth (is_null e) ≡ some false) × (truth (is_not_null e) ≡ some true)
  pub null_law :
      (c : Condition F T) (e : Text) → tested_column c ≡ some e → column e ≡ none → truth c ≡ none
  pub part_law :
      (e : Text) (kind : FieldKind) (part : Text) (c : Cell F T)
      → column e ≡ some c
      → OnlyText kind c
      → truth (part_match e kind part)
        ≡ some (lib.contained (lib.lower (varchar c)) (lib.lower part))
  pub pattern_law :
      (e : Text) (kind : FieldKind) (text : Text) (pattern : Text → Bool) (c : Cell F T)
      → column e ≡ some c
      → OnlyText kind c
      → lib.compile_pattern text ≡ some pattern
      → truth (pattern_match e kind text) ≡ some (pattern (varchar c))
  pub text_law :
      (value : Text) (msg raw : Option Text)
      → column (codes "msg") ≡ elim msg [ none ↦ none | some t ↦ some (text_cell t) ]
      → column (codes "raw") ≡ elim raw [ none ↦ none | some t ↦ some (text_cell t) ]
      → truth (text_match value)
        ≡ or_truth
            (elim msg [
              | none ↦ none
              | some t ↦ some (lib.contained (lib.lower t) (lib.lower value))
            ])
            (elim raw [
              | none ↦ none
              | some t ↦ some (lib.contained (lib.lower t) (lib.lower value))
            ])
  pub level_is_law :
      (e level t : Text)
      → column e ≡ some (text_cell t)
      → truth (level_is e level) ≡ some (bytes_eq t level)
  pub level_order_law :
      (e t : Text) (op : Op) (r : ℕ)
      → IsOrder op
      → column e ≡ some (text_cell t)
      → t ≢ []
      → truth (level_order e op r)
        ≡ some (compare_order (order_of_ranks (case_rank (lib.upper t)) r) op)
  pub int_law :
      (e : Text) (op : Op) (x : F) (i : ℤ)
      → IsOrder op
      → column e ≡ some (int_cell i)
      → truth (number_order e op x) ≡ some (compare_floats lib (lib.float_of_int i) x op)
  pub float_law :
      (e : Text) (op : Op) (x n : F)
      → IsOrder op
      → column e ≡ some (float_cell n)
      → truth (number_order e op x) ≡ some (compare_floats lib n x op)
  pub cast_law :
      (e t : Text) (op : Op) (x : F)
      → IsOrder op
      → column e ≡ some (text_cell t)
      → truth (cast_order e op x)
        ≡ elim (numeric_of_text lib t) [ none ↦ none | some n ↦ some (compare_floats lib n x op) ]
  pub bool_law :
      (e : Text) (op : Op) (b c : Bool)
      → IsOrder op
      → column e ≡ some (bool_cell c)
      → truth (bool_order e op b) ≡ some (compare_bools c b op)
  pub time_law :
      (e : Text) (op : Op) (at t : T)
      → IsOrder op
      → column e ≡ some (time_cell t)
      → truth (time_order e op at) ≡ some (compare_times lib t at op)
  pub order_law :
      (e t u : Text) (op : Op)
      → IsOrder op
      → column e ≡ some (text_cell t)
      → truth (text_order e op u) ≡ some (compare_strings t u op)
  -- Only the empty text is part of the empty one, and that is part of all.
  pub empty_part :
      (part : Text)
      → lib.contained (lib.lower []) part ≡ true
      → (t : Text) → lib.contained t part ≡ true
  -- Ranks are exact as float64.
  pub ranks_exact :
      (a b : ℕ) (op : Op)
      → a < 2 ^ 53
      → b < 2 ^ 53
      → compare_floats lib (lib.float_of_int (ℤ.pos a)) (lib.float_of_int (ℤ.pos b)) op
        ≡ compare_order (order_of_ranks a b) op

module _ {F T : Type 0} (lib : Library F T) where
  -- What a record's field and a row's column have in common, for a column of that kind. A float is
  -- written by DuckDB as by Go; not every one is.
  pub data Holds (varchar : Cell F T → Text)
      : FieldKind → T → Option (Value F) → Option (Cell F T) → Type 0 where
    absent : (kind : FieldKind) (at : T) → kind ≢ field_timestamp → Holds varchar kind at none none
    as_text :
        (at : T) (t : Text)
        → Holds varchar field_string at (some (str_value t)) (some (text_cell t))
    as_json :
        (at : T) (t : Text) → Holds varchar field_json at (some (json_value t)) (some (text_cell t))
    as_level :
        (at : T) (t : Text)
        → t ≢ []
        → lib.trim t ≡ t
        → Holds varchar field_severity at (some (str_value t)) (some (text_cell t))
    as_int :
        (at : T) (i : ℤ) → Holds varchar field_number at (some (int_value i)) (some (int_cell i))
    as_float :
        (at : T) (x : F)
        → varchar (float_cell x) ≡ lib.format_float x
        → Holds varchar field_number at (some (float_value x)) (some (float_cell x))
    as_bool :
        (at : T) (b : Bool) → Holds varchar field_bool at (some (bool_value b)) (some (bool_cell b))
    as_time :
        (at : T)
        → Holds varchar field_timestamp at
            (some (str_value (lib.format_time at)))
            (some (time_cell at))

abbrev pub is_severity : FieldKind → Bool
is_severity field_severity = true
is_severity kind = false

abbrev pub is_timestamp : FieldKind → Bool
is_timestamp field_timestamp = true
is_timestamp kind = false

-- The row is the record's, as the resolver reads it.
pub record Stored {F T : Type 0} (lib : Library F T) (json_path : Text → Text → Option (Value F))
    (resolve : Resolver) (rec : LogRecord F T) (column : Text → Option (Cell F T))
    (varchar : Cell F T → Text) : Type 0 where
  pub msg_stored :
      column (codes "msg") ≡ (if bytes_eq rec.msg [] then none else some (text_cell rec.msg))
  pub raw_stored : column (codes "raw") ≡ some (text_cell rec.raw)
  pub field_stored :
      (field e : Text) (kind : FieldKind)
      → resolve field ≡ some (e, kind)
      → (is_severity_field field ≡ is_severity kind)
        × (is_timestamp_field field ≡ is_timestamp kind)
        × Holds lib varchar kind
            (timestamp_of lib json_path rec field)
            (lookup_field lib json_path rec field)
            (column e)
  pub not_stored :
      (field : Text)
      → resolve field ≡ none
      → (lookup_field lib json_path rec field ≡ none) × (is_timestamp_field field ≡ false)
