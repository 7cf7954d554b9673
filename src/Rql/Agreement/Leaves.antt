-- ===== src/Rql/Agreement/Leaves.antt =====
-- One comparison of internal/rql, live and in SQL.
use rtail.Base.{
  ◌≢◌, ℕ, ◌<◌, ◌^◌, ◌≡◌, refl, sym, ap, ◌∙◌, Bool, false, Option, none, some, [], arith,
  if◌then◌else◌,
}
use rtail.Rql.Parse.{op_eq}
use rtail.Rql.Syntax.{Text, Op, Literal, equals, string, number, bool, null, wildcard}
use rtail.Base.{Bool-cases, Option-cases, inl, inr, ◌⊎◌}
use rtail.Rql.Values.{
  ℤ, Library, Value, bool_value, int_value, float_value, str_value, json_value, text_of, str_of,
  rank, level_of, timestamp, Compiled, fine, fails, ◌>>=◌,
}
use rtail.Rql.Predicate.{
  compare_order, compare_floats, compare_times, compare_ints, compare_text, compare_number,
  compare_value, numeric_of, numeric_of_text, severity_test,
}
use rtail.Rql.Sql.{
  FieldKind, field_string, field_number, field_bool, field_json, field_severity, field_timestamp,
}
use rtail.Rql.Sql.Plan.{Condition, cast_order, time_order, plan_ordered}
use rtail.Rql.Agreement.{IsOrder}
use rtail.Rql.Agreement.{
  Cell, text_cell, int_cell, float_cell, bool_cell, time_cell, is_true, order_of_ranks, OnlyText,
  ConditionRow, Holds, absent, as_text, as_json, as_level, as_int, as_float, as_bool, as_time,
  is_severity, is_timestamp,
}
use rtail.Rql.Agreement.Ranks.{rank-bounded, rank-case_rank}
use rtail.Rql.Agreement.Missing.{Agrees, NotTrue, false-NotTrue, plan_ordered-NotTrue}

module _ {F T : Type 0} (lib : Library F T) (json_path : Text → Text → Option (Value F))
    (row : ConditionRow lib) where
  unfoldable pub tested : Option (Value F) → (Value F → Bool) → Bool
  tested none test = false
  tested (some v) test = test v

  -- `ordered_predicate`, of a field's value and time
  unfoldable pub choice :
      (severity time : Bool) → Op → Literal F → T → Option (Value F) → Compiled Bool
  unfolding tested
  choice severity time op l at o =
      if severity
      then fine (tested o (severity_test lib json_path l op))
      else if time
      then (timestamp lib l >>= λ t. fine (compare_times lib at t op))
      else fine (tested o (λ v. compare_value lib v l op))

  -- Nothing is found of an absent field, live either.
  choice-absent :
      (kind : FieldKind) (op : Op) (l : Literal F) (at : T)
      → kind ≢ field_timestamp
      → choice (is_severity kind) (is_timestamp kind) op l at none ≡ fine false
  unfolding choice
  choice-absent field_timestamp op l at other = absurd (other refl)
  choice-absent field_severity op l at other = refl
  choice-absent field_number op l at other = refl
  choice-absent field_bool op l at other = refl
  choice-absent field_string op l at other = refl
  choice-absent field_json op l at other = refl

  absent-Agrees : (c : Compiled (Condition F T)) → NotTrue lib row c → Agrees lib row (fine false) c
  absent-Agrees (fine c) h = h
  absent-Agrees (fails e) h = h

  time-Agrees :
      (e : Text) (op : Op) (ord : IsOrder op) (at : T) (t : Compiled T)
      → row.column e ≡ some (time_cell at)
      → Agrees lib row
          (t >>= λ t'. fine (compare_times lib at t' op))
          (t >>= λ t'. fine (time_order e op t'))
  time-Agrees e op ord at (fine t) h = ap is_true (row.time_law e op t at ord h)
  time-Agrees e op ord at (fails err) h = tt

  level-Agrees :
      (e : Text) (op : Op) (ord : IsOrder op) (l : Literal F) (t : Text)
      → t ≢ []
      → lib.trim t ≡ t
      → ((a b : ℕ) (op : Op)
          → a < 2 ^ 53
          → b < 2 ^ 53
          → compare_floats lib (lib.float_of_int (ℤ.pos a)) (lib.float_of_int (ℤ.pos b)) op
            ≡ compare_order (order_of_ranks a b) op)
      → row.column e ≡ some (text_cell t)
      → Agrees lib row
          (fine (severity_test lib json_path l op (str_value t)))
          (plan_ordered lib e field_severity op l)
  unfolding severity_test plan_ordered text_of compare_ints
  level-Agrees e op ord l t full trimmed exact h =
      let level = level_of lib l in
      elim (Bool-cases (op_eq op equals)) [
        | inl equal ↦ rw equal (ap is_true (row.level_is_law e level t h))
        | inr order ↦ rw order (
            ap is_true (row.level_order_law e t op (rank lib level) ord h full)
            ∙ ap (λ r. compare_order (order_of_ranks r (rank lib level)) op)
                (sym (rank-case_rank lib t full trimmed))
            ∙ sym (
                exact (rank lib t) (rank lib level) op (omega (arith, rank-bounded lib t))
                  (omega (arith, rank-bounded lib level))))
      ]

  cast-Agrees :
      (e t : Text) (op : Op) (ord : IsOrder op) (x : F)
      → row.column e ≡ some (text_cell t)
      → is_true (row.truth (cast_order e op x))
        ≡ elim (numeric_of_text lib t) [ none ↦ false | some n ↦ compare_floats lib n x op ]
  cast-Agrees e t op ord x h =
      ap is_true (row.cast_law e t op x ord h) ∙ elim (Option-cases (numeric_of_text lib t)) [
        | inl missing ↦ rw missing refl
        | inr (n, found) ↦ rw found refl
      ]

  text-Agrees :
      (e t : Text) (op : Op) (ord : IsOrder op) (l : Literal F)
      → row.column e ≡ some (text_cell t)
      → Agrees lib row
          (fine (compare_value lib (str_value t) l op))
          (plan_ordered lib e field_string op l)
  unfolding compare_value compare_text numeric_of text_of str_of plan_ordered
  text-Agrees e t op ord (string q t') h = ap is_true (row.order_law e t t' op ord h)
  text-Agrees e t op ord (number x t') h = cast-Agrees e t op ord x h
  text-Agrees e t op ord (bool b t') h = ap is_true (row.order_law e t t' op ord h)
  text-Agrees e t op ord (null t') h = ap is_true (row.order_law e t t' op ord h)
  text-Agrees e t op ord wildcard h = ap is_true (row.order_law e t [] op ord h)

  json-Agrees :
      (e t : Text) (op : Op) (ord : IsOrder op) (l : Literal F)
      → row.column e ≡ some (text_cell t)
      → Agrees lib row
          (fine (compare_value lib (json_value t) l op))
          (plan_ordered lib e field_json op l)
  unfolding compare_value compare_text numeric_of text_of str_of plan_ordered
  json-Agrees e t op ord (string q t') h = ap is_true (row.order_law e t t' op ord h)
  json-Agrees e t op ord (number x t') h = cast-Agrees e t op ord x h
  json-Agrees e t op ord (bool b t') h = ap is_true (row.order_law e t t' op ord h)
  json-Agrees e t op ord (null t') h = ap is_true (row.order_law e t t' op ord h)
  json-Agrees e t op ord wildcard h = ap is_true (row.order_law e t [] op ord h)

  int-Agrees :
      (e : Text) (n : ℤ) (op : Op) (ord : IsOrder op) (l : Literal F)
      → row.column e ≡ some (int_cell n)
      → Agrees lib row
          (fine (compare_value lib (int_value n) l op))
          (plan_ordered lib e field_number op l)
  unfolding compare_value compare_number plan_ordered
  int-Agrees e n op ord (string q t) h = false-NotTrue lib row
  int-Agrees e n op ord (number x t) h = ap is_true (row.int_law e op x n ord h)
  int-Agrees e n op ord (bool b t) h = false-NotTrue lib row
  int-Agrees e n op ord (null t) h = false-NotTrue lib row
  int-Agrees e n op ord wildcard h = false-NotTrue lib row

  float-Agrees :
      (e : Text) (n : F) (op : Op) (ord : IsOrder op) (l : Literal F)
      → row.column e ≡ some (float_cell n)
      → Agrees lib row
          (fine (compare_value lib (float_value n) l op))
          (plan_ordered lib e field_number op l)
  unfolding compare_value compare_number plan_ordered
  float-Agrees e n op ord (string q t) h = false-NotTrue lib row
  float-Agrees e n op ord (number x t) h = ap is_true (row.float_law e op x n ord h)
  float-Agrees e n op ord (bool b t) h = false-NotTrue lib row
  float-Agrees e n op ord (null t) h = false-NotTrue lib row
  float-Agrees e n op ord wildcard h = false-NotTrue lib row

  bool-Agrees :
      (e : Text) (b : Bool) (op : Op) (ord : IsOrder op) (l : Literal F)
      → row.column e ≡ some (bool_cell b)
      → Agrees lib row
          (fine (compare_value lib (bool_value b) l op))
          (plan_ordered lib e field_bool op l)
  unfolding compare_value plan_ordered
  bool-Agrees e b op ord (string q t) h = false-NotTrue lib row
  bool-Agrees e b op ord (number x t) h = false-NotTrue lib row
  bool-Agrees e b op ord (bool c t) h = ap is_true (row.bool_law e op c b ord h)
  bool-Agrees e b op ord (null t) h = false-NotTrue lib row
  bool-Agrees e b op ord wildcard h = false-NotTrue lib row

  pub choice-Agrees :
      (e : Text) (kind : FieldKind) (op : Op) (ord : IsOrder op) (l : Literal F) (at : T)
      (o : Option (Value F)) (cell : Option (Cell F T))
      → Holds lib row.varchar kind at o cell
      → row.column e ≡ cell
      → ((a b : ℕ) (op : Op)
          → a < 2 ^ 53
          → b < 2 ^ 53
          → compare_floats lib (lib.float_of_int (ℤ.pos a)) (lib.float_of_int (ℤ.pos b)) op
            ≡ compare_order (order_of_ranks a b) op)
      → Agrees lib row
          (choice (is_severity kind) (is_timestamp kind) op l at o)
          (plan_ordered lib e kind op l)
  unfolding choice tested
  choice-Agrees e _ op ord l _ _ _ (absent kind at other) h exact =
      rw (choice-absent kind op l at other) (
        absent-Agrees (plan_ordered lib e kind op l)
          (plan_ordered-NotTrue lib row e kind op l other h))
  choice-Agrees e _ op ord l _ _ _ (as_text at t) h exact = text-Agrees e t op ord l h
  choice-Agrees e _ op ord l _ _ _ (as_json at t) h exact = json-Agrees e t op ord l h
  choice-Agrees e _ op ord l _ _ _ (as_level at t full trimmed) h exact =
      level-Agrees e op ord l t full trimmed exact h
  choice-Agrees e _ op ord l _ _ _ (as_int at i) h exact = int-Agrees e i op ord l h
  choice-Agrees e _ op ord l _ _ _ (as_float at x writes) h exact = float-Agrees e x op ord l h
  choice-Agrees e _ op ord l _ _ _ (as_bool at b) h exact = bool-Agrees e b op ord l h
  choice-Agrees e _ op ord l _ _ _ (as_time at) h exact =
      unfold plan_ordered in time-Agrees e op ord at (timestamp lib l) h

  -- The value that both sides see, if there is one
  pub Holds-cases :
      (kind : FieldKind) (at : T) (o : Option (Value F)) (cell : Option (Cell F T))
      → Holds lib row.varchar kind at o cell
      → ((o ≡ none) × (cell ≡ none))
        ⊎ ((v : Value F) × (c : Cell F T) × (o ≡ some v)
            × (cell ≡ some c)
            × (row.varchar c ≡ text_of lib v)
            × OnlyText kind c)
  unfolding OnlyText text_of
  Holds-cases _ _ _ _ (absent kind at other) = inl (refl, refl)
  Holds-cases _ _ _ _ (as_text at t) =
      inr (str_value t, text_cell t, refl, refl, row.varchar_text t, (t, refl))
  Holds-cases _ _ _ _ (as_json at t) =
      inr (json_value t, text_cell t, refl, refl, row.varchar_text t, tt)
  Holds-cases _ _ _ _ (as_level at t full trimmed) =
      inr (str_value t, text_cell t, refl, refl, row.varchar_text t, tt)
  Holds-cases _ _ _ _ (as_int at i) =
      inr (int_value i, int_cell i, refl, refl, row.varchar_int i, tt)
  Holds-cases _ _ _ _ (as_float at x writes) =
      inr (float_value x, float_cell x, refl, refl, writes, tt)
  Holds-cases _ _ _ _ (as_bool at b) =
      inr (bool_value b, bool_cell b, refl, refl, row.varchar_bool b, tt)
  Holds-cases _ _ _ _ (as_time at) =
      inr (str_value (lib.format_time at), time_cell at, refl, refl, row.varchar_time at, tt)
