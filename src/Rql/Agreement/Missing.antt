-- ===== src/Rql/Agreement/Missing.antt =====
-- A condition of internal/rql/sql.go on a column that is NULL.
use rtail.Base.{◌≢◌, ◌≡◌, refl, ap, Bool, false, none, some}
use rtail.Rql.Parse.{op_eq}
use rtail.Rql.Syntax.{Text, Op, Literal, equals, string, number, bool, null, wildcard}
use rtail.Base.{Bool-cases, inl, inr}
use rtail.Rql.Values.{Library, str_of, rank, level_of, Compiled, fine, fails}
use rtail.Rql.Sql.{
  FieldKind, field_string, field_number, field_bool, field_json, field_severity, field_timestamp,
}
use rtail.Rql.Sql.Plan.{
  Condition, sql_false, level_is, level_order, number_order, cast_order, bool_order, text_order,
  plan_ordered,
}
use rtail.Rql.Agreement.{is_true, tested_column, ConditionRow}

module _ {F T : Type 0} (lib : Library F T) (row : ConditionRow lib) where
  -- The live answer, and the condition's
  abbrev pub Agrees : Compiled Bool → Compiled (Condition F T) → Type 0
  Agrees (fine b) (fine c) = is_true (row.truth c) ≡ b
  Agrees (fine b) (fails e) = ⊥
  Agrees (fails e) c = Unit

  abbrev pub NotTrue : Compiled (Condition F T) → Type 0
  NotTrue (fine c) = is_true (row.truth c) ≡ false
  NotTrue (fails e) = ⊥

  pub null-NotTrue :
      (c : Condition F T) (e : Text)
      → tested_column c ≡ some e
      → row.column e ≡ none
      → NotTrue (fine c)
  null-NotTrue c e tests nothing = ap is_true (row.null_law c e tests nothing)

  pub false-NotTrue : NotTrue (fine sql_false)
  false-NotTrue = ap is_true row.false_law

  -- Nothing is found of an absent field.
  pub plan_ordered-NotTrue :
      (e : Text) (kind : FieldKind) (op : Op) (l : Literal F)
      → kind ≢ field_timestamp
      → row.column e ≡ none
      → NotTrue (plan_ordered lib e kind op l)
  unfolding plan_ordered tested_column
  plan_ordered-NotTrue e field_timestamp op l other h = absurd (other refl)
  plan_ordered-NotTrue e field_severity op l other h = elim (Bool-cases (op_eq op equals)) [
    | inl equal ↦ rw equal (null-NotTrue (level_is e (level_of lib l)) e refl h)
    | inr order ↦ rw order (null-NotTrue (level_order e op (rank lib (level_of lib l))) e refl h)
  ]
  plan_ordered-NotTrue e field_number op (string q t) other h = false-NotTrue
  plan_ordered-NotTrue e field_number op (number x t) other h =
      null-NotTrue (number_order e op x) e refl h
  plan_ordered-NotTrue e field_number op (bool b t) other h = false-NotTrue
  plan_ordered-NotTrue e field_number op (null t) other h = false-NotTrue
  plan_ordered-NotTrue e field_number op wildcard other h = false-NotTrue
  plan_ordered-NotTrue e field_bool op (string q t) other h = false-NotTrue
  plan_ordered-NotTrue e field_bool op (number x t) other h = false-NotTrue
  plan_ordered-NotTrue e field_bool op (bool b t) other h =
      null-NotTrue (bool_order e op b) e refl h
  plan_ordered-NotTrue e field_bool op (null t) other h = false-NotTrue
  plan_ordered-NotTrue e field_bool op wildcard other h = false-NotTrue
  plan_ordered-NotTrue e field_string op (string q t) other h =
      null-NotTrue (text_order e op (str_of (string q t))) e refl h
  plan_ordered-NotTrue e field_string op (number x t) other h =
      null-NotTrue (cast_order e op x) e refl h
  plan_ordered-NotTrue e field_string op (bool b t) other h =
      null-NotTrue (text_order e op (str_of (bool b t))) e refl h
  plan_ordered-NotTrue e field_string op (null t) other h =
      null-NotTrue (text_order e op (str_of (null t))) e refl h
  plan_ordered-NotTrue e field_string op wildcard other h =
      null-NotTrue (text_order e op (str_of wildcard)) e refl h
  plan_ordered-NotTrue e field_json op (string q t) other h =
      null-NotTrue (text_order e op (str_of (string q t))) e refl h
  plan_ordered-NotTrue e field_json op (number x t) other h =
      null-NotTrue (cast_order e op x) e refl h
  plan_ordered-NotTrue e field_json op (bool b t) other h =
      null-NotTrue (text_order e op (str_of (bool b t))) e refl h
  plan_ordered-NotTrue e field_json op (null t) other h =
      null-NotTrue (text_order e op (str_of (null t))) e refl h
  plan_ordered-NotTrue e field_json op wildcard other h =
      null-NotTrue (text_order e op (str_of wildcard)) e refl h
