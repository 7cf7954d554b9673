-- ===== src/Rql/Agreement/Comparisons.antt =====
-- A comparison of internal/rql that is resolved, live and in SQL.
use rtail.Base.{
  ℕ, ◌<◌, ◌^◌, ◌≡◌, refl, sym, ap, ◌∙◌, Bool, true, false, not, Option, none, some, if◌then◌else◌,
}
use rtail.Rql.Parse.{op_eq}
use rtail.Rql.Syntax.{
  Text, Op, Literal, equals, contains, matches, less, less_equal, greater, greater_equal, exists,
}
use rtail.Base.{Option-cases, inl, inr}
use rtail.Rql.Values.{
  ℤ, Library, Value, LogRecord, text_of, str_of, is_null_literal, timestamp, bad_pattern, Compiled,
  fine, fails, ◌>>=◌, map_fine, if_both,
}
use rtail.Rql.Predicate.{
  is_severity_field, is_timestamp_field, compare_order, compare_floats, compare_times, timestamp_of,
  lookup_field, Predicate, on_field, has_field, ordered_predicate, comparison_predicate,
}
use rtail.Rql.Sql.{FieldKind}
use rtail.Rql.Sql.Plan.{
  Condition, is_null, is_not_null, part_match, pattern_match, plan_ordered, plan_resolved,
}
use rtail.Base.{arith}
use rtail.Rql.Agreement.{
  IsOrder, Cell, is_true, tested_column, order_of_ranks, OnlyText, ConditionRow, Holds, is_severity,
  is_timestamp,
}
use rtail.Rql.Predicate.{Predicate, on_field, has_field, comparison_predicate}
use rtail.Rql.Agreement.Leaves.{tested, choice, choice-Agrees, Holds-cases}
use rtail.Rql.Agreement.Missing.{Agrees}

module _ {F T : Type 0} (lib : Library F T) (json_path : Text → Text → Option (Value F))
    (row : ConditionRow lib) (rec : LogRecord F T) where
  -- A compiled filter at the record
  abbrev pub live : Compiled (Predicate lib json_path) → Compiled Bool
  live c = map_fine (λ p. p rec) c

  abbrev pub Same : Compiled (Predicate lib json_path) → Compiled (Condition F T) → Type 0
  Same p c = Agrees lib row (live p) c

  live_timed :
      (field : Text) (op : Op) (t : Compiled T)
      → live (
          t >>= λ at.
          fine (λ rec'. compare_times lib (timestamp_of lib json_path rec' field) at op))
        ≡ (t >>= λ at. fine (compare_times lib (timestamp_of lib json_path rec field) at op))
  live_timed field op (fine t) = refl
  live_timed field op (fails e) = refl

  pub on_field-tested :
      (field : Text) (test : Value F → Bool)
      → on_field lib json_path field test rec
        ≡ tested lib json_path row (lookup_field lib json_path rec field) test
  unfolding on_field tested
  on_field-tested field test = elim (Option-cases (lookup_field lib json_path rec field)) [
    | inl missing ↦ rw (missing, on_field, tested) refl
    | inr (v, found) ↦ rw (found, on_field, tested) refl
  ]

  ordered_predicate-choice :
      (field : Text) (op : Op) (l : Literal F)
      → live (ordered_predicate lib json_path field op l)
        ≡ choice lib json_path row
            (is_severity_field field)
            (is_timestamp_field field)
            op
            l
            (timestamp_of lib json_path rec field)
            (lookup_field lib json_path rec field)
  unfolding ordered_predicate choice
  ordered_predicate-choice field op l =
      let R : Compiled (Predicate lib json_path) → Compiled Bool → Type 0 = λ p c. live p ≡ c in
      if_both R (is_severity_field field) (λ _. ap fine (on_field-tested field _))
        (λ _.
          if_both R (is_timestamp_field field) (λ _. live_timed field op (timestamp lib l))
            (λ _. ap fine (on_field-tested field _)))

  -- What a resolved field and its column are to each other
  abbrev pub Resolved : Text → Text → FieldKind → Type 0
  Resolved field e kind =
      (is_severity_field field ≡ is_severity kind)
      × (is_timestamp_field field ≡ is_timestamp kind)
      × Holds lib row.varchar kind (timestamp_of lib json_path rec field)
          (lookup_field lib json_path rec field) (row.column e)

  abbrev pub Ranked : Type 0
  Ranked =
      (a b : ℕ) (op : Op)
      → a < 2 ^ 53
      → b < 2 ^ 53
      → compare_floats lib (lib.float_of_int (ℤ.pos a)) (lib.float_of_int (ℤ.pos b)) op
        ≡ compare_order (order_of_ranks a b) op

  abbrev pub found_or_not : Option (Value F) → Bool
  found_or_not none = false
  found_or_not (some v) = true

  pub has_field-found :
      (field : Text)
      → has_field lib json_path field rec ≡ found_or_not (lookup_field lib json_path rec field)
  unfolding has_field
  has_field-found field = elim (Option-cases (lookup_field lib json_path rec field)) [
    | inl missing ↦ rw (missing, has_field) refl
    | inr (v, found) ↦ rw (found, has_field) refl
  ]

  has_field-Same :
      (field e : Text) (kind : FieldKind)
      → Resolved field e kind
      → Same (fine (has_field lib json_path field)) (fine (is_not_null e))
        × Same (fine (λ rec'. not (has_field lib json_path field rec'))) (fine (is_null e))
  has_field-Same field e kind h =
      rw (has_field-found field) (elim (Holds-cases lib json_path row kind _ _ _ h.2) [
        | inl (missing, empty) ↦
            rw missing
              (ap is_true (row.absent_law e empty).1, ap is_true (row.absent_law e empty).0)
        | inr (v, c, found, stored, text, only) ↦
            rw found
              (ap is_true (row.present_law e c stored).1, ap is_true (row.present_law e c stored).0)
      ])

  -- A test of the field's text, and a condition on the column's
  tested-Same :
      (field e : Text) (kind : FieldKind) (test : Text → Bool) (condition : Condition F T)
      → Resolved field e kind
      → tested_column condition ≡ some e
      → ((c : Cell F T)
          → row.column e ≡ some c
          → OnlyText kind c
          → row.truth condition ≡ some (test (row.varchar c)))
      → Same (fine (on_field lib json_path field (λ v. test (text_of lib v)))) (fine condition)
  unfolding tested
  tested-Same field e kind test condition h tests law =
      let found : is_true (row.truth condition)
          ≡ tested lib json_path row (lookup_field lib json_path rec field)
              (λ v. test (text_of lib v)) =
        elim (Holds-cases lib json_path row kind _ _ _ h.2) [
          | inl (missing, empty) ↦ rw missing (ap is_true (row.null_law condition e tests empty))
          | inr (v, c, found, stored, text, only) ↦
              rw (found, ← text) (ap is_true (law c stored only))
        ] in
      found ∙ sym (on_field-tested field _)

  part-Same :
      (field e : Text) (kind : FieldKind) (part : Text)
      → Resolved field e kind
      → Same
          (fine (
            on_field lib json_path field
              (λ v. lib.contained (lib.lower (text_of lib v)) (lib.lower part))))
          (fine (part_match e kind part))
  unfolding tested_column
  part-Same field e kind part h =
      tested-Same field e kind (λ t. lib.contained (lib.lower t) (lib.lower part))
        (part_match e kind part) h refl (λ c stored only. row.part_law e kind part c stored only)

  pattern-Same :
      (field e : Text) (kind : FieldKind) (t : Text) (pattern : Text → Bool)
      → Resolved field e kind
      → lib.compile_pattern t ≡ some pattern
      → Same
          (fine (on_field lib json_path field (λ v. pattern (text_of lib v))))
          (fine (pattern_match e kind t))
  unfolding tested_column
  pattern-Same field e kind t pattern h compiled =
      tested-Same field e kind pattern (pattern_match e kind t) h refl
        (λ c stored only. row.pattern_law e kind t pattern c stored only compiled)

  ordered-Same :
      (field e : Text) (kind : FieldKind) (op : Op) (l : Literal F)
      → IsOrder op
      → Ranked
      → Resolved field e kind
      → Same (ordered_predicate lib json_path field op l) (plan_ordered lib e kind op l)
  ordered-Same field e kind op l ord ranked (severity, time, held) =
      rw (ordered_predicate-choice field op l, severity, time)
        (choice-Agrees lib json_path row e kind op ord l _ _ _ held refl ranked)

  -- `matches`, `contains` and the operators that order, in the order of each compiler
  valued-Same :
      (field e : Text) (kind : FieldKind) (op : Op) (l : Literal F)
      → op_eq op exists ≡ false
      → Ranked
      → Resolved field e kind
      → Same
          (if op_eq op matches
            then elim (lib.compile_pattern (str_of l))
                as (λ _. Compiled (Predicate lib json_path)) [
                  | none ↦ fails (bad_pattern (str_of l))
                  | some pattern ↦
                      fine (on_field lib json_path field (λ v. pattern (text_of lib v)))
                ]
            else (if op_eq op contains
                then fine (
                    on_field lib json_path field
                      (λ v. lib.contained (lib.lower (text_of lib v)) (lib.lower (str_of l))))
                else ordered_predicate lib json_path field op l))
          (if op_eq op contains
            then fine (part_match e kind (str_of l))
            else (if op_eq op matches
                then elim (lib.compile_pattern (str_of l)) as (λ _. Compiled (Condition F T)) [
                  | none ↦ fails (bad_pattern (str_of l))
                  | some pattern ↦ fine (pattern_match e kind (str_of l))
                ]
                else plan_ordered lib e kind op l))
  unfolding op_eq
  valued-Same field e kind contains l other ranked h = part-Same field e kind (str_of l) h
  valued-Same field e kind matches l other ranked h =
      elim (Option-cases (lib.compile_pattern (str_of l))) [
        | inl missing ↦ rw missing tt
        | inr (pattern, found) ↦ rw found (pattern-Same field e kind (str_of l) pattern h found)
      ]
  valued-Same field e kind equals l other ranked h = ordered-Same field e kind equals l tt ranked h
  valued-Same field e kind less l other ranked h = ordered-Same field e kind less l tt ranked h
  valued-Same field e kind less_equal l other ranked h =
      ordered-Same field e kind less_equal l tt ranked h
  valued-Same field e kind greater l other ranked h =
      ordered-Same field e kind greater l tt ranked h
  valued-Same field e kind greater_equal l other ranked h =
      ordered-Same field e kind greater_equal l tt ranked h
  valued-Same field e kind exists l other ranked h = absurd (ground (arith, other))

  pub comparison_predicate-Same :
      (field e : Text) (kind : FieldKind) (op : Op) (l : Literal F)
      → Ranked
      → Resolved field e kind
      → Same (comparison_predicate lib json_path field op l) (plan_resolved lib e kind op l)
  unfolding comparison_predicate plan_resolved
  comparison_predicate-Same field e kind op l ranked h =
      if_both Same (op_eq op exists) (λ _. (has_field-Same field e kind h).0)
        (λ other.
          if_both Same (is_null_literal l)
            (λ _. if_both Same (op_eq op equals) (λ _. (has_field-Same field e kind h).1) (λ _. tt))
            (λ _. valued-Same field e kind op l other ranked h))
