-- ===== src/Rql/Sql/Planned.antt =====
-- What the conditions of `ToSQL` in internal/rql/sql.go read: the resolver's columns.
use rtail.Base.{Bool-cases, inl, inr, if_split}
use rtail.Base.{◌≡◌, some}
use rtail.Rql.Parse.{op_eq}
use rtail.Rql.Sql.{
  FieldKind, field_string, field_number, field_bool, field_json, field_severity, field_timestamp,
  Resolver,
}
use rtail.Rql.Syntax.{
  Text, Op, Literal, Node, Nodes, equals, contains, matches, exists, string, number, bool, null,
  wildcard, comparison, full_text, all_of, any_of, negation, nil, cons,
}
use rtail.Rql.Values.{Library, str_of, is_null_literal, timestamp, Compiled, fine, fails, ◌>>=◌}
use rtail.Base.{option_split}
use rtail.Rql.Sql.Plan.{
  Condition, Conditions, time_order, and_all, or_all, not_true, one_more, plan_ordered,
  plan_resolved, plan_comparison, plan, plan_parts,
}
use rtail.Rql.Sql.Holes.{Columns, ColumnsAll}

module _ {F T : Type 0} where
  -- Of a plan that succeeds
  abbrev pub Planned : (Text → Type 0) → Compiled (Condition F T) → Type 0
  Planned Q (fine c) = Columns Q c
  Planned Q (fails e) = Unit

  abbrev pub PlannedAll : (Text → Type 0) → Compiled (Conditions F T) → Type 0
  PlannedAll Q (fine cs) = ColumnsAll Q cs
  PlannedAll Q (fails e) = Unit

module _ {F T : Type 0} (lib : Library F T) (Q : Text → Type 0) where
  Planned-time :
      (e : Text) (op : Op) (at : Compiled T)
      → Q e
      → Planned {F = F} {T = T} Q (at >>= λ t. fine (time_order e op t))
  unfolding Columns
  Planned-time e op (fine t) h = h
  Planned-time e op (fails err) h = tt

  plan_ordered-Planned :
      (e : Text) (kind : FieldKind) (op : Op) (literal : Literal F)
      → Q e
      → Planned Q (plan_ordered lib e kind op literal)
  unfolding plan_ordered Columns
  plan_ordered-Planned e field_severity op literal h = elim (Bool-cases (op_eq op equals)) [
    | inl same ↦ rw same h
    | inr other ↦ rw other h
  ]
  plan_ordered-Planned e field_number op (string q t) h = tt
  plan_ordered-Planned e field_number op (number x t) h = h
  plan_ordered-Planned e field_number op (bool b t) h = tt
  plan_ordered-Planned e field_number op (null t) h = tt
  plan_ordered-Planned e field_number op wildcard h = tt
  plan_ordered-Planned e field_bool op (string q t) h = tt
  plan_ordered-Planned e field_bool op (number x t) h = tt
  plan_ordered-Planned e field_bool op (bool b t) h = h
  plan_ordered-Planned e field_bool op (null t) h = tt
  plan_ordered-Planned e field_bool op wildcard h = tt
  plan_ordered-Planned e field_timestamp op literal h = Planned-time e op (timestamp lib literal) h
  plan_ordered-Planned e field_string op (string q t) h = h
  plan_ordered-Planned e field_string op (number x t) h = h
  plan_ordered-Planned e field_string op (bool b t) h = h
  plan_ordered-Planned e field_string op (null t) h = h
  plan_ordered-Planned e field_string op wildcard h = h
  plan_ordered-Planned e field_json op (string q t) h = h
  plan_ordered-Planned e field_json op (number x t) h = h
  plan_ordered-Planned e field_json op (bool b t) h = h
  plan_ordered-Planned e field_json op (null t) h = h
  plan_ordered-Planned e field_json op wildcard h = h

  plan_resolved-Planned :
      (e : Text) (kind : FieldKind) (op : Op) (literal : Literal F)
      → Q e
      → Planned Q (plan_resolved lib e kind op literal)
  unfolding plan_resolved Columns
  plan_resolved-Planned e kind op literal h =
      if_split (Planned Q) (op_eq op exists) (λ _. h)
        (λ _.
          if_split (Planned Q) (is_null_literal literal)
            (λ _. if_split (Planned Q) (op_eq op equals) (λ _. h) (λ _. tt))
            (λ _.
              if_split (Planned Q) (op_eq op contains) (λ _. h)
                (λ _.
                  if_split (Planned Q) (op_eq op matches)
                    (λ _.
                      option_split (Planned Q) (lib.compile_pattern (str_of literal)) _ _ (λ _. tt)
                        (λ pattern _. h))
                    (λ _. plan_ordered-Planned e kind op literal h))))

  module _ (resolve : Resolver)
      (known : (field e : Text) (kind : FieldKind) → resolve field ≡ some (e, kind) → Q e) where
    plan_comparison-Planned :
        (field : Text) (op : Op) (literal : Literal F)
        → Planned Q (plan_comparison lib resolve field op literal)
    unfolding plan_comparison Columns
    plan_comparison-Planned field op literal =
        option_split (Planned Q) (resolve field) _ _ (λ _. tt)
          (λ r found. plan_resolved-Planned r.0 r.1 op literal (known field r.0 r.1 found))

    all-Planned :
        (cs : Compiled (Conditions F T))
        → PlannedAll Q cs
        → Planned Q (cs >>= λ c. fine (and_all c))
    unfolding Columns
    all-Planned (fine cs) h = h
    all-Planned (fails e) h = tt

    any-Planned :
        (cs : Compiled (Conditions F T)) → PlannedAll Q cs → Planned Q (cs >>= λ c. fine (or_all c))
    unfolding Columns
    any-Planned (fine cs) h = h
    any-Planned (fails e) h = tt

    not-Planned :
        (c : Compiled (Condition F T)) → Planned Q c → Planned Q (c >>= λ c'. fine (not_true c'))
    unfolding Columns
    not-Planned (fine c) h = h
    not-Planned (fails e) h = tt

    cons-PlannedAll :
        (c : Compiled (Condition F T)) (cs : Compiled (Conditions F T))
        → Planned Q c
        → PlannedAll Q cs
        → PlannedAll Q (c >>= λ c'. cs >>= λ cs'. fine (one_more c' cs'))
    unfolding Columns
    cons-PlannedAll (fine c) (fine cs) h hs = (h, hs)
    cons-PlannedAll (fine c) (fails e) h hs = tt
    cons-PlannedAll (fails e) cs h hs = tt

    mutual
      unfolding plan Columns

      pub plan-Planned : (n : Node F) → Planned Q (plan lib resolve n)
      plan-Planned (comparison field op literal) = plan_comparison-Planned field op literal
      plan-Planned (full_text value) = tt
      plan-Planned (all_of ns) = all-Planned (plan_parts lib resolve ns) (plan_parts-PlannedAll ns)
      plan-Planned (any_of ns) = any-Planned (plan_parts lib resolve ns) (plan_parts-PlannedAll ns)
      plan-Planned (negation n) = not-Planned (plan lib resolve n) (plan-Planned n)

      plan_parts-PlannedAll : (ns : Nodes F) → PlannedAll Q (plan_parts lib resolve ns)
      plan_parts-PlannedAll nil = tt
      plan_parts-PlannedAll (cons n ns) =
          cons-PlannedAll (plan lib resolve n) (plan_parts lib resolve ns) (plan-Planned n)
            (plan_parts-PlannedAll ns)
