-- ===== src/Rql/Agreement/Whole.antt =====
-- A whole query of internal/rql, live and in SQL.
use rtail.Base.{
  ◌≢◌, ◌≡◌, refl, ap, ◌∙◌, Bool, true, false, not, ◌&&◌, ◌||◌, Option, none, some, List, [], ◌∷◌,
  codes, bytes_eq,
}
use rtail.Rql.Parse.{op_eq}
use rtail.Rql.Syntax.{
  Text, Op, Literal, Node, Nodes, contains, matches, exists, comparison, full_text, all_of, any_of,
  negation, nil, cons,
}
use mathlib.Core.Path.{subst}
use rtail.Base.{Bool-cases, Option-cases, option_split, if_split, inl, inr, bytes_eq_iff}
use rtail.Rql.Values.{
  Library, Value, LogRecord, str_of, is_null_literal, Compiled, fine, fails, ◌>>=◌, Compiled-cases,
}
use rtail.Rql.Predicate.{
  is_severity_field, Predicate, on_field, ordered_predicate, comparison_predicate,
}
use rtail.Rql.Sql.{Resolver}
use rtail.Rql.Sql.Plan.{
  Condition, Conditions, sql_false, text_match, and_all, or_all, not_true, one_more,
  plan_comparison,
}
use rtail.Rql.Sql.Statement.{Sql, print, sql_of, render-print}
use rtail.Rql.Agreement.Duck.{DuckRow, GoLaws}
use rtail.Rql.Agreement.Laws.{conditions}
use rtail.Rql.Agreement.{text_cell, is_true, or_truth, ConditionRow, Stored}
use rtail.Rql.Predicate.{Predicate, on_field, comparison_predicate}
use rtail.Rql.Agreement.Leaves.{tested}
use rtail.Rql.Agreement.{and_truth, and_of, or_of}
use rtail.Rql.Agreement.Comparisons.{
  Same, comparison_predicate-Same, on_field-tested, has_field-found,
}
use rtail.Rql.Agreement.Missing.{false-NotTrue}
use rtail.Rql.Predicate.{text_predicate, all_match, any_match, to_predicate, compile_all}
use rtail.Rql.Sql.{to_sql}
use rtail.Rql.Sql.Plan.{render, plan, plan_parts, compile-plan}

-- A query that the parser returns, and which asks for null of no column that the scan does not have
unfoldable mutual
  pub Proper : {F : Type 0} → Resolver → Node F → Type 0
  Proper resolve (comparison field op l) = is_null_literal l ≡ true → resolve field ≢ none
  Proper resolve (full_text value) = Unit
  Proper resolve (all_of ns) = SomeProper resolve ns
  Proper resolve (any_of ns) = SomeProper resolve ns
  Proper resolve (negation n) = Proper resolve n

  SomeProper : {F : Type 0} → Resolver → Nodes F → Type 0
  SomeProper resolve nil = ⊥
  SomeProper resolve (cons n ns) = Proper resolve n × AllProper resolve ns

  AllProper : {F : Type 0} → Resolver → Nodes F → Type 0
  AllProper resolve nil = Unit
  AllProper resolve (cons n ns) = Proper resolve n × AllProper resolve ns

is_true-and_truth : (a b : Option Bool) → is_true (and_truth a b) ≡ (is_true a && is_true b)
unfolding and_truth
is_true-and_truth (some false) b = refl
is_true-and_truth (some true) b = refl
is_true-and_truth none none = refl
is_true-and_truth none (some false) = refl
is_true-and_truth none (some true) = refl

is_true-or_truth : (a b : Option Bool) → is_true (or_truth a b) ≡ (is_true a || is_true b)
unfolding or_truth
is_true-or_truth (some true) b = refl
is_true-or_truth (some false) b = refl
is_true-or_truth none none = refl
is_true-or_truth none (some false) = refl
is_true-or_truth none (some true) = refl

empty_or : (part rest : Bool) → (part ≡ true → rest ≡ true) → rest ≡ (part || rest)
empty_or true rest h = h refl
empty_or false rest h = refl

module _ {F T : Type 0} (lib : Library F T) (json_path : Text → Text → Option (Value F))
    (resolve : Resolver) (rec : LogRecord F T) (row : ConditionRow lib) where
  abbrev SameAll : Compiled (List (Predicate lib json_path)) → Compiled (Conditions F T) → Type 0
  SameAll (fine ps) (fine cs) =
      (is_true (and_of row.truth cs) ≡ all_match lib json_path ps rec)
      × (is_true (or_of row.truth cs) ≡ any_match lib json_path ps rec)
  SameAll (fine ps) (fails e) = ⊥
  SameAll (fails e) c = Unit

  cons-SameAll :
      (p : Compiled (Predicate lib json_path)) (ps : Compiled (List (Predicate lib json_path)))
      (c : Compiled (Condition F T)) (cs : Compiled (Conditions F T))
      → Same lib json_path row rec p c
      → SameAll ps cs
      → SameAll
          (p >>= λ p'. ps >>= λ ps'. fine (p' ∷ ps'))
          (c >>= λ c'. cs >>= λ cs'. fine (one_more c' cs'))
  unfolding and_of or_of all_match any_match
  cons-SameAll (fails e) ps c cs h hs = tt
  cons-SameAll (fine p) (fails e) c cs h hs = tt
  cons-SameAll (fine p) (fine ps) (fails e) cs h hs = absurd h
  cons-SameAll (fine p) (fine ps) (fine c) (fails e) h hs = absurd hs
  cons-SameAll (fine p) (fine ps) (fine c) (fine cs) h (hs, hs') = (
    is_true-and_truth (row.truth c) (and_of row.truth cs) ∙ rw (h, hs) refl,
    is_true-or_truth (row.truth c) (or_of row.truth cs) ∙ rw (h, hs') refl,
  )

  -- AND and OR of one part and more
  chain-Same :
      (p : Compiled (Predicate lib json_path)) (ps : Compiled (List (Predicate lib json_path)))
      (c : Compiled (Condition F T)) (cs : Compiled (Conditions F T))
      → SameAll
          (p >>= λ p'. ps >>= λ ps'. fine (p' ∷ ps'))
          (c >>= λ c'. cs >>= λ cs'. fine (one_more c' cs'))
      → Same lib json_path row rec
          ((p >>= λ p'. ps >>= λ ps'. fine (p' ∷ ps')) >>= λ qs. fine (all_match lib json_path qs))
          ((c >>= λ c'. cs >>= λ cs'. fine (one_more c' cs')) >>= λ ds. fine (and_all ds))
        × Same lib json_path row rec
            ((p >>= λ p'. ps >>= λ ps'. fine (p' ∷ ps')) >>= λ qs.
              fine (any_match lib json_path qs))
            ((c >>= λ c'. cs >>= λ cs'. fine (one_more c' cs')) >>= λ ds. fine (or_all ds))
  chain-Same (fails e) ps c cs h = (tt, tt)
  chain-Same (fine p) (fails e) c cs h = (tt, tt)
  chain-Same (fine p) (fine ps) (fails e) cs h = absurd h
  chain-Same (fine p) (fine ps) (fine c) (fails e) h = absurd h
  chain-Same (fine p) (fine ps) (fine c) (fine cs) h =
      (ap is_true (row.and_law c cs) ∙ h.0, ap is_true (row.or_law c cs) ∙ h.1)

  not-Same :
      (p : Compiled (Predicate lib json_path)) (c : Compiled (Condition F T))
      → Same lib json_path row rec p c
      → Same lib json_path row rec
          (p >>= λ p'. fine (λ rec'. not (p' rec')))
          (c >>= λ c'. fine (not_true c'))
  not-Same (fails e) c h = tt
  not-Same (fine p) (fails e) h = absurd h
  not-Same (fine p) (fine c) h = ap is_true (row.not_law c) ∙ ap not h

  module _ (stored : Stored lib json_path resolve rec row.column row.varchar) where
    text_predicate-Same :
        (value : Text)
        → is_true (row.truth (text_match value)) ≡ text_predicate lib json_path value rec
    unfolding text_predicate
    text_predicate-Same value = elim (Bool-cases (bytes_eq rec.msg [])) [
      | inl empty ↦
          let at : row.column (codes "msg") ≡ none = stored.msg_stored ∙ rw empty refl in
          ap is_true (row.text_law value none (some rec.raw) at stored.raw_stored)
          ∙ is_true-or_truth none (some (lib.contained (lib.lower rec.raw) (lib.lower value)))
          ∙ rw ((bytes_eq_iff rec.msg []).0 empty) (
              empty_or (lib.contained (lib.lower []) (lib.lower value)) _
                (λ part. row.empty_part (lib.lower value) part (lib.lower rec.raw)))
      | inr full ↦
          let at : row.column (codes "msg") ≡ some (text_cell rec.msg) =
            stored.msg_stored ∙ rw full refl in
          ap is_true (row.text_law value (some rec.msg) (some rec.raw) at stored.raw_stored)
          ∙ is_true-or_truth (some _) (some _)
    ]

    -- A field that the scan has no column for
    unresolved-Same :
        (field : Text) (op : Op) (l : Literal F)
        → is_null_literal l ≡ false
        → resolve field ≡ none
        → Same lib json_path row rec
            (comparison_predicate lib json_path field op l)
            (fine sql_false)
    unfolding comparison_predicate ordered_predicate tested
    unresolved-Same field op l not_null missing =
        let answers : Compiled (Predicate lib json_path) → Type 0 =
          λ p. Same lib json_path row rec p (fine sql_false) in
        let (nothing, timeless) = stored.not_stored field missing in
        let never : (test : Value F → Bool) → answers (fine (on_field lib json_path field test)) =
          λ test.
            rw (on_field-tested lib json_path row rec field test, nothing)
              (false-NotTrue lib row) in
        if_split answers (op_eq op exists)
          (λ _. rw (has_field-found lib json_path row rec field, nothing) (false-NotTrue lib row))
          (λ _. rw not_null (
            if_split answers (op_eq op matches)
              (λ _.
                option_split answers (lib.compile_pattern (str_of l)) _ _ (λ _. tt)
                  (λ pattern _. never _))
              (λ _.
                if_split answers (op_eq op contains) (λ _. never _)
                  (λ _.
                    if_split answers (is_severity_field field) (λ _. never _)
                      (λ _. rw timeless (never _))))))

    comparison-Same :
        (field : Text) (op : Op) (l : Literal F)
        → (is_null_literal l ≡ true → resolve field ≢ none)
        → Same lib json_path row rec
            (comparison_predicate lib json_path field op l)
            (plan_comparison lib resolve field op l)
    unfolding plan_comparison
    comparison-Same field op l proper = elim (Option-cases (resolve field)) [
      | inl missing ↦ elim (Bool-cases (is_null_literal l)) [
        | inl asks ↦ absurd (proper asks missing)
        | inr other ↦ rw (missing, plan_comparison) (unresolved-Same field op l other missing)
      ]
      | inr ((e, kind), found) ↦
          rw (found, plan_comparison)
            (comparison_predicate-Same lib json_path row rec field e kind op l row.ranks_exact
              (stored.field_stored field e kind found))
    ]

    mutual
      unfolding to_predicate plan Proper and_of or_of all_match any_match

      node-Same :
          (n : Node F)
          → Proper resolve n
          → Same lib json_path row rec (to_predicate lib json_path n) (plan lib resolve n)
      node-Same (comparison field op l) h = comparison-Same field op l h
      node-Same (full_text value) h = text_predicate-Same value
      node-Same (all_of nil) h = absurd h
      node-Same (all_of (cons n ns)) h = (chain-Same _ _ _ _ (parts-SameAll (cons n ns) h)).0
      node-Same (any_of nil) h = absurd h
      node-Same (any_of (cons n ns)) h = (chain-Same _ _ _ _ (parts-SameAll (cons n ns) h)).1
      node-Same (negation n) h = not-Same _ _ (node-Same n h)

      parts-SameAll :
          (ns : Nodes F)
          → AllProper resolve ns
          → SameAll (compile_all lib json_path ns) (plan_parts lib resolve ns)
      parts-SameAll nil h = (refl, refl)
      parts-SameAll (cons n ns) (h, hs) = cons-SameAll _ _ _ _ (node-Same n h) (parts-SameAll ns hs)

    to_predicate-render :
        (n : Node F) (p : Predicate lib json_path)
        → Proper resolve n
        → to_predicate lib json_path n ≡ fine p
        → (c : Condition F T) × (to_sql lib resolve (some n) ≡ fine (render c []))
          × (is_true (row.truth c) ≡ p rec)
    unfolding to_sql
    to_predicate-render n p proper compiled =
        let agree : Same lib json_path row rec (fine p) (plan lib resolve n) =
          subst (λ q. Same lib json_path row rec q (plan lib resolve n)) compiled
            (node-Same n proper) in
        let written = compile-plan lib resolve n [] in
        elim (Compiled-cases (plan lib resolve n)) [
          | inl (c, planned) ↦ (
            c,
            written ∙ rw planned refl,
            subst (λ d. Same lib json_path row rec (fine p) d) planned agree,
          )
          | inr (e, planned) ↦
              absurd (subst (λ d. Same lib json_path row rec (fine p) d) planned agree)
        ]

module _ {F T : Type 0} (lib : Library F T) (json_path : Text → Text → Option (Value F))
    (resolve : Resolver) (rec : LogRecord F T) (row : DuckRow lib) (go : GoLaws lib)
    (stored : Stored lib json_path resolve rec row.column row.varchar) where
  -- For a query that the live filter takes, whose AND and OR have children and which compares with
  -- null no field without a column, ToSQL answers by the text and the arguments of an SQL form
  -- that is true of the row exactly when the live filter passes the record. The form's text is
  -- spelled out in `print`, operators, casts, LIKE patterns and the CASE of levels included. The
  -- conditions are that the columns hold the record's fields as the resolver reads them, that
  -- DuckDB treats the forms as `DuckRow` says, and Go's texts and floats are as `GoLaws` says.
  pub to_predicate-to_sql :
      (n : Node F) (p : Predicate lib json_path)
      → Proper resolve n
      → to_predicate lib json_path n ≡ fine p
      → (s : Sql F T) × (to_sql lib resolve (some n) ≡ fine (print s []))
        × (is_true (row.truth s) ≡ p rec)
  unfolding conditions
  to_predicate-to_sql n p proper compiled =
      let (c, written, agrees) =
        to_predicate-render lib json_path resolve rec (conditions lib go row) stored n p proper
          compiled in
      (sql_of c, written ∙ ap fine (render-print c []), agrees)
