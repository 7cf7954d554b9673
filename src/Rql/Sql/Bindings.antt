-- ===== src/Rql/Sql/Bindings.antt =====
-- `ToSQL` of internal/rql/sql.go binds an argument for each placeholder.

use rtail.Base.{◌≡◌, refl, sym, ◌∙◌, Option, none, some, [], arith, codes}
use rtail.Rql.Sql.{FieldKind, Resolver, Args, Emitted, to_sql}
use rtail.Rql.Syntax.{Text, Node}
use rtail.Rql.Values.{Library, Compiled, fine, fails, map_fine, fine_inj}
use rtail.Base.{length}
use mathlib.Core.Path.{subst}
use rtail.Rql.Sql.Plan.{Condition, render, plan, compile-plan}
use rtail.Rql.Sql.Holes.{ends_inside, holes, HasHoles, Adds, render-Adds}
use rtail.Rql.Sql.Planned.{Planned, plan-Planned}

-- The resolver answers by expressions that close their literals and have no placeholder.
abbrev pub Plain : Resolver → Type 0
Plain resolve = (field e : Text) (kind : FieldKind) → resolve field ≡ some (e, kind) → HasHoles 0 e

true-HasHoles : HasHoles 0 (codes "TRUE")
unfolding ends_inside holes
true-HasHoles = record { closed = refl; counted = refl }

written-Adds :
    {F T : Type 0} (args : Args F T) (c : Compiled (Condition F T)) (r : Emitted F T)
    → Planned (HasHoles 0) c
    → map_fine (λ c'. render c' args) c ≡ fine r
    → Adds args r
unfolding render
written-Adds args (fine c) r h e =
    subst (Adds args) (fine_inj (render c args) r e) (render-Adds c args h)
written-Adds args (fails err) r h e = absurd (ground (arith, e))

-- Where ToSQL answers, its text closes its string literals and has outside of them as many
-- placeholders as there are arguments. The condition is that the expressions of the resolver close
-- their literals and have no placeholder.
pub to_sql-HasHoles :
    {F T : Type 0} (lib : Library F T) (resolve : Resolver) (query : Option (Node F)) (text : Text)
    (args : Args F T)
    → Plain resolve
    → to_sql lib resolve query ≡ fine (text, args)
    → HasHoles (length args) text
unfolding to_sql
to_sql-HasHoles lib resolve none text args plain e =
    let same : (codes "TRUE", []) ≡ (text, args) = fine_inj (codes "TRUE", []) (text, args) e in
    subst (λ r. HasHoles (length r.1) r.0) same true-HasHoles
to_sql-HasHoles lib resolve (some n) text args plain e =
    let (new, all_new, h) =
      written-Adds [] (plan lib resolve n) (text, args)
        (plan-Planned lib (HasHoles 0) resolve plain n) (sym (compile-plan lib resolve n []) ∙ e) in
    subst (λ k. HasHoles (length k) text) (sym all_new) h
