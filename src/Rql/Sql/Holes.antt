-- ===== src/Rql/Sql/Holes.antt =====
-- Placeholders and arguments of what `ToSQL` of internal/rql/sql.go writes.

use rtail.Base.{
  ℕ, suc, ◌+◌, ◌≡◌, refl, sym, ap, ◌∙◌, Bool, false, not, ◌&&◌, List, [], ◌∷◌, ◌++◌, arith, ◌==◌,
  if◌then◌else◌, codes, bytes_eq, lookup,
}
use rtail.Rql.Sql.{
  two_digits, rank_of, when_levels, FieldKind, field_string, field_number, field_bool, field_json,
  field_severity, field_timestamp, Arg, text_arg, operator, severity_case, cast_text, like_pattern,
  Args, Emitted, join_texts, bound, compile_text,
}
use rtail.Rql.Syntax.{
  Text, Op, equals, contains, matches, less, less_equal, greater, greater_equal, exists,
}
use rtail.Rql.Values.{
  severity_rank, levels, default_severity_rank, if_both, severity_rank, levels,
  default_severity_rank,
}
use rtail.Base.{length, length-append, append_assoc, append-nil}
use mathlib.Core.Path.{subst}
use rtail.Rql.Sql.Plan.{
  Condition, Conditions, sql_false, text_match, is_null, is_not_null, part_match, pattern_match,
  level_is, level_order, number_order, cast_order, bool_order, time_order, text_order, and_all,
  or_all, not_true, none_of, one_more, ordering, render, render_parts,
}

-- Whether the text ends inside of a string literal, and its placeholders outside of those
unfoldable pub ends_inside : Bool → Text → Bool
ends_inside inside [] = inside
ends_inside inside (c ∷ cs) = ends_inside (if c == 39 then not inside else inside) cs

unfoldable pub holes : Bool → Text → ℕ
holes inside [] = 0
holes inside (c ∷ cs) =
    let rest = holes (if c == 39 then not inside else inside) cs in
    if c == 63 && not inside then suc rest else rest

-- The text closes its literals, and has n placeholders.
pub record HasHoles (n : ℕ) (t : Text) : Type 0 where
  pub closed : ends_inside false t ≡ false
  pub counted : holes false t ≡ n

fixed : {n : ℕ} {t : Text} → ends_inside false t ≡ false → holes false t ≡ n → HasHoles n t
fixed e h = record { closed = e; counted = h }

ends_inside-append :
    (inside : Bool) (s t : Text)
    → ends_inside inside (s ++ t) ≡ ends_inside (ends_inside inside s) t
unfolding ends_inside
ends_inside-append inside [] t = refl
ends_inside-append inside (c ∷ s) t =
    ends_inside-append (if c == 39 then not inside else inside) s t

holes-append :
    (inside : Bool) (s t : Text)
    → holes inside (s ++ t) ≡ holes inside s + holes (ends_inside inside s) t
unfolding holes ends_inside
holes-append inside [] t = omega arith
holes-append inside (c ∷ s) t =
    let inside' = if c == 39 then not inside else inside in
    let ih = holes-append inside' s t in
    if_both (λ (a b : ℕ). a ≡ b + holes (ends_inside inside' s) t) (c == 63 && not inside)
      (λ _. omega (arith, ih)) (λ _. ih)

HasHoles-append :
    {k m n : ℕ} {s t : Text} → HasHoles m s → HasHoles n t → k ≡ m + n → HasHoles k (s ++ t)
HasHoles-append {k} {m} {n} {s} {t} a b e =
    fixed (ends_inside-append false s t ∙ ap (λ b. ends_inside b t) a.closed ∙ b.closed) (
      holes-append false s t
      ∙ ap (λ b. holes false s + holes b t) a.closed
      ∙ omega (arith, a.counted, b.counted, e))

HasHoles-front : {n : ℕ} {s t : Text} → HasHoles 0 s → HasHoles n t → HasHoles n (s ++ t)
HasHoles-front hs ht = HasHoles-append hs ht (omega arith)

HasHoles-back : {n : ℕ} {s t : Text} → HasHoles n s → HasHoles 0 t → HasHoles n (s ++ t)
HasHoles-back hs ht = HasHoles-append hs ht (omega arith)

HasHoles-operator : (op : Op) → HasHoles 0 (operator op)
unfolding operator ends_inside holes
HasHoles-operator equals = fixed refl refl
HasHoles-operator less = fixed refl refl
HasHoles-operator less_equal = fixed refl refl
HasHoles-operator greater = fixed refl refl
HasHoles-operator greater_equal = fixed refl refl
HasHoles-operator contains = fixed refl refl
HasHoles-operator matches = fixed refl refl
HasHoles-operator exists = fixed refl refl

-- A text between two fixed ones
HasHoles-between :
    (before after t : Text) (n : ℕ)
    → HasHoles 0 before
    → HasHoles 0 after
    → HasHoles n t
    → HasHoles n (before ++ t ++ after)
HasHoles-between before after t n hb ha ht = HasHoles-back (HasHoles-front hb ht) ha

-- An expression, an operator and a placeholder
HasHoles-ordering :
    (before after e : Text) (op : Op)
    → HasHoles 0 before
    → HasHoles 0 after
    → HasHoles 0 e
    → HasHoles 0 (before ++ e ++ after ++ operator op ++ codes " ")
HasHoles-ordering before after e op hb ha he =
    HasHoles-back (HasHoles-back (HasHoles-back (HasHoles-front hb he) ha) (HasHoles-operator op))
      (unfold ends_inside in unfold holes in fixed refl refl)

HasHoles-when_levels : HasHoles 0 (when_levels levels)
unfolding ends_inside holes when_levels levels two_digits rank_of severity_rank bytes_eq lookup
HasHoles-when_levels = fixed refl refl

HasHoles-severity_case : (e : Text) → HasHoles 0 e → HasHoles 0 (severity_case e)
unfolding severity_case
HasHoles-severity_case e he =
    let opening : HasHoles 0 (codes "CASE WHEN nullif(") =
      unfold ends_inside in unfold holes in fixed refl refl in
    let absent : HasHoles 0 (codes ", '') IS NULL THEN NULL ELSE CASE upper(") =
      unfold ends_inside in unfold holes in fixed refl refl in
    let closing : HasHoles 0 (codes ")") = unfold ends_inside in unfold holes in fixed refl refl in
    let otherwise : HasHoles 0 (codes " ELSE ") =
      unfold ends_inside in unfold holes in fixed refl refl in
    let number : HasHoles 0 (two_digits default_severity_rank) =
      unfold ends_inside in unfold holes in fixed refl refl in
    let last : HasHoles 0 (codes " END END") =
      unfold ends_inside in unfold holes in fixed refl refl in
    HasHoles-back
      (HasHoles-back
        (HasHoles-back
          (HasHoles-back
            (HasHoles-back (HasHoles-back (HasHoles-back (HasHoles-front opening he) absent) he)
              closing)
            HasHoles-when_levels)
          otherwise)
        number)
      last

HasHoles-cast_text : (e : Text) (kind : FieldKind) → HasHoles 0 e → HasHoles 0 (cast_text e kind)
unfolding cast_text ends_inside holes
HasHoles-cast_text e field_string he = he
HasHoles-cast_text e field_number he =
    HasHoles-between (codes "CAST(") (codes " AS VARCHAR)") e 0 (fixed refl refl) (fixed refl refl)
      he
HasHoles-cast_text e field_bool he =
    HasHoles-between (codes "CAST(") (codes " AS VARCHAR)") e 0 (fixed refl refl) (fixed refl refl)
      he
HasHoles-cast_text e field_json he =
    HasHoles-between (codes "CAST(") (codes " AS VARCHAR)") e 0 (fixed refl refl) (fixed refl refl)
      he
HasHoles-cast_text e field_severity he =
    HasHoles-between (codes "CAST(") (codes " AS VARCHAR)") e 0 (fixed refl refl) (fixed refl refl)
      he
HasHoles-cast_text e field_timestamp he =
    HasHoles-between (codes "CAST(") (codes " AS VARCHAR)") e 0 (fixed refl refl) (fixed refl refl)
      he

join-HasHoles :
    (sep t : Text) (ts : List Text) (m n : ℕ)
    → HasHoles 0 sep
    → HasHoles m t
    → HasHoles n (join_texts sep ts)
    → HasHoles (m + n) (join_texts sep (t ∷ ts))
unfolding join_texts ends_inside holes
join-HasHoles sep t [] m n hs ht h = fixed ht.closed (omega (arith, ht.counted, h.counted))
join-HasHoles sep t (u ∷ ts) m n hs ht h = HasHoles-append (HasHoles-back ht hs) h refl

join-none : (sep : Text) → HasHoles 0 (join_texts sep [])
unfolding join_texts ends_inside holes
join-none sep = fixed refl refl

-- What a fragment adds: its text has as many placeholders as it binds arguments.
abbrev pub Adds : {F T : Type 0} → Args F T → Emitted F T → Type 0
Adds {F} {T} args r = (new : Args F T) × (r.1 ≡ args ++ new) × HasHoles (length new) r.0

module _ {F T : Type 0} where
  HasHoles-bound :
      (before after : Text) (value : Arg F T) (args : Args F T)
      → HasHoles 0 before
      → HasHoles 0 after
      → Adds args (bound before after value args)
  unfolding bound
  HasHoles-bound before after value args hb ha =
      let hole : HasHoles 1 (codes "?") = unfold ends_inside in unfold holes in fixed refl refl in
      (value ∷ [], refl, HasHoles-back (HasHoles-front hb hole) ha)

  HasHoles-fixed : (t : Text) (args : Args F T) → HasHoles 0 t → Adds args (t, args)
  HasHoles-fixed t args h = ([], sym (append-nil args), h)

  -- All columns that the condition names
  unfoldable mutual
    pub Columns : (Text → Type 0) → Condition F T → Type 0
    Columns Q sql_false = Unit
    Columns Q (text_match value) = Unit
    Columns Q (is_null e) = Q e
    Columns Q (is_not_null e) = Q e
    Columns Q (part_match e kind value) = Q e
    Columns Q (pattern_match e kind value) = Q e
    Columns Q (level_is e level) = Q e
    Columns Q (level_order e op r) = Q e
    Columns Q (number_order e op x) = Q e
    Columns Q (cast_order e op x) = Q e
    Columns Q (bool_order e op b) = Q e
    Columns Q (time_order e op at) = Q e
    Columns Q (text_order e op t) = Q e
    Columns Q (and_all cs) = ColumnsAll Q cs
    Columns Q (or_all cs) = ColumnsAll Q cs
    Columns Q (not_true c) = Columns Q c

    pub ColumnsAll : (Text → Type 0) → Conditions F T → Type 0
    ColumnsAll Q none_of = Unit
    ColumnsAll Q (one_more c cs) = Columns Q c × ColumnsAll Q cs

  -- The parts of a conjunction, whatever stands between them
  JoinAdds : Args F T → List Text × Args F T → Type 0
  JoinAdds args r =
      (new : Args F T) × (r.1 ≡ args ++ new)
      × ((sep : Text) → HasHoles 0 sep → HasHoles (length new) (join_texts sep r.0))

  HasHoles-ordered :
      (e : Text) (op : Op) (value : Arg F T) (args : Args F T)
      → HasHoles 0 e
      → Adds args (ordering e op value args)
  unfolding ordering ends_inside holes
  HasHoles-ordered e op value args h =
      HasHoles-bound _ (codes ")") value args
        (HasHoles-ordering (codes "(") (codes " ") e op (fixed refl refl) (fixed refl refl) h)
        (fixed refl refl)

  wrap-Adds :
      (args : Args F T) (before after sep : Text) (r : List Text × Args F T)
      → HasHoles 0 before
      → HasHoles 0 after
      → HasHoles 0 sep
      → JoinAdds args r
      → Adds args (before ++ join_texts sep r.0 ++ after, r.1)
  unfolding JoinAdds
  wrap-Adds args before after sep r hb ha hs (new, e, h) =
      (new, e, HasHoles-between before after (join_texts sep r.0) (length new) hb ha (h sep hs))

  mutual
    unfolding render bound compile_text ordering ends_inside holes JoinAdds Columns

    pub render-Adds :
        (c : Condition F T) (args : Args F T) → Columns (HasHoles 0) c → Adds args (render c args)
    render-Adds sql_false args h = HasHoles-fixed (codes "FALSE") args (fixed refl refl)
    render-Adds (text_match value) args h =
        let p = text_arg (like_pattern value) in
        (p ∷ p ∷ [], append_assoc args (p ∷ []) (p ∷ []), fixed refl refl)
    render-Adds (is_null e) args h =
        HasHoles-fixed _ args (
          HasHoles-between (codes "(") (codes " IS NULL)") e 0 (fixed refl refl) (fixed refl refl)
            h)
    render-Adds (is_not_null e) args h = HasHoles-fixed _ args (
        HasHoles-between (codes "(") (codes " IS NOT NULL)") e 0 (fixed refl refl) (fixed refl refl)
          h)
    render-Adds (part_match e kind value) args h =
        HasHoles-bound _ (codes " ESCAPE '\\')") _ args
          (HasHoles-between (codes "(") (codes " ILIKE ") (cast_text e kind) 0 (fixed refl refl)
            (fixed refl refl) (HasHoles-cast_text e kind h))
          (fixed refl refl)
    render-Adds (pattern_match e kind value) args h =
        HasHoles-bound _ (codes ")") _ args
          (HasHoles-between (codes "regexp_matches(") (codes ", ") (cast_text e kind) 0
            (fixed refl refl) (fixed refl refl) (HasHoles-cast_text e kind h))
          (fixed refl refl)
    render-Adds (level_is e level) args h =
        HasHoles-bound _ (codes ")") _ args
          (HasHoles-between (codes "(") (codes " = ") e 0 (fixed refl refl) (fixed refl refl) h)
          (fixed refl refl)
    render-Adds (level_order e op r) args h =
        HasHoles-ordered (severity_case e) op _ args (HasHoles-severity_case e h)
    render-Adds (number_order e op x) args h = HasHoles-ordered e op _ args h
    render-Adds (cast_order e op x) args h =
        HasHoles-bound _ (codes ")") _ args
          (HasHoles-ordering (codes "(try_cast(") (codes " AS DOUBLE) ") e op (fixed refl refl)
            (fixed refl refl) h)
          (fixed refl refl)
    render-Adds (bool_order e op b) args h = HasHoles-ordered e op _ args h
    render-Adds (time_order e op at) args h = HasHoles-ordered e op _ args h
    render-Adds (text_order e op t) args h = HasHoles-ordered e op _ args h
    render-Adds (and_all cs) args h =
        wrap-Adds args (codes "(") (codes ")") (codes " AND ") (render_parts cs args)
          (fixed refl refl) (fixed refl refl) (fixed refl refl) (render_parts-JoinAdds cs args h)
    render-Adds (or_all cs) args h =
        wrap-Adds args (codes "(") (codes ")") (codes " OR ") (render_parts cs args)
          (fixed refl refl) (fixed refl refl) (fixed refl refl) (render_parts-JoinAdds cs args h)
    render-Adds (not_true c) args h =
        let (new, e, h') = render-Adds c args h in
        (
          new,
          e,
          HasHoles-between (codes "NOT coalesce(") (codes ", FALSE)") _ (length new)
              (fixed refl refl) (fixed refl refl) h',
        )

    render_parts-JoinAdds :
        (cs : Conditions F T) (args : Args F T)
        → ColumnsAll (HasHoles 0) cs
        → JoinAdds args (render_parts cs args)
    render_parts-JoinAdds none_of args h = ([], sym (append-nil args), λ sep hs. join-none sep)
    render_parts-JoinAdds (one_more c cs) args h =
        let (new, e, h') = render-Adds c args h.0 in
        let (more, e', h'') = render_parts-JoinAdds cs (render c args).1 h.1 in
        (
          new ++ more,
          e' ∙ ap (◌++ more) e ∙ append_assoc args new more,
          λ sep hs.
              subst (λ k. HasHoles k (join_texts sep (render_parts (one_more c cs) args).0))
                (sym (length-append new more))
                (join-HasHoles sep _ _ (length new) (length more) hs h' (h'' sep hs)),
        )
