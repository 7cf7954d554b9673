-- ===== src/Rql/Agreement/Ranks.antt =====
-- Ranks of internal/rql/sql.go, in Go and in SQL.
use rtail.Base.{
  ◌≢◌, ℕ, ◌<◌, ◌≡◌, refl, ap, ◌∙◌, false, Option, none, some, List, [], ◌∷◌, arith, if◌then◌else◌,
  bytes_eq, lookup,
}
use rtail.Rql.Syntax.{Text}
use rtail.Base.{Bool-cases, option_split, if_split, inl, inr, All, bytes_eq_iff}
use rtail.Rql.Values.{Library, severity_rank, default_severity_rank, rank}
use rtail.Rql.Agreement.{case_rank}

lookup-bounded :
    (b : ℕ) (k : Text) (m : List (Text × ℕ)) (r : ℕ)
    → All (λ p. p.1 < b) m
    → lookup k m ≡ some r
    → r < b
unfolding lookup
lookup-bounded b k [] r h e = absurd (ground (arith, e))
lookup-bounded b k ((j, v) ∷ m) r h e = elim (Bool-cases (bytes_eq j k)) [
  | inl hit ↦ let same : v ≡ r = ground (arith, hit, e) in omega (arith, h.0, same)
  | inr miss ↦ lookup-bounded b k m r h.1 (ground (arith, miss, e))
]

module _ {F T : Type 0} (lib : Library F T) where
  pub rank-bounded : (t : Text) → rank lib t < 61
  unfolding rank default_severity_rank
  rank-bounded t =
      let known = lib.upper (lib.trim t) in
      option_split (λ n. n < 61) (lookup known severity_rank) _ _
        (λ _. if_split (λ n. n < 61) (bytes_eq t []) (λ _. omega arith) (λ _. omega arith))
        (λ r e. lookup-bounded 61 known severity_rank r ranks e)
    where
      ranks : All (λ p. p.1 < 61) severity_rank
      ranks =
          unfold severity_rank in
          (
            omega arith,
            (
              omega arith,
              (
                omega arith,
                (
                  omega arith,
                  (
                    omega arith,
                    (omega arith, (omega arith, (omega arith, (omega arith, (omega arith, tt))))),
                  ),
                ),
              ),
            ),
          )

  -- The default where the name is unknown, as the name is there
  known_or :
      (o : Option ℕ) (t : Text)
      → bytes_eq t [] ≡ false
      → elim o as (λ _. ℕ) [
        | some r ↦ r
        | none ↦ if bytes_eq t [] then 0 else default_severity_rank
      ]
        ≡ elim o as (λ _. ℕ) [ some r ↦ r | none ↦ default_severity_rank ]
  known_or none t there = rw there refl
  known_or (some r) t there = refl

  pub rank-case_rank : (t : Text) → t ≢ [] → lib.trim t ≡ t → rank lib t ≡ case_rank (lib.upper t)
  unfolding rank case_rank
  rank-case_rank t some_there trimmed =
      let there : bytes_eq t [] ≡ false = elim (Bool-cases (bytes_eq t [])) [
        | inl empty ↦ absurd (some_there ((bytes_eq_iff t []).0 empty))
        | inr other ↦ other
      ] in
      known_or (lookup (lib.upper (lib.trim t)) severity_rank) t there
      ∙ ap (λ u. case_rank (lib.upper u)) trimmed
