-- ===== src/Rql/Agreement/Like.antt =====
-- `likePattern` of internal/rql/sql.go under ILIKE: what `escapeLike` writes is matched as it is.
use rtail.Base.{
  ℕ, ◌≡◌, refl, sym, ap, ◌∙◌, Bool, true, false, ◌||◌, [], ◌∷◌, ◌++◌, map, ◌==◌, arith, if_split,
  ==_iff,
}
use rtail.Rql.Syntax.{Text}
use rtail.Rql.Values.{Library, if_both}
use rtail.Rql.Sql.{escape_like, like_pattern}
use rtail.Rql.Agreement.Duck.{next_is, some_suffix, like, starts_with, has_part, GoLaws}

some_suffix-same :
    (f g : Text → Bool) → ((t : Text) → f t ≡ g t) → (t : Text) → some_suffix f t ≡ some_suffix g t
unfolding some_suffix
some_suffix-same f g h [] = h []
some_suffix-same f g h (d ∷ t) = rw (h (d ∷ t), some_suffix-same f g h t) refl

some_suffix-end : (t : Text) → some_suffix (like false []) t ≡ true
unfolding some_suffix like
some_suffix-end [] = refl
some_suffix-end (d ∷ t) = some_suffix-end t

next_is-starts_with :
    (c : ℕ) (rest : Text → Bool) (v : Text)
    → ((t : Text) → rest t ≡ starts_with t v)
    → (t : Text) → next_is c rest t ≡ starts_with t (c ∷ v)
unfolding next_is starts_with
next_is-starts_with c rest v h [] = refl
next_is-starts_with c rest v h (d ∷ t) = rw (h t) refl

like-plain :
    (c : ℕ) (ps t : Text)
    → (c == 92 || (c == 37 || c == 95)) ≡ false
    → like false (c ∷ ps) t ≡ next_is c (like false ps) t
unfolding like
like-plain c ps t plain =
    let back : c == 92 ≡ false = ground (arith, plain) in
    let percent : c == 37 ≡ false = ground (arith, plain) in
    let underscore : c == 95 ≡ false = ground (arith, plain) in rw (back, percent, underscore) refl

like-special : (c : ℕ) (ps t : Text) → like false (92 ∷ c ∷ ps) t ≡ next_is c (like false ps) t
unfolding like
like-special c ps t = refl

like-escape_like : (v t : Text) → like false (escape_like v ++ 37 ∷ []) t ≡ starts_with t v
unfolding escape_like
like-escape_like [] t = unfold like in unfold starts_with in some_suffix-end t
like-escape_like (c ∷ v) t =
    let rest : (u : Text) → like false (escape_like v ++ 37 ∷ []) u ≡ starts_with u v =
      like-escape_like v in
    if_split (λ x. like false (x ++ 37 ∷ []) t ≡ starts_with t (c ∷ v))
      (c == 92 || (c == 37 || c == 95))
      (λ special. like-special c _ t ∙ next_is-starts_with c _ v rest t)
      (λ plain. like-plain c _ t plain ∙ next_is-starts_with c _ v rest t)

pub like-like_pattern : (v t : Text) → like false (like_pattern v) t ≡ has_part t v
unfolding like like_pattern has_part
like-like_pattern v t =
    some_suffix-same (like false (escape_like v ++ 37 ∷ [])) (λ s. starts_with s v)
      (like-escape_like v) t

map-append : (f : ℕ → ℕ) (s t : Text) → map f (s ++ t) ≡ map f s ++ map f t
map-append f [] t = refl
map-append f (c ∷ s) t = ap (λ r. f c ∷ r) (map-append f s t)

module _ {F T : Type 0} (lib : Library F T) (go : GoLaws lib) where
  map-escape_like : (v : Text) → map go.fold (escape_like v) ≡ escape_like (map go.fold v)
  unfolding escape_like
  map-escape_like [] = refl
  map-escape_like (c ∷ v) =
      let ih = map-escape_like v in
      let backslash : go.fold 92 ≡ 92 = (==_iff (go.fold 92) 92).0 (go.fold_backslash 92) in
      rw (go.fold_backslash c, go.fold_percent c, go.fold_underscore c)
        (if_both (λ x y. map go.fold x ≡ y) (c == 92 || (c == 37 || c == 95))
          (λ _. rw (backslash, ih) refl) (λ _. rw ih refl))

  lower-like_pattern : (v : Text) → lib.lower (like_pattern v) ≡ like_pattern (lib.lower v)
  unfolding like_pattern
  lower-like_pattern v =
      let percent : go.fold 37 ≡ 37 = (==_iff (go.fold 37) 37).0 (go.fold_percent 37) in
      rw
        (
          go.lower_maps (37 ∷ escape_like v ++ 37 ∷ []),
          go.lower_maps v,
          map-append go.fold (escape_like v) (37 ∷ []),
          map-escape_like v,
          percent,
        )
        refl

  -- ILIKE finds what strings.Contains finds of lower case.
  pub like-lower :
      (v t : Text)
      → like false (lib.lower (like_pattern v)) (lib.lower t)
        ≡ lib.contained (lib.lower t) (lib.lower v)
  like-lower v t =
      ap (λ p. like false p (lib.lower t)) (lower-like_pattern v)
      ∙ like-like_pattern (lib.lower v) (lib.lower t)
      ∙ sym (go.contains_part (lib.lower t) (lib.lower v))

  pub contained-empty :
      (part : Text)
      → lib.contained (lib.lower []) part ≡ true
      → (t : Text) → lib.contained t part ≡ true
  unfolding has_part some_suffix starts_with
  contained-empty [] found [] = go.contains_part [] []
  contained-empty [] found (c ∷ t) = go.contains_part (c ∷ t) []
  contained-empty (d ∷ ds) found t =
      let nothing : lib.contained (lib.lower []) (d ∷ ds) ≡ false =
        ap (λ u. lib.contained u (d ∷ ds)) (go.lower_maps []) ∙ go.contains_part [] (d ∷ ds) in
      absurd (ground (arith, found, nothing))
