-- ===== src/Base/Maps.antt =====
-- Go maps with strings as keys, as lists of pairs: `put` replaces, and a new key comes last.
use mathlib.Core.Path.{◌≡◌, refl, sym, ap, ◌∙◌, subst}
use mathlib.Core.Logic.{inl, inr}
use mathlib.Core.List.{Memᴰ}
use mathlib.Core.List.Memᴰ.{head, tail}
use mathlib.Core.Bool.{true, false}
use mathlib.Core.Option.{Option, none, some}
use mathlib.Core.List.{List, [], ◌∷◌}
use rtail.Base.Tests.{Bool-cases, if◌then◌else◌, if_split}
use rtail.Base.Predicates.{Bytes, bytes_eq, bytes_eq_iff}
use native.Mathlib.Omega.{arith}

module _ {V : Type 0} where
  unfoldable pub lookup : Bytes → List (Bytes × V) → Option V
  lookup k [] = none
  lookup k ((k', v) ∷ m) = let later = lookup k m in if bytes_eq k' k then some v else later

  unfoldable pub put : Bytes → V → List (Bytes × V) → List (Bytes × V)
  put k v [] = (k, v) ∷ []
  put k v ((k', v') ∷ m) =
      let later = put k v m in if bytes_eq k' k then (k, v) ∷ m else (k', v') ∷ later

  pub lookup-put_hit :
      (k s : Bytes) (v : V) (m : List (Bytes × V))
      → bytes_eq k s ≡ true
      → lookup s (put k v m) ≡ some v
  unfolding lookup put
  lookup-put_hit k s v [] h = ground (arith, h)
  lookup-put_hit k s v ((k', v') ∷ m) h =
      if_split (λ m'. lookup s m' ≡ some v) (bytes_eq k' k) (λ _. ground (arith, h))
        (λ e.
          let apart : bytes_eq k' s ≡ false =
            ground (arith, e, h, bytes_eq_iff k' s, bytes_eq_iff k s, bytes_eq_iff k' k) in
          ground (arith, apart, lookup-put_hit k s v m h))

  pub lookup-put_miss :
      (k s : Bytes) (v : V) (m : List (Bytes × V))
      → bytes_eq k s ≡ false
      → lookup s (put k v m) ≡ lookup s m
  unfolding lookup put
  lookup-put_miss k s v [] h = ground (arith, h)
  lookup-put_miss k s v ((k', v') ∷ m) h =
      if_split (λ m'. lookup s m' ≡ lookup s ((k', v') ∷ m)) (bytes_eq k' k)
        (λ e.
          let same : bytes_eq k' s ≡ false =
            ground (arith, e, h, bytes_eq_iff k' s, bytes_eq_iff k s, bytes_eq_iff k' k) in
          ground (arith, h, same))
        (λ e. ground (arith, lookup-put_miss k s v m h))

module _ {V : Type 0} where
  abbrev pub Distinct : List (Bytes × V) → Type 0
  Distinct [] = Unit
  Distinct ((k, v) ∷ m) = (lookup k m ≡ none) × Distinct m

  pub lookup-mem :
      (k : Bytes) (v : V) (m : List (Bytes × V)) → Distinct m → Memᴰ (k, v) m → lookup k m ≡ some v
  unfolding lookup
  lookup-mem k v [] d h = elim h [ ]
  lookup-mem k v ((k', v') ∷ m) d (head e) =
      let ek : bytes_eq k' k ≡ true = (bytes_eq_iff k' k).1 (ap (λ p. p.0) (sym e)) in
      let ev : v' ≡ v = ap (λ p. p.1) (sym e) in ground (arith, ek, ev)
  lookup-mem k v ((k', v') ∷ m) d (tail h) =
      let ih = lookup-mem k v m d.1 h in
      elim (Bool-cases (bytes_eq k' k)) [
        | inl e ↦
            let same = (bytes_eq_iff k' k).0 e in
            let none_there : lookup k m ≡ none = subst (λ j. lookup j m ≡ none) same d.0 in
            absurd (ground (arith, ih, none_there))
        | inr e ↦ ground (arith, e, ih)
      ]

  pub mem-lookup : (k : Bytes) (v : V) (m : List (Bytes × V)) → lookup k m ≡ some v → Memᴰ (k, v) m
  unfolding lookup
  mem-lookup k v [] h = absurd (ground (arith, h))
  mem-lookup k v ((k', v') ∷ m) h = elim (Bool-cases (bytes_eq k' k)) [
    | inl e ↦
        let ek = (bytes_eq_iff k' k).0 e in
        let ev : v' ≡ v = ground (arith, e, h) in
        head (ap (λ j. (j, v)) (sym ek) ∙ ap (λ w. (k', w)) (sym ev))
    | inr e ↦ tail (mem-lookup k v m (ground (arith, e, h)))
  ]

  pub Distinct-put : (k : Bytes) (v : V) (m : List (Bytes × V)) → Distinct m → Distinct (put k v m)
  unfolding put lookup
  Distinct-put k v [] d = (refl, tt)
  Distinct-put k v ((k', v') ∷ m) d =
      if_split Distinct (bytes_eq k' k)
        (λ e. (subst (λ j. lookup j m ≡ none) ((bytes_eq_iff k' k).0 e) d.0, d.1))
        (λ e.
          let other : bytes_eq k k' ≡ false =
            ground (arith, e, bytes_eq_iff k k', bytes_eq_iff k' k) in
          (lookup-put_miss k k' v m other ∙ d.0, Distinct-put k v m d.1))
