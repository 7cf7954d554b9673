-- ===== src/Auth/Guarded.antt =====
-- What `Wrap` of internal/auth/auth.go lets through.
use mathlib.Core.List.{Memᴰ}
use mathlib.Core.List.Memᴰ
use mathlib.Core.List.Memᴰ.{head, tail}
use rtail.Base.{
  Bool, true, false, not, ◌&&◌, Option, none, some, inl, inr, ◌≡◌, ◌↔◌, ◌⊎◌, sym, refl, ◌∙◌, arith,
  ==_iff, Bool-cases, List, [], ◌∷◌, ◌++◌, if◌then◌else◌, Bytes, codes, bytes_eq, bytes_eq_iff,
  lookup,
}
use rtail.Auth.{
  cookie_name, Guard, Request, Cookie, Response, served, redirected, denied, enabled, matches,
  behind, matches_some, allows, set_cookie, exempt, is_read, wrap, wants_html,
}

refuted : {b : Bool} → ¬ (b ≡ true) → b ≡ false
refuted {b} h = elim (Bool-cases b) [ inl e ↦ absurd (h e) | inr e ↦ e ]

all_clear :
    {on ex presented allowed : Bool}
    → on ≡ true
    → ex ≡ false
    → presented ≡ false
    → allowed ≡ false
    → on && (not ex && (not presented && not allowed)) ≡ true
all_clear on ex presented allowed = rw (on, ex, presented, allowed) refl

behind_iff : (prefix text rest : Bytes) → (behind prefix text ≡ some rest) ↔ (text ≡ prefix ++ rest)
unfolding behind
behind_iff [] text rest = ground arith
behind_iff (p ∷ ps) [] rest = ground arith
behind_iff (p ∷ ps) (c ∷ cs) rest = ground (arith, behind_iff ps cs rest, ==_iff p c)

exempt_iff :
    (path : Bytes) (open_paths : List Bytes)
    → (exempt path open_paths ≡ true) ↔ Memᴰ path open_paths
unfolding exempt
exempt_iff path [] = ((λ h. absurd (ground (arith, h))), λ m. elim m [ ])
exempt_iff path (p ∷ ps) = (
  (λ h. elim (Bool-cases (bytes_eq p path)) [
    | inl same ↦ head (sym ((bytes_eq_iff p path).0 same))
    | inr other ↦ tail ((exempt_iff path ps).0 (ground (arith, h, other)))
  ]),
  (λ m. elim (Memᴰ.cases_cons m) [
    | inl same ↦ let this = (bytes_eq_iff p path).1 (sym same) in ground (arith, this)
    | inr later ↦ let that = (exempt_iff path ps).1 later in ground (arith, that)
  ]),
)

matches_some_iff : (g : Guard) (o : Option Bytes) → (matches_some g o ≡ true) ↔ (o ≡ some g.token)
unfolding matches_some matches
matches_some_iff g none = ground arith
matches_some_iff g (some c) = ground (arith, bytes_eq_iff c g.token)

-- The token is in one of the headers, or is the cookie.
abbrev pub Carries : Guard → Request → Type 0
Carries g r =
    (r.authorization ≡ codes "Bearer " ++ g.token)
    ⊎ ((r.token_header ≡ g.token) ⊎ (lookup cookie_name r.cookies ≡ some g.token))

bearer_iff :
    (g : Guard) (text : Bytes)
    → (matches_some g (behind (codes "Bearer ") text) ≡ true) ↔ (text ≡ codes "Bearer " ++ g.token)
bearer_iff g text =
    let p = codes "Bearer " in
    (
      (λ h. (behind_iff p text g.token).0 ((matches_some_iff g (behind p text)).0 h)),
      (λ e. (matches_some_iff g (behind p text)).1 ((behind_iff p text g.token).1 e)),
    )

-- A guard that is on has a token, so what matches it is not empty.
presented_iff :
    (g : Guard) (text : Bytes)
    → enabled g ≡ true
    → (not (bytes_eq text []) && matches g text ≡ true) ↔ (text ≡ g.token)
unfolding enabled matches
presented_iff g text on = (
  (λ h. (bytes_eq_iff text g.token).0 (ground (arith, h))),
  (λ e. rw e (let same = (bytes_eq_iff g.token g.token).1 refl in ground (arith, on, same))),
)

allows_iff : (g : Guard) (r : Request) → enabled g ≡ true → (allows g r ≡ true) ↔ Carries g r
unfolding allows
allows_iff g r on = ground (
  arith,
  on,
  bearer_iff g r.authorization,
  presented_iff g r.token_header on,
  matches_some_iff g (lookup cookie_name r.cookies),
)

-- The token is presented in a header, as the cookie or in the address.
abbrev pub Presents : Guard → Request → Type 0
Presents g r = Carries g r ⊎ (r.token_param ≡ g.token)

unfoldable pub is_denied : Response → Bool
is_denied served = false
is_denied (redirected c l) = false
is_denied (denied page) = true

-- The order of the tests in `wrap`
abbrev decided : (on ex presented writes allowed page : Bool) → Cookie → Bytes → Response
decided on ex presented writes allowed page c l =
    if not on
    then served
    else if ex
    then served
    else if presented
    then if writes then served else redirected c l
    else if not allowed
    then denied page
    else served

decided-denied :
    (on ex presented writes allowed page : Bool) (c : Cookie) (l : Bytes)
    → is_denied (decided on ex presented writes allowed page c l)
      ≡ on && (not ex && (not presented && not allowed))
unfolding is_denied
decided-denied false ex presented writes allowed page c l = refl
decided-denied true true presented writes allowed page c l = refl
decided-denied true false true true allowed page c l = refl
decided-denied true false true false allowed page c l = refl
decided-denied true false false writes true page c l = refl
decided-denied true false false writes false page c l = refl

-- A guard that is on refuses a request exactly when its path is not one of the open ones and the
-- token is presented neither as Authorization: Bearer, nor as X-Rtail-Token, nor as the cookie,
-- nor in the address.
pub wrap-is_denied :
    (g : Guard) (open_paths : List Bytes) (r : Request)
    → enabled g ≡ true
    → (is_denied (wrap g open_paths r) ≡ true) ↔ ((¬ Memᴰ r.path open_paths) × (¬ Presents g r))
unfolding wrap
wrap-is_denied g open_paths r on =
    let presented = not (bytes_eq r.token_param []) && matches g r.token_param in
    let shape : is_denied (wrap g open_paths r)
        ≡ enabled g && (not (exempt r.path open_paths) && (not presented && not (allows g r))) =
      decided-denied (enabled g) (exempt r.path open_paths) presented (not (is_read r)) (allows g r)
        (wants_html r) (set_cookie g) r.uri in
    let open_iff = exempt_iff r.path open_paths in
    let param_iff = presented_iff g r.token_param on in
    let header_iff = allows_iff g r on in
    (
      (λ e.
          let all = sym shape ∙ e in
          (
            (λ m. let known = open_iff.1 m in ground (arith, all, known)),
            λ p. elim p [
              | inl carried ↦ let known = header_iff.1 carried in ground (arith, all, known)
              | inr param ↦ let known = param_iff.1 param in ground (arith, all, known)
            ],
          )),
      (λ no.
          let closed_path : exempt r.path open_paths ≡ false = refuted (λ h. no.0 (open_iff.0 h)) in
          let no_param : presented ≡ false = refuted (λ h. no.1 (inr (param_iff.0 h))) in
          let no_header : allows g r ≡ false = refuted (λ h. no.1 (inl (header_iff.0 h))) in
          shape ∙ all_clear on closed_path no_param no_header),
    )
