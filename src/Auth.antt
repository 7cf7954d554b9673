-- ===== src/Auth.antt =====
-- internal/auth/auth.go: `Guard`, with `Allows` and `Wrap` as functions of what they read of a request.
pub mod Guarded
mod Tests
use rtail.Base.{
  Bool, true, false, not, ◌&&◌, ◌||◌, Option, none, some, List, [], ◌∷◌, ◌++◌, ◌==◌, if◌then◌else◌,
  Bytes, codes, bytes_eq, lookup,
}

pub record Guard : Type 0 where
  pub token : Bytes
  pub secure : Bool

-- What net/http and net/url read of a request. `uri` is its URI without the parameter `token`, and a
-- header or parameter that is missing reads as the empty text.
pub record Request : Type 0 where
  pub method : Bytes
  pub path : Bytes
  pub uri : Bytes
  pub token_param : Bytes
  pub authorization : Bytes
  pub token_header : Bytes
  pub accept : Bytes
  -- Names and values
  pub cookies : List (Bytes × Bytes)

-- The other attributes of the cookie are constants.
pub record Cookie : Type 0 where
  pub name : Bytes
  pub value : Bytes
  pub secure : Bool

-- The wrapped handler's answer, the redirect that sets the cookie, or the refusal, as a page or as JSON.
pub data Response : Type 0 where
  served : Response
  redirected : Cookie → (location : Bytes) → Response
  denied : (page : Bool) → Response

unfoldable pub cookie_name : Bytes
cookie_name = codes "rtail_token"

-- `New`; `trim` is strings.TrimSpace.
unfoldable pub new_guard : (Bytes → Bytes) → Bytes → Bool → Guard
new_guard trim token secure = record { token = trim token; secure = secure }

unfoldable pub enabled : Guard → Bool
enabled g = not (bytes_eq g.token [])

unfoldable pub matches : Guard → Bytes → Bool
matches g candidate = bytes_eq candidate g.token

-- The text behind a prefix, if it is there
unfoldable pub behind : Bytes → Bytes → Option Bytes
behind [] text = some text
behind (p ∷ ps) [] = none
behind (p ∷ ps) (c ∷ cs) = let rest = behind ps cs in if p == c then rest else none

unfoldable pub matches_some : Guard → Option Bytes → Bool
unfolding matches
matches_some g none = false
matches_some g (some candidate) = matches g candidate

unfoldable pub allows : Guard → Request → Bool
unfolding enabled matches matches_some behind cookie_name lookup
allows g r =
    if not (enabled g)
    then true
    else if matches_some g (behind (codes "Bearer ") r.authorization)
    then true
    else if not (bytes_eq r.token_header []) && matches g r.token_header
    then true
    else matches_some g (lookup cookie_name r.cookies)

-- `strings.Contains`
unfoldable pub contains : Bytes → Bytes → Bool
unfolding behind
contains text [] = elim (behind text []) [ none ↦ false | some rest ↦ true ]
contains text (c ∷ cs) =
    let later = contains text cs in elim (behind text (c ∷ cs)) [ none ↦ later | some rest ↦ true ]

unfoldable pub wants_html : Request → Bool
unfolding contains
wants_html r = contains (codes "text/html") r.accept

unfoldable pub set_cookie : Guard → Cookie
unfolding cookie_name
set_cookie g = record { name = cookie_name; value = g.token; secure = g.secure }

unfoldable pub exempt : Bytes → List Bytes → Bool
exempt path [] = false
exempt path (p ∷ ps) = bytes_eq p path || exempt path ps

unfoldable pub is_read : Request → Bool
is_read r = bytes_eq r.method (codes "GET") || bytes_eq r.method (codes "HEAD")

-- `Wrap`, for the paths that are open to all
unfoldable pub wrap : Guard → List Bytes → Request → Response
unfolding enabled exempt matches allows wants_html set_cookie is_read
wrap g open_paths r =
    if not (enabled g)
    then served
    else if exempt r.path open_paths
    then served
    else if not (bytes_eq r.token_param []) && matches g r.token_param
    then if not (is_read r) then served else redirected (set_cookie g) r.uri
    else if not (allows g r)
    then denied (wants_html r)
    else served
