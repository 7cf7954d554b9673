-- ===== src/Auth/Tests.antt =====
-- Requests to internal/auth/auth.go at concrete inputs.
use mathlib.Core.List.{Memᴰ}
use rtail.Base.{true, ◌≡◌, ◌↔◌, refl, List, [], ◌∷◌, Bytes, codes, bytes_eq, lookup, put}
use rtail.Auth.{
  Guard, Request, denied, enabled, matches, behind, matches_some, allows, contains, wants_html,
  exempt, is_read, wrap,
}
use rtail.Auth.Guarded.{Presents, is_denied, wrap-is_denied}

abbrev guard : Guard
guard = record { token = codes "s3cret"; secure = true }

abbrev health : List Bytes
health = codes "/healthz" ∷ []

abbrev stranger : Request
stranger = record {
  method = codes "GET";
  path = codes "/api/streams";
  uri = codes "/api/streams";
  token_param = [];
  authorization = codes "Bearer s3cre";
  token_header = [];
  accept = codes "text/html, */*";
  cookies = [];
}

abbrev signing_in : Request
signing_in = record stranger { token_param = codes "s3cret" }

abbrev dark : Bytes × Bytes
dark = (codes "theme", codes "dark")

abbrev signed_in : Request
signed_in = record stranger {
  cookies = put (codes "rtail_token") (codes "s3cret") (dark ∷ []);
  uri = codes "/api/streams";
}

refused : wrap guard health stranger ≡ denied true
unfolding wrap enabled exempt matches matches_some behind allows is_read wants_html contains
    bytes_eq lookup
refused = refl

guard-enabled : enabled guard ≡ true
unfolding enabled bytes_eq
guard-enabled = refl

wrap-is_denied_example :
    (is_denied (wrap guard health stranger) ≡ true)
    ↔ ((¬ Memᴰ (codes "/api/streams") health) × (¬ Presents guard stranger))
wrap-is_denied_example = wrap-is_denied guard health stranger guard-enabled
