-- ===== src/Auth/Scopes.antt =====
-- internal/middleware/oauth.go: the claims of a delegated token, and the routes that it may call.
use fmsg_webapi.Prelude.{
  ℕ, Bool, not, ◌||◌, Option, none, some, List, [], ◌∷◌, ◌++◌, if◌then◌else◌, any, ◌==◌, nat_eq,
  Text, codes, text_eq,
}
use fmsg_webapi.Strings.{fields, is_nil, is_empty}
use fmsg_webapi.Address.{is_valid_addr}

-- A claim as the code tells its shapes apart: a string, an array, or anything else.
pub data Element : Type 0 where
  item : Text → Element
  not_text : Element

pub data Claim : Type 0 where
  str : Text → Claim
  arr : List Element → Claim
  other : Claim

abbrev pub Claims : Type 0
Claims = List (Text × Claim)

unfoldable pub lookup {ℓ} : {V : Type ℓ} → Text → List (Text × V) → Option V
lookup k [] = none
lookup k ((j, v) ∷ m) = if j == k then some v else lookup k m

abbrev pub scope_read : Text
scope_read = codes "fmsg:read"

abbrev pub scope_write : Text
scope_write = codes "fmsg:write"

-- The address claim that lists further identities.
abbrev pub identities_claim : Text
identities_claim = codes "fmsg_identities"

-- A route: its method and its Gin pattern, joined by a space.
abbrev pub route_key : Text → Text → Text
route_key method pattern = method ++ 32 ∷ pattern

-- The routes that are open to delegated tokens, with the scope that each needs.
abbrev pub oauth_route_scopes : List (Text × Text)
oauth_route_scopes =
    (codes "GET /fmsg", scope_read)
    ∷ (codes "GET /fmsg/sent", scope_read)
    ∷ (codes "GET /fmsg/count", scope_read)
    ∷ (codes "GET /fmsg/:id", scope_read)
    ∷ (codes "GET /fmsg/:id/data", scope_read)
    ∷ (codes "GET /fmsg/:id/thread", scope_read)
    ∷ (codes "GET /fmsg/:id/thread/messages", scope_read)
    ∷ (codes "GET /fmsg/:id/attach/:filename", scope_read)
    ∷ (codes "GET /fmsg/ws", scope_read)
    ∷ (codes "POST /fmsg", scope_write)
    ∷ (codes "PUT /fmsg/:id", scope_write)
    ∷ (codes "DELETE /fmsg/:id", scope_write)
    ∷ (codes "POST /fmsg/:id/send", scope_write)
    ∷ (codes "POST /fmsg/:id/read", scope_write)
    ∷ (codes "POST /fmsg/:id/restore", scope_write)
    ∷ (codes "POST /fmsg/:id/add-to", scope_write)
    ∷ (codes "POST /fmsg/:id/react", scope_write)
    ∷ (codes "POST /fmsg/:id/indicate", scope_write)
    ∷ (codes "POST /fmsg/:id/attach", scope_write)
    ∷ (codes "DELETE /fmsg/:id/attach/:filename", scope_write)
    ∷ []

unfoldable pub oauth_route_scope : Text → Text → Option Text
unfolding lookup
oauth_route_scope method pattern = lookup (route_key method pattern) oauth_route_scopes

-- " \t\r\n"
abbrev is_separator : ℕ → Bool
is_separator c = c == 32 || c == 9 || c == 13 || c == 10

-- The loop over an array of scopes.
scope_items : List Element → Option (List Text)
scope_items [] = some []
scope_items (not_text ∷ es) = none
scope_items (item s ∷ es) =
    let rest = scope_items es in
    if is_empty s || any is_separator s
    then none
    else elim rest [ none ↦ none | some items ↦ some (s ∷ items) ]

scope_texts : Claim → Option (List Text)
scope_texts (str v) = some (fields v)
scope_texts (arr es) = scope_items es
scope_texts other = none

abbrev or_else {ℓ} : {A : Type ℓ} → Option A → Option A → Option A
or_else none b = b
or_else (some a) b = some a

-- The scopes of a delegated token; `none` if they are missing or malformed.
unfoldable pub parse_scopes : Claims → Option (List Text)
unfolding scope_texts scope_items fields lookup
parse_scopes claims = elim (or_else (lookup (codes "scope") claims) (lookup (codes "scp") claims)) [
  | none ↦ none
  | some raw ↦ elim (scope_texts raw) [
    | none ↦ none
    | some items ↦ if is_nil items then none else some items
  ]
]

identity_items : List Element → Option (List Text)
identity_items [] = some []
identity_items (not_text ∷ es) = none
identity_items (item s ∷ es) =
    let rest = identity_items es in
    if not (is_valid_addr s) then none else elim rest [ none ↦ none | some out ↦ some (s ∷ out) ]

identity_texts : Claim → Option (List Text)
identity_texts (arr es) = identity_items es
identity_texts _ = none

-- The further identities of a delegated token; `none` if the claim is malformed.
unfoldable pub delegated_identities : Claims → Option (List Text)
unfolding identity_texts identity_items lookup
delegated_identities claims = elim (lookup identities_claim claims) [
  | none ↦ some []
  | some raw ↦ identity_texts raw
]
