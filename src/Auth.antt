-- ===== src/Auth.antt =====
-- auth/authentication.go and auth/httpauth.go: who may access a resource.
pub mod Tokens
pub mod Base64
pub mod Revocation
pub mod Login
pub mod History
use restreamer.Prelude.{
  ℕ, ◌≡◌, Bool, true, false, List, [], ◌∷◌, ◌++◌, Option, none, some, Text, Map, lookup, text_eq,
  codes, is_set, text_beq, has_prefix, after_space, if◌then◌else◌,
}
use restreamer.Prelude.Http.{Header, get, Response, add_header, write_header}
use restreamer.Configuration.{Authentication, UserCredentials}
use Tokens.{TokenStore, new_store, add_token, remove_user, allowed, token_of}
use Base64.{encode}

-- The interface `Authenticator` has four implementations.
pub data Authenticator : Type 0 where
  pass deny : Authenticator
  basic : Text → TokenStore → Authenticator
  bearer : TokenStore → Authenticator

-- base64(user + ":" + password)
unfoldable pub basic_token : Text → Text → Text
unfolding encode
basic_token user password = encode (user ++ (b':' ∷ password))

unfoldable pub add_user : Text → Text → Authenticator → Authenticator
unfolding basic_token
add_user user password pass = pass
add_user user password deny = deny
add_user user password (basic realm store) =
    basic realm (add_token user (basic_token user password) store)
add_user user password (bearer store) = bearer (add_token user password store)

unfoldable pub remove : Text → Authenticator → Authenticator
remove user pass = pass
remove user deny = deny
remove user (basic realm store) = basic realm (remove_user user store)
remove user (bearer store) = bearer (remove_user user store)

-- The header must begin with the scheme; what follows the first space is the token.
unfoldable pub check_token : Text → TokenStore → Text → Bool
check_token scheme store authorization =
    if has_prefix authorization scheme
    then elim (after_space authorization) [ none ↦ false | some hash ↦ allowed hash store ]
    else false

unfoldable pub authenticate : Authenticator → Text → Bool
unfolding check_token
authenticate pass authorization = true
authenticate deny authorization = false
authenticate (basic realm store) authorization = check_token (codes "Basic") store authorization
authenticate (bearer store) authorization = check_token (codes "Bearer") store authorization

-- The header that a client sends for a user; empty if there is no such user.
unfoldable pub get_login : Authenticator → Text → Text
get_login pass user = []
get_login deny user = []
get_login (basic realm store) user = elim (token_of user store) [
  | none ↦ []
  | some token ↦ codes "Basic " ++ token
]
get_login (bearer store) user = elim (token_of user store) [
  | none ↦ []
  | some token ↦ codes "Bearer " ++ token
]

unfoldable pub get_authenticate_request : Authenticator → Text
get_authenticate_request pass = []
get_authenticate_request deny = []
get_authenticate_request (basic realm store) =
    codes "Basic realm=\"" ++ (realm ++ codes "\" charset=\"UTF-8\"")
get_authenticate_request (bearer store) = []

-- The loop over the whitelist: users without credentials are passed over.
unfoldable pub add_users : List Text → Map Text UserCredentials → Authenticator → Authenticator
add_users [] credentials auth = auth
add_users (user ∷ users) credentials auth =
    add_users users credentials (elim (lookup user credentials) [
      | none ↦ auth
      | some cred ↦ add_user user cred.password auth
    ])

unfoldable pub new_authenticator : Authentication → Map Text UserCredentials → Authenticator
unfolding add_users
new_authenticator auth credentials =
    if text_beq auth.type []
    then pass
    else if text_beq auth.type (codes "basic")
    then add_users auth.users credentials (basic auth.realm new_store)
    else if text_beq auth.type (codes "bearer")
    then add_users auth.users credentials (bearer new_store)
    else deny

-- An authenticator that is bound to the first user of the list.
pub record UserAuthenticator : Type 0 where
  pub auth : Authenticator
  pub user : Text

unfoldable pub new_user_authenticator : Authentication → Authenticator → Option UserAuthenticator
new_user_authenticator cred auth = elim cred.users [
  | [] ↦ none
  | user ∷ _ ↦ some (record { auth = auth; user = user })
]

unfoldable pub get_user_login : UserAuthenticator → Text
unfolding get_login
get_user_login u = get_login u.auth u.user

-- HandleHttpAuthentication: false means that the response was sent.
unfoldable pub handle_http_authentication : Authenticator → Header → Response → Response × Bool
unfolding authenticate get_authenticate_request
handle_http_authentication auth request writer =
    if authenticate auth (get (codes "Authorization") request)
    then (writer, true)
    else let realm = get_authenticate_request auth in
      if is_set realm
      then (write_header 401 (add_header (codes "WWW-Authenticate") realm writer), false)
      else (write_header 403 writer, false)
