-- ===== src/Tests/Logins.antt =====
-- auth: one user with basic authentication, two with one bearer token.
use restreamer.Prelude.{
  ◌≡◌, ◌⊎◌, refl, true, false, List, [], ◌∷◌, Text, codes, some, after_space, Map, lookup, assign,
  delete,
}
use restreamer.Configuration.{Authentication, UserCredentials}
use restreamer.Auth.Base64.{encode}
use restreamer.Auth.Tokens.{new_store, allowed, add_token, remove_user}
use restreamer.Auth.{
  Authenticator, bearer, add_user, remove, authenticate, get_login, new_authenticator,
}
use restreamer.Auth.Login.{remove_revokes, login-authenticates}
use restreamer.Auth.History.{Change, adds, removes, changes, authenticate_needs_user}

encode_aladdin : encode (codes "Aladdin:open sesame") ≡ codes "QWxhZGRpbjpvcGVuIHNlc2FtZQ=="
unfolding encode
encode_aladdin = refl

abbrev tv : Authentication
tv = record {
  type = codes "basic";
  realm = codes "tv";
  user = [];
  users = codes "a" ∷ codes "b" ∷ [];
}

abbrev accounts : Map Text UserCredentials
accounts = (codes "a", record { password = codes "x" }) ∷ []

abbrev history : List Change
history = adds (codes "c") (codes "y") ∷ removes (codes "c") ∷ []

-- a:x in base64.
let_in : authenticate (changes history (new_authenticator tv accounts)) (codes "Basic YTp4") ≡ true
unfolding authenticate changes new_authenticator add_user remove add_token remove_user lookup assign
    delete allowed
let_in = refl

authenticate_needs_user_example :
    (tv.type ≡ [])
    ⊎ ((u t : Text) × (after_space (codes "Basic YTp4") ≡ some t)
        × (after_space (get_login (changes history (new_authenticator tv accounts)) u) ≡ some t))
authenticate_needs_user_example =
    authenticate_needs_user tv accounts history (codes "Basic YTp4") let_in

abbrev two : Authenticator
two = add_user (codes "b") (codes "q") (add_user (codes "a") (codes "p") (bearer new_store))

remove_revokes_example : authenticate (remove (codes "a") two) (get_login two (codes "a")) ≡ false
unfolding add_user
remove_revokes_example = remove_revokes two (codes "a") (λ e. cc)

login-authenticates_example :
    authenticate
      (add_user (codes "a") (codes "p") (bearer new_store))
      (get_login (add_user (codes "a") (codes "p") (bearer new_store)) (codes "a"))
    ≡ true
login-authenticates_example =
    login-authenticates (bearer new_store) (codes "a") (codes "p") (λ e. cc)
