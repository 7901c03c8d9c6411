-- ===== src/Auth/History.antt =====
-- Which requests are let in after any history of users added and removed.
use restreamer.Prelude.{
  ◌≡◌, ◌⊎◌, inl, inr, ap, true, Bool-cases, text_beq, text_beq_iff, List, [], ◌∷◌, some, Text, Map,
  lookup, text_eq, arith, Option-cases, after_space, codes,
}
use restreamer.Configuration.{Authentication, UserCredentials}
use restreamer.Auth.Tokens.{TokenStore, new_store, allowed}
use restreamer.Auth.Revocation.{IsBacked, add_token-IsBacked, remove_user-IsBacked}
use restreamer.Auth.Login.{login_some}
use restreamer.Auth.{
  Authenticator, pass, deny, basic, bearer, add_user, remove, check_token, authenticate, get_login,
  add_users, new_authenticator, basic_token,
}

-- What may be done to an authenticator after it was made.
pub data Change : Type 0 where
  adds : Text → Text → Change
  removes : Text → Change

unfoldable pub changes : List Change → Authenticator → Authenticator
changes [] auth = auth
changes (adds user password ∷ cs) auth = changes cs (add_user user password auth)
changes (removes user ∷ cs) auth = changes cs (remove user auth)

-- Every token is a user's, and nobody but an authenticator for the empty type lets everybody in.
abbrev Backed : Text → Authenticator → Type 0
Backed type pass = type ≡ []
Backed type deny = Unit
Backed type (basic realm store) = IsBacked store
Backed type (bearer store) = IsBacked store

add_user-Backed :
    (type u p : Text) (a : Authenticator) → Backed type a → Backed type (add_user u p a)
unfolding add_user
add_user-Backed type u p pass b = b
add_user-Backed type u p deny b = tt
add_user-Backed type u p (basic realm store) b = add_token-IsBacked u (basic_token u p) store b
add_user-Backed type u p (bearer store) b = add_token-IsBacked u p store b

remove-Backed : (type u : Text) (a : Authenticator) → Backed type a → Backed type (remove u a)
unfolding remove
remove-Backed type u pass b = b
remove-Backed type u deny b = tt
remove-Backed type u (basic realm store) b = remove_user-IsBacked u store b
remove-Backed type u (bearer store) b = remove_user-IsBacked u store b

changes-Backed :
    (type : Text) (cs : List Change) (a : Authenticator)
    → Backed type a
    → Backed type (changes cs a)
unfolding changes
changes-Backed type [] a b = b
changes-Backed type (adds u p ∷ cs) a b = changes-Backed type cs _ (add_user-Backed type u p a b)
changes-Backed type (removes u ∷ cs) a b = changes-Backed type cs _ (remove-Backed type u a b)

add_users-Backed :
    (type : Text) (us : List Text) (credentials : Map Text UserCredentials) (a : Authenticator)
    → Backed type a
    → Backed type (add_users us credentials a)
unfolding add_users
add_users-Backed type [] credentials a b = b
add_users-Backed type (u ∷ us) credentials a b = elim (Option-cases (lookup u credentials)) [
  | inl e ↦ rw e (add_users-Backed type us credentials a b)
  | inr (cred, e) ↦
      rw e (add_users-Backed type us credentials _ (add_user-Backed type u cred.password a b))
]

new_store-IsBacked : IsBacked new_store
unfolding allowed lookup
new_store-IsBacked t h = cc

new_authenticator-Backed :
    (a : Authentication) (credentials : Map Text UserCredentials)
    → Backed a.type (new_authenticator a credentials)
unfolding new_authenticator
new_authenticator-Backed a credentials = elim (Bool-cases (text_beq a.type [])) [
  | inl empty ↦ rw empty ((text_beq_iff a.type []).0 empty)
  | inr typed ↦ rw typed (
      ground (
        arith,
        add_users-Backed a.type a.users credentials (basic a.realm new_store) new_store-IsBacked,
        add_users-Backed a.type a.users credentials (bearer new_store) new_store-IsBacked,
      ))
]

check_token-allowed :
    (scheme h : Text) (store : TokenStore)
    → check_token scheme store h ≡ true
    → (t : Text) × (after_space h ≡ some t) × (allowed t store ≡ true)
unfolding check_token
check_token-allowed scheme h store e = ground arith

Backed-user :
    (type : Text) (a : Authenticator) (h : Text)
    → Backed type a
    → authenticate a h ≡ true
    → (type ≡ [])
      ⊎ ((u t : Text) × (after_space h ≡ some t) × (after_space (get_login a u) ≡ some t))
unfolding authenticate
Backed-user type pass h b e = inl b
Backed-user type deny h b e = cc
Backed-user type (basic realm store) h b e =
    let (t, at, ok) = check_token-allowed (codes "Basic") h store e in
    let (u, is_u) = b t ok in inr (u, t, at, ap after_space ((login_some realm u store is_u).0))
Backed-user type (bearer store) h b e =
    let (t, at, ok) = check_token-allowed (codes "Bearer") h store e in
    let (u, is_u) = b t ok in inr (u, t, at, ap after_space ((login_some [] u store is_u).1))

-- Whatever the configuration, and whichever users were added and removed since: if a request is let
-- in, then the authentication type is empty, or the request's token is the one of a present user.
pub authenticate_needs_user :
    (a : Authentication) (credentials : Map Text UserCredentials) (cs : List Change) (h : Text)
    → authenticate (changes cs (new_authenticator a credentials)) h ≡ true
    → (a.type ≡ [])
      ⊎ ((u t : Text) × (after_space h ≡ some t)
          × (after_space (get_login (changes cs (new_authenticator a credentials)) u) ≡ some t))
authenticate_needs_user a credentials cs h =
    Backed-user a.type _ h (changes-Backed a.type cs _ (new_authenticator-Backed a credentials))
