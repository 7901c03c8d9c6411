-- ===== src/Auth/Login.antt =====
-- Logins that an authenticator gives out, accepts and revokes.
use restreamer.Prelude.{
  ◌≡◌, ◌≢◌, inl, inr, refl, sym, ◌∙◌, ap, true, false, [], ◌++◌, none, some, Text, text_eq, arith,
  Option-cases, codes,
}
use restreamer.Auth.Tokens.{TokenStore, allowed, token_of, add_token, remove_user}
use restreamer.Auth.Revocation.{
  allowed-add_token_self, remove_user-refuses, remove_user_keeps, token_of-remove_user_ne,
  token_of-add_token_self, token_of-add_token_ne,
}
use restreamer.Auth.{
  Authenticator, pass, deny, basic, bearer, add_user, remove, check_token, authenticate, get_login,
  basic_token,
}

-- The logins of a store's users, and what checking them comes to.
pub login_some :
    (realm user : Text) (store : TokenStore) {t : Text}
    → token_of user store ≡ some t
    → (get_login (basic realm store) user ≡ codes "Basic " ++ t)
      × (get_login (bearer store) user ≡ codes "Bearer " ++ t)
unfolding get_login
login_some realm user store e = (rw (e, get_login), rw (e, get_login))

login_none :
    (realm user : Text) (store : TokenStore)
    → token_of user store ≡ none
    → (get_login (basic realm store) user ≡ []) × (get_login (bearer store) user ≡ [])
unfolding get_login
login_none realm user store e = (rw (e, get_login), rw (e, get_login))

check_login :
    (t : Text) (store : TokenStore)
    → (check_token (codes "Basic") store (codes "Basic " ++ t) ≡ allowed t store)
      × (check_token (codes "Bearer") store (codes "Bearer " ++ t) ≡ allowed t store)
unfolding check_token
check_login t store = (refl, refl)

-- A store checks the login of a user, which another store may have given out.
authenticate-some :
    (realm user t : Text) (s store : TokenStore)
    → token_of user s ≡ some t
    → (authenticate (basic realm store) (get_login (basic realm s) user) ≡ allowed t store)
      × (authenticate (bearer store) (get_login (bearer s) user) ≡ allowed t store)
unfolding authenticate
authenticate-some realm user t s store e = (
  ap (authenticate (basic realm store)) ((login_some realm user s e).0) ∙ (check_login t store).0,
  ap (authenticate (bearer store)) ((login_some realm user s e).1) ∙ (check_login t store).1,
)

authenticate-none :
    (realm user : Text) (s store : TokenStore)
    → token_of user s ≡ none
    → (authenticate (basic realm store) (get_login (basic realm s) user) ≡ false)
      × (authenticate (bearer store) (get_login (bearer s) user) ≡ false)
unfolding authenticate check_token
authenticate-none realm user s store e = (
  ap (authenticate (basic realm store)) ((login_none realm user s e).0),
  ap (authenticate (bearer store)) ((login_none realm user s e).1),
)

-- The login that a user had is refused once the user is removed, unless everybody is let in.
pub remove_revokes :
    (a : Authenticator) (user : Text)
    → a ≢ pass
    → authenticate (remove user a) (get_login a user) ≡ false
unfolding authenticate remove
remove_revokes pass user h = absurd (h refl)
remove_revokes deny user h = refl
remove_revokes (basic realm store) user h = elim (Option-cases (token_of user store)) [
  | inl e ↦ (authenticate-none realm user store (remove_user user store) e).0
  | inr (t, e) ↦
      (authenticate-some realm user t store (remove_user user store) e).0
      ∙ remove_user-refuses user t store e
]
remove_revokes (bearer store) user h = elim (Option-cases (token_of user store)) [
  | inl e ↦ (authenticate-none [] user store (remove_user user store) e).1
  | inr (t, e) ↦
      (authenticate-some [] user t store (remove_user user store) e).1
      ∙ remove_user-refuses user t store e
]

-- A user who was just added gets a login that is let in, unless everybody is refused.
pub login-authenticates :
    (a : Authenticator) (user password : Text)
    → a ≢ deny
    → authenticate (add_user user password a) (get_login (add_user user password a) user) ≡ true
unfolding authenticate add_user
login-authenticates pass user password h = refl
login-authenticates deny user password h = absurd (h refl)
login-authenticates (basic realm store) user password h =
    let t = basic_token user password in
    let s = add_token user t store in
    (authenticate-some realm user t s s (token_of-add_token_self user t store)).0
    ∙ allowed-add_token_self user t store
login-authenticates (bearer store) user password h =
    let s = add_token user password store in
    (authenticate-some [] user password s s (token_of-add_token_self user password store)).1
    ∙ allowed-add_token_self user password store

-- Removing a user keeps the login of another user, if it is let in and differs from the first
-- user's login.
remove_keeps_others :
    (a : Authenticator) (user other : Text)
    → user ≢ other
    → get_login a user ≢ get_login a other
    → authenticate a (get_login a other) ≡ true
    → authenticate (remove user a) (get_login (remove user a) other) ≡ true
unfolding authenticate remove
remove_keeps_others pass user other h k ok = refl
remove_keeps_others deny user other h k ok = ok
remove_keeps_others (basic realm store) user other h k ok =
    let s = remove_user user store in
    elim (Option-cases (token_of other store)) [
      | inl e ↦ ground (arith, (authenticate-none realm other store store e).0)
      | inr (t, e) ↦
          (authenticate-some realm other t s s (token_of-remove_user_ne user other store h ∙ e)).0
          ∙ remove_user_keeps user t store
              (λ p.
                k ((login_some realm user store p).0 ∙ sym ((login_some realm other store e).0)))
              (sym ((authenticate-some realm other t store store e).0) ∙ ok)
    ]
remove_keeps_others (bearer store) user other h k ok =
    let s = remove_user user store in
    elim (Option-cases (token_of other store)) [
      | inl e ↦ ground (arith, (authenticate-none [] other store store e).1)
      | inr (t, e) ↦
          (authenticate-some [] other t s s (token_of-remove_user_ne user other store h ∙ e)).1
          ∙ remove_user_keeps user t store
              (λ p. k ((login_some [] user store p).1 ∙ sym ((login_some [] other store e).1)))
              (sym ((authenticate-some [] other t store store e).1) ∙ ok)
    ]

-- With bearer authentication, two users may have one token. Removing one of them then locks the
-- other one out: that user keeps a login, and it is refused.
shared_token_locks_out :
    (store : TokenStore) (user other password : Text)
    → user ≢ other
    → let a = remove user (add_user other password (add_user user password (bearer store))) in
      (get_login a other ≡ codes "Bearer " ++ password)
      × (authenticate a (get_login a other) ≡ false)
unfolding remove add_user
shared_token_locks_out store user other password h =
    let s = add_token other password (add_token user password store) in
    let first = add_token user password store in
    let mine =
      token_of-add_token_ne other user password first (λ e. h (sym e))
      ∙ token_of-add_token_self user password store in
    let theirs =
      token_of-remove_user_ne user other s h ∙ token_of-add_token_self other password first in
    (
      (login_some [] other (remove_user user s) theirs).1,
      (authenticate-some [] other password (remove_user user s) (remove_user user s) theirs).1
          ∙ remove_user-refuses user password s mine,
    )
