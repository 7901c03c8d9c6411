-- ===== src/Auth/Revocation.antt =====
-- Which tokens a store accepts, over any history of users added and removed.
use restreamer.Prelude.{
  ◌≡◌, ◌≢◌, ◌⊎◌, inl, inr, ◌∙◌, ap, Bool, true, false, Option, none, some, Text, Map, lookup,
  assign, delete, lookup-assign_self, lookup-assign_ne, lookup-delete_self, lookup-delete_ne,
  text_eq, arith, Bool-cases, Option-cases, Eq-cases,
}
use restreamer.Auth.Tokens.{TokenStore, allowed, token_of, drop_old, add_token, remove_user}

abbrev is_true : Option Bool → Bool
is_true none = false
is_true (some b) = b

-- Every token that is accepted is the token of a user.
abbrev pub IsBacked : TokenStore → Type 0
IsBacked store = (t : Text) → allowed t store ≡ true → (u : Text) × (token_of u store ≡ some t)

allowed-is_true :
    (t : Text) (store : TokenStore) → allowed t store ≡ is_true (lookup t store.tokens)
unfolding allowed
allowed-is_true t store = ground arith

-- A deleted token is refused, and all else is as before.
is_true-delete :
    (old t : Text) (m : Map Text Bool)
    → is_true (lookup t (delete old m)) ≡ true
    → (old ≢ t) × (is_true (lookup t m) ≡ true)
is_true-delete old t m h = elim (Eq-cases old t) [
  | inl same ↦ ground (arith, lookup-delete_self old m)
  | inr other ↦ (other, rw (lookup-delete_ne old t m other) at h)
]

is_true-assign :
    (token t : Text) (m : Map Text Bool)
    → is_true (lookup t (assign token true m)) ≡ true
    → (token ≡ t) ⊎ (is_true (lookup t m) ≡ true)
is_true-assign token t m h = elim (Eq-cases token t) [
  | inl same ↦ inl same
  | inr other ↦ inr (rw (lookup-assign_ne token t true m other) at h)
]

-- What is accepted after a user lost the old token: what was accepted, but not that token.
allowed-drop_old :
    (user t : Text) (store : TokenStore)
    → is_true (lookup t (drop_old user store)) ≡ true
    → (is_true (lookup t store.tokens) ≡ true) × (token_of user store ≢ some t)
unfolding drop_old token_of
allowed-drop_old user t store h = elim (Option-cases (lookup user store.users)) [
  | inl e ↦ ground arith
  | inr (old, e) ↦ ground (arith, is_true-delete old t store.tokens)
]

allowed-add_token :
    (user token t : Text) (store : TokenStore)
    → allowed t (add_token user token store) ≡ true
    → (token ≡ t) ⊎ ((allowed t store ≡ true) × (token_of user store ≢ some t))
unfolding add_token
allowed-add_token user token t store h = ground (
  arith,
  allowed-is_true t store,
  allowed-is_true t (add_token user token store),
  is_true-assign token t (drop_old user store),
  allowed-drop_old user t store,
)

remove_user-tokens :
    (user : Text) (store : TokenStore) → (remove_user user store).tokens ≡ drop_old user store
unfolding remove_user drop_old
remove_user-tokens user store = ground arith

pub allowed-remove_user :
    (user t : Text) (store : TokenStore)
    → allowed t (remove_user user store) ≡ true
    → (allowed t store ≡ true) × (token_of user store ≢ some t)
allowed-remove_user user t store h = ground (
  arith,
  allowed-is_true t store,
  allowed-is_true t (remove_user user store),
  remove_user-tokens user store,
  allowed-drop_old user t store,
)

pub token_of-remove_user_ne :
    (user u : Text) (store : TokenStore)
    → user ≢ u
    → token_of u (remove_user user store) ≡ token_of u store
unfolding token_of remove_user
token_of-remove_user_ne user u store h = ground (arith, lookup-delete_ne user u store.users h)

pub add_token-IsBacked :
    (user token : Text) (store : TokenStore)
    → IsBacked store
    → IsBacked (add_token user token store)
add_token-IsBacked user token store b t h = elim (allowed-add_token user token t store h) [
  | inl same ↦ (user, unfold add_token token_of in rw same (lookup-assign_self user t store.users))
  | inr (old, not_user) ↦
      let (u, is_u) = b t old in
      (
        u,
        unfold add_token token_of in
            lookup-assign_ne user u token store.users (λ e. not_user (rw e is_u)) ∙ is_u,
      )
]

pub remove_user-IsBacked :
    (user : Text) (store : TokenStore) → IsBacked store → IsBacked (remove_user user store)
remove_user-IsBacked user store b t h =
    let (old, not_user) = allowed-remove_user user t store h in
    let (u, is_u) = b t old in
    (u, token_of-remove_user_ne user u store (λ e. not_user (rw e is_u)) ∙ is_u)

pub allowed-add_token_self :
    (user token : Text) (store : TokenStore) → allowed token (add_token user token store) ≡ true
unfolding allowed add_token
allowed-add_token_self user token store =
    ground (arith, lookup-assign_self token true (drop_old user store))

-- The token of a removed user is refused.
pub remove_user-refuses :
    (user t : Text) (store : TokenStore)
    → token_of user store ≡ some t
    → allowed t (remove_user user store) ≡ false
remove_user-refuses user t store e = elim (Bool-cases (allowed t (remove_user user store))) [
  | inl ok ↦ absurd ((allowed-remove_user user t store ok).1 e)
  | inr refused ↦ refused
]

-- Removing a user keeps every token that is not that user's.
pub remove_user_keeps :
    (user t : Text) (store : TokenStore)
    → token_of user store ≢ some t
    → allowed t store ≡ true
    → allowed t (remove_user user store) ≡ true
unfolding allowed token_of remove_user
remove_user_keeps user t store h ok = elim (Option-cases (lookup user store.users)) [
  | inl e ↦ ground arith
  | inr (old, e) ↦ ground (arith, lookup-delete_ne old t store.tokens (λ p. h (e ∙ ap some p)))
]

pub token_of-add_token_self :
    (user token : Text) (store : TokenStore)
    → token_of user (add_token user token store) ≡ some token
unfolding token_of add_token
token_of-add_token_self user token store = lookup-assign_self user token store.users

pub token_of-add_token_ne :
    (user u token : Text) (store : TokenStore)
    → user ≢ u
    → token_of u (add_token user token store) ≡ token_of u store
unfolding token_of add_token
token_of-add_token_ne user u token store h = lookup-assign_ne user u token store.users h
