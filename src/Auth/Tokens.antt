-- ===== src/Auth/Tokens.antt =====
-- The two maps that the basic and the bearer authenticators share, and what is done to them.
use restreamer.Prelude.{
  Bool, true, false, [], Option, none, some, Text, Map, lookup, assign, delete, text_eq,
}

-- tokens maps valid authentication strings to yes or no; users maps names to such strings.
pub record TokenStore : Type 0 where
  pub tokens : Map Text Bool
  pub users : Map Text Text

abbrev pub new_store : TokenStore
new_store = record { tokens = []; users = [] }

-- tokens[hash]: false where the key is missing.
unfoldable pub allowed : Text → TokenStore → Bool
allowed hash store = elim (lookup hash store.tokens) [ none ↦ false | some b ↦ b ]

unfoldable pub token_of : Text → TokenStore → Option Text
token_of user store = lookup user store.users

-- The old token of an existing user is removed.
unfoldable pub drop_old : Text → TokenStore → Map Text Bool
drop_old user store = elim (lookup user store.users) [
  | none ↦ store.tokens
  | some old ↦ delete old store.tokens
]

unfoldable pub add_token : Text → Text → TokenStore → TokenStore
unfolding drop_old
add_token user token store = record {
  tokens = assign token true (drop_old user store);
  users = assign user token store.users;
}

unfoldable pub remove_user : Text → TokenStore → TokenStore
remove_user user store = elim (lookup user store.users) [
  | none ↦ store
  | some token ↦ record { tokens = delete token store.tokens; users = delete user store.users }
]
