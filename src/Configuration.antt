-- ===== src/Configuration.antt =====
-- configuration/config.go: the settings, and what is done to them after they were decoded.
pub mod Normal
use restreamer.Prelude.{
  ℕ, ◌+◌, ◌≡◌, Bool, true, false, ◌&&◌, List, [], ◌∷◌, map, Option, none, some, Text, Map, codes,
  is_set, text_beq, ◌==◌, if◌then◌else◌,
}

pub record Authentication : Type 0 where
  pub type : Text
  pub realm : Text
  pub user : Text
  pub users : List Text

pub record Resource : Type 0 where
  pub type : Text
  pub api : Text
  pub serve : Text
  pub remote : Text
  pub remotes : List Text
  pub client_interface : Text
  pub cache : ℕ
  pub authentication : Authentication
  pub mru : ℕ
  pub preamble : Text

pub record UserCredentials : Type 0 where
  pub password : Text

pub record Notification : Type 0 where
  pub event : Text
  pub type : Text
  pub url : Text
  pub authentication : Authentication

pub record Configuration : Type 0 where
  pub listen : Text
  pub timeout : ℕ
  pub reconnect : ℕ
  pub read_timeout : ℕ
  pub input_buffer : ℕ
  pub output_buffer : ℕ
  pub max_connections : ℕ
  pub full_connections : ℕ
  pub no_stats : Bool
  pub heartbeat_interval : ℕ
  pub log : Text
  pub profile : Bool
  pub user_list : Map Text UserCredentials
  pub resources : List Resource
  pub notifications : List Notification

unfoldable pub default_configuration : Configuration
default_configuration = record {
  listen = codes "localhost:http";
  timeout = 0;
  reconnect = 10;
  read_timeout = 0;
  input_buffer = 1000;
  output_buffer = 400;
  max_connections = 0;
  full_connections = 0;
  no_stats = false;
  heartbeat_interval = 60;
  log = [];
  profile = false;
  user_list = [];
  resources = [];
  notifications = [];
}

-- `User` goes to the front of `Users`, if there are an authentication type and a user.
unfoldable pub merge_user : Authentication → Authentication
merge_user a =
    if is_set a.type && is_set a.user then record a { users = a.user ∷ a.users; user = [] } else a

-- `Remote` goes to the front of `Remotes`, if this is a stream.
unfoldable pub merge_remote : Resource → Resource
merge_remote r =
    if text_beq r.type (codes "stream") && is_set r.remote
    then record r { remotes = r.remote ∷ r.remotes; remote = [] }
    else r

-- The body of the loop over the resources.
unfoldable pub fix_resource : Resource → Resource
unfolding merge_remote merge_user
fix_resource r =
    let s = merge_remote r in
    record s {
      authentication = merge_user s.authentication;
      mru = if s.mru == 0 then 1500 else s.mru;
    }

-- The body of the loop over the notifications.
unfoldable pub fix_notification : Notification → Notification
unfolding merge_user
fix_notification n = record n { authentication = merge_user n.authentication }

unfoldable pub normalize : Configuration → Configuration
unfolding fix_resource fix_notification
normalize c = record c {
  resources = map fix_resource c.resources;
  notifications = map fix_notification c.notifications;
}

-- The JSON decoder is a parameter: it overwrites the settings that the text names in the
-- configuration that it is given, or fails.
module _ (decode : Configuration → Text → Option Configuration) where
  unfoldable pub load_configuration : Text → Option Configuration
  unfolding normalize default_configuration
  load_configuration text = elim (decode default_configuration text) [
    | none ↦ none
    | some config ↦ some (normalize config)
  ]

  -- os.Open is a parameter, too: what the file holds, or an error.
  unfoldable pub load_configuration_file : (Text → Option Text) → Text → Option Configuration
  unfolding load_configuration
  load_configuration_file open_file filename = elim (open_file filename) [
    | none ↦ none
    | some text ↦ load_configuration text
  ]
