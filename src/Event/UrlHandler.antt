-- ===== src/Event/UrlHandler.antt =====
-- event/urlhandler.go: the handler that requests a URL. net/url.Parse is a parameter.
use restreamer.Prelude.{[], ◌∷◌, Option, none, some, Text, codes}
use restreamer.Prelude.Http.{Header}
use restreamer.Auth.{UserAuthenticator, get_user_login}
use restreamer.Streaming.Client.Sources.{Url}

pub record UrlHandler : Type 0 where
  pub url : Url
  pub user_auth : Option UserAuthenticator

-- none is the error of the parser.
unfoldable pub new_url_handler :
    (Text → Option Url) → Text → Option UserAuthenticator → Option UrlHandler
new_url_handler parse urly user_auth = elim (parse urly) [
  | none ↦ none
  | some u ↦ some (record { url = u; user_auth = user_auth })
]

-- The request that is sent for an event, of whatever kind.
pub record GetRequest : Type 0 where
  pub url : Url
  pub header : Header

unfoldable pub handle_event : UrlHandler → GetRequest
handle_event h = record {
  url = h.url;
  header = elim h.user_auth [ none ↦ [] | some u ↦ (codes "Authorization", get_user_login u) ∷ [] ];
}
