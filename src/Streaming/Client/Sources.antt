-- ===== src/Streaming/Client/Sources.antt =====
-- streaming/client.go: what the client uses of Go's packages os, net, net/http, net/url and os/exec,
-- and its errors.
use restreamer.Prelude.{ℕ, Bool, List, Option, Text}
use restreamer.Protocol.Reader.{Reader, IoError}

-- What the client uses of a net/url.URL.
pub record Url : Type 0 where
  pub scheme : Text
  pub host : Text
  pub hostname : Text
  pub path : Text
  pub raw_query : Text

pub data ClientError : Type 0 where
  invalid_protocol no_connection already_connected no_url : ClientError
  other : IoError → ClientError

-- An open socket, file or process: a reader in some state.
pub record Source : Type 1 where
  pub reader : Reader
  pub state : reader.State

pub data Opened : Type 1 where
  opened : Source → Opened
  refused : IoError → Opened

-- A response has a status code and a body.
pub data Answered : Type 1 where
  answered : ℕ → Source → Answered
  unanswered : IoError → Answered

pub data Resolved (A : Type 0) : Type 0 where
  resolved : A → Resolved A
  unresolved : IoError → Resolved A

-- The calls of os, net, net/http and os/exec, with what they return during one attempt.
pub record Network : Type 1 where
  pub Address : Type 0
  pub open_file : Text → Opened
  pub get_url : Url → Answered
  pub dial : Text → Text → Opened
  pub resolve : Text → Resolved Address
  pub is_multicast : Address → Bool
  pub listen_multicast : Option Text → Address → Opened
  pub listen : Address → Opened
  pub unescape : Text → Resolved Text
  pub run_command : Text → List Text → Opened
  pub close_input : Source → Option IoError
