-- ===== src/Api/Access.antt =====
-- What the interfaces do with a request that is not authenticated.
use restreamer.Prelude.{
  ◌≡◌, ◌⊎◌, inl, inr, refl, Bool, false, List, Option, none, some, Text, codes, is_set, Bool-cases,
}
use restreamer.Prelude.Http.{Header, get, Response, add_header}
use restreamer.Auth.{
  Authenticator, authenticate, get_authenticate_request, handle_http_authentication,
}
use restreamer.Metrics.Statistics.{StreamStatistics}
use restreamer.Api.{
  HealthReport, StatisticsReport, serve_health, serve_statistics, serve_stream_state,
  serve_stream_control, serve_prometheus,
}

-- The response was ended with 401 or 403, and has no content beyond that of the writer.
pub record IsRefusal (writer response : Response) : Type 0 where
  pub status : (response.status ≡ some 401) ⊎ (response.status ≡ some 403)
  pub body : response.body ≡ writer.body

refused :
    (auth : Authenticator) (request : Header) (writer : Response)
    → authenticate auth (get (codes "Authorization") request) ≡ false
    → writer.status ≡ none
    → ((handle_http_authentication auth request writer).1 ≡ false)
      × IsRefusal writer (handle_http_authentication auth request writer).0
unfolding handle_http_authentication
refused auth request writer refusal fresh =
    elim (Bool-cases (is_set (get_authenticate_request auth))) [
      | inl e ↦ rw (refusal, e) (refl, record { status = inl (rw fresh refl); body = refl })
      | inr e ↦ rw (refusal, e) (refl, record { status = inr (rw fresh refl); body = refl })
    ]

-- If the authenticator refuses the request and no status was written yet, then each of the five
-- interfaces ends the response with 401 or 403 and writes no content, the stream control does not
-- call SetInhibit, and the Prometheus interface does not call the handler of its library.
pub unauthenticated_refused :
    (auth : Authenticator) (request : Header) (writer : Response)
    (health : HealthReport → Option Text) (statistics : StatisticsReport → Option Text)
    (prometheus : Header → Response → Response) (global : StreamStatistics) (connected : Bool)
    (query : List (Text × Text))
    → authenticate auth (get (codes "Authorization") request) ≡ false
    → writer.status ≡ none
    → IsRefusal writer (serve_health health auth global request writer)
      × IsRefusal writer (serve_statistics statistics auth global request writer)
      × IsRefusal writer (serve_stream_state auth connected request writer)
      × IsRefusal writer (serve_stream_control auth query request writer).0
      × ((serve_stream_control auth query request writer).1 ≡ none)
      × IsRefusal writer (serve_prometheus prometheus auth request writer)
unfolding serve_health serve_statistics serve_stream_state serve_stream_control serve_prometheus
unauthenticated_refused auth request writer health statistics prometheus global connected query
      refusal fresh =
    let (json, as_json) =
      refused auth request (add_header (codes "Content-Type") (codes "application/json") writer)
        refusal fresh in
    let (plain, as_plain) =
      refused auth request (add_header (codes "Content-Type") (codes "text/plain") writer) refusal
        fresh in
    let (bare, as_bare) = refused auth request writer refusal fresh in
    (
      rw json (record { status = as_json.status; body = as_json.body }),
      rw json (record { status = as_json.status; body = as_json.body }),
      rw plain (record { status = as_plain.status; body = as_plain.body }),
      rw plain (record { status = as_plain.status; body = as_plain.body }),
      rw plain refl,
      rw bare as_bare,
    )
