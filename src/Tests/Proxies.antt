-- ===== src/Tests/Proxies.antt =====
-- streaming/proxy.go: a proxy of a file of four bytes, and one of a server that does not answer.
use restreamer.Prelude.{
  ℕ, ◌+◌, ◌≤◌, ◌≡◌, refl, ap, true, false, inl, List, [], ◌∷◌, Option, none, some, codes, arith,
}
use restreamer.Prelude.Channel.{OnOk, ok, panic}
use restreamer.Prelude.Http.{Header, Response}
use restreamer.Protocol.Reader.{io_error}
use restreamer.Auth.{pass, authenticate, handle_http_authentication}
use restreamer.Streaming.Client.Sources.{Url, opened}
use restreamer.Streaming.Proxy.{
  unanswered, Upstream, Proxy, FetchableResource, Arrival, fetch, cache, get_resource, serve_proxy,
  reply, cache_got, read_all,
}
use restreamer.Streaming.Proxy.Etag.{etag, itoa}
use restreamer.Streaming.Proxy.Cached.{IsCached, cache-IsCached, unreachable_panics}
use restreamer.Streaming.Proxy.Served.{IsServed, serve_proxy-IsServed, revalidates}
use restreamer.Streaming.Proxy.Exchange.{
  Exchange, done, new_exchange, comes, asks, takes, hands, starts, shuts, leaves, Action, come, ask,
  take_request, hand, start_fetcher, shutdown, leave, step, run,
}
use restreamer.Streaming.Proxy.Exchange.Pending.{IsPending}
use restreamer.Streaming.Proxy.Exchange.Turns.{log_of}
use restreamer.Streaming.Proxy.Exchange.Linear.{IsServedInTurn, run-IsServedInTurn}
use restreamer.Tests.Readers.{list_reader}

-- FNV-1a of the letter a.
hash_of_a : etag (codes "a") ≡ codes "af63dc4c8601ec8c"
unfolding etag
hash_of_a = refl

abbrev file_url : Url
file_url = record {
  scheme = codes "file";
  host = [];
  hostname = [];
  path = codes "/f.png";
  raw_query = [];
}

abbrev remote_url : Url
remote_url = record {
  scheme = codes "http";
  host = codes "up";
  hostname = codes "up";
  path = [];
  raw_query = [];
}

-- The reader gives three bytes at a time, so one is missing.
abbrev files : Upstream
files = record {
  open_file = λ path. opened (record { reader = list_reader; state = codes "abcd" });
  file_size = λ path. some 4;
  mime_type = λ path. codes "image/png";
  get_url = λ u. unanswered (io_error 1);
  is_permission_error = λ e. false;
}

abbrev proxy : Proxy
proxy = record { url = file_url; stale = 60; limit = 100; resource = none; auth = pass }

abbrev arrival : ℕ → Arrival
arrival now = record { now = now; later = now + 1; upstream = files }

cache-IsCached_example : OnOk (IsCached 100 7) (cache files 7 proxy)
cache-IsCached_example = cache-IsCached files 7 proxy

unreachable_panics_example : fetch (arrival 5) (record proxy { url = remote_url }) ≡ panic
unreachable_panics_example =
    unreachable_panics (arrival 5) (record proxy { url = remote_url }) (io_error 1) refl refl
      (inl refl)

allowed : authenticate pass [] ≡ true
unfolding authenticate
allowed = refl

serve_proxy-IsServed_example : OnOk (IsServed proxy []) (serve_proxy (arrival 5) [] proxy)
serve_proxy-IsServed_example = serve_proxy-IsServed (arrival 5) [] proxy allowed tt

abbrev cached : FetchableResource
cached = record {
  content = codes "abc";
  status_code = 200;
  etag = codes "e71fa2190541574b";
  header = (codes "Content-Type", codes "image/png") ∷ [];
  updated = 6;
}

abbrev answer : Response
answer = record {
  header =
      (codes "Content-Type", codes "image/png")
      ∷ (codes "Etag", codes "e71fa2190541574b")
      ∷ (codes "Cache-Control", codes "max-age=0")
      ∷ (codes "Content-Length", codes "3")
      ∷ [];
  status = some 200;
  body = codes "abc";
}

first_answer :
    serve_proxy (arrival 5) [] proxy ≡ ok (record proxy { resource = some cached }, answer)
unfolding serve_proxy get_resource etag itoa handle_http_authentication
first_answer = refl

abbrev with_tag : Header
with_tag = (codes "If-None-Match", codes "e71fa2190541574b") ∷ []

revalidates_example :
    (w' : Response) × (serve_proxy (arrival 40) with_tag (record proxy { resource = some cached })
      ≡ ok (record proxy { resource = some cached }, w'))
    × (w'.status ≡ some 304)
    × (w'.body ≡ [])
revalidates_example =
    revalidates (arrival 5) (arrival 40) [] with_tag proxy (record proxy { resource = some cached })
      answer tt allowed first_answer allowed refl still_young
  where
    updated_of : Option FetchableResource → ℕ
    updated_of none = 0
    updated_of (some r) = r.updated

    still_young :
        (r : FetchableResource)
        → ◌≡◌ {A = Option FetchableResource} (some cached) (some r)
        → 40 ≤ r.updated + 60
    still_young r e = let at : 6 ≡ r.updated = ap updated_of e in omega arith

-- Two calls at a time, of which the second is the first in the queue.
abbrev two_calls : List Action
two_calls =
    starts
    ∷ comes 0 []
    ∷ comes 1 with_tag
    ∷ asks 1
    ∷ asks 0
    ∷ takes (arrival 5)
    ∷ hands
    ∷ takes (arrival 7)
    ∷ hands
    ∷ shuts
    ∷ leaves
    ∷ []

run-IsServedInTurn_example :
    OnOk
      (λ e. IsServedInTurn proxy (log_of two_calls (new_exchange proxy) []) e × IsPending e)
      (run two_calls (new_exchange proxy))
run-IsServedInTurn_example = run-IsServedInTurn proxy two_calls

abbrev HasAnswers : Exchange → Type 0
HasAnswers e = (e.stages 0 ≡ done [] answer) × (e.proxy.resource ≡ some cached)

two_calls_answered : (e : Exchange) × (run two_calls (new_exchange proxy) ≡ ok e) × HasAnswers e
unfolding run step new_exchange come ask take_request hand start_fetcher shutdown leave fetch cache
    get_resource etag itoa handle_http_authentication authenticate reply cache_got read_all
two_calls_answered = (_, refl, (refl, refl))
