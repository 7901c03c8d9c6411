-- ===== src/Streaming/Proxy.antt =====
-- streaming/proxy.go: the caching HTTP proxy.
pub mod Etag
pub mod Decimal
pub mod Cached
pub mod Freshness
pub mod Reply
pub mod Served
pub mod Exchange
use restreamer.Prelude.{
  ℕ, zero, suc, ◌+◌, ◌*◌, ◌-◌, ◌/◌, ◌^◌, Bool, true, false, not, ◌||◌, ◌&&◌, List, [], ◌∷◌, ◌++◌,
  Option, none, some, Text, codes, text_beq, is_set, ltb, leb, ◌==◌, length, if◌then◌else◌,
}
use restreamer.Prelude.Http.{Header, Response, get, new_response, set_header, write_header, write}
use restreamer.Prelude.Channel.{Outcome, ok, panic, ◌>>=◌}
use restreamer.Protocol.Reader.{IoError}
use restreamer.Auth.{Authenticator, handle_http_authentication}
use restreamer.Streaming.Client.Sources.{Url, Source, Opened, opened, refused}
use Etag.{etag, itoa}

-- 10 MiB
abbrev pub default_limit : ℕ
default_limit = 10 * 1024 * 1024

-- The response to a request of the proxy; a length of none is -1.
pub record Answer : Type 1 where
  pub status : ℕ
  pub header : Header
  pub content_length : Option ℕ
  pub body : Source

pub data Asked : Type 1 where
  answered : Answer → Asked
  unanswered : IoError → Asked

-- The calls of os, mime and net/http, with what they return during one fetch, and whether an error
-- is the value os.ErrPermission.
pub record Upstream : Type 1 where
  pub open_file : Text → Opened
  pub file_size : Text → Option ℕ
  pub mime_type : Text → Text
  pub get_url : Url → Asked
  pub is_permission_error : IoError → Bool

pub record FetchableResource : Type 0 where
  pub content : List ℕ
  pub status_code : ℕ
  pub etag : Text
  pub header : Header
  pub updated : ℕ

-- The fetcher keeps the resource; times are numbers of nanoseconds.
pub record Proxy : Type 0 where
  pub url : Url
  pub stale : ℕ
  pub limit : ℕ
  pub resource : Option FetchableResource
  pub auth : Authenticator

-- The cache time in seconds is below 2 ^ 63 / 10 ^ 9, some 292 years; above it, the time.Duration of
-- the source wraps around, and the proxy is not modelled.
unfoldable pub new_proxy : Url → ℕ → Authenticator → Proxy
new_proxy url cache auth = record {
  url = url;
  stale = cache * 1000000000;
  limit = default_limit;
  resource = none;
  auth = auth;
}

-- What Get returns.
pub record Got : Type 1 where
  pub reader : Option Source
  pub header : Header
  pub status : ℕ
  pub length : Option ℕ
  pub err : Option IoError

-- The branch for a file.
abbrev get_file : Upstream → Text → Opened → Got
get_file up path (opened file) = record {
  reader = some file;
  header =
      if is_set (up.mime_type path) then (codes "Content-Type", up.mime_type path) ∷ [] else [];
  status = 200;
  length = up.file_size path;
  err = none;
}
get_file up path (refused e) = record {
  reader = none;
  header = [];
  status = if up.is_permission_error e then 403 else 404;
  length = some 0;
  err = some e;
}

-- The other branch, where `response, err := ...` declares another err: the result stays nil.
abbrev get_response : Asked → Got
get_response (answered a) = record {
  reader = some a.body;
  header = a.header;
  status = a.status;
  length = a.content_length;
  err = none;
}
get_response (unanswered e) = record {
  reader = none;
  header = [];
  status = 502;
  length = some 0;
  err = none;
}

unfoldable pub get_resource : Upstream → Url → Got
get_resource up u =
    if text_beq u.scheme (codes "file")
    then get_file up u.path (up.open_file u.path)
    else get_response (up.get_url u)

abbrev pub bad_gateway : Text
bad_gateway = codes "Bad Gateway"

abbrev resource_of : List ℕ → ℕ → Header → ℕ → FetchableResource
resource_of content status header now = record {
  content = content;
  status_code = status;
  etag = etag content;
  header = header;
  updated = now;
}

abbrev zeros : ℕ → List ℕ
zeros zero = []
zeros (suc n) = 0 ∷ zeros n

-- The buffer of the given length after a call of Read: it is cut to what was read, unless there was
-- an error.
abbrev pub filled : List ℕ → Option IoError → ℕ → List ℕ
filled bytes none n = bytes
filled bytes (some e) n = bytes ++ zeros (n - length bytes)

-- One call of Read for all of the data. A nil reader is dereferenced.
unfoldable pub read_all : Option Source → ℕ → Outcome (List ℕ)
read_all none n = panic
read_all (some i) n = let count = (i.reader.read i.state n).1 in ok (filled count.bytes count.err n)

-- The fetch of the data, for a length that is known.
abbrev pub cache_data : Got → ℕ → ℕ → ℕ → Outcome FetchableResource
cache_data g limit now n =
    let fetched = (do
      content ← read_all g.reader n
      ok (resource_of content g.status g.header now)) in
    if ltb limit n then ok (resource_of bad_gateway 502 [] now) else fetched

abbrev pub check_length : Got → ℕ → ℕ → Option ℕ → Outcome FetchableResource
check_length g limit now none = ok (resource_of bad_gateway 502 [] now)
check_length g limit now (some n) = cache_data g limit now n

abbrev pub check_error : Got → ℕ → ℕ → Option IoError → Outcome FetchableResource
check_error g limit now none = check_length g limit now g.length
check_error g limit now (some e) = ok (resource_of [] g.status g.header now)

-- What `cache` does with the result of Get.
unfoldable pub cache_got : Got → ℕ → ℕ → Outcome FetchableResource
unfolding read_all
cache_got g limit now = check_error g limit now g.err

unfoldable pub cache : Upstream → ℕ → Proxy → Outcome FetchableResource
unfolding get_resource cache_got
cache up now p = cache_got (get_resource up p.url) p.limit now

-- A request for the fetcher comes at a time `now`; a fetch ends at the time `later`.
pub record Arrival : Type 1 where
  pub now : ℕ
  pub later : ℕ
  pub upstream : Upstream

-- now.Sub(updated) > stale
abbrev pub is_stale : ℕ → ℕ → FetchableResource → Bool
is_stale now stale r = ltb (r.updated + stale) now

abbrev pub refetch : Arrival → Proxy → Outcome (Proxy × FetchableResource × Bool)
refetch a p = do r ← cache a.upstream a.later p; ok (record p { resource = some r }, r, true)

abbrev pub fetch_with :
    Arrival → Proxy → Option FetchableResource → Outcome (Proxy × FetchableResource × Bool)
fetch_with a p none = refetch a p
fetch_with a p (some r) = if is_stale a.now p.stale r then refetch a p else ok (p, r, false)

-- How the fetcher handles a request: the resource, and whether it was fetched for the request.
unfoldable pub fetch : Arrival → Proxy → Outcome (Proxy × FetchableResource × Bool)
unfolding cache
fetch a p = fetch_with a p p.resource

-- What is returned for a request, and when it was asked for and returned.
pub record Handled : Type 0 where
  pub asked : ℕ
  pub ended : ℕ
  pub resource : FetchableResource
  pub fetched : Bool

-- The loop of the fetcher over the requests.
unfoldable pub fetch_loop : List Arrival → Proxy → Outcome (Proxy × List Handled)
fetch_loop [] p = ok (p, [])
fetch_loop (a ∷ later) p = do
  (p', r, fetched) ← fetch a p
  (q, rest) ← fetch_loop later p'
  ok (q, (record { asked = a.now; ended = a.later; resource = r; fetched = fetched }) ∷ rest)

-- The only header that is passed on.
abbrev copy_header : FetchableResource → Response → Response
copy_header r w =
    if is_set (get (codes "Content-Type") r.header)
    then set_header (codes "Content-Type") (get (codes "Content-Type") r.header) w
    else w

abbrev cache_headers : ℕ → FetchableResource → Response → Response
cache_headers stale r w =
    set_header (codes "Cache-Control") (codes "max-age=" ++ itoa (stale / 1000000000))
      (set_header (codes "Etag") r.etag (copy_header r w))

-- The part of ServeHTTP behind the fetch, for the header of a request.
unfoldable pub reply : ℕ → Header → FetchableResource → Response → Response
reply stale request r w =
    let w' = cache_headers stale r w in
    if is_set r.etag && text_beq (get (codes "If-None-Match") request) r.etag
    then write_header 304 w'
    else write r.content (
        write_header r.status_code
          (set_header (codes "Content-Length") (itoa (length r.content)) w'))

unfoldable pub serve_proxy : Arrival → Header → Proxy → Outcome (Proxy × Response)
unfolding fetch reply
serve_proxy a request p =
    let (w, passed) = handle_http_authentication p.auth request new_response in
    let answer = (do (p', r, fetched) ← fetch a p; ok (p', reply p.stale request r w)) in
    if passed then answer else ok (p, w)
