-- ===== src/Streaming/Proxy/Served.antt =====
-- What a client of the proxy is sent.
use mathlib.Core.Path.{subst}
use restreamer.Prelude.{
  ◌+◌, ◌≤◌, ◌≡◌, refl, sym, ap, ◌∙◌, inl, inr, Bool, Bool-cases, [], Option, none, some, true,
  false, ◌&&◌, codes, text_beq_iff, text_eq, is_set, arith, if◌then◌else◌,
}
use restreamer.Prelude.Http.{Header, Response, get, new_response}
use restreamer.Prelude.Channel.{Outcome, ok, OnOk, OnOk-bind, ◌>>=◌}
use restreamer.Auth.{authenticate, handle_http_authentication}
use restreamer.Streaming.Proxy.{
  Proxy, FetchableResource, Arrival, is_stale, cache, refetch, fetch_with, fetch, reply,
  serve_proxy,
}
use restreamer.Streaming.Proxy.Cached.{IsCached, cache-IsCached}
use restreamer.Streaming.Proxy.Etag.{etag}
use restreamer.Streaming.Proxy.Decimal.{etag-is_set}
use restreamer.Streaming.Proxy.Reply.{IsReply, is_named, reply_named, reply-IsReply}

-- The resource in the cache has the tag of its content.
abbrev pub IsTagged : Option FetchableResource → Type 0
IsTagged none = Unit
IsTagged (some r) = r.etag ≡ etag r.content

-- What a request does to the cache.
abbrev pub Keeps : Proxy → Proxy × FetchableResource × Bool → Type 0
Keeps p (p', r, fetched) =
    (p'.resource ≡ some r) × (r.etag ≡ etag r.content) × (p'.stale ≡ p.stale) × (p'.auth ≡ p.auth)

module _ (a : Arrival) (p : Proxy) where
  refetch-Keeps : OnOk (Keeps p) (refetch a p)
  refetch-Keeps =
      OnOk-bind (IsCached p.limit a.later) (Keeps p) (cache a.upstream a.later p) _
        (cache-IsCached a.upstream a.later p) (λ r cached. (refl, cached.1, refl, refl))

  fetch_with-Keeps :
      (o : Option FetchableResource)
      → p.resource ≡ o
      → IsTagged o
      → OnOk (Keeps p) (fetch_with a p o)
  fetch_with-Keeps none e h = refetch-Keeps
  fetch_with-Keeps (some r) e h = elim (Bool-cases (is_stale a.now p.stale r)) [
    | inl old ↦ rw old refetch-Keeps
    | inr young ↦ rw young (e, h, refl, refl)
  ]

  fetch-Keeps : IsTagged p.resource → OnOk (Keeps p) (fetch a p)
  unfolding fetch
  fetch-Keeps h = fetch_with-Keeps p.resource refl h

-- Who is let in.
abbrev pub IsAllowed : Proxy → Header → Type 0
IsAllowed p request = authenticate p.auth (get (codes "Authorization") request) ≡ true

let_in :
    (request : Header) (p : Proxy)
    → IsAllowed p request
    → handle_http_authentication p.auth request new_response ≡ (new_response, true)
unfolding handle_http_authentication
let_in request p h = rw h refl

serve_proxy-allowed :
    (a : Arrival) (request : Header) (p : Proxy)
    → IsAllowed p request
    → serve_proxy a request p
      ≡ (fetch a p >>= (λ x. ok (x.0, reply p.stale request x.1 new_response)))
unfolding serve_proxy
serve_proxy-allowed a request p h =
    ap
      (λ (x : Response × Bool).
        if x.1 then (fetch a p >>= (λ y. ok (y.0, reply p.stale request y.1 x.0))) else ok (p, x.0))
      (let_in request p h)

-- What an allowed request gives.
abbrev pub IsServed : Proxy → Header → Proxy × Response → Type 0
IsServed p request (p', w) =
    (r : FetchableResource) × (p'.resource ≡ some r)
    × (r.etag ≡ etag r.content)
    × (p'.stale ≡ p.stale)
    × (p'.auth ≡ p.auth)
    × IsReply request r w

-- For every request that is authenticated, whatever the upstream does, if the cache is empty or the
-- tag in it is that of its content: unless a nil reader is used, the response is for the resource
-- that is in the cache then, and has its tag, which is again that of its content. A client that has
-- named this tag gets status 304 and nothing else; any other the status and the content of the
-- resource, and a Content-Length that is the number of bytes sent.
pub serve_proxy-IsServed :
    (a : Arrival) (request : Header) (p : Proxy)
    → IsAllowed p request
    → IsTagged p.resource
    → OnOk (IsServed p request) (serve_proxy a request p)
serve_proxy-IsServed a request p allowed tagged =
    subst (OnOk (IsServed p request)) (sym (serve_proxy-allowed a request p allowed)) (
      OnOk-bind (Keeps p) (IsServed p request) (fetch a p) _ (fetch-Keeps a p tagged) (λ x kept.
        let tagged' = ap is_set kept.1 ∙ etag-is_set x.1.content in
        (x.1, kept.0, kept.1, kept.2, kept.3, reply-IsReply p.stale request x.1 tagged')))

named_tag :
    (request : Header) (r : FetchableResource)
    → get (codes "If-None-Match") request ≡ r.etag
    → r.etag ≡ etag r.content
    → is_named request r ≡ true
named_tag request r e tag =
    both _ _ (ap is_set tag ∙ etag-is_set r.content)
      ((text_beq_iff (get (codes "If-None-Match") request) r.etag).1 e)
  where
    both : (a b : Bool) → a ≡ true → b ≡ true → (a && b) ≡ true
    both true b h k = k
    both false b h k = cc

fetch_young :
    (b : Arrival) (p : Proxy) (r : FetchableResource)
    → p.resource ≡ some r
    → b.now ≤ r.updated + p.stale
    → fetch b p ≡ ok (p, r, false)
unfolding fetch
fetch_young b p r kept young =
    let fresh : is_stale b.now p.stale r ≡ false = ground arith in
    ap (fetch_with b p) kept ∙ rw fresh refl

-- For a cache that is empty or tagged, and a request that is authenticated and answered: if a
-- second authenticated request names the tag of the answer, and comes before the resource is older
-- than the cache time, then it is answered with status 304 and an empty body, whatever the upstream
-- does, and the cache stays as it is.
pub revalidates :
    (a b : Arrival) (request again : Header) (p p' : Proxy) (w : Response)
    → IsTagged p.resource
    → IsAllowed p request
    → serve_proxy a request p ≡ ok (p', w)
    → IsAllowed p' again
    → get (codes "If-None-Match") again ≡ get (codes "Etag") w.header
    → ((r : FetchableResource) → p'.resource ≡ some r → b.now ≤ r.updated + p'.stale)
    → (w' : Response) × (serve_proxy b again p' ≡ ok (p', w'))
      × (w'.status ≡ some 304)
      × (w'.body ≡ [])
revalidates a b request again p p' w tagged allowed first allowed' named young =
    let (r, kept, tag, stale, auth, answer) =
      subst (OnOk (IsServed p request)) first (serve_proxy-IsServed a request p allowed tagged) in
    let named' = named_tag again r (named ∙ answer.0) tag in
    let (status, body) = reply_named p'.stale again r named' in
    (
      reply p'.stale again r new_response,
      serve_proxy-allowed b again p' allowed'
          ∙ ap
              (λ (o : Outcome (Proxy × FetchableResource × Bool)).
                o >>= (λ x. ok (x.0, reply p'.stale again x.1 new_response)))
              (fetch_young b p' r kept (young r kept)),
      status,
      body,
    )
