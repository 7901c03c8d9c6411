-- ===== src/Streaming/Proxy/Freshness.antt =====
-- When the fetcher fetches, and which resources it returns.
use restreamer.Prelude.{ℕ, ◌+◌, ◌≤◌, ◌<◌, ◌≡◌, Bool, List, [], ◌∷◌, Option, none, some, true, false}
use restreamer.Prelude.Channel.{ok}
use restreamer.Streaming.Client.Sources.{Url}
use restreamer.Streaming.Proxy.{Proxy, get_resource, cache_got, FetchableResource, Arrival, Handled}
use restreamer.Streaming.Proxy.Cached.{IsCached}

-- The resource in the cache is missing or too old.
abbrev pub IsOld : ℕ → ℕ → Option FetchableResource → Type 0
IsOld stale now none = Unit
IsOld stale now (some r) = r.updated + stale < now

-- The resource for one request, behind the last one. It is what the upstream gave for this request,
-- because the last one was missing or too old; or it is the last one, and not too old yet.
abbrev pub IsCurrent :
    Url → ℕ → ℕ → Arrival → Option FetchableResource → FetchableResource → Bool → Type 0
IsCurrent url limit stale a last r true =
    (cache_got (get_resource a.upstream url) limit a.later ≡ ok r)
    × (r.updated ≡ a.later)
    × IsOld stale a.now last
IsCurrent url limit stale a last r false = (last ≡ some r) × (a.now ≤ r.updated + stale)

-- The resources for requests that follow each other, behind the last one.
abbrev pub IsFresh : Url → ℕ → ℕ → Option FetchableResource → List Arrival → List Handled → Type 0
IsFresh url limit stale last [] [] = Unit
IsFresh url limit stale last [] (h ∷ hs) = ⊥
IsFresh url limit stale last (a ∷ later) [] = ⊥
IsFresh url limit stale last (a ∷ later) (h ∷ hs) =
    (h.asked ≡ a.now)
    × IsCurrent url limit stale a last h.resource h.fetched
    × IsFresh url limit stale (some h.resource) later hs

-- What one request does.
abbrev Handles :
    Arrival → Proxy → Option FetchableResource → Proxy × FetchableResource × Bool → Type 0
Handles a p o (p', r, fetched) =
    (p'.url ≡ p.url)
    × (p'.limit ≡ p.limit)
    × (p'.stale ≡ p.stale)
    × (p'.resource ≡ some r)
    × IsCurrent p.url p.limit p.stale a o r fetched

module _ (a : Arrival) (p : Proxy) where
  abbrev Fetched : FetchableResource → Type 0
  Fetched r =
      IsCached p.limit a.later r
      × (cache_got (get_resource a.upstream p.url) p.limit a.later ≡ ok r)
