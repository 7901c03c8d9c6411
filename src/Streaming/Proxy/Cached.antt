-- ===== src/Streaming/Proxy/Cached.antt =====
-- What a fetch puts into the cache.
use restreamer.Prelude.{
  ℕ, zero, suc, ◌+◌, ◌-◌, ◌≤◌, ◌<◌, ◌≡◌, ◌⊎◌, refl, ap, ◌∙◌, inl, inr, Bool-cases, List, Option,
  none, some, codes, text_beq, true, false, ltb, length, length-append, arith,
}
use restreamer.Prelude.Channel.{◌>>=◌, Outcome, ok, panic, OnOk, OnOk-bind}
use restreamer.Protocol.Reader.{IoError}
use restreamer.Streaming.Client.Sources.{Url, Source}
use restreamer.Streaming.Proxy.{
  Proxy, Upstream, Got, FetchableResource, unanswered, get_resource, get_response, cache_got, cache,
  read_all, filled, zeros, bad_gateway, cache_data, check_length, check_error, Arrival, fetch,
  fetch_with, is_stale, refetch,
}
use restreamer.Streaming.Proxy.Etag.{etag}

-- The content fits into the limit, or is the text of an error; the hash is that of the content.
abbrev pub IsCached : ℕ → ℕ → FetchableResource → Type 0
IsCached limit now r =
    ((length r.content ≤ limit) ⊎ (r.content ≡ bad_gateway))
    × (r.etag ≡ etag r.content)
    × (r.updated ≡ now)

length-zeros : (n : ℕ) → length (zeros n) ≡ n
length-zeros zero = refl
length-zeros (suc n) = ap suc (length-zeros n)

length-filled :
    (bytes : List ℕ) (err : Option IoError) (n : ℕ)
    → length bytes ≤ n
    → length (filled bytes err n) ≤ n
length-filled bytes none n h = h
length-filled bytes (some e) n h =
    omega (arith, length-append bytes (zeros (n - length bytes)), length-zeros (n - length bytes))

read_all_bounded : (o : Option Source) (n : ℕ) → OnOk (λ content. length content ≤ n) (read_all o n)
unfolding read_all
read_all_bounded none n = tt
read_all_bounded (some i) n = length-filled _ _ n (i.reader.read_bounded i.state n)

module _ (g : Got) (limit now : ℕ) where
  cache_data-IsCached : (n : ℕ) → OnOk (IsCached limit now) (cache_data g limit now n)
  cache_data-IsCached n = elim (Bool-cases (ltb limit n)) [
    | inl e ↦ rw e (inr refl, refl, refl)
    | inr e ↦ rw e (
        OnOk-bind (λ (content : List ℕ). length content ≤ n) (IsCached limit now)
          (read_all g.reader n) _ (read_all_bounded g.reader n)
          (λ content h. (inl (ground arith), refl, refl)))
  ]

  check_length-IsCached : (o : Option ℕ) → OnOk (IsCached limit now) (check_length g limit now o)
  check_length-IsCached none = (inr refl, refl, refl)
  check_length-IsCached (some n) = cache_data-IsCached n

  check_error-IsCached :
      (o : Option IoError) → OnOk (IsCached limit now) (check_error g limit now o)
  check_error-IsCached none = check_length-IsCached g.length
  check_error-IsCached (some e) = (inl (omega arith), refl, refl)

-- Whatever the upstream does: unless a nil reader is used, what is put into the cache is at most as
-- long as the limit, or is the text of an error; and its tag is the one of this content.
pub cache-IsCached :
    (up : Upstream) (now : ℕ) (p : Proxy) → OnOk (IsCached p.limit now) (cache up now p)
unfolding cache cache_got
cache-IsCached up now p = check_error-IsCached (get_resource up p.url) p.limit now _

nothing_read :
    (e : IoError) (limit now : ℕ)
    → ltb limit 0 ≡ false
    → cache_got (get_response (unanswered e)) limit now ≡ panic
unfolding cache_got
nothing_read e limit now h = rw h refl

no_answer :
    (up : Upstream) (u : Url) (e : IoError)
    → text_beq u.scheme (codes "file") ≡ false
    → up.get_url u ≡ unanswered e
    → get_resource up u ≡ get_response (unanswered e)
unfolding get_resource
no_answer up u e remote down = simp (remote, down) refl

cache-panics :
    (up : Upstream) (now : ℕ) (p : Proxy) (e : IoError)
    → text_beq p.url.scheme (codes "file") ≡ false
    → up.get_url p.url ≡ unanswered e
    → cache up now p ≡ panic
unfolding cache cache_got
cache-panics up now p e remote down =
    ap (λ (g : Got). cache_got g p.limit now) (no_answer up p.url e remote down)
    ∙ nothing_read e p.limit now (ground arith)

-- For a URL that does not name a file, and a server that does not answer: the fetcher uses a nil
-- pointer, and the program crashes, whether the cache was empty or the resource was too old.
pub unreachable_panics :
    (a : Arrival) (p : Proxy) (e : IoError)
    → text_beq p.url.scheme (codes "file") ≡ false
    → a.upstream.get_url p.url ≡ unanswered e
    → (p.resource ≡ none)
      ⊎ ((r : FetchableResource) × (p.resource ≡ some r) × (r.updated + p.stale < a.now))
    → fetch a p ≡ panic
unfolding fetch
unreachable_panics a p e remote down old = fetch_old p.resource old
  where
    failed : refetch a p ≡ panic
    failed =
        ap
          (λ (o : Outcome FetchableResource).
            o >>= (λ r. ok (record p { resource = some r }, r, true)))
          (cache-panics a.upstream a.later p e remote down)

    updated_of : Option FetchableResource → ℕ
    updated_of none = 0
    updated_of (some r) = r.updated

    too_old :
        (r : FetchableResource)
        → (◌≡◌ {A = Option FetchableResource} (some r) none)
          ⊎ ((r' : FetchableResource) × (◌≡◌ {A = Option FetchableResource} (some r) (some r'))
              × (r'.updated + p.stale < a.now))
        → is_stale a.now p.stale r ≡ true
    too_old r (inl h) = cc
    too_old r (inr (r', same, late)) = let at = ap updated_of same in ground arith

    fetch_old :
        (o : Option FetchableResource)
        → (o ≡ none) ⊎ ((r : FetchableResource) × (o ≡ some r) × (r.updated + p.stale < a.now))
        → fetch_with a p o ≡ panic
    fetch_old none h = failed
    fetch_old (some r) h = rw (too_old r h) failed
