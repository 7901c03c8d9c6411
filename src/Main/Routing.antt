-- ===== src/Main/Routing.antt =====
-- Which endpoints are served: those of streams, and interfaces to streams that are served.
use restreamer.Prelude.{
  All-imp, ℕ, ◌+◌, ◌<◌, ◌≡◌, refl, inl, inr, Bool-cases, Option-cases, List, [], ◌∷◌, ◌++◌, Option,
  none, some, Text, text_eq, text_beq, codes, lookup, assign, length, arith, ◌==◌, if◌then◌else◌,
}
use restreamer.Prelude.Channel.{Outcome, ok, OnOk, OnOk-bind, OnOk-then}
use restreamer.Configuration.{Configuration, Resource}
use restreamer.Streaming.Client.{Client}
use restreamer.Streaming.Client.Sources.{Url}
use restreamer.Streaming.Proxy.{new_proxy}
use restreamer.Auth.{Authenticator, new_authenticator}
use restreamer.Util.Shuffle.{shuffle}
use restreamer.Main.{
  Setup, Stream, Endpoint, stream, static, health, statistics, prometheus, check, control, Routes,
  no_routes, handle_pattern, add_stream, add_client, configure_stream, configure_static,
  handle_client, configure_api, configure_resource, configure_resources, Server,
  no_streams_available, serves, serve_resources,
}
use restreamer.Main.Served.{
  IsServed, Refers, IsRouted, Grows, IsServed-Grows, Refers-Grows, All-lookup, OnOk-if,
  handle_pattern-new, with_pattern, with_pattern-Grows, with_pattern-IsRouted, with_stream-IsRouted,
}

add_stream-IsRouted :
    (serve : Text) (s : Stream) (m : Routes)
    → s.name ≡ serve
    → IsRouted m
    → OnOk IsRouted (add_stream serve s m)
unfolding add_stream
add_stream-IsRouted serve s m named routed =
    OnOk-bind (λ m'. IsRouted (record m' { connected = m'.connected + 1 })) IsRouted
      (handle_pattern serve (stream (length m.streams)) entered) _
      (handle_pattern-new (λ m'. IsRouted (record m' { connected = m'.connected + 1 })) serve
        (stream (length m.streams)) entered
        (λ free. with_stream-IsRouted serve s m free named routed))
      (λ m' h. h)
  where
    entered : Routes
    entered = record m {
      clients = assign serve (length m.streams) m.clients;
      streams = m.streams ++ (s ∷ []);
    }

-- An endpoint that refers to nothing, or to what is served.
handle_pattern-IsRouted :
    (p : Text) (e : Endpoint) (m : Routes)
    → ((free : lookup p m.mux ≡ none) → Refers (with_pattern p e m free) (p, e))
    → IsRouted m
    → OnOk IsRouted (handle_pattern p e m)
handle_pattern-IsRouted p e m new routed =
    handle_pattern-new IsRouted p e m (λ free. with_pattern-IsRouted p e m free (new free) routed)

handle_client-IsRouted :
    (p : Text) (e : ℕ → Endpoint) (name : Text) (m : Routes)
    → ((m' : Routes) (k : ℕ) → (n : Text) × IsServed m' n k → Refers m' (p, e k))
    → IsRouted m
    → OnOk IsRouted (handle_client p e (lookup name m.clients) m)
handle_client-IsRouted p e name m refers routed = elim (Option-cases (lookup name m.clients)) [
  | inl unknown ↦ rw unknown routed
  | inr (k, known) ↦ rw known (
      handle_pattern-IsRouted p (e k) m
        (λ free. refers (with_pattern p (e k) m free) k (
          name,
          IsServed-Grows m (with_pattern p (e k) m free) name k (with_pattern-Grows p (e k) m free)
              (All-lookup (λ x. IsServed m x.0 x.1) name k m.clients routed.1 known),
        ))
        routed)
]

add_client-IsRouted :
    (env : Setup) (config : Configuration) (r : Resource) (o : Option Client) (m : Routes)
    → IsRouted m
    → OnOk IsRouted (add_client r.serve env config r o m)
add_client-IsRouted env config r none m routed = routed
add_client-IsRouted env config r (some c) m routed = add_stream-IsRouted r.serve _ m refl routed

registered-IsRouted :
    (names : List Text) (m : Routes) → IsRouted m → IsRouted (record m { registered = names })
registered-IsRouted names m (mux, clients, count) = (
  All-imp _ _ m.mux (Refers-Grows m (record m { registered = names }) same) mux,
  All-imp _ _ m.clients (λ x h. IsServed-Grows m (record m { registered = names }) x.0 x.1 same h)
      clients,
  count,
)
  where
    same : Grows m (record m { registered = names })
    same = (λ k s h. h, λ n e h. h)

configure_stream-IsRouted :
    (env : Setup) (config : Configuration) (r : Resource) (m : Routes)
    → IsRouted m
    → OnOk IsRouted (configure_stream env config r m)
unfolding configure_stream
configure_stream-IsRouted env config r m routed =
    OnOk-then IsRouted (shuffle env.intn (env.seed r.serve) r.remotes) _ (λ remotes.
      add_client-IsRouted env config r _ (record m { registered = m.registered ++ (r.serve ∷ []) })
        (registered-IsRouted (m.registered ++ (r.serve ∷ [])) m routed))

configure_api-IsRouted :
    (config : Configuration) (r : Resource) (m : Routes)
    → IsRouted m
    → OnOk IsRouted (configure_api config r m)
unfolding configure_api
configure_api-IsRouted config r m routed =
    OnOk-if IsRouted _ _ (text_beq r.api (codes "health")) (plain (health auth) (λ free. tt)) (
      OnOk-if IsRouted _ _ (text_beq r.api (codes "statistics"))
        (plain (statistics auth) (λ free. tt))
        (OnOk-if IsRouted _ _ (text_beq r.api (codes "check"))
          (handle_client-IsRouted r.serve (λ k. check k auth) r.remote m (λ m' k h. h) routed)
          (OnOk-if IsRouted _ _ (text_beq r.api (codes "control"))
            (handle_client-IsRouted r.serve (λ k. control k auth) r.remote m (λ m' k h. h) routed)
            (OnOk-if IsRouted _ _ (text_beq r.api (codes "prometheus"))
              (plain (prometheus auth) (λ free. tt)) routed))))
  where
    auth : Authenticator
    auth = new_authenticator r.authentication config.user_list

    plain :
        (e : Endpoint)
        → ((free : lookup r.serve m.mux ≡ none)
            → Refers (with_pattern r.serve e m free) (r.serve, e))
        → OnOk IsRouted (handle_pattern r.serve e m)
    plain e new = handle_pattern-IsRouted r.serve e m new routed

configure_static-IsRouted :
    (env : Setup) (config : Configuration) (r : Resource) (m : Routes)
    → IsRouted m
    → OnOk IsRouted (configure_static env config r m)
unfolding configure_static
configure_static-IsRouted env config r m routed = parsed (env.parse r.remote)
  where
    parsed :
        (o : Option Url)
        → OnOk IsRouted (elim o as (λ x. Outcome Routes) [
          | none ↦ ok m
          | some u ↦
              handle_pattern r.serve
                (static (new_proxy u r.cache (new_authenticator r.authentication config.user_list)))
                m
        ])
    parsed none = routed
    parsed (some u) = handle_pattern-IsRouted r.serve _ m (λ free. tt) routed

pub configure_resources-IsRouted :
    (env : Setup) (config : Configuration) (rs : List Resource) (m : Routes)
    → IsRouted m
    → OnOk IsRouted (configure_resources env config rs m)
unfolding configure_resources configure_resource
configure_resources-IsRouted env config [] m routed = routed
configure_resources-IsRouted env config (r ∷ rs) m routed =
    OnOk-bind IsRouted IsRouted (configure_resource env config r m) _
      (OnOk-if IsRouted _ _ (text_beq r.type (codes "stream"))
        (configure_stream-IsRouted env config r m routed)
        (OnOk-if IsRouted _ _ (text_beq r.type (codes "static"))
          (configure_static-IsRouted env config r m routed)
          (OnOk-if IsRouted _ _ (text_beq r.type (codes "api"))
            (configure_api-IsRouted config r m routed) routed)))
      (λ m' h. configure_resources-IsRouted env config rs m' h)

-- What is served, if anything: at least one stream, and routes that lead to what is served.
abbrev ServesRouted : Server → Type 1
ServesRouted no_streams_available = Unit
ServesRouted (serves m) = IsRouted m × (0 < length m.streams)

-- For every configuration and whatever its files, URLs and the random source are: unless a pattern
-- is empty or used twice, which panics, the program exits or serves at least one stream. Each entry
-- of the multiplexer for a stream, each client that was entered, and each check or control interface
-- then stands for a stream that was made and is served under its own name, and the count of
-- connections is the number of these streams.
serve_resources-ServesRouted :
    (env : Setup) (config : Configuration) → OnOk ServesRouted (serve_resources env config)
unfolding serve_resources
serve_resources-ServesRouted env config =
    OnOk-bind IsRouted ServesRouted (configure_resources env config config.resources no_routes) _
      (configure_resources-IsRouted env config config.resources no_routes (tt, tt, refl)) decide
  where
    decide :
        (m : Routes)
        → IsRouted m
        → ServesRouted (if m.connected == 0 then no_streams_available else serves m)
    decide m h = elim (Bool-cases (m.connected == 0)) [
      | inl e ↦ rw e tt
      | inr e ↦ rw e (h, ground (arith, h.2))
    ]
