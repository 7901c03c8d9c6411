-- ===== src/Main/Program/Names.antt =====
-- The streams that main registers for statistics.
use mathlib.Core.List.{append-nil, append_assoc}
use restreamer.Prelude.{
  ℕ, ◌≡◌, refl, sym, ap, ◌∙◌, inl, inr, Bool-cases, List, [], ◌∷◌, ◌++◌, Option, none, some, Text,
  text_eq, codes, text_beq, is_set, lookup, if◌then◌else◌,
}
use restreamer.Prelude.Channel.{Outcome, ok, panic, OnOk, OnOk-bind, OnOk-then, OnOk-imp}
use restreamer.Configuration.{Configuration, Resource}
use restreamer.Streaming.Client.{Client}
use restreamer.Streaming.Client.Sources.{Url}
use restreamer.Streaming.Proxy.{new_proxy}
use restreamer.Auth.{new_authenticator}
use restreamer.Util.Shuffle.{shuffle}
use restreamer.Main.{
  Setup, Endpoint, static, health, statistics, prometheus, check, control, Routes, insert_pattern,
  handle_pattern, add_stream, add_client, configure_stream, configure_static, handle_client,
  configure_api, configure_resource, configure_resources,
}
use restreamer.Main.Served.{OnOk-if}

-- The patterns of the resources that are streams.
abbrev pub stream_name : Resource → List Text
stream_name r = if text_beq r.type (codes "stream") then r.serve ∷ [] else []

abbrev pub stream_names : List Resource → List Text
stream_names [] = []
stream_names (r ∷ rs) = stream_name r ++ stream_names rs

abbrev pub Registers : Routes → List Text → Routes → Type 0
Registers m names m' = m'.registered ≡ m.registered ++ names

module _ (m : Routes) where
  insert_pattern-keeps :
      (p : Text) (e : Endpoint) (o : Option Endpoint)
      → OnOk (λ m'. m'.registered ≡ m.registered) (insert_pattern p e m o)
  insert_pattern-keeps p e (some old) = tt
  insert_pattern-keeps p e none =
      OnOk-if (λ m'. m'.registered ≡ m.registered) _ panic (is_set p) refl tt

  handle_pattern-keeps :
      (p : Text) (e : Endpoint) → OnOk (λ m'. m'.registered ≡ m.registered) (handle_pattern p e m)
  unfolding handle_pattern
  handle_pattern-keeps p e = insert_pattern-keeps p e (lookup p m.mux)

  handle_client-keeps :
      (p : Text) (e : ℕ → Endpoint) (o : Option ℕ)
      → OnOk (λ m'. m'.registered ≡ m.registered) (handle_client p e o m)
  handle_client-keeps p e none = refl
  handle_client-keeps p e (some k) = handle_pattern-keeps p (e k)

  configure_api-keeps :
      (config : Configuration) (r : Resource)
      → OnOk (λ m'. m'.registered ≡ m.registered) (configure_api config r m)
  unfolding configure_api
  configure_api-keeps config r =
      let auth = new_authenticator r.authentication config.user_list in
      let Q : Routes → Type 0 = λ m'. m'.registered ≡ m.registered in
      OnOk-if Q _ _ (text_beq r.api (codes "health")) (handle_pattern-keeps r.serve (health auth)) (
        OnOk-if Q _ _ (text_beq r.api (codes "statistics"))
          (handle_pattern-keeps r.serve (statistics auth))
          (OnOk-if Q _ _ (text_beq r.api (codes "check"))
            (handle_client-keeps r.serve (λ k. check k auth) (lookup r.remote m.clients))
            (OnOk-if Q _ _ (text_beq r.api (codes "control"))
              (handle_client-keeps r.serve (λ k. control k auth) (lookup r.remote m.clients))
              (OnOk-if Q _ _ (text_beq r.api (codes "prometheus"))
                (handle_pattern-keeps r.serve (prometheus auth)) refl))))

  configure_static-keeps :
      (env : Setup) (config : Configuration) (r : Resource)
      → OnOk (λ m'. m'.registered ≡ m.registered) (configure_static env config r m)
  unfolding configure_static
  configure_static-keeps env config r = parsed (env.parse r.remote)
    where
      parsed :
          (o : Option Url)
          → OnOk
              (λ (m' : Routes). m'.registered ≡ m.registered)
              (elim o as (λ x. Outcome Routes) [
                | none ↦ ok m
                | some u ↦
                    handle_pattern r.serve
                      (static
                        (new_proxy u r.cache (new_authenticator r.authentication config.user_list)))
                      m
              ])
      parsed none = refl
      parsed (some u) = handle_pattern-keeps r.serve _

add_client-keeps :
    (env : Setup) (config : Configuration) (r : Resource) (o : Option Client) (m : Routes)
    → OnOk (λ m'. m'.registered ≡ m.registered) (add_client r.serve env config r o m)
unfolding add_stream
add_client-keeps env config r none m = refl
add_client-keeps env config r (some c) m =
    OnOk-bind (λ m'. m'.registered ≡ m.registered) (λ m'. m'.registered ≡ m.registered) _ _
      (handle_pattern-keeps _ r.serve _) (λ m' e. e)

configure_stream-Registers :
    (env : Setup) (config : Configuration) (r : Resource) (m : Routes)
    → OnOk (Registers m (r.serve ∷ [])) (configure_stream env config r m)
unfolding configure_stream
configure_stream-Registers env config r m =
    OnOk-then (Registers m (r.serve ∷ [])) (shuffle env.intn (env.seed r.serve) r.remotes) _
      (λ remotes.
        add_client-keeps env config r _ (record m { registered = m.registered ++ (r.serve ∷ []) }))

keeps-Registers :
    (m : Routes) (o : Outcome Routes)
    → OnOk (λ m'. m'.registered ≡ m.registered) o
    → OnOk (Registers m []) o
keeps-Registers m (ok m') e = e ∙ sym (append-nil m.registered)
keeps-Registers m panic e = tt

configure_resource-Registers :
    (env : Setup) (config : Configuration) (r : Resource) (m : Routes)
    → OnOk (Registers m (stream_name r)) (configure_resource env config r m)
unfolding configure_resource
configure_resource-Registers env config r m = elim (Bool-cases (text_beq r.type (codes "stream"))) [
  | inl e ↦ rw e (configure_stream-Registers env config r m)
  | inr e ↦ rw e (
      keeps-Registers m _ (
        OnOk-if (λ m'. m'.registered ≡ m.registered) _ _ (text_beq r.type (codes "static"))
          (configure_static-keeps m env config r)
          (OnOk-if (λ m'. m'.registered ≡ m.registered) _ _ (text_beq r.type (codes "api"))
            (configure_api-keeps m config r) refl)))
]

-- The streams are registered in the order of the configuration, also those that are not served.
pub configure_resources-Registers :
    (env : Setup) (config : Configuration) (rs : List Resource) (m : Routes)
    → OnOk (Registers m (stream_names rs)) (configure_resources env config rs m)
unfolding configure_resources
configure_resources-Registers env config [] m = sym (append-nil m.registered)
configure_resources-Registers env config (r ∷ rs) m =
    OnOk-bind (Registers m (stream_name r)) (Registers m (stream_names (r ∷ rs)))
      (configure_resource env config r m) _ (configure_resource-Registers env config r m)
      (λ m' e.
        OnOk-imp {P = Registers m' (stream_names rs)} {Q = Registers m (stream_names (r ∷ rs))}
          (configure_resources env config rs m') (configure_resources-Registers env config rs m')
          (λ m'' e'.
            e'
            ∙ ap (λ (ns : List Text). ns ++ stream_names rs) e
            ∙ append_assoc m.registered (stream_name r) (stream_names rs)))
