-- ===== src/Tests/Interfaces.antt =====
-- api: a full system, and an authenticator that lets nobody in.
use restreamer.Prelude.{◌≡◌, ◌≢◌, ◌≤◌, ◌↔◌, refl, true, [], none, codes, arith}
use restreamer.Prelude.Http.{new_response}
use restreamer.Auth.{deny, authenticate}
use restreamer.Metrics.Statistics.{StreamStatistics, empty_statistics}
use restreamer.Api.{
  health_status, statistics_status, serve_health, serve_statistics, serve_stream_state,
  serve_stream_control, serve_prometheus,
}
use restreamer.Api.Status.{IsBelow, statuses_agree}
use restreamer.Api.Access.{IsRefusal, unauthenticated_refused}

abbrev full : StreamStatistics
full = record (empty_statistics 4 2) { connections = 3 }

statuses_agree_example :
    ((health_status full ≡ codes "ok") ↔ (IsBelow 4 3 × IsBelow 2 3))
    × ((statistics_status full ≡ codes "ok") ↔ (IsBelow 4 3 × IsBelow 2 3))
    × ((statistics_status full ≡ codes "overload")
        ↔ ((full.max_connections ≢ 0) × (full.max_connections ≤ full.connections)))
statuses_agree_example = statuses_agree full (omega arith) (omega arith) (omega arith)

unauthenticated_refused_example :
    IsRefusal new_response (serve_health (λ r. none) deny full [] new_response)
    × IsRefusal new_response (serve_statistics (λ r. none) deny full [] new_response)
    × IsRefusal new_response (serve_stream_state deny true [] new_response)
    × IsRefusal new_response (serve_stream_control deny [] [] new_response).0
    × ((serve_stream_control deny [] [] new_response).1 ≡ none)
    × IsRefusal new_response (serve_prometheus (λ h w. w) deny [] new_response)
unfolding authenticate
unauthenticated_refused_example =
    unauthenticated_refused deny [] new_response (λ r. none) (λ r. none) (λ h w. w) full true []
      refl refl
