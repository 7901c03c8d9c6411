-- ===== src/Api/Status.antt =====
-- What the two interfaces tell about the limits.
use restreamer.Prelude.{
  ℕ, ◌≡◌, ◌≢◌, ◌<◌, ◌≤◌, ◌^◌, ◌↔◌, ◌⊎◌, Bool, false, codes, arith, if◌then◌else◌, nat_eq,
}
use restreamer.Metrics.Statistics.{StreamStatistics}
use restreamer.Api.{is_reached, health_status, statistics_status}

-- A limit of 0 is disabled.
abbrev pub IsBelow : (limit connections : ℕ) → Type 0
IsBelow limit connections = (limit ≡ 0) ⊎ (connections < limit)

is_reached-IsBelow :
    (limit connections : ℕ)
    → limit < 2 ^ 63
    → connections < 2 ^ 63
    → (is_reached limit connections ≡ false) ↔ IsBelow limit connections
is_reached-IsBelow limit connections p q = ground arith

-- What the strings of the status say of the two tests.
health_ok :
    (a b : Bool)
    → ((if a then codes "full" else if b then codes "full" else codes "ok") ≡ codes "ok")
      ↔ ((a ≡ false) × (b ≡ false))
health_ok a b = ground arith

statistics_ok :
    (a b : Bool)
    → ((if a then codes "overload" else if b then codes "full" else codes "ok") ≡ codes "ok")
      ↔ ((a ≡ false) × (b ≡ false))
statistics_ok a b = ground arith

statistics_overload :
    (a b : Bool)
    → ((if a then codes "overload" else if b then codes "full" else codes "ok") ≡ codes "overload")
      ↔ (a ≢ false)
statistics_overload a b = ground arith

is_reached-enabled :
    (limit connections : ℕ)
    → limit < 2 ^ 63
    → connections < 2 ^ 63
    → (is_reached limit connections ≢ false) ↔ ((limit ≢ 0) × (limit ≤ connections))
is_reached-enabled limit connections p q = ground arith

iff_trans : {A B C : Type 0} → A ↔ B → B ↔ C → A ↔ C
iff_trans f g = ((λ a. g.0 (f.0 a)), (λ c. f.1 (g.1 c)))

both : {A B C D E : Type 0} → A ↔ (B × C) → B ↔ D → C ↔ E → A ↔ (D × E)
both f g h = ((λ a. let (b, c) = f.0 a in (g.0 b, h.0 c)), (λ (d, e). f.1 (g.1 d, h.1 e)))

-- With limits and a count below 2 ^ 63, which is the range of int64: the health interface says "ok"
-- just if the count is below both limits, or the limit is disabled, and so does the statistics
-- interface; that one says "overload" just if the hard limit is enabled and reached.
pub statuses_agree :
    (global : StreamStatistics)
    → global.max_connections < 2 ^ 63
    → global.full_connections < 2 ^ 63
    → global.connections < 2 ^ 63
    → ((health_status global ≡ codes "ok") ↔ (
        IsBelow global.max_connections global.connections
        × IsBelow global.full_connections global.connections))
      × ((statistics_status global ≡ codes "ok") ↔ (
          IsBelow global.max_connections global.connections
          × IsBelow global.full_connections global.connections))
      × ((statistics_status global ≡ codes "overload")
          ↔ ((global.max_connections ≢ 0) × (global.max_connections ≤ global.connections)))
unfolding health_status statistics_status
statuses_agree global p q r =
    let max = is_reached-IsBelow global.max_connections global.connections p r in
    let full = is_reached-IsBelow global.full_connections global.connections q r in
    (
      both (health_ok _ _) max full,
      both (statistics_ok _ _) max full,
      iff_trans (statistics_overload _ _)
          (is_reached-enabled global.max_connections global.connections p r),
    )
