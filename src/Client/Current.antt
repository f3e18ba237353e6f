-- ===== src/Client/Current.antt =====
-- When ProjectStaleness of internal/healthrecord/record.go shows a health and when it hides it.
use clientkit.Prelude.{ℕ, ◌≡◌, ◌+◌, ◌≤◌, ◌<◌, ◌⊎◌, pos, arith}
use clientkit.Text.{Text}
use clientkit.Health.{Health, health_unknown}
use clientkit.Client.{project_staleness}

pub project_staleness-fresh :
    (h : Health) (stale : ℕ) (name : Text) (now : ℕ)
    → 0 < h.checked_at
    → h.checked_at ≤ now
    → now ≤ h.checked_at + stale
    → project_staleness h (pos stale) name now ≡ h
unfolding project_staleness
project_staleness-fresh h stale name now some_time before within = ground arith

pub project_staleness-stale :
    (h : Health) (stale : ℕ) (name : Text) (now : ℕ)
    → 0 < stale
    → (now < h.checked_at) ⊎ (h.checked_at + stale < now)
    → (project_staleness h (pos stale) name now).state ≡ health_unknown
unfolding project_staleness
project_staleness-stale h stale name now enabled outside = ground arith
