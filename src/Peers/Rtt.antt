-- ===== src/Peers/Rtt.antt =====
-- The bounds of the smoothed round-trip time.
use tund.Base.{ℕ, ◌^◌, ◌≤◌, ◌<◌, min, max, true, arith}
use tund.Peers.{smooth_rtt_ms}

-- Of a current round-trip time and a sample below 2 ^ 60 milliseconds, the smoothed time lies
-- between the two.
pub smooth_rtt_ms-bounds :
    (current sample : ℕ)
    → current < 2 ^ 60
    → sample < 2 ^ 60
    → (min current sample ≤ smooth_rtt_ms current sample true)
      × (smooth_rtt_ms current sample true ≤ max current sample)
unfolding smooth_rtt_ms
smooth_rtt_ms-bounds current sample hc hs = (omega arith, omega arith)
