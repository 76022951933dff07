-- ===== src/Protocol/Replay.antt =====
-- The replay window of src/protocol/protocol.c: `proto_replay_reset` and `proto_replay_accept`.
-- A `uint64_t` is a number below 2 ^ 64; the left shift cuts to 64 bits.
pub mod Spec
pub mod Refine
pub mod Stream
use tund.Base.{ℕ, ◌-◌, ◌*◌, ◌%◌, ◌^◌, bit_and, bit_or, Bool, true, false, not, List, [], ◌∷◌}
use tund.Base.{ltb, leb, ◌==◌, if◌then◌else◌}

-- `proto_replay_window_t`.
pub record Window : Type 0 where
  pub highest : ℕ
  pub seen : ℕ

unfoldable pub replay_reset : Window
replay_reset = record { highest = 0; seen = 0 }

-- `window->seen << shift`, for a shift below 64.
abbrev pub shl64 : ℕ → ℕ → ℕ
shl64 x shift = x * 2 ^ shift % 2 ^ 64

-- The window moved up to a sequence number that is above the highest one.
advance : Window → ℕ → ℕ → Window
advance w sequence shift = record {
  highest = sequence;
  seen = if leb 64 shift then 1 else bit_or (shl64 w.seen shift) 1;
}

-- The branch for a sequence number that is not above the highest one.
accept_old : Window → ℕ → Bool × Window
accept_old w age =
    if leb 64 age
    then (false, w)
    else if not (bit_and w.seen (2 ^ age) == 0)
    then (false, w)
    else (true, record w { seen = bit_or w.seen (2 ^ age) })

-- The verdict, and the window after the call.
unfoldable pub replay_accept : Window → ℕ → Bool × Window
unfolding advance accept_old
replay_accept w sequence =
    if sequence == 0
    then (false, w)
    else if w.highest == 0
    then (true, record { highest = sequence; seen = 1 })
    else if ltb w.highest sequence
    then (true, advance w sequence (sequence - w.highest))
    else accept_old w (w.highest - sequence)

-- The numbers that a window accepts, out of a run of them, the latest first.
pub accepted_from : Window → List ℕ → List ℕ → List ℕ
accepted_from w acc [] = acc
accepted_from w acc (s ∷ ss) =
    let (verdict, w') = replay_accept w s in accepted_from w' (if verdict then s ∷ acc else acc) ss
