-- ===== src/Peers.antt =====
-- The peer table that server and client keep: `peer_t` and `smooth_rtt_ms` of src/app/tund.h, and the
-- loops that look a slot up.
pub mod Slots
pub mod Table
pub mod Rtt
use tund.Base.{
  ℕ, zero, suc, ◌+◌, ◌-◌, ◌*◌, ◌/◌, ◌%◌, ◌^◌, Bool, true, false, not, ◌&&◌, List, [], ◌∷◌, Option,
  none, some, ltb, ◌==◌, if◌then◌else◌, get_or, set, replicate,
}
use tund.World.{Addr}
use tund.Protocol.Replay.{Window}

-- `peer_t`; the name is the 32 bytes of the array.
pub record Peer : Type 0 where
  pub active : Bool
  pub virt_ip : ℕ
  pub name : List ℕ
  pub real_addr : Addr
  pub last_seen : ℕ
  pub bytes_in : ℕ
  pub bytes_out : ℕ
  pub rtt_ms : ℕ
  pub has_rtt : Bool
  pub replay : Window

abbrev pub max_peers : ℕ
max_peers = 253

-- A slot after `memset` to 0.
abbrev pub empty_peer : Peer
empty_peer = record {
  active = false;
  virt_ip = 0;
  name = replicate 32 0;
  real_addr = record { family = 0; ip = 0; port = 0 };
  last_seen = 0;
  bytes_in = 0;
  bytes_out = 0;
  rtt_ms = 0;
  has_rtt = false;
  replay = record { highest = 0; seen = 0 };
}

-- `peers[i]`, for an index that a loop found.
abbrev pub peer_at : List Peer → ℕ → Peer
peer_at peers i = get_or peers i empty_peer

-- The first index at which a test holds; `none` is -1.
unfoldable pub find_index : (Peer → Bool) → List Peer → Option ℕ
find_index test [] = none
find_index test (p ∷ ps) =
    if test p then some 0 else elim (find_index test ps) [ none ↦ none | some i ↦ some (suc i) ]

abbrev pub has_vip : ℕ → Peer → Bool
has_vip virt_ip p = p.active && (p.virt_ip == virt_ip)

abbrev pub has_addr : Addr → Peer → Bool
has_addr addr p = p.active && (p.real_addr.ip == addr.ip) && (p.real_addr.port == addr.port)

abbrev pub is_free : Peer → Bool
is_free p = not p.active

-- The number of active slots.
unfoldable pub count_active : List Peer → ℕ
count_active [] = 0
count_active (p ∷ ps) = (if p.active then 1 else 0) + count_active ps

-- `uint64_t` addition to a counter.
abbrev pub add64 : ℕ → ℕ → ℕ
add64 a b = (a + b) % 2 ^ 64

-- Seven parts of the old value and one of the sample, rounded; in `uint64_t`.
unfoldable pub smooth_rtt_ms : ℕ → ℕ → Bool → ℕ
smooth_rtt_ms current sample has_current =
    if not has_current then sample else (current * 7 + sample + 7 / 2) % 2 ^ 64 / (7 + 1)
