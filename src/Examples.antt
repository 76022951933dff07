-- ===== src/Examples.antt =====
-- Tests: a concrete environment, and runs of the theorems on concrete inputs.
pub mod Protocol
pub mod Server
pub mod Client
pub mod Network
pub mod Life
pub mod Tools
pub mod Windows
use tund.Base.{ℕ, List, [], ◌∷◌, some, true, refl, replicate, length-replicate}
use tund.World.{Os, World, Addr, IsAead, HasEntropy}
use tund.Peers.{Peer, empty_peer}
use tund.Protocol.Replay.{Window}

-- Entropy is all ones, every send succeeds, and the cipher leaves the text as it is.
abbrev pub plain_os : Os
plain_os = record {
  random = λ k n. some (replicate n 1);
  sendto = λ k d. true;
  aead_lock = λ key nonce ad text. (text, replicate 16 0);
  aead_unlock = λ key nonce tag ad cipher. some cipher;
}

pub plain_os-IsAead : IsAead plain_os
plain_os-IsAead = record {
  cipher_length = λ key nonce ad text. refl;
  tag_length = λ key nonce ad text. length-replicate {A = ℕ} 16 0;
  unlock_lock = λ key nonce ad text. refl;
}

pub plain_os-HasEntropy : HasEntropy plain_os
plain_os-HasEntropy k n = (replicate n 1, refl, length-replicate n 1)

abbrev pub first_world : World
first_world = record {
  next_sequence = 0;
  draws = 0;
  sent = [];
  tun_out = [];
  events = [];
  crypto_key = [];
  running = true;
}

abbrev pub alice_addr : Addr
alice_addr = record { family = 2; ip = 100; port = 5000 }

-- 10.9.0.2, in network byte order.
abbrev pub alice_vip : ℕ
alice_vip = 0x0200090A

abbrev pub alice : Peer
alice = record empty_peer {
  active = true;
  virt_ip = alice_vip;
  real_addr = alice_addr;
  last_seen = 50;
  replay = record { highest = 7; seen = 1 };
}

-- A packet of twenty bytes from 10.9.0.2 to 10.9.0.3.
abbrev pub small_packet : List ℕ
small_packet =
    0x45 ∷ 0 ∷ 0 ∷ 20 ∷ 0 ∷ 0 ∷ 0 ∷ 0 ∷ 64 ∷ 17 ∷ 0 ∷ 0 ∷ 10 ∷ 9 ∷ 0 ∷ 2 ∷ 10 ∷ 9 ∷ 0 ∷ 3 ∷ []
