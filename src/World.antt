-- ===== src/World.antt =====
-- What the program reads and changes outside its own tables: the sequence counter, the entropy
-- source, the UDP socket, the TUN device, the event stream and the running flag; and the parts that
-- it only calls, as parameters.
pub mod Effects
use tund.Base.{ℕ, ◌≡◌, Bool, List, ◌==◌, ◌&&◌, Option, some, length}

-- `struct sockaddr_in`: the family, the address and the port, as they are stored.
pub record Addr : Type 0 where
  pub family : ℕ
  pub ip : ℕ
  pub port : ℕ

-- What `app_event_peer_join` and `app_event_peer_leave` report.
pub data Event : Type 0 where
  peer_join : List ℕ → ℕ → Addr → Event
  peer_leave : ℕ → List ℕ → Event

-- A datagram handed to `sendto`.
pub record Datagram : Type 0 where
  pub dest : Addr
  pub wire : List ℕ

-- The state behind the calls; the latest entry of a log comes first.
pub record World : Type 0 where
  -- `g_proto_next_sequence`
  pub next_sequence : ℕ
  -- how many times entropy was asked for
  pub draws : ℕ
  pub sent : List Datagram
  -- packets written to the TUN device
  pub tun_out : List (List ℕ)
  pub events : List Event
  -- `g_crypto_key`
  pub crypto_key : List ℕ
  -- `g_running`
  pub running : Bool

-- The operating system and the cipher (third_party/monocypher).
pub record Os : Type 0 where
  -- the answer to the k-th request for so many random bytes
  pub random : ℕ → ℕ → Option (List ℕ)
  -- whether the k-th `sendto` takes the whole datagram
  pub sendto : ℕ → Datagram → Bool
  -- `crypto_aead_lock` from key, nonce, associated data and text: the ciphertext and its tag
  pub aead_lock : List ℕ → List ℕ → List ℕ → List ℕ → List ℕ × List ℕ
  -- `crypto_aead_unlock` from key, nonce, tag, associated data and ciphertext
  pub aead_unlock : List ℕ → List ℕ → List ℕ → List ℕ → List ℕ → Option (List ℕ)

-- What monocypher documents of the pair: the ciphertext has the text's length, the tag has 16
-- bytes, and unlocking with the same key, nonce and associated data gives the text back.
pub record IsAead (os : Os) : Type 0 where
  pub cipher_length :
      (key nonce ad text : List ℕ) → length (os.aead_lock key nonce ad text).0 ≡ length text
  pub tag_length : (key nonce ad text : List ℕ) → length (os.aead_lock key nonce ad text).1 ≡ 16
  pub unlock_lock :
      (key nonce ad text : List ℕ)
      → os.aead_unlock key nonce
          (os.aead_lock key nonce ad text).1
          ad
          (os.aead_lock key nonce ad text).0
        ≡ some text

-- The entropy source answers, with as many bytes as asked.
abbrev pub HasEntropy : Os → Type 0
HasEntropy os = (k n : ℕ) → (bs : List ℕ) × (os.random k n ≡ some bs) × (length bs ≡ n)

abbrev pub addr_eq : Addr → Addr → Bool
addr_eq a b = (a.family == b.family) && (a.port == b.port) && (a.ip == b.ip)
