-- ===== src/Net/Effects.antt =====
-- `net_send` touches nothing outside but the counters and the socket.
use tund.Base.{
  ℕ, ◌+◌, ◌^◌, ◌<◌, Bool, true, false, List, [], ◌∷◌, Option, none, some, ltb, if◌then◌else◌,
  length, refl,
}
use tund.World.{Addr, World, Os}
use tund.World.Effects.{Sends, Sends-refl, Sends-trans, Sends-small}
use tund.Protocol.Constants.{hdr_size, max_plaintext}
use tund.Protocol.Seal.{encrypt}
use tund.Protocol.Seal.Effects.{encrypt-Sends}
use tund.Net.{transmit, sent_sealed, net_send}

pub sent_sealed-Sends :
    (os : Os) (w : World) (dest : Addr) (r : Option (List ℕ) × World)
    → Sends w r.1
    → Sends w (sent_sealed os dest r).1
unfolding sent_sealed transmit
sent_sealed-Sends os w dest (none, w1) s = s
sent_sealed-Sends os w dest (some wire, w1) s = Sends-trans s (record {
  next = w1.next_sequence;
  drawn = w1.draws;
  more = record { dest = dest; wire = wire } ∷ [];
  in_word = Sends-small s;
  result = refl;
})

either :
    (w : World) (b : Bool) (x y : Bool × World)
    → Sends w x.1
    → Sends w y.1
    → Sends w (if b then x else y).1
either w true x y s t = s
either w false x y s t = t

pub net_send-Sends :
    (os : Os) (w : World) (msg : Option (List ℕ)) (dest : Addr)
    → w.next_sequence < 2 ^ 64
    → Sends w (net_send os w msg dest).1
unfolding net_send
net_send-Sends os w none dest small = Sends-refl w small
net_send-Sends os w (some buf) dest small =
    either w (ltb (length buf) hdr_size) (false, w) _ (Sends-refl w small)
      (either w (ltb (hdr_size + max_plaintext) (length buf)) (false, w) _ (Sends-refl w small)
        (sent_sealed-Sends os w dest (encrypt os w w.crypto_key buf)
          (encrypt-Sends os w w.crypto_key buf small)))
