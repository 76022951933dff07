-- ===== src/Protocol/Seal/Effects.antt =====
-- Sealing touches nothing outside but the counters.
use tund.Base.{
  ℕ, ◌-◌, ◌%◌, ◌^◌, ◌<◌, Bool, true, false, not, List, Option, none, ltb, ◌==◌, if◌then◌else◌,
  length, drop, take,
}
use tund.World.{World, Os}
use tund.World.Effects.{Sends, Sends-refl}
use tund.Protocol.Constants.{hdr_size, max_plaintext}
use tund.Protocol.Header.{HdrResult, ok, read_hdr, write_hdr}
use tund.Protocol.Header.Effects.{write_hdr-Sends}
use tund.Protocol.Seal.{encrypt, encrypt_read, encrypt_checked, seal_with}

either :
    (w : World) (b : Bool) (x y : Option (List ℕ) × World)
    → Sends w x.1
    → Sends w y.1
    → Sends w (if b then x else y).1
either w true x y s t = s
either w false x y s t = t

seal_with-Sends :
    (os : Os) (key text : List ℕ) (w : World) (r : Bool × List ℕ × World)
    → Sends w r.2
    → Sends w (seal_with os key text r).1
unfolding seal_with
seal_with-Sends os key text w (false, hdr, w1) s = s
seal_with-Sends os key text w (true, hdr, w1) s = s

encrypt_read-Sends :
    (os : Os) (w : World) (key buf : List ℕ) (r : HdrResult)
    → w.next_sequence < 2 ^ 64
    → Sends w (encrypt_read os w key buf r).1
unfolding encrypt_read encrypt_checked
encrypt_read-Sends os w key buf (ok type payload_len) small =
    let stay = Sends-refl w small in
    let n = length buf - hdr_size in
    either w (ltb max_plaintext n) (none, w) _ stay
      (either w (not (payload_len == n % 2 ^ 16)) (none, w) _ stay
        (seal_with-Sends os key (drop hdr_size buf) w
          (write_hdr os w (take hdr_size buf) type (n % 2 ^ 16))
          (write_hdr-Sends os w (take hdr_size buf) type (n % 2 ^ 16) small)))
encrypt_read-Sends os w key buf _ small = Sends-refl w small

pub encrypt-Sends :
    (os : Os) (w : World) (key buf : List ℕ)
    → w.next_sequence < 2 ^ 64
    → Sends w (encrypt os w key buf).1
unfolding encrypt
encrypt-Sends os w key buf small =
    either w (ltb (length buf) hdr_size) (none, w) _ (Sends-refl w small)
      (encrypt_read-Sends os w key buf (read_hdr buf) small)
