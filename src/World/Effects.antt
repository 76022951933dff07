-- ===== src/World/Effects.antt =====
-- Calls that touch nothing outside but the counters and the socket.
use tund.Base.{
  length, some, get_elem?, get_elem?-append_right, ◌+◌, ℕ, ◌^◌, ◌<◌, List, [], ◌++◌, ◌≡◌, refl, sym,
  ap, ◌∙◌,
}
use mathlib.Core.List.{append_assoc}
use tund.World.{World, Datagram}

-- The counters move, within their words, and datagrams go out.
pub record Sends (w w' : World) : Type 0 where
  pub next : ℕ
  pub drawn : ℕ
  pub more : List Datagram
  pub in_word : next < 2 ^ 64
  pub result : w' ≡ record w { next_sequence = next; draws = drawn; sent = more ++ w.sent }

pub Sends-refl : (w : World) → w.next_sequence < 2 ^ 64 → Sends w w
Sends-refl w small = record {
  next = w.next_sequence;
  drawn = w.draws;
  more = [];
  in_word = small;
  result = refl;
}

pub Sends-trans : {w w' w'' : World} → Sends w w' → Sends w' w'' → Sends w w''
Sends-trans {w} {w'} {w''} a b = record {
  next = b.next;
  drawn = b.drawn;
  more = b.more ++ a.more;
  in_word = b.in_word;
  result =
      b.result
      ∙ ap
          (λ (x : World). record x {
            next_sequence = b.next;
            draws = b.drawn;
            sent = b.more ++ x.sent;
          })
          a.result
      ∙ ap (λ s. record w { next_sequence = b.next; draws = b.drawn; sent = s })
          (sym (append_assoc b.more a.more w.sent));
}

pub Sends-small : {w w' : World} → Sends w w' → w'.next_sequence < 2 ^ 64
Sends-small s = rw (s.result) s.in_word

pub Sends-key : {w w' : World} → Sends w w' → w'.crypto_key ≡ w.crypto_key
Sends-key s = ap (λ (x : World). x.crypto_key) s.result

pub Sends-sent : {w w' : World} → (s : Sends w w') → w'.sent ≡ s.more ++ w.sent
Sends-sent s = ap (λ (x : World). x.sent) s.result

-- A datagram was handed to the socket.
abbrev pub IsSent : Datagram → World → Type 0
IsSent d w = (k : ℕ) × (get_elem? w.sent k ≡ some d)

pub Sends-IsSent : {w w' : World} (d : Datagram) → Sends w w' → IsSent d w → IsSent d w'
Sends-IsSent {w} {w'} d s (k, e) = (
  length s.more + k,
  ap (λ l. get_elem? l (length s.more + k)) (Sends-sent s)
      ∙ get_elem?-append_right s.more w.sent k
      ∙ e,
)
