-- ===== src/Server/PeerList.antt =====
-- The peer list that a new peer gets, and what the client reads of it.
use tund.Base.{
  ℕ, zero, suc, ◌+◌, ◌-◌, ◌*◌, ◌^◌, ◌≤◌, ◌<◌, min, true, List, [], ◌∷◌, ◌++◌, some, ◌≡◌, refl, sym,
  ap, ◌∙◌, arith, inl, inr, ltb, ltb-false, length, length-append, get_elem?, Bool-cases,
}
use mathlib.Core.List.{append_assoc}
use tund.Protocol.Messages.{write_peer_entry, read_peer_entry}
use tund.Protocol.Messages.Entries.{
  name_array, entry_bytes, length-entry_bytes, read_peer_entry-entry_bytes,
}
use tund.Server.State.{Snapshot}
use tund.Server.Register.{peer_list_payload}

-- The list from an entry on that fits.
payload_fits :
    (offset : ℕ) (s : Snapshot) (ss : List Snapshot)
    → offset + 37 ≤ 1600
    → peer_list_payload offset (s ∷ ss)
      ≡ entry_bytes s.virt_ip s.name true ++ peer_list_payload (offset + 37) ss
unfolding peer_list_payload write_peer_entry
payload_fits offset s ss h = rw (ltb-false (1600 - offset) 37 (omega arith), peer_list_payload) refl

payload_full :
    (offset : ℕ) (ss : List Snapshot) → 1600 < offset + 37 → peer_list_payload offset ss ≡ []
unfolding peer_list_payload write_peer_entry
payload_full offset [] h = refl
payload_full offset (s ∷ ss) h =
    let short : ltb (1600 - offset) 37 ≡ true = ground arith in rw (short, peer_list_payload) refl

-- A peer list that goes on from the i-th entry, for i up to 43, has 37 bytes for each snapshot as
-- long as there are not more than 43 entries in all; all further snapshots are left out.
pub length-peer_list_payload :
    (i : ℕ) (ss : List Snapshot)
    → i ≤ 43
    → length (peer_list_payload (37 * i) ss) ≡ 37 * min (43 - i) (length ss)
length-peer_list_payload i [] h = unfold peer_list_payload in omega arith
length-peer_list_payload i (s ∷ ss) h = elim (Bool-cases (ltb i 43)) [
  | inl room ↦
      let next : 37 * i + 37 ≡ 37 * (i + 1) = omega arith in
      let lt : i < 43 = ground arith in
      omega (
        arith,
        ap length (payload_fits (37 * i) s ss (omega arith)),
        length-append (entry_bytes s.virt_ip s.name true) (peer_list_payload (37 * i + 37) ss),
        length-entry_bytes s.virt_ip s.name true,
        ap (λ o. length (peer_list_payload o ss)) next,
        length-peer_list_payload (i + 1) ss (omega arith),
      )
  | inr full ↦
      let top : 43 ≤ i = ground arith in
      omega (arith, ap length (payload_full (37 * i) (s ∷ ss) (omega arith)))
]

-- An entry of the list, with what stands before it and behind it.
record Places (k : ℕ) (s : Snapshot) (payload : List ℕ) : Type 0 where
  front : List ℕ
  rest : List ℕ
  bytes : payload ≡ front ++ (entry_bytes s.virt_ip s.name true ++ rest)
  before : length front ≡ k * 37

payload-Places :
    (i k : ℕ) (ss : List Snapshot) (s : Snapshot)
    → get_elem? ss k ≡ some s
    → i + k < 43
    → Places k s (peer_list_payload (37 * i) ss)
payload-Places i k [] s h lt = cc
payload-Places i zero (t ∷ ss) s h lt = record {
  front = [];
  rest = peer_list_payload (37 * i + 37) ss;
  bytes =
      payload_fits (37 * i) t ss (omega arith)
      ∙ ap
          (λ (x : Snapshot).
            entry_bytes x.virt_ip x.name true ++ peer_list_payload (37 * i + 37) ss)
          (same t s h);
  before = refl;
}
  where
    same : (a b : Snapshot) → some a ≡ some b → a ≡ b
    same a b e = cc
payload-Places i (suc k) (t ∷ ss) s h lt =
    let next : 37 * i + 37 ≡ 37 * (i + 1) = omega arith in
    let e = entry_bytes t.virt_ip t.name true in
    let rec = payload-Places (i + 1) k ss s h (omega arith) in
    record {
      front = e ++ rec.front;
      rest = rec.rest;
      bytes =
          payload_fits (37 * i) t ss (omega arith)
          ∙ ap (λ o. e ++ peer_list_payload o ss) next
          ∙ ap (λ l. e ++ l) rec.bytes
          ∙ sym (append_assoc e rec.front (entry_bytes s.virt_ip s.name true ++ rec.rest));
      before =
          omega (
            arith,
            length-append e rec.front,
            length-entry_bytes t.virt_ip t.name true,
            rec.before,
          );
    }

-- Of a peer list that the server builds from snapshots, the client reads at each index below 43
-- that the snapshots have the address of that snapshot, if it is a 32-bit number, its name in 32
-- bytes with a NUL, and that it is online.
pub read_peer_entry-peer_list_payload :
    (ss : List Snapshot) (k : ℕ) (s : Snapshot)
    → get_elem? ss k ≡ some s
    → k < 43
    → s.virt_ip < 2 ^ 32
    → read_peer_entry (peer_list_payload 0 ss) (length (peer_list_payload 0 ss)) k
      ≡ some (record { virt_ip = s.virt_ip; name = name_array s.name; online = true })
read_peer_entry-peer_list_payload ss k s h lt small =
    let at = payload-Places 0 k ss s h (omega arith) in
    let size =
      ap length at.bytes ∙ length-append at.front (entry_bytes s.virt_ip s.name true ++ at.rest) in
    let tail = length-append (entry_bytes s.virt_ip s.name true) at.rest in
    ap (λ p. read_peer_entry p (length (peer_list_payload 0 ss)) k) at.bytes
    ∙ read_peer_entry-entry_bytes at.front at.rest s.name s.virt_ip
        (length (peer_list_payload 0 ss)) k true at.before
        (omega (arith, size, tail, length-entry_bytes s.virt_ip s.name true, at.before)) small
