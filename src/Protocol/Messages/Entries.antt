-- ===== src/Protocol/Messages/Entries.antt =====
-- Peer entries: what is read back at an index of a list of them.
use tund.Base.{
  ℕ, suc, ◌+◌, ◌-◌, ◌*◌, ◌^◌, ◌≤◌, ◌<◌, min, Bool, true, false, not, List, [], ◌∷◌, ◌++◌, Option,
  some, ◌≡◌, refl, sym, ap, ap₂, ◌∙◌, arith, ltb-false, ◌==◌, if◌then◌else◌, length, take, drop,
  get_or, replicate, length-append, length-take, length-replicate, take_left, drop_left, take_all,
  drop_plus, replicate_last,
}
use mathlib.Core.List.{append_assoc}
use tund.Protocol.Bytes.{load32, store32}
use tund.Protocol.Bytes.Laws.{load32-store32}
use tund.Protocol.Text.{char_array}
use tund.Protocol.Messages.{PeerEntry, read_peer_entry}

-- The name's array, as a sender fills it.
abbrev pub name_array : List ℕ → List ℕ
name_array name = char_array 32 (take 31 name)

-- The 37 bytes.
abbrev pub entry_bytes : ℕ → List ℕ → Bool → List ℕ
entry_bytes vip name online = (store32 vip ++ name_array name) ++ (if online then 1 else 0) ∷ []

-- The array ends in a NUL.
name_front : List ℕ → List ℕ
name_front name = take 31 name ++ replicate (31 - length (take 31 name)) 0

length-take-le : (n : ℕ) (xs : List ℕ) → length (take n xs) ≤ n
length-take-le n xs = omega (arith, length-take n xs)

name_array-eq : (name : List ℕ) → name_array name ≡ name_front name ++ 0 ∷ []
unfolding char_array name_front
name_array-eq name =
    let short : length (take 31 name) ≤ 31 = length-take-le 31 name in
    let left : 32 - min 32 (length (take 31 name)) ≡ suc (31 - length (take 31 name)) =
      omega arith in
    ap₂ (λ a b. a ++ b) (take_all 32 (take 31 name) (omega arith))
      (ap (λ k. replicate k 0) left ∙ replicate_last (31 - length (take 31 name)) 0)
    ∙ sym (append_assoc (take 31 name) (replicate (31 - length (take 31 name)) 0) (0 ∷ []))

length-name_front : (name : List ℕ) → length (name_front name) ≡ 31
unfolding name_front
length-name_front name = omega (
  arith,
  length-append (take 31 name) (replicate (31 - length (take 31 name)) 0),
  length-replicate {A = ℕ} (31 - length (take 31 name)) 0,
  length-take-le 31 name,
)

length-name_array : (name : List ℕ) → length (name_array name) ≡ 32
length-name_array name =
    ap length (name_array-eq name)
    ∙ omega (arith, length-append (name_front name) (0 ∷ []), length-name_front name)

pub length-entry_bytes :
    (vip : ℕ) (name : List ℕ) (online : Bool) → length (entry_bytes vip name online) ≡ 37
unfolding store32
length-entry_bytes vip name online = omega (
  arith,
  length-append (store32 vip ++ name_array name) ((if online then 1 else 0) ∷ []),
  length-append (store32 vip) (name_array name),
  length-name_array name,
)

name_read :
    (name rest : List ℕ) (f : ℕ)
    → take 31 ((name_array name ++ (f ∷ [])) ++ rest) ++ 0 ∷ [] ≡ name_array name
name_read name rest f =
    ap (λ a. take 31 ((a ++ (f ∷ [])) ++ rest) ++ 0 ∷ []) (name_array-eq name)
    ∙ ap (λ l. take 31 (l ++ rest) ++ 0 ∷ []) (append_assoc (name_front name) (0 ∷ []) (f ∷ []))
    ∙ ap (λ l. take 31 l ++ 0 ∷ []) (append_assoc (name_front name) (0 ∷ f ∷ []) rest)
    ∙ ap (λ l. l ++ 0 ∷ [])
        (take_left 31 (name_front name) ((0 ∷ f ∷ []) ++ rest) (length-name_front name))
    ∙ sym (name_array-eq name)

flag_read :
    (name rest : List ℕ) (f : ℕ) → get_or (drop 32 ((name_array name ++ (f ∷ [])) ++ rest)) 0 0 ≡ f
flag_read name rest f =
    ap (λ l. get_or (drop 32 l) 0 0) (append_assoc (name_array name) (f ∷ []) rest)
    ∙ ap (λ l. get_or l 0 0)
        (drop_left 32 (name_array name) ((f ∷ []) ++ rest) (length-name_array name))

flag_test : (online : Bool) → not ((if online then 1 else 0) == 0) ≡ online
flag_test true = refl
flag_test false = refl

abbrev an_entry : ℕ → List ℕ → Bool → Option PeerEntry
an_entry vip name online = some (record { virt_ip = vip; name = name; online = online })

-- What is read of the bytes from an entry on.
read_entry :
    (rest name : List ℕ) (vip : ℕ) (online : Bool)
    → vip < 2 ^ 32
    → let p = entry_bytes vip name online ++ rest in
      an_entry (load32 p) (take 31 (drop 4 p) ++ 0 ∷ []) (not (get_or (drop 36 p) 0 0 == 0))
      ≡ an_entry vip (name_array name) online
unfolding load32 store32
read_entry rest name vip online small =
    let p = entry_bytes vip name online ++ rest in
    let flags : not (get_or (drop 36 p) 0 0 == 0) ≡ online =
      ap (λ f. not (f == 0)) (flag_read name rest (if online then 1 else 0)) ∙ flag_test online in
    ap (λ v. an_entry v (take 31 (drop 4 p) ++ 0 ∷ []) (not (get_or (drop 36 p) 0 0 == 0)))
      (load32-store32 vip small)
    ∙ ap (λ n. an_entry vip n (not (get_or (drop 36 p) 0 0 == 0)))
        (name_read name rest (if online then 1 else 0))
    ∙ ap (an_entry vip (name_array name)) flags

-- An entry between other bytes, at its place in a list.
pub read_peer_entry-entry_bytes :
    (front rest name : List ℕ) (vip plen index : ℕ) (online : Bool)
    → length front ≡ index * 37
    → index * 37 + 37 ≤ plen
    → vip < 2 ^ 32
    → read_peer_entry (front ++ (entry_bytes vip name online ++ rest)) plen index
      ≡ some (record { virt_ip = vip; name = name_array name; online = online })
unfolding read_peer_entry
read_peer_entry-entry_bytes front rest name vip plen index online at fits small =
    rw
      (
        ltb-false plen (index * 37 + 37) fits,
        drop_plus (index * 37) 4 (front ++ (entry_bytes vip name online ++ rest)),
        drop_plus (index * 37) 36 (front ++ (entry_bytes vip name online ++ rest)),
        drop_left (index * 37) front (entry_bytes vip name online ++ rest) at,
      )
      (read_entry rest name vip online small)
