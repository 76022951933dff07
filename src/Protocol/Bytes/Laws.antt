-- ===== src/Protocol/Bytes/Laws.antt =====
-- Round trips of the byte layouts.
use native.Mathlib.Nat.{pow-suc}
use tund.Base.{
  ℕ, zero, suc, ◌+◌, ◌*◌, ◌/◌, ◌%◌, ◌^◌, ◌<◌, bit_and, bit_or, List, [], ◌∷◌, ◌++◌, ◌≡◌, refl, sym,
  ap, ◌∙◌, arith, All, length,
}
use mathlib.Core.List.{append_assoc}
use tund.Base.Bits.{bit_and_mask, bit_or_fields}
use tund.Protocol.Bytes.{push_byte, load_be, store_be, load32, store32, htonl, htons}

abbrev pub IsByte : ℕ → Type 0
IsByte b = b < 256

abbrev pub IsBytes : List ℕ → Type 0
IsBytes = All IsByte

pub push_byte-eq : (v b : ℕ) → v < 2 ^ 56 → b < 256 → push_byte v b ≡ v * 256 + b
unfolding push_byte
push_byte-eq v b hv hb = ap (λ t. bit_or t b) (omega arith) ∙ bit_or_fields 8 v b hb

load_be-append : (v b : ℕ) (bs : List ℕ) → load_be v (bs ++ b ∷ []) ≡ push_byte (load_be v bs) b
unfolding load_be
load_be-append v b [] = refl
load_be-append v b (c ∷ bs) = load_be-append (push_byte v c) b bs

store_be-append : (n v : ℕ) (acc : List ℕ) → store_be n v acc ≡ store_be n v [] ++ acc
unfolding store_be
store_be-append zero v acc = refl
store_be-append (suc n) v acc =
    store_be-append n (v / 2 ^ 8) (bit_and v 0xFF ∷ acc)
    ∙ sym (
        ap (λ l. l ++ acc) (store_be-append n (v / 2 ^ 8) (bit_and v 0xFF ∷ []))
        ∙ append_assoc (store_be n (v / 2 ^ 8) []) (bit_and v 0xFF ∷ []) acc)

pub length-store_be : (n v : ℕ) (acc : List ℕ) → length (store_be n v acc) ≡ n + length acc
unfolding store_be
length-store_be zero v acc = omega arith
length-store_be (suc n) v acc = omega (arith, length-store_be n (v / 2 ^ 8) (bit_and v 0xFF ∷ acc))

store_be_last : (n v : ℕ) → store_be (suc n) v [] ≡ store_be n (v / 256) [] ++ (v % 256) ∷ []
unfolding store_be
store_be_last n v =
    store_be-append n (v / 256) (bit_and v 0xFF ∷ [])
    ∙ ap (λ t. store_be n (v / 256) [] ++ t ∷ []) (bit_and_mask 8 v)

-- A number below 2 ^ 64 that fits n bytes reads back from the n bytes in which it is stored in
-- big-endian order.
pub load_be-store_be : (n v : ℕ) → v < 256 ^ n → v < 2 ^ 64 → load_be 0 (store_be n v []) ≡ v
load_be-store_be zero v h k = unfold load_be store_be in omega arith
load_be-store_be (suc n) v h k =
    ap (load_be 0) (store_be_last n v)
    ∙ load_be-append 0 (v % 256) (store_be n (v / 256) [])
    ∙ ap (λ t. push_byte t (v % 256))
        (load_be-store_be n (v / 256) (omega (arith, pow-suc 256 n)) (omega arith))
    ∙ push_byte-eq (v / 256) (v % 256) (omega arith) (omega arith)
    ∙ omega arith

pub load32-store32 : (x : ℕ) → x < 2 ^ 32 → load32 (store32 x) ≡ x
unfolding load32 store32
load32-store32 x h = omega arith

pub htonl-htonl : (x : ℕ) → x < 2 ^ 32 → htonl (htonl x) ≡ x
unfolding htonl
htonl-htonl x h = omega arith

pub htonl-lt : (x : ℕ) → htonl x < 2 ^ 32
unfolding htonl
htonl-lt x = omega arith

pub htons-htons : (x : ℕ) → x < 2 ^ 16 → htons (htons x) ≡ x
unfolding htons
htons-htons x h = omega arith
