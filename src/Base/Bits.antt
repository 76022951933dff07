-- ===== src/Base/Bits.antt =====
-- Laws of `|` and `&` on unsigned words, digit by digit, and what a single bit reads.
mod Step
use Step.{bit_or_step, bit_and_step}
use Prim.Native.Nat.{
  ℕ, zero, suc, ◌+◌, ◌*◌, ◌-◌, ◌/◌, ◌%◌, ◌^◌, ◌≤◌, ◌<◌, min, max, bit_and, bit_or,
}
use mathlib.Core.Path.{◌≡◌, refl, ap, ap₂, sym, ◌∙◌}
use mathlib.Core.Logic.{◌≢◌}
use native.Mathlib.Nat.{
  pow-suc, div-div-eq-div-mul, add-suc, one-le-pow, div-add-mod, mod-lt, mod-eq_of_lt,
  mul-add-mod_self_left,
}
use native.Mathlib.Omega.{arith}

-- Bit `i` of a word, counted from the lowest.
pub test_bit : ℕ → ℕ → ℕ
test_bit n zero = n % 2
test_bit n (suc i) = test_bit (n / 2) i

pub test_bit-le-one : (n i : ℕ) → test_bit n i ≤ 1
unfolding test_bit
test_bit-le-one n zero = omega arith
test_bit-le-one n (suc i) = test_bit-le-one (n / 2) i

pub test_bit_zero : (i : ℕ) → test_bit 0 i ≡ 0
unfolding test_bit
test_bit_zero zero = refl
test_bit_zero (suc i) = test_bit_zero i

pub test_bit-bit_or : (i a b : ℕ) → test_bit (bit_or a b) i ≡ max (test_bit a i) (test_bit b i)
unfolding test_bit
test_bit-bit_or zero a b = omega (arith, bit_or_step a b)
test_bit-bit_or (suc i) a b =
    ap (λ n. test_bit n i) (omega (arith, bit_or_step a b)) ∙ test_bit-bit_or i (a / 2) (b / 2)

pub test_bit-bit_and : (i a b : ℕ) → test_bit (bit_and a b) i ≡ min (test_bit a i) (test_bit b i)
unfolding test_bit
test_bit-bit_and zero a b = omega (arith, bit_and_step a b)
test_bit-bit_and (suc i) a b =
    ap (λ n. test_bit n i) (omega (arith, bit_and_step a b)) ∙ test_bit-bit_and i (a / 2) (b / 2)

-- Reading a bit is dividing by its weight.
pub test_bit_lem : (n i : ℕ) → test_bit n i ≡ n / 2 ^ i % 2
unfolding test_bit
test_bit_lem n zero = omega arith
test_bit_lem n (suc i) =
    test_bit_lem (n / 2) i
    ∙ ap (λ q. q % 2)
        (div-div-eq-div-mul n 2 (2 ^ i) ∙ ap (λ d. n / d) (omega (arith, pow-suc 2 i)))

-- A single bit has its own place only.
pub test_bit-pow_self : (i : ℕ) → test_bit (2 ^ i) i ≡ 1
unfolding test_bit
test_bit-pow_self zero = refl
test_bit-pow_self (suc i) =
    ap (λ n. test_bit n i) (omega (arith, pow-suc 2 i)) ∙ test_bit-pow_self i

pub test_bit-pow_ne : (i j : ℕ) → i ≢ j → test_bit (2 ^ i) j ≡ 0
unfolding test_bit
test_bit-pow_ne zero zero h = absurd (h refl)
test_bit-pow_ne zero (suc j) h = test_bit_zero j
test_bit-pow_ne (suc i) zero h = omega (arith, pow-suc 2 i)
test_bit-pow_ne (suc i) (suc j) h =
    ap (λ n. test_bit n j) (omega (arith, pow-suc 2 i)) ∙ test_bit-pow_ne i j (λ e. h (ap suc e))

-- A shift to the left moves bits up and brings zeros in.
pub test_bit-shift_low : (n s i : ℕ) → i < s → test_bit (n * 2 ^ s) i ≡ 0
unfolding test_bit
test_bit-shift_low n zero i h = elim h [ ]
test_bit-shift_low n (suc s) zero h =
    omega (arith, pow-suc 2 s, ap (λ (t : ℕ). n * t) (pow-suc 2 s))
test_bit-shift_low n (suc s) (suc i) h =
    ap (λ k. test_bit k i) (omega (arith, ap (λ (t : ℕ). n * t) (pow-suc 2 s)))
    ∙ test_bit-shift_low n s i (omega arith)

pub test_bit-shift : (n s i : ℕ) → test_bit (n * 2 ^ s) (i + s) ≡ test_bit n i
unfolding test_bit
test_bit-shift n zero i =
    ap₂ test_bit {x = n * 2 ^ 0} {y = n} {u = i + 0} {v = i} (omega arith) (omega arith)
test_bit-shift n (suc s) i = rw (add-suc i s) (
    ap (λ k. test_bit k (i + s)) (omega (arith, ap (λ (t : ℕ). n * t) (pow-suc 2 s)))
    ∙ test_bit-shift n s i)

-- A remainder by `m * 2`, in terms of its lowest digit and the rest.
mod_double : (n m : ℕ) → 0 < m → (n % (m * 2) / 2 ≡ n / 2 % m) × (n % (m * 2) % 2 ≡ n % 2)
mod_double n m h =
    let q = n / (m * 2) in
    let r = n % (m * 2) in
    let whole : m * 2 * q + r ≡ n = div-add-mod n (m * 2) in
    let small : r < m * 2 = mod-lt n {m = m * 2} (omega arith) in
    let twice : m * 2 * q ≡ m * q * 2 = omega arith in
    let half : n / 2 ≡ m * q + r / 2 = omega (arith, whole, twice) in
    (
      sym (ap (λ k. k % m) half ∙ mul-add-mod_self_left m q (r / 2) ∙ mod-eq_of_lt (omega arith)),
      omega (arith, whole, twice),
    )

-- Cutting a word to `w` bits keeps those bits.
pub test_bit-mod : (w n i : ℕ) → i < w → test_bit (n % 2 ^ w) i ≡ test_bit n i
unfolding test_bit
test_bit-mod zero n i h = elim h [ ]
test_bit-mod (suc w) n zero h = rw pow-suc (mod_double n (2 ^ w) (one-le-pow w 2 (omega arith))).1
test_bit-mod (suc w) n (suc i) h = rw pow-suc (
    rw (mod_double n (2 ^ w) (one-le-pow w 2 (omega arith))).0
      (test_bit-mod w (n / 2) i (omega arith)))

zero_bit_and : (fuel a : ℕ) → a ≤ fuel → bit_and a 0 ≡ 0
zero_bit_and fuel zero h = bit_and_step 0 0
zero_bit_and zero (suc a) h = absurd (omega arith)
zero_bit_and (suc fuel) (suc a) h =
    omega (arith, bit_and_step (suc a) 0, zero_bit_and fuel (suc a / 2) (omega arith))

half_pow : (i : ℕ) → 2 ^ suc i / 2 ≡ 2 ^ i
half_pow i = omega (arith, pow-suc 2 i)

-- Masking with a single bit leaves that bit at its weight.
pub bit_and-pow : (i a : ℕ) → bit_and a (2 ^ i) ≡ test_bit a i * 2 ^ i
unfolding test_bit
bit_and-pow zero a = omega (arith, bit_and_step a 1, zero_bit_and (a / 2) (a / 2) (omega arith))
bit_and-pow (suc i) a = omega (
  arith,
  bit_and_step a (2 ^ suc i),
  pow-suc 2 i,
  ap (bit_and (a / 2)) (half_pow i) ∙ bit_and-pow i (a / 2),
  ap (λ (t : ℕ). test_bit (a / 2) i * t) (pow-suc 2 i),
)

zero_bit_or : (fuel a : ℕ) → a ≤ fuel → bit_or a 0 ≡ a
zero_bit_or fuel zero h = bit_or_step 0 0
zero_bit_or zero (suc a) h = absurd (omega arith)
zero_bit_or (suc fuel) (suc a) h =
    omega (arith, bit_or_step (suc a) 0, zero_bit_or fuel (suc a / 2) (omega arith))

-- Fields that do not overlap are joined by `|` as by a sum.
pub bit_or_fields : (w hi lo : ℕ) → lo < 2 ^ w → bit_or (hi * 2 ^ w) lo ≡ hi * 2 ^ w + lo
bit_or_fields zero hi lo h = ground (arith, zero_bit_or (hi * 1) (hi * 1))
bit_or_fields (suc w) hi lo h =
    let up : hi * 2 ^ suc w ≡ hi * 2 ^ w * 2 =
      omega (arith, ap (λ (t : ℕ). hi * t) (pow-suc 2 w)) in
    let top : hi * 2 ^ suc w / 2 ≡ hi * 2 ^ w = omega (arith, up) in
    omega (
      arith,
      up,
      bit_or_step (hi * 2 ^ suc w) lo,
      ap (λ t. bit_or t (lo / 2)) top,
      bit_or_fields w hi (lo / 2) (omega (arith, pow-suc 2 w)),
    )

-- The mask of the `w` lowest bits is the remainder by `2 ^ w`.
pub bit_and_mask : (w a : ℕ) → bit_and a (2 ^ w - 1) ≡ a % 2 ^ w
bit_and_mask zero a = omega (arith, zero_bit_and a a (omega arith))
bit_and_mask (suc w) a =
    let pos : 1 ≤ 2 ^ w = one-le-pow w 2 (omega arith) in
    let below : (2 ^ suc w - 1) / 2 ≡ 2 ^ w - 1 = omega (arith, pow-suc 2 w) in
    let parts = mod_double a (2 ^ w) pos in
    let cut : a % 2 ^ suc w ≡ a % (2 ^ w * 2) = ap (λ (t : ℕ). a % t) (pow-suc 2 w) in
    omega (
      arith,
      bit_and_step a (2 ^ suc w - 1),
      ap (bit_and (a / 2)) below,
      bit_and_mask w (a / 2),
      parts,
      cut,
      pow-suc 2 w,
    )

-- A mask with zeros below place `w` cuts the low bits off.
pub bit_and_high : (w a m : ℕ) → bit_and a (m * 2 ^ w) ≡ bit_and (a / 2 ^ w) m * 2 ^ w
bit_and_high zero a m =
    ap₂ bit_and {x = a} {y = a / 1} {u = m * 1} {v = m} (omega arith) (omega arith) ∙ omega arith
bit_and_high (suc w) a m =
    let up : m * 2 ^ suc w ≡ m * 2 ^ w * 2 = omega (arith, ap (λ (t : ℕ). m * t) (pow-suc 2 w)) in
    let half : m * 2 ^ suc w / 2 ≡ m * 2 ^ w = omega (arith, up) in
    let deep : a / 2 / 2 ^ w ≡ a / 2 ^ suc w =
      div-div-eq-div-mul a 2 (2 ^ w) ∙ ap (λ d. a / d) (omega (arith, pow-suc 2 w)) in
    omega (
      arith,
      up,
      bit_and_step a (m * 2 ^ suc w),
      ap (bit_and (a / 2)) half,
      bit_and_high w (a / 2) m,
      ap (λ t. bit_and t m * 2 ^ w) deep,
      ap (λ (t : ℕ). bit_and (a / 2 ^ suc w) m * t) (pow-suc 2 w),
    )

none_bit_and : (fuel m : ℕ) → m ≤ fuel → bit_and 0 m ≡ 0
none_bit_and fuel zero h = zero_bit_and 0 0 (omega arith)
none_bit_and zero (suc m) h = absurd (omega arith)
none_bit_and (suc fuel) (suc m) h =
    omega (arith, bit_and_step 0 (suc m), none_bit_and fuel (suc m / 2) (omega arith))

-- What is left under a mask fits where the word did.
pub bit_and-lt : (w a m : ℕ) → a < 2 ^ w → bit_and a m < 2 ^ w
bit_and-lt zero zero m h = omega (arith, none_bit_and m m (omega arith))
bit_and-lt zero (suc a) m h = absurd (omega arith)
bit_and-lt (suc w) a m h = omega (
  arith,
  bit_and_step a m,
  pow-suc 2 w,
  bit_and-lt w (a / 2) (m / 2) (omega (arith, pow-suc 2 w)),
)

-- A mask cuts nothing off the second time.
pub bit_and_again : (fuel a m : ℕ) → a ≤ fuel → bit_and (bit_and a m) m ≡ bit_and a m
bit_and_again fuel zero m h = rw (none_bit_and m m (omega arith)) (none_bit_and m m (omega arith))
bit_and_again zero (suc a) m h = absurd (omega arith)
bit_and_again (suc fuel) (suc a) m h =
    let n = bit_and (suc a) m in
    let half : n / 2 ≡ bit_and (suc a / 2) (m / 2) = omega (arith, bit_and_step (suc a) m) in
    omega (
      arith,
      bit_and_step (suc a) m,
      bit_and_step n m,
      ap (λ t. bit_and t (m / 2)) half,
      bit_and_again fuel (suc a / 2) (m / 2) (omega arith),
    )

-- The two lowest bits, set one at a time.
pub bit_or_one : (n : ℕ) → bit_or n 1 ≡ n / 2 * 2 + 1
bit_or_one n = omega (arith, bit_or_step n 1, zero_bit_or (n / 2) (n / 2) (omega arith))

pub bit_or_two : (n : ℕ) → bit_or n 2 ≡ n / 4 * 4 + 2 + n % 2
bit_or_two n = omega (arith, bit_or_step n 2, bit_or_one (n / 2))

-- The two lowest bits under a mask, and the others.
pub bit_and_lowest :
    (a m : ℕ)
    → (bit_and a m % 2 ≡ min (a % 2) (m % 2))
      × (bit_and a m / 2 % 2 ≡ min (a / 2 % 2) (m / 2 % 2))
      × (bit_and a m / 4 ≡ bit_and (a / 4) (m / 4))
bit_and_lowest a m =
    let halves = bit_and_step (a / 2) (m / 2) in
    let quarters : bit_and (a / 2 / 2) (m / 2 / 2) ≡ bit_and (a / 4) (m / 4) =
      ap₂ bit_and {x = a / 2 / 2} {y = a / 4} {u = m / 2 / 2} {v = m / 4} (omega arith)
        (omega arith) in
    (
      omega (arith, bit_and_step a m),
      omega (arith, bit_and_step a m, halves),
      omega (arith, bit_and_step a m, halves, quarters),
    )
