-- ===== src/Tun/Windows/Waits.antt =====
-- What a success of the Windows configuration means.
use tund.Base.{
  ℕ, zero, suc, ◌+◌, ◌-◌, ◌*◌, ◌/◌, ◌%◌, ◌^◌, ◌≤◌, Bool, true, false, not, ◌≡◌, refl, subst, sym,
  ap, ◌∙◌, arith, inl, inr, Bool-cases, ◌==◌, if◌then◌else◌,
}
use native.Mathlib.Nat.{pow-suc, one-le-pow}
use tund.Protocol.Bytes.{htonl}
use tund.Protocol.Bytes.Laws.{htonl-htonl}
use tund.Tun.Windows.{Device, Windows, WinSys, called, set_address}
use tund.Tun.Windows.Network.{
  leading_ones, prefix_len_from_netmask, ip_applied, route_applied, wait_for, network_of,
  ensure_route, set_route, tun_set_ip,
}

-- A wait that succeeds has seen its test succeed.
wait_for-seen :
    (test : ℕ → Bool) (s : WinSys) (left : ℕ)
    → (wait_for test s left).0 ≡ true
    → (n : ℕ) × (test n ≡ true)
unfolding wait_for
wait_for-seen test s zero e = cc (e)
wait_for-seen test s (suc left) e = elim (Bool-cases (test s.calls)) [
  | inl seen ↦ (s.calls, seen)
  | inr unseen ↦ wait_for-seen test (called s) left (ground arith)
]

set_route-seen :
    (k : Windows) (s : WinSys) (dev : Device) (network mask : ℕ)
    → (set_route k s dev network mask).0 ≡ true
    → (n : ℕ) × (route_applied k dev network mask n ≡ true)
unfolding set_route
set_route-seen k s dev network mask e =
    wait_for-seen (route_applied k dev network mask) (ensure_route k s dev network mask).1 20
      (ground arith)

-- What a guarded call that succeeds has passed.
passes :
    (b : Bool) (s : WinSys) (r : Bool × WinSys)
    → (if not b then (false, s) else r).0 ≡ true
    → (b ≡ true) × (r.0 ≡ true)
passes true s r e = (refl, e)
passes false s r e = cc (e)

-- On Windows, when tun_set_ip succeeds, netsh had accepted the address, some look at the table of
-- addresses had shown it with the mask's prefix on the device, and some look at the table of
-- routes had shown the route to its network.
pub tun_set_ip-applied :
    (k : Windows) (s : WinSys) (dev : Device) (ip mask : ℕ)
    → (tun_set_ip k s dev ip mask).0 ≡ true
    → (k.netsh s.calls (set_address dev.ifname ip mask) ≡ true)
      × ((n : ℕ) × (ip_applied k dev ip mask n ≡ true))
      × ((m : ℕ) × (route_applied k dev (network_of ip mask) mask m ≡ true))
unfolding tun_set_ip
tun_set_ip-applied k s dev ip mask e =
    let w = wait_for (ip_applied k dev ip mask) (called s) 20 in
    let (asked, waited) =
      passes (k.netsh s.calls (set_address dev.ifname ip mask)) (called s) _ e in
    let (shown, routed) = passes w.0 w.1 (set_route k w.1 dev (network_of ip mask) mask) waited in
    (
      asked,
      wait_for-seen (ip_applied k dev ip mask) (called s) 20 shown,
      set_route-seen k w.1 dev (network_of ip mask) mask routed,
    )

-- A power of two that fits 32 bits with room for another bit.
pow-small : (k d : ℕ) → k + d ≡ 31 → 2 ^ d ≤ 2 ^ 31
pow-small zero d e =
    let same : d ≡ 31 = omega arith in subst (λ x. 2 ^ x ≤ 2 ^ 31) (sym same) (omega arith)
pow-small (suc k) d e = omega (arith, pow-small k (suc d) (omega arith), pow-suc 2 d)

leading_ones-step :
    (left mask : ℕ)
    → mask / 2 ^ 31 ≡ 1
    → leading_ones (suc left) mask ≡ suc (leading_ones left (mask * 2 % 2 ^ 32))
unfolding leading_ones
leading_ones-step left mask top =
    let one : (mask / 2 ^ 31 % 2 == 1) ≡ true = ground arith in rw (one, leading_ones) refl

leading_ones-nothing : (left : ℕ) → leading_ones left 0 ≡ 0
unfolding leading_ones
leading_ones-nothing zero = refl
leading_ones-nothing (suc left) = refl

leading_ones-mask : (left k d : ℕ) → k ≤ left → k + d ≡ 32 → leading_ones left (2 ^ 32 - 2 ^ d) ≡ k
leading_ones-mask left zero d fits e =
    let same : d ≡ 32 = omega arith in
    ap (λ x. leading_ones left (2 ^ 32 - 2 ^ x)) same ∙ leading_ones-nothing left
leading_ones-mask zero (suc k) d fits e = absurd (omega arith)
leading_ones-mask (suc left) (suc k) d fits e =
    let t = pow-small k d (omega arith) in
    let some_bit = one-le-pow d 2 (omega arith) in
    let twice : (2 ^ 32 - 2 ^ d) * 2 % 2 ^ 32 ≡ 2 ^ 32 - 2 ^ suc d =
      omega (arith, t, some_bit, pow-suc 2 d) in
    leading_ones-step left (2 ^ 32 - 2 ^ d) (omega (arith, t, some_bit))
    ∙ ap suc (
        ap (leading_ones left) twice ∙ leading_ones-mask left k (suc d) (omega arith) (omega arith))

-- Of a netmask of n leading ones, for n up to 32, prefix_len_from_netmask gives n, within the 32
-- turns that its loop is given.
pub prefix_len_from_netmask-mask :
    (n : ℕ) → n ≤ 32 → prefix_len_from_netmask (htonl (2 ^ 32 - 2 ^ (32 - n))) ≡ n
unfolding prefix_len_from_netmask
prefix_len_from_netmask-mask n small =
    ap (leading_ones 32)
      (htonl-htonl (2 ^ 32 - 2 ^ (32 - n)) (omega (arith, one-le-pow (32 - n) 2 (omega arith))))
    ∙ leading_ones-mask 32 n (32 - n) small (omega arith)
