-- ===== src/Net/Socket.antt =====
-- `net_create_socket` of src/net/network.c, on a Unix system.
use tund.Base.{
  ℕ, ◌+◌, not, ◌∷◌, Option, none, some, if◌then◌else◌, ◌≡◌, inl, inr, refl, arith, Bool-cases,
  Option-cases,
}
use tund.Tun.{Kernel, Sys, new_descriptor, request, close, reuse_addr, bind}
use tund.Tun.Descriptors.{new_descriptor-none, new_descriptor-some, without-head}

-- The result of `setsockopt` is not looked at.
unfoldable pub bind_socket : Kernel → Sys → ℕ → ℕ → Option ℕ × Sys
bind_socket k s port fd =
    let (_, s1) = request k s (reuse_addr fd) in
    let (bound, s2) = request k s1 (bind fd port) in
    if not bound then (none, close s2 fd) else (some fd, s2)

unfoldable pub create_socket : Kernel → Sys → ℕ → Option ℕ × Sys
unfolding bind_socket
create_socket k s port =
    let (got, s1) = new_descriptor k s in
    elim got [ none ↦ (none, s1) | some fd ↦ bind_socket k s1 port fd ]

-- A socket that is open, or none and nothing more open than before.
pub data Creates (s : Sys) (r : Option ℕ × Sys) : Type 0 where
  no_socket : r.0 ≡ none → r.1.opened ≡ s.opened → Creates s r
  socket : (fd : ℕ) → r.0 ≡ some fd → r.1.opened ≡ fd ∷ s.opened → Creates s r

bind_socket-Creates :
    (k : Kernel) (s t : Sys) (port fd : ℕ)
    → s.opened ≡ fd ∷ t.opened
    → Creates t (bind_socket k s port fd)
unfolding bind_socket
bind_socket-Creates k s t port fd held = elim (Bool-cases (k.succeeds (s.calls + 1))) [
  | inl bound ↦ rw (bound, bind_socket) (socket fd refl held)
  | inr taken ↦ rw (taken, bind_socket) (no_socket refl (ground (arith, without-head fd t.opened)))
]

pub create_socket-Creates : (k : Kernel) (s : Sys) (port : ℕ) → Creates s (create_socket k s port)
unfolding create_socket
create_socket-Creates k s port = elim (Option-cases (k.descriptor s.calls)) [
  | inl failed ↦
      rw (new_descriptor-none k s failed, create_socket)
        (rw (new_descriptor-none k s failed) (no_socket refl refl))
  | inr (fd, got) ↦
      rw (new_descriptor-some k s fd got, create_socket)
        (rw (new_descriptor-some k s fd got) (bind_socket-Creates k _ s port fd refl))
]
