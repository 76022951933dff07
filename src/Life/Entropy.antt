-- ===== src/Life/Entropy.antt =====
-- `proto_random_fd` of src/protocol/protocol.c: the descriptor of /dev/urandom, which is opened when random
-- bytes are first wanted and never closed.
use tund.Base.{
  ℕ, zero, suc, ◌-◌, List, ◌∷◌, Option, none, some, ◌≡◌, refl, sym, ap, ◌∙◌, inl, inr, Option-cases,
  Bool-cases, ◌==◌, ==→eq,
}
use tund.World.{World}
use tund.Tun.{Kernel, Sys, new_descriptor, without}
use tund.Tun.Descriptors.{new_descriptor-none, new_descriptor-some, without-head}

-- What the process holds of the kernel, and `g_proto_random_fd`, which is none for -1.
pub record Process : Type 0 where
  pub sys : Sys
  pub random_fd : Option ℕ

-- The path is the one argument of `open` here; where it fails, the next call tries again.
unfoldable pub proto_random_fd : Kernel → Process → Process
proto_random_fd k p = elim p.random_fd [
  | none ↦ let (got, s) = new_descriptor k p.sys in record { sys = s; random_fd = got }
  | some fd ↦ p
]

unfoldable pub ask : Kernel → ℕ → Process → Process
ask k zero p = p
ask k (suc n) p = ask k n (proto_random_fd k p)

-- Each request for random bytes between two states of the world asks for the descriptor. The code in
-- between opens and closes nothing else.
unfoldable pub draw : Kernel → World → World → Process → Process
draw k before after p = ask k (after.draws - before.draws) p

-- The same descriptors are open; or the source has been opened, and nothing else.
pub data Drawn (p q : Process) : Type 0 where
  unchanged : q.random_fd ≡ p.random_fd → q.sys.opened ≡ p.sys.opened → Drawn p q
  source_opened :
      (fd : ℕ)
      → p.random_fd ≡ none
      → q.random_fd ≡ some fd
      → q.sys.opened ≡ fd ∷ p.sys.opened
      → Drawn p q

pub Drawn-trans : {p q r : Process} → Drawn p q → Drawn q r → Drawn p r
Drawn-trans (unchanged same still) (unchanged same' still') =
    unchanged (same' ∙ same) (still' ∙ still)
Drawn-trans (unchanged same still) (source_opened fd unset set above) =
    source_opened fd (sym same ∙ unset) set (above ∙ ap (λ x. fd ∷ x) still)
Drawn-trans (source_opened fd unset set above) (unchanged same still) =
    source_opened fd unset (same ∙ set) (still ∙ above)
Drawn-trans (source_opened fd unset set above) (source_opened fd' unset' set' above') =
    cc (unset', set)

proto_random_fd-Drawn : (k : Kernel) (p : Process) → Drawn p (proto_random_fd k p)
unfolding proto_random_fd
proto_random_fd-Drawn k p = elim (Option-cases p.random_fd) [
  | inl unset ↦ elim (Option-cases (k.descriptor p.sys.calls)) [
    | inl failed ↦
        rw (unset, new_descriptor-none k p.sys failed, proto_random_fd) (unchanged refl refl)
    | inr (fd, got) ↦
        rw (unset, new_descriptor-some k p.sys fd got, proto_random_fd)
          (source_opened fd refl refl refl)
  ]
  | inr (fd, set) ↦ rw (set, proto_random_fd) (unchanged set refl)
]

ask-Drawn : (k : Kernel) (n : ℕ) (p : Process) → Drawn p (ask k n p)
unfolding ask
ask-Drawn k zero p = unchanged refl refl
ask-Drawn k (suc n) p =
    Drawn-trans (proto_random_fd-Drawn k p) (ask-Drawn k n (proto_random_fd k p))

pub draw-Drawn : (k : Kernel) (before after : World) (p : Process) → Drawn p (draw k before after p)
unfolding draw
draw-Drawn k before after p = ask-Drawn k (after.draws - before.draws) p

without-second : (u fd : ℕ) (xs : List ℕ) → without fd (u ∷ fd ∷ xs) ≡ u ∷ xs
unfolding without
without-second u fd xs = elim (Bool-cases (u == fd)) [
  | inl same ↦ rw same (ap (λ x. x ∷ xs) (sym (==→eq u fd same)))
  | inr other ↦ rw other (ap (λ x. u ∷ x) (without-head fd xs))
]

-- A process with one more descriptor open.
abbrev pub holding : ℕ → Process → Process
holding fd p = record p { sys = record p.sys { opened = fd ∷ p.sys.opened } }

-- A descriptor that was opened before the source, or after it, is closed.
pub closed-Drawn :
    (fd : ℕ) (p q : Process) (s : Sys)
    → Drawn (holding fd p) q
    → s.opened ≡ without fd q.sys.opened
    → Drawn p (record q { sys = s })
closed-Drawn fd p q s (unchanged same still) gone =
    unchanged same (gone ∙ ap (without fd) still ∙ without-head fd p.sys.opened)
closed-Drawn fd p q s (source_opened u unset set above) gone =
    source_opened u unset set (gone ∙ ap (without fd) above ∙ without-second u fd p.sys.opened)
