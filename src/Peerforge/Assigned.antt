-- ===== src/Peerforge/Assigned.antt =====
-- A tester of tools/peerforge/client.c that is registered.
use tund.Base.{
  ℕ, ◌+◌, ◌≤◌, Bool, true, false, not, List, [], ◌∷◌, Option, some, ◌≡◌, refl, arith, inl, inr,
  Bool-cases, Option-cases, if◌then◌else◌,
}
use tund.World.{World, Os}
use tund.Protocol.Constants.{msg_assign}
use tund.Protocol.Bytes.{load32}
use tund.Protocol.Messages.{build_register}
use tund.Peerforge.Client.{
  Tester, Session, Heard, recv_message, if_keepalive, is_assign, await_assign, register_tester,
  send_encrypted, forge_name,
}

-- Among what arrived there is an ASSIGN, sealed with the session's key and whole, of ten bytes of
-- payload at least, that says which address the tester has.
pub data Hears (os : Os) (session : Session) (t : Tester) : List (Option (List ℕ)) → Type 0 where
  here :
      (a : Option (List ℕ)) (m : Heard) (later : List (Option (List ℕ)))
      → recv_message os session a ≡ some m
      → m.type ≡ msg_assign
      → 10 ≤ m.payload_len
      → t.virt_ip ≡ load32 m.payload
      → t.assigned ≡ true
      → Hears os session t (a ∷ later)
  there :
      (a : Option (List ℕ)) (later : List (Option (List ℕ)))
      → Hears os session t later
      → Hears os session t (a ∷ later)

-- What a wait promises.
abbrev Promise : Os → Session → List (Option (List ℕ)) → Bool × Tester × World → Type 0
Promise os session arrivals r = r.0 ≡ true → Hears os session r.1 arrivals

assign_type : (m : Heard) → is_assign m ≡ true → (m.type ≡ msg_assign) × (10 ≤ m.payload_len)
unfolding is_assign
assign_type m e = ground arith

await_assign-Promise :
    (os : Os) (w : World) (session : Session) (t : Tester) (arrivals : List (Option (List ℕ)))
    → Promise os session arrivals (await_assign os w session t arrivals)
unfolding await_assign
await_assign-Promise os w session t [] = λ e. cc (e)
await_assign-Promise os w session t (a ∷ later) = elim (Option-cases (recv_message os session a)) [
  | inl nothing ↦
      rw (nothing, await_assign) (λ e. there a later (await_assign-Promise os w session t later e))
  | inr (m, heard) ↦ elim (Bool-cases (is_assign m)) [
    | inl assign ↦
        rw (heard, await_assign, assign)
          (λ _. here a m later heard (assign_type m assign).0 (assign_type m assign).1 refl refl)
    | inr other ↦
        rw (heard, await_assign, other)
          (λ e.
            there a later (await_assign-Promise os (if_keepalive os w session m) session t later e))
  ]
]

-- When the tester's registration succeeds, there was, among what arrived in time, a datagram that
-- opens under the session's key to a whole ASSIGN of at least ten bytes, and the tester has the
-- address that stands in it.
pub register_tester-Hears :
    (os : Os) (w : World) (session : Session) (t : Tester) (index : ℕ)
    (arrivals : List (Option (List ℕ)))
    → (register_tester os w session t index arrivals).0 ≡ true
    → Hears os session (register_tester os w session t index arrivals).1 arrivals
unfolding register_tester
register_tester-Hears os w session t index arrivals done =
    choose
      (not
        (send_encrypted os (build_register os w (forge_name (index + 1))).1
          (build_register os w (forge_name (index + 1))).0 session).0)
      _ _ (λ e. cc (e)) (await_assign-Promise os _ session t arrivals) done
  where
    choose :
        (b : Bool) (x y : Bool × Tester × World)
        → Promise os session arrivals x
        → Promise os session arrivals y
        → Promise os session arrivals (if b then x else y)
    choose true x y p q = p
    choose false x y p q = q
