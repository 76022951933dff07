-- ===== src/Client/Untouched.antt =====
-- The handshake of src/core/client/register.c leaves the table alone.
use tund.Base.{
  ℕ, ◌+◌, ◌&&◌, ◌==◌, ltb, length, drop, zero, suc, Bool, true, false, not, List, none, ◌≡◌, refl,
  ◌∙◌, arith, if◌then◌else◌, inl, inr, Option-cases,
}
use tund.Protocol.Constants.{hdr_size, msg_assign}
use tund.Protocol.Text.{c_string}
use tund.Protocol.Messages.{build_register}
use tund.World.{World, Os, addr_eq}
use tund.Protocol.Header.{HdrResult, ok, bad_magic, bad_version, read_hdr, read_sequence}
use tund.Net.{net_send, packet, auth_failed}
use tund.Client.State.{Client}
use tund.Client.Handlers.{accept_server_sequence}
use tund.Client.Register.{
  Flags, handle_assign, Answer, poll_failed, nothing, received, Attempt, gives_up, registered,
  goes_on, check_reply, read_reply, take_answer, attempt, Outcome, success, failure, register_loop,
  client_register,
}

-- The table of a client.
abbrev pub SameTable : Client → Client → Type 0
SameTable c d = (d.peers ≡ c.peers) × (d.peer_count ≡ c.peer_count)

abbrev after_attempt : Attempt → Client
after_attempt (gives_up c) = c
after_attempt (registered c) = c
after_attempt (goes_on c f) = c

abbrev pub after_outcome : Outcome → Client
after_outcome (success c) = c
after_outcome (failure c why) = c

accept-SameTable : (cli : Client) (buf : List ℕ) → SameTable cli (accept_server_sequence cli buf).1
unfolding accept_server_sequence
accept-SameTable cli buf = elim (Option-cases (read_sequence buf)) [
  | inl unset ↦ rw (unset, accept_server_sequence) (refl, refl)
  | inr (sequence, read) ↦ rw (read, accept_server_sequence) (refl, refl)
]

handle_assign-SameTable :
    (cli : Client) (payload : List ℕ) (len : ℕ) → SameTable cli (handle_assign cli payload len).1
unfolding handle_assign
handle_assign-SameTable cli payload len = ground arith

-- A way for an attempt to end that leaves the table alone.
abbrev Keeps : Client → Attempt → Type 0
Keeps cli a = SameTable cli (after_attempt a)

either :
    (cli : Client) (b : Bool) (x y : Attempt)
    → Keeps cli x
    → Keeps cli y
    → Keeps cli (if b then x else y)
either cli true x y p q = p
either cli false x y p q = q

check_reply-Keeps :
    (cli : Client) (flags : Flags) (buf : List ℕ) (type len : ℕ)
    → Keeps cli (check_reply cli flags buf type len)
unfolding check_reply
check_reply-Keeps cli flags buf type len =
    let (accepted, cli') = accept_server_sequence cli buf in
    let (assigned, cli'') = handle_assign cli' (drop hdr_size buf) len in
    let same = accept-SameTable cli buf in
    let (peers, count) = handle_assign-SameTable cli' (drop hdr_size buf) len in
    let bad = record flags { bad = true } in
    either cli (ltb (length buf) (hdr_size + len)) (goes_on cli bad) _ (refl, refl)
      (either cli (not accepted) (goes_on cli' bad) _ same (
        either cli ((type == msg_assign) && assigned) (registered cli'') (goes_on cli' bad)
          (peers ∙ same.0, count ∙ same.1) same))

read_reply-Keeps :
    (cli : Client) (flags : Flags) (buf : List ℕ) (r : HdrResult)
    → Keeps cli (read_reply cli flags buf r)
unfolding read_reply
read_reply-Keeps cli flags buf (ok type len) = check_reply-Keeps cli flags buf type len
read_reply-Keeps cli flags buf bad_magic = (refl, refl)
read_reply-Keeps cli flags buf bad_version = (refl, refl)

take_answer-Keeps :
    (cli : Client) (flags : Flags) (a : Answer) → Keeps cli (take_answer cli flags a)
unfolding take_answer
take_answer-Keeps cli flags poll_failed = (refl, refl)
take_answer-Keeps cli flags nothing = (refl, refl)
take_answer-Keeps cli flags (received (auth_failed from)) =
    either cli (addr_eq from cli.server_addr) _ (goes_on cli flags) (refl, refl) (refl, refl)
take_answer-Keeps cli flags (received (packet buf from)) =
    either cli (not (addr_eq from cli.server_addr)) (goes_on cli flags) _ (refl, refl)
      (read_reply-Keeps cli (record flags { reply = true }) buf (read_hdr buf))
take_answer-Keeps cli flags (received _) = (refl, refl)

attempt-Keeps :
    (os : Os) (w : World) (cli : Client) (flags : Flags) (a : Answer)
    → Keeps cli (attempt os w cli flags a).0
unfolding attempt
attempt-Keeps os w cli flags a =
    let (msg, w1) = build_register os w (c_string cli.name) in
    let (sent, w2) = net_send os w1 msg cli.server_addr in
    either cli (not sent) (gives_up cli) (take_answer cli flags a) (refl, refl)
      (take_answer-Keeps cli flags a)

register_loop-SameTable :
    (left : ℕ) (os : Os) (w : World) (cli : Client) (flags : Flags) (answers : ℕ → Answer)
    → SameTable cli (after_outcome (register_loop left os w cli flags answers).0)
unfolding register_loop
register_loop-SameTable zero os w cli flags answers = (refl, refl)
register_loop-SameTable (suc left) os w cli flags answers =
    by_turn (attempt os w cli flags (answers left)).0 (attempt os w cli flags (answers left)).1
      (attempt-Keeps os w cli flags (answers left))
      (λ c f v. register_loop-SameTable left os v c f answers)
  where
    by_turn :
        (a : Attempt) (v : World)
        → Keeps cli a
        → ((c : Client) (f : Flags) (v : World)
            → SameTable c (after_outcome (register_loop left os v c f answers).0))
        → SameTable cli (
            after_outcome
              (elim a as (λ _. Outcome × World) [
                | gives_up cli' ↦ (failure cli' none, v)
                | registered cli' ↦ (success cli', v)
                | goes_on cli' flags' ↦ register_loop left os v cli' flags' answers
              ]).0)
    by_turn (gives_up c) v same rest = same
    by_turn (registered c) v same rest = same
    by_turn (goes_on c f) v same rest =
        let (peers, count) = rest c f v in (peers ∙ same.0, count ∙ same.1)

-- Whatever its end, the handshake changes no entry of the table and not its count.
pub client_register-SameTable :
    (os : Os) (w : World) (cli : Client) (answers : ℕ → Answer)
    → SameTable cli (after_outcome (client_register os w cli answers).0)
unfolding client_register
client_register-SameTable os w cli answers =
    register_loop-SameTable 3 os w cli
      (record { auth = false; mismatch = false; bad = false; reply = false }) answers
