-- ===== src/Client/Handshake.antt =====
-- What a successful handshake of src/core/client/register.c rests on.
use tund.Base.{
  ℕ, zero, suc, ◌+◌, ◌≤◌, ◌<◌, Bool, true, false, not, ◌&&◌, List, none, ◌≡◌, refl, ap, ◌∙◌, subst,
  arith, inl, inr, ltb, ◌==◌, if◌then◌else◌, length, drop, Bool-cases, Option-cases,
}
use tund.World.{Addr, World, Os, addr_eq}
use tund.Protocol.Constants.{hdr_size, msg_assign}
use tund.Protocol.Bytes.{load32}
use tund.Protocol.Header.{HdrResult, ok, bad_magic, bad_version, read_hdr, read_sequence}
use tund.Protocol.Text.{c_string}
use tund.Protocol.Messages.{build_register}
use tund.Net.{net_send, packet, auth_failed, no_data, recv_error}
use tund.Client.State.{Client}
use tund.Client.Handlers.{accept_server_sequence}
use tund.Client.Register.{
  Flags, handle_assign, Answer, poll_failed, nothing, received, Attempt, gives_up, registered,
  goes_on, check_reply, read_reply, take_answer, attempt, Outcome, success, failure, register_loop,
  client_register,
}

-- An answer is an ASSIGN of the server at `server`, long enough, whose address and mask the client
-- now has.
pub record Assigns (server : Addr) (answer : Answer) (cli' : Client) : Type 0 where
  pub buf : List ℕ
  pub from : Addr
  pub payload_len : ℕ
  pub is_packet : answer ≡ received (packet buf from)
  pub is_server : addr_eq from server ≡ true
  pub is_assign : read_hdr buf ≡ ok msg_assign payload_len
  pub arrived : hdr_size + payload_len ≤ length buf
  pub long_enough : 10 ≤ payload_len
  pub address : cli'.virt_ip ≡ load32 (drop hdr_size buf)
  pub mask : cli'.netmask ≡ load32 (drop 4 (drop hdr_size buf))

-- An attempt that ends well was assigned an address; one that goes on keeps the server.
abbrev Ends : Addr → Answer → Attempt → Type 0
Ends server answer (gives_up c) = Unit {0}
Ends server answer (registered c) = Assigns server answer c
Ends server answer (goes_on c f) = c.server_addr ≡ server

same_server :
    (cli : Client) (buf : List ℕ) → (accept_server_sequence cli buf).1.server_addr ≡ cli.server_addr
unfolding accept_server_sequence
same_server cli buf = elim (Option-cases (read_sequence buf)) [
  | inl unset ↦ rw (unset, accept_server_sequence) refl
  | inr (sequence, read) ↦ rw (read, accept_server_sequence) refl
]

if_Ends :
    (server : Addr) (answer : Answer) (b : Bool) (x y : Attempt)
    → (b ≡ true → Ends server answer x)
    → (b ≡ false → Ends server answer y)
    → Ends server answer (if b then x else y)
if_Ends server answer true x y f g = f refl
if_Ends server answer false x y f g = g refl

-- `handle_assign` that succeeds.
assigned_fields :
    (c : Client) (payload : List ℕ) (len : ℕ)
    → (handle_assign c payload len).0 ≡ true
    → (10 ≤ len)
      × ((handle_assign c payload len).1.virt_ip ≡ load32 payload)
      × ((handle_assign c payload len).1.netmask ≡ load32 (drop 4 payload))
unfolding handle_assign
assigned_fields c payload len h = elim (Bool-cases (ltb len 10)) [
  | inl short ↦ absurd (ground arith)
  | inr long ↦ rw long (ground arith, refl, refl)
]

module _ (cli : Client) (buf : List ℕ) (from : Addr)
    (is_server : addr_eq from cli.server_addr ≡ true) where
  check_reply-Ends :
      (flags : Flags) (type payload_len : ℕ)
      → read_hdr buf ≡ ok type payload_len
      → Ends cli.server_addr
          (received (packet buf from))
          (check_reply cli flags buf type payload_len)
  unfolding check_reply
  check_reply-Ends flags type payload_len hdr =
      if_Ends cli.server_addr (received (packet buf from))
        (ltb (length buf) (hdr_size + payload_len)) _ _ (λ _. refl)
        (λ whole.
          if_Ends cli.server_addr (received (packet buf from))
            (not (accept_server_sequence cli buf).0) _ _ (λ _. same_server cli buf)
            (λ _.
              if_Ends cli.server_addr (received (packet buf from)) _ _ _
                (λ good. assigns whole good) (λ _. same_server cli buf)))
    where
      c : Client
      c = (accept_server_sequence cli buf).1

      assigns :
          ltb (length buf) (hdr_size + payload_len) ≡ false
          → ((type == msg_assign) && (handle_assign c (drop hdr_size buf) payload_len).0) ≡ true
          → Assigns cli.server_addr
              (received (packet buf from))
              (handle_assign c (drop hdr_size buf) payload_len).1
      assigns whole good =
          let (long, address, mask) =
            assigned_fields c (drop hdr_size buf) payload_len (ground arith) in
          let kind : type ≡ msg_assign = ground arith in
          record {
            buf = buf;
            from = from;
            payload_len = payload_len;
            is_packet = refl;
            is_server = is_server;
            is_assign = hdr ∙ ap (λ t. ok t payload_len) kind;
            arrived = ground arith;
            long_enough = long;
            address = address;
            mask = mask;
          }

  read_reply-Ends :
      (flags : Flags) (r : HdrResult)
      → read_hdr buf ≡ r
      → Ends cli.server_addr (received (packet buf from)) (read_reply cli flags buf r)
  unfolding read_reply
  read_reply-Ends flags (ok type payload_len) e = check_reply-Ends flags type payload_len e
  read_reply-Ends flags bad_magic e = refl
  read_reply-Ends flags bad_version e = refl

take_answer-Ends :
    (cli : Client) (flags : Flags) (answer : Answer)
    → Ends cli.server_addr answer (take_answer cli flags answer)
unfolding take_answer
take_answer-Ends cli flags poll_failed = tt
take_answer-Ends cli flags nothing = refl
take_answer-Ends cli flags (received (auth_failed from)) =
    if_Ends cli.server_addr (received (auth_failed from)) (addr_eq from cli.server_addr) _ _
      (λ _. refl) (λ _. refl)
take_answer-Ends cli flags (received (packet buf from)) =
    if_Ends cli.server_addr (received (packet buf from)) (not (addr_eq from cli.server_addr)) _ _
      (λ _. refl)
      (λ known.
        read_reply-Ends cli buf from (ground arith) (record flags { reply = true }) (read_hdr buf)
          refl)
take_answer-Ends cli flags (received no_data) = refl
take_answer-Ends cli flags (received recv_error) = refl

attempt-Ends :
    (os : Os) (w : World) (cli : Client) (flags : Flags) (answer : Answer)
    → Ends cli.server_addr answer (attempt os w cli flags answer).0
unfolding attempt
attempt-Ends os w cli flags answer =
    let (msg, w1) = build_register os w (c_string cli.name) in
    if_Ends cli.server_addr answer (not (net_send os w1 msg cli.server_addr).0) _ _ (λ _. tt)
      (λ _. take_answer-Ends cli flags answer)

-- One of the answers was an ASSIGN.
abbrev pub WasAssigned : ℕ → Addr → (ℕ → Answer) → Client → Type 0
WasAssigned turns server answers cli' = (k : ℕ) × (k < turns) × Assigns server (answers k) cli'

abbrev Succeeds : ℕ → Addr → (ℕ → Answer) → Outcome → Type 0
Succeeds turns server answers (success c) = WasAssigned turns server answers c
Succeeds turns server answers (failure c why) = Unit {0}

one_more :
    (turns : ℕ) (server : Addr) (answers : ℕ → Answer) (o : Outcome)
    → Succeeds turns server answers o
    → Succeeds (suc turns) server answers o
one_more turns server answers (success c) (k, lt, a) = (k, omega (arith, lt), a)
one_more turns server answers (failure c why) s = tt

register_loop-Succeeds :
    (turns : ℕ) (os : Os) (w : World) (cli : Client) (flags : Flags) (answers : ℕ → Answer)
    → Succeeds turns cli.server_addr answers (register_loop turns os w cli flags answers).0
unfolding register_loop
register_loop-Succeeds zero os w cli flags answers = tt
register_loop-Succeeds (suc left) os w cli flags answers =
    by_turn (attempt os w cli flags (answers left)).0
      (λ c f. register_loop-Succeeds left os (attempt os w cli flags (answers left)).1 c f answers)
      (attempt-Ends os w cli flags (answers left))
  where
    by_turn :
        (t : Attempt)
        → ((c : Client) (f : Flags)
            → Succeeds left c.server_addr answers
                (register_loop left os (attempt os w cli flags (answers left)).1 c f answers).0)
        → Ends cli.server_addr (answers left) t
        → Succeeds
            (suc left)
            cli.server_addr
            answers
            (elim t as (λ _. Outcome × World) [
              | gives_up cli' ↦ (failure cli' none, (attempt os w cli flags (answers left)).1)
              | registered cli' ↦ (success cli', (attempt os w cli flags (answers left)).1)
              | goes_on cli' flags' ↦
                  register_loop left os
                    (attempt os w cli flags (answers left)).1
                    cli'
                    flags'
                    answers
            ]).0
    by_turn (gives_up c) later e = tt
    by_turn (registered c) later e = (left, omega arith, e)
    by_turn (goes_on c f) later e =
        one_more left cli.server_addr answers
          (register_loop left os (attempt os w cli flags (answers left)).1 c f answers).0
          (subst
            (λ s.
              Succeeds left s answers
                (register_loop left os (attempt os w cli flags (answers left)).1 c f answers).0)
            e (later c f))

-- When client_register succeeds, the answer to one of its three attempts was a packet of its
-- server, of type ASSIGN, whole and with at least ten bytes of payload, and the client has the
-- address and the mask that stand in it.
pub client_register-WasAssigned :
    (os : Os) (w : World) (cli : Client) (answers : ℕ → Answer) (cli' : Client)
    → (client_register os w cli answers).0 ≡ success cli'
    → WasAssigned 3 cli.server_addr answers cli'
unfolding client_register
client_register-WasAssigned os w cli answers cli' h = subst (Succeeds 3 cli.server_addr answers) h (
    register_loop-Succeeds 3 os w cli
      (record { auth = false; mismatch = false; bad = false; reply = false }) answers)
