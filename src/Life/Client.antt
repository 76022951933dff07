-- ===== src/Life/Client.antt =====
-- `client_init`, `client_run` and `client_shutdown` of src/core/client/client.c. The terminal interface and
-- the log are not modelled.
pub mod Laws
use tund.Base.{ℕ, Bool, true, false, not, List, [], ◌∷◌, Option, none, some, if◌then◌else◌}
use tund.World.{World, Os, Addr}
use tund.Net.{Incoming, net_recv}
use tund.Net.Socket.{create_socket}
use tund.Server.Dispatch.{Clock}
use tund.Client.State.{Client, client_init_state, mark_server_seen}
use tund.Client.Register.{Answer, Outcome, success, failure, client_register}
use tund.Client.Rounds.{keepalive_round, tun_round, receive_turn, shutdown_farewell}
use tund.Tun.{Kernel, Sys, close}
use tund.Tun.Driver.{Driver}
use tund.Life.Entropy.{Process, draw}
use tund.Life.{Life, Threading, fresh_life, set_up_tun, start_threads, wind_up}

-- With the socket open: the handshake, and the device under the address that it brought.
unfoldable pub join_server :
    {k : Kernel}
    → Driver k
    → Os
    → World
    → Process
    → Client
    → (ℕ → Answer)
    → ℕ
    → ℕ
    → Bool × (Life × Process) × Client × World
join_server {k} d os w p cli answers now sock =
    let (outcome, w1) = client_register os w cli answers in
    let l = record fresh_life { sockfd = some sock } in
    let p1 = draw k w w1 p in
    elim outcome [
      | failure cli' why ↦ (false, (l, record p1 { sys = close p1.sys sock }), cli', w1)
      | success cli' ↦
          let (started, l', s') = set_up_tun d l p1.sys sock cli'.virt_ip cli'.netmask in
          (started, (l', record p1 { sys = s' }), mark_server_seen cli' now, w1)
    ]

-- `server_addr` is what `net_resolve` gives for the configured server.
unfoldable pub client_init :
    {k : Kernel}
    → Driver k
    → Os
    → World
    → Process
    → List ℕ
    → Option Addr
    → (ℕ → Answer)
    → ℕ
    → Bool × (Life × Process) × Client × World
unfolding join_server
client_init {k} d os w p name server_addr answers now = elim server_addr [
  | none ↦
      (false, (fresh_life, p), client_init_state name (record { family = 0; ip = 0; port = 0 }), w)
  | some addr ↦
      let cli = client_init_state name addr in
      let (sock, s1) = create_socket k p.sys 0 in
      let p1 = record p { sys = s1 } in
      elim sock [
        | none ↦ (false, (fresh_life, p1), cli, w)
        | some fd ↦ join_server d os w p1 cli answers now fd
      ]
]

-- What happens next while the client runs: to its loop, which polls, or in one of its threads.
pub data Turn : Type 0 where
  stop_requested poll_failed idle : Turn
  datagram : Incoming → Clock → Turn
  tun_packet : List ℕ → Turn
  timer_round : Clock → Turn

abbrev go_on : Client × World → Bool × Client × World
go_on r = (true, r.0, r.1)

unfoldable pub take_turn : Os → World → Client → Turn → Bool × Client × World
take_turn os w cli stop_requested = (false, cli, record w { running = false })
take_turn os w cli poll_failed = (false, cli, w)
take_turn os w cli idle = (true, cli, w)
take_turn os w cli (datagram i clock) =
    go_on (receive_turn os w cli (net_recv os w i) clock.time clock.ms)
take_turn os w cli (tun_packet pkt) = go_on (tun_round os w cli pkt)
take_turn os w cli (timer_round clock) = (true, cli, keepalive_round os w cli clock.time clock.ms)

-- A DISCONNECT and a server that is silent for too long end the loop as well.
unfoldable pub client_loop : Os → World → Client → List Turn → Client × World
unfolding take_turn
client_loop os w cli [] = (cli, w)
client_loop os w cli (t ∷ ts) =
    let (goes_on, cli', w') = take_turn os w cli t in
    let rest = client_loop os w' cli' ts in
    if not w.running then (cli, w) else if goes_on then rest else (cli', w')

unfoldable pub client_run :
    Kernel
    → Os
    → World
    → Client
    → Threading
    → Life
    → Process
    → List Turn
    → (Life × Process) × Client × World
unfolding client_loop
client_run k os w cli th l p turns =
    let (started, l') = start_threads th l in
    let (end, w') = client_loop os w cli turns in
    if started then ((l', draw k w w' p), end, w') else ((l', p), cli, record w { running = false })

unfoldable pub client_shutdown :
    Kernel → Os → World → Client → Life → Process → (Life × Process) × World
client_shutdown k os w cli l p =
    let w' = shutdown_farewell os w cli in
    let p' = draw k w w' p in let (l', s) = wind_up l p'.sys in ((l', record p' { sys = s }), w')

-- The branch of `main` for client mode.
unfoldable pub take_part :
    {k : Kernel}
    → Driver k
    → Os
    → World
    → Process
    → List ℕ
    → Option Addr
    → (ℕ → Answer)
    → ℕ
    → Threading
    → List Turn
    → Bool × (Life × Process) × Client × World
unfolding client_init client_run client_shutdown
take_part {k} d os w p name server_addr answers now th turns =
    let (started, (l, p1), cli, w1) = client_init d os w p name server_addr answers now in
    let ((l', p2), cli', w2) = client_run k os w1 cli th l p1 turns in
    let (ended, w3) = client_shutdown k os w2 cli' l' p2 in
    if started then (true, ended, cli', w3) else (false, (l, p1), cli, w1)
