-- ===== src/Life/Client/Laws.antt =====
-- A client from start to end.
use tund.Base.{
  ℕ, Bool, true, false, not, List, [], ◌∷◌, Option, none, some, ◌≡◌, refl, arith, inl, inr,
  Bool-cases, if◌then◌else◌,
}
use tund.World.{Addr, World, Os}
use tund.Client.Rounds.{shutdown_farewell}
use tund.Net.{net_recv}
use tund.Net.Socket.{create_socket, Creates, no_socket, socket, create_socket-Creates}
use tund.Client.State.{Client, client_init_state, mark_server_seen}
use tund.Client.Invariant.{IsValid}
use tund.Client.Packets.{client_init_state-IsValid}
use tund.Client.Traffic.{tun_round-IsValid, receive_turn-IsValid}
use tund.Client.Untouched.{SameTable, after_outcome, client_register-SameTable}
use tund.Client.Register.{Answer, Outcome, success, failure, client_register}
use tund.Tun.{Kernel, Sys, close}
use tund.Tun.Driver.{Driver}
use tund.Life.{Life, Threading, fresh_life, set_up_tun, start_threads}
use tund.Life.Entropy.{
  Process, draw, Drawn, unchanged, Drawn-trans, draw-Drawn, holding, closed-Drawn,
}
use tund.Life.Start.{
  Begun, not_begun, begun, fresh-NoThread, set_up_tun-Begun, IsOver, wind_up-IsOver,
}
use tund.Life.Client.{
  join_server, client_init, Turn, stop_requested, poll_failed, idle, datagram, tun_packet,
  timer_round, take_turn, client_loop, client_run, client_shutdown, take_part,
}

-- How `client_init` ends, with the device and the table.
abbrev Begins : Process → Bool × (Life × Process) × Client × World → Type 0
Begins p r = Begun p (r.0, r.1.0, r.1.1) × IsValid r.2

mark_server_seen-SameTable : (cli : Client) (now : ℕ) → SameTable cli (mark_server_seen cli now)
unfolding mark_server_seen
mark_server_seen-SameTable cli now = ground arith

-- A table that is another's.
moved : (c d : Client) → SameTable c d → IsValid c → IsValid d
moved c d (peers, count) v = rw (peers, count) v

module _ {k : Kernel} (d : Driver k) (os : Os) (w : World) (p t : Process) (cli : Client)
    (answers : ℕ → Answer) (now sock : ℕ) (valid : IsValid cli)
    (held : Drawn (holding sock t) p) where
  join_server-Begins : Begins t (join_server d os w p cli answers now sock)
  unfolding join_server
  join_server-Begins =
      by_outcome (client_register os w cli answers).0 (client_register os w cli answers).1
        (client_register-SameTable os w cli answers)
    where
      by_outcome :
          (o : Outcome) (w1 : World)
          → SameTable cli (after_outcome o)
          → let p1 = draw k w w1 p in
            Begins t (elim o as (λ _. Bool × (Life × Process) × Client × World) [
              | failure cli' why ↦ (
                false,
                (record fresh_life { sockfd = some sock }, record p1 { sys = close p1.sys sock }),
                cli',
                w1,
              )
              | success cli' ↦
                  let (started, l', s') =
                    set_up_tun d
                      (record fresh_life { sockfd = some sock })
                      p1.sys
                      sock
                      cli'.virt_ip
                      cli'.netmask in
                  (started, (l', record p1 { sys = s' }), mark_server_seen cli' now, w1)
            ])
      by_outcome (failure cli' why) w1 same =
          let p1 = draw k w w1 p in
          (
            not_begun refl (fresh-NoThread (some sock)) (
                closed-Drawn sock t p1 (close p1.sys sock) (Drawn-trans held (draw-Drawn k w w1 p))
                  refl),
            moved cli cli' same valid,
          )
      by_outcome (success cli') w1 same =
          let p1 = draw k w w1 p in
          (
            set_up_tun-Begun d (record fresh_life { sockfd = some sock }) p1.sys sock cli'.virt_ip
                cli'.netmask (fresh-NoThread (some sock)) refl t p1
                (Drawn-trans held (draw-Drawn k w w1 p)) refl,
            moved cli' (mark_server_seen cli' now) (mark_server_seen-SameTable cli' now)
                (moved cli cli' same valid),
          )

client_init-Begins :
    {k : Kernel} (d : Driver k) (os : Os) (w : World) (p : Process) (name : List ℕ)
    (server_addr : Option Addr) (answers : ℕ → Answer) (now : ℕ)
    → Begins p (client_init d os w p name server_addr answers now)
unfolding client_init
client_init-Begins d os w p name none answers now =
    (not_begun refl (fresh-NoThread none) (unchanged refl refl), client_init_state-IsValid name _)
client_init-Begins {k} d os w p name (some addr) answers now =
    by_socket (create_socket k p.sys 0).0 (create_socket k p.sys 0).1
      (create_socket-Creates k p.sys 0)
  where
    by_socket :
        (o : Option ℕ) (s1 : Sys)
        → Creates p.sys (o, s1)
        → Begins p (elim o as (λ _. Bool × (Life × Process) × Client × World) [
          | none ↦ (false, (fresh_life, record p { sys = s1 }), client_init_state name addr, w)
          | some fd ↦
              join_server d os w
                (record p { sys = s1 })
                (client_init_state name addr)
                answers
                now
                fd
        ])
    by_socket none s1 (no_socket missing still) = (
      not_begun refl (fresh-NoThread none) (unchanged refl still),
      client_init_state-IsValid name addr,
    )
    by_socket none s1 (socket fd got above) = cc (got)
    by_socket (some fd) s1 (no_socket missing still) = cc (missing)
    by_socket (some fd) s1 (socket f got above) =
        join_server-Begins d os w (record p { sys = s1 }) p (client_init_state name addr) answers
          now fd (client_init_state-IsValid name addr) (unchanged refl (cc))

take_turn-IsValid :
    (os : Os) (w : World) (cli : Client) (t : Turn) → IsValid cli → IsValid (take_turn os w cli t).1
unfolding take_turn
take_turn-IsValid os w cli (datagram i clock) v =
    receive_turn-IsValid os w cli (net_recv os w i) clock.time clock.ms v
take_turn-IsValid os w cli (tun_packet pkt) v = tun_round-IsValid os w cli pkt v
take_turn-IsValid os w cli (timer_round clock) v = v
take_turn-IsValid os w cli stop_requested v = v
take_turn-IsValid os w cli poll_failed v = v
take_turn-IsValid os w cli idle v = v

choose :
    (b : Bool) (x y : Client × World) → IsValid x.0 → IsValid y.0 → IsValid (if b then x else y).0
choose true x y p q = p
choose false x y p q = q

client_loop-IsValid :
    (os : Os) (w : World) (cli : Client) (ts : List Turn)
    → IsValid cli
    → IsValid (client_loop os w cli ts).0
unfolding client_loop
client_loop-IsValid os w cli [] v = v
client_loop-IsValid os w cli (t ∷ ts) v =
    let next = take_turn-IsValid os w cli t v in
    let (goes_on, cli', w') = take_turn os w cli t in
    choose (not w.running) (cli, w) _ v
      (choose goes_on (client_loop os w' cli' ts) (cli', w')
        (client_loop-IsValid os w' cli' ts next) next)

client_run-lem :
    (k : Kernel) (os : Os) (w : World) (cli : Client) (th : Threading) (l : Life) (p : Process)
    (ts : List Turn)
    → IsValid cli
    → IsValid (client_run k os w cli th l p ts).1
      × ((client_run k os w cli th l p ts).0.0 ≡ (start_threads th l).1)
      × Drawn p (client_run k os w cli th l p ts).0.1
unfolding client_run
client_run-lem k os w cli th l p ts v = elim (Bool-cases (start_threads th l).0) [
  | inl started ↦
      rw (started, client_run)
        (client_loop-IsValid os w cli ts v, refl, draw-Drawn k w (client_loop os w cli ts).1 p)
  | inr failed ↦ rw (failed, client_run) (v, refl, unchanged refl refl)
]

pub take_part-IsOver :
    {k : Kernel} (d : Driver k) (os : Os) (w : World) (p : Process) (name : List ℕ)
    (server_addr : Option Addr) (answers : ℕ → Answer) (now : ℕ) (th : Threading)
    (turns : List Turn)
    → IsOver p (take_part d os w p name server_addr answers now th turns).1
      × IsValid (take_part d os w p name server_addr answers now th turns).2
unfolding take_part client_shutdown
take_part-IsOver {k} d os w p name server_addr answers now th turns =
    by_start (client_init-Begins d os w p name server_addr answers now)
  where
    by_start :
        Begins p (client_init d os w p name server_addr answers now)
        → IsOver p (take_part d os w p name server_addr answers now th turns).1
          × IsValid (take_part d os w p name server_addr answers now th turns).2
    by_start (not_begun no_start quiet drawn, v) =
        rw (no_start, take_part) (record { given_back = drawn; all_joined = quiet.none_left }, v)
    by_start (begun fd sock m done quiet device held drawn same above, v) =
        let r = client_init d os w p name server_addr answers now in
        let run = client_run k os r.3 r.2 th r.1.0 r.1.1 turns in
        let (valid, life, ran) = client_run-lem k os r.3 r.2 th r.1.0 r.1.1 turns v in
        let w' = shutdown_farewell os run.2 run.1 in
        rw (done, take_part)
          (
            rw life (
                wind_up-IsOver th r.1.0 p m r.1.1 (draw k run.2 w' run.0.1) fd sock quiet device
                  held drawn same above (Drawn-trans ran (draw-Drawn k run.2 w' run.0.1))),
            valid,
          )
