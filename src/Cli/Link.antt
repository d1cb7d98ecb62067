-- ===== src/Cli/Link.antt =====
-- src/cli.c: the connection to the client, and the module's poll.
use ceda_cemu.Base.{
  ℕ, zero, suc, Bool, true, false, not, Option, none, some, List, [], ◌∷◌, ◌++◌, if◌then◌else◌,
}
use ceda_cemu.Base.Outcome.{Outcome, ok, ◌>>=◌}
use ceda_cemu.Cpu.{Z80, Machine}
use ceda_cemu.Fifo.{Fifo, is_empty, pop, init}
use ceda_cemu.Serial.{Select, ready, Recv, disconnected, received, close_fd}
use ceda_cemu.Cli.Text.{prompt}
use ceda_cemu.Cli.State.{Cli, Host, Debugger, cli_send_string, free_string}
use ceda_cemu.Cli.Lines.{cli_handle_incoming_data}

-- The other static variables of cli.c; `none` stands for the descriptor -1. `closed` lists the
-- descriptors that were closed, `sent` the messages that `send` was handed.
pub record Link (Z W : Type 0) : Type 0 where
  pub cli : Cli Z W
  pub initialized : Bool
  pub last_update : ℕ
  pub sockfd : Option ℕ
  pub connfd : Option ℕ
  pub closed : List ℕ
  pub sent : List (List ℕ)

-- What the host answers in one poll: the clock, `select`, `accept`, `recv`, and whether `send` of a
-- message succeeds.
pub record Client : Type 0 where
  pub now : ℕ
  pub select : Select
  pub accept : Option ℕ
  pub recv : Recv
  pub send : List ℕ → Bool

-- What the host answers when the module starts.
pub record Startup : Type 0 where
  pub socket : Option ℕ
  pub setsockopt : Bool
  pub bind : Bool
  pub listen : Bool

module _ {Z W : Type 0} where
  -- `close(connfd); connfd = -1;`
  abbrev pub drop_client : Link Z W → ℕ → Link Z W
  drop_client l fd = record l { connfd = none; closed = fd ∷ l.closed }

  abbrev set_tx : Link Z W → Fifo (List ℕ) → Link Z W
  set_tx l tx = record l { cli = record l.cli { tx_fifo = tx } }

  -- The loop around `send`, with at most `n` messages.
  unfoldable pub send_messages : ℕ → Link Z W → ℕ → (List ℕ → Bool) → Link Z W
  send_messages zero l fd send = l
  send_messages (suc n) l fd send =
      let (text, left) = pop [] l.cli.tx_fifo in
      let sent = record (set_tx l left) { sent = l.sent ++ text ∷ [] } in
      let t = record sent { cli = free_string sent.cli } in
      let rest = send_messages n t fd send in
      if is_empty l.cli.tx_fifo then l else if send text then rest else drop_client t fd

  module _ (lib : Z80 Z) (debugger : Debugger Z)
      (z80_run : ℕ → Machine Z W → Outcome (Machine Z W × ℕ)) (host : Host) where
    -- The part behind `FD_ISSET(connfd, &read_set)`; `true` is an early return.
    unfoldable pub receive : Link Z W → ℕ → Recv → Outcome (Link Z W × Bool)
    receive l fd Recv.failed = ok (drop_client l fd, true)
    receive l fd disconnected = ok (drop_client l fd, true)
    receive l fd (received buffer) = do
      cli ← cli_handle_incoming_data lib debugger z80_run host l.cli buffer
      ok (record l { cli = cli }, false)

    unfoldable pub poll_client : Link Z W → ℕ → Client → Select → Outcome (Link Z W)
    poll_client l fd client Select.failed = ok (drop_client l fd)
    poll_client l fd client Select.timeout = ok l
    poll_client l fd client (ready readable writable) = do
      (t, return) ← if readable then receive l fd client.recv else ok (l, false)
      let sent = send_messages 8 t fd client.send
      ok (if return then t else if writable then sent else t)

    unfoldable pub poll_accept : Link Z W → Client → Select → Outcome (Link Z W)
    poll_accept l client Select.failed = ok l
    poll_accept l client Select.timeout = ok l
    poll_accept l client (ready readable writable) = do
      cli ← cli_send_string l.cli prompt
      ok (record l { connfd = client.accept; cli = cli })

    abbrev poll_with : Link Z W → Client → Option ℕ → Outcome (Link Z W)
    poll_with l client none = poll_accept l client client.select
    poll_with l client (some fd) = poll_client l fd client client.select

    unfoldable pub cli_poll : Link Z W → Client → Outcome (Link Z W)
    cli_poll l client =
        let t = record l { last_update = client.now } in
        if not l.initialized then ok t else poll_with t client t.connfd

  unfoldable pub cli_cleanup : Link Z W → Link Z W
  cli_cleanup l =
      if not l.initialized
      then l
      else record l { closed = close_fd l.sockfd (close_fd l.connfd l.closed) }

  -- `cli_init` behind the call of `socket`.
  unfoldable pub init_socket : Link Z W → Startup → Option ℕ → Link Z W
  init_socket l os none = record l { sockfd = none }
  init_socket l os (some fd) =
      let opened = record l { sockfd = some fd } in
      let ready = record (set_tx opened (init l.cli.tx_fifo)) { initialized = true } in
      if not os.setsockopt
      then opened
      else if not os.bind
      then opened
      else if not os.listen
      then opened
      else ready

  unfoldable pub cli_init : Link Z W → Startup → Link Z W
  cli_init l os = init_socket l os os.socket

-- `cli_checkRestart`: the flag, which is taken back.
unfoldable pub cli_check_restart : {Z W : Type 0} → Cli Z W → Cli Z W × Bool
cli_check_restart s = (record s { restart = false }, s.restart)
