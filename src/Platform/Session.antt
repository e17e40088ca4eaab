-- ===== src/Platform/Session.antt =====
-- src/platform/mod.rs: `Agent::run`, the loop of sessions with its delay, and `dispatch`. A turn of
-- the loop is described by what came of its session and of the wait behind it.
use runman_agent.Prelude.{
  ℕ, ◌==◌, zero, suc, ◌*◌, ◌+◌, ◌^◌, ◌≤◌, min, Bool, true, false, Option, none, some, List, [], ◌∷◌,
  if◌then◌else◌, String,
}
use runman_agent.Platform.Commands.{
  Down, ping, console_open, console_input, console_resize, console_close, wg_sync_response,
}
pub mod Backoff

-- The delays, in seconds.
pub record Timing : Type 0 where
  pub heartbeat : ℕ
  pub ping_timeout : ℕ
  pub wg_sync : ℕ
  pub wg_sync_timeout : ℕ
  pub backoff_base : ℕ
  pub backoff_max : ℕ
  pub connect_timeout : ℕ

abbrev pub default_timing : Timing
default_timing = record {
  heartbeat = 15;
  ping_timeout = 60;
  wg_sync = 20;
  wg_sync_timeout = 10;
  backoff_base = 5;
  backoff_max = 300;
  connect_timeout = 15;
}

-- A turn of the loop: there is no token; or a session ran, which received a message or not, and the
-- wait behind it was cut short by a request to connect again or not.
pub data Turn : Type 0 where
  standalone : Turn
  session : (connected reconnect : Bool) → Turn

-- The delay of the wait, and the delay that the next turn starts with.
unfoldable pub waits : Timing → ℕ → Turn → Option ℕ
waits t delay standalone = none
waits t delay (session connected reconnect) = if connected then some t.backoff_base else some delay

unfoldable pub next_delay : Timing → ℕ → Turn → ℕ
next_delay t delay standalone = delay
next_delay t delay (session connected reconnect) =
    let at_end = if connected then t.backoff_base else delay in
    let woken = if reconnect then t.backoff_base else at_end in
    if connected then woken else min (woken * 2) t.backoff_max

unfoldable pub delay_after : Timing → ℕ → List Turn → ℕ
unfolding next_delay
delay_after t delay [] = delay
delay_after t delay (turn ∷ turns) = delay_after t (next_delay t delay turn) turns

-- What a message of the platform reaches.
pub data Handler : Type 0 where
  ping_clock consoles wg_waiters commands : Handler

unfoldable pub dispatch : Option Down → Handler
dispatch none = commands
dispatch (some ping) = ping_clock
dispatch (some console_open) = consoles
dispatch (some console_input) = consoles
dispatch (some console_resize) = consoles
dispatch (some console_close) = consoles
dispatch (some wg_sync_response) = wg_waiters
dispatch (some command) = commands

-- `Link`: the channel of the stream that is open, by its number. Whether a channel takes a message is
-- known to the world `W`.
unfoldable pub set : ℕ → Option ℕ → Option ℕ
set tx link = some tx

unfoldable pub clear_if : ℕ → Option ℕ → Option ℕ
clear_if tx none = none
clear_if tx (some c) = if c == tx then none else some c

unfoldable pub send : {W M : Type 0} → (ℕ → M → W → Bool × W) → Option ℕ → M → W → Bool × W
send deliver none message w = (false, w)
send deliver (some tx) message w = deliver tx message w
