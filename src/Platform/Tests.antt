-- ===== src/Platform/Tests.antt =====
-- Tests of the models of src/platform, on services that count the calls of instances and keep what
-- is sent.
use runman_agent.Prelude.{
  ℕ, suc, ◌≤◌, ◌≡◌, refl, true, false, Option, some, none, List, [], ◌∷◌, retain, arith, inl,
  if◌then◌else◌,
}
use runman_agent.Prelude.Effect.{ok, Exec}
use runman_agent.Model.{Error}
use runman_agent.Forwards.{PortForwards}
use runman_agent.Platform.Commands.{
  Down, start_vm, Up, Instances, Services, Runner, lookup, insert, submit, finish, execute, arrives,
  Reachable, starts, steps,
}
use runman_agent.Platform.Commands.Running.{task_count, is_running, Reachable-task_count}
use runman_agent.Platform.Commands.Later.{Later, stay, arrive, finish-submit}
use runman_agent.Platform.Session.{default_timing, Turn, standalone, session, delay_after}
use runman_agent.Platform.Session.Backoff.{delay_after-bounds}

record World : Type 0 where
  calls : ℕ
  sent : List Up

abbrev call : Exec Error World Unit
call w = (ok tt, record w { calls = suc w.calls })

abbrev instances : Instances World
instances = record {
  create = λ spec. call;
  reinstall = λ spec. call;
  start = λ id. call;
  stop = λ id force. call;
  restart = λ id. call;
  delete = λ id. call;
  reset_password = λ id password. call;
}

abbrev port_forwards : PortForwards World
port_forwards = record {
  add = λ rule w. (ok tt, w);
  remove = λ id proto host_port w. (ok tt, w);
  list = λ id w. (ok [], w);
  remove_all = λ id w. (ok tt, w);
  free_port = λ w. (ok 20000, w);
}

abbrev services : Services World
services = record {
  instances = instances;
  port_forwards = port_forwards;
  send = λ reply w. (true, record w { sent = reply ∷ w.sent });
  parse_uuid = λ text. some text;
  show_error = λ e. "failed";
}

abbrev start : Option Down
start = some (start_vm "a")

abbrev at_start : Runner World
at_start = record { cache = []; tasks = []; world = record { calls = 0; sent = [] } }

abbrev waiting : Runner World
waiting = submit services "c1" start 10 at_start

abbrev ended : Runner World
ended = finish services "c1" start [] 12 waiting

one_task : waiting.tasks ≡ ("c1", start) ∷ []
unfolding submit lookup
one_task = refl

ran_once : ended.world.calls ≡ 1
unfolding finish submit lookup execute
ran_once = refl

waiting-Reachable : Reachable services waiting
waiting-Reachable =
    steps at_start waiting (starts (record { calls = 0; sent = [] }))
      (arrives "c1" start 10 at_start)

Reachable-task_count_example :
    task_count "c1" waiting.tasks ≡ (if is_running (lookup "c1" waiting.cache) then 1 else 0)
Reachable-task_count_example = Reachable-task_count services waiting waiting-Reachable "c1" refl

-- Another command arrives, and a replay of the first after it.
abbrev busy : Runner World
busy = submit services "c2" start 20 ended

ended-Later : Later services 12 ended busy
unfolding finish submit lookup insert retain
ended-Later = arrive "c2" start 20 ended ended (stay ended) (inl refl)

busy_calls : busy.tasks ≡ ("c2", start) ∷ []
unfolding finish submit lookup insert retain
busy_calls = refl

finish-submit_example : submit services "c1" none 50 busy ≡ record busy {
  world = (services.send (execute services "c1" start waiting.world).0 busy.world).1;
}
finish-submit_example =
    finish-submit services "c1" start none [] [] 12 50 waiting busy waiting-Reachable one_task refl
      ended-Later

abbrev turns : List Turn
turns = session false false ∷ standalone ∷ session true false ∷ []

delay_after-bounds_example :
    (5 ≤ delay_after default_timing 40 turns) × (delay_after default_timing 40 turns ≤ 300)
delay_after-bounds_example =
    delay_after-bounds default_timing (omega arith) turns 40 (omega arith) (omega arith)
