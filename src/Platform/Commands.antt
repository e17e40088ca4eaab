-- ===== src/Platform/Commands.antt =====
-- src/platform/commands.rs: the commands of the platform, the cache of their replies and the tasks that
-- run them. The services are the state `W`.
use runman_agent.Prelude.{
  ℕ, suc, ◌-◌, String, Bool, true, false, not, Option, none, some, List, [], ◌∷◌, map, ltb, leb,
  ◌++◌, ◌≡◌, if◌then◌else◌, str_eq, length, find, retain,
}
use runman_agent.Prelude.Int.{ℤ}
use runman_agent.Prelude.Effect.{
  Result, ok, err, is_ok, Exec, ◌>>=◌, ◌>>◌, bail, lift, pure, continue,
}
use runman_agent.Model.{
  Error, unsupported_command, empty_command, InstanceSpec, SpecRequest, ForwardRequest, PortForward,
  PortForwardEntry, validate_password, build, parse_vm_id, parse_forward, from_proto, port,
  to_entry, is_empty,
}
use runman_agent.Forwards.{PortForwards, ensure_ssh_forward}
pub mod Running
pub mod Replies
pub mod Later

-- `Payload` of `PlatformEnvelope`; the fields of messages that are no commands are left out.
pub data Down : Type 0 where
  create_vm reinstall_vm : SpecRequest → Down
  start_vm restart_vm delete_vm get_port_fwds : String → Down
  stop_vm : String → Bool → Down
  reset_password : String → String → Down
  set_port_fwd : ForwardRequest → Down
  del_port_fwd : String → ℤ → ℤ → Down
  ping console_open console_input console_resize console_close wg_sync_response : Down

-- The replies: `CommandResult` and `PortForwardList`.
pub data Up : Type 0 where
  cmd_result : String → Bool → String → Up
  port_fwd_list : String → List PortForwardEntry → Up

-- The part of the trait `Instances` that commands call.
pub record Instances (W : Type 0) : Type 0 where
  pub create : InstanceSpec → Exec Error W Unit
  pub reinstall : InstanceSpec → Exec Error W Unit
  pub start : String → Exec Error W Unit
  pub stop : String → Bool → Exec Error W Unit
  pub restart : String → Exec Error W Unit
  pub delete : String → Exec Error W Unit
  pub reset_password : String → String → Exec Error W Unit

-- The services, the link to the platform, and the texts of errors and identifiers.
pub record Services (W : Type 0) : Type 0 where
  pub instances : Instances W
  pub port_forwards : PortForwards W
  pub send : Up → W → Bool × W
  pub parse_uuid : String → Option String
  pub show_error : Error → String

-- A reply is kept with the time at which it was ready.
pub data Entry : Type 0 where
  running : Entry
  done : Up → ℕ → Entry

abbrev pub result_ttl : ℕ
result_ttl = 3600

abbrev pub cache_soft_limit : ℕ
cache_soft_limit = 1024

abbrev pub Cache : Type 0
Cache = List (String × Entry)

unfoldable pub lookup : String → Cache → Option Entry
lookup id [] = none
lookup id ((k, e) ∷ cache) = if str_eq k id then some e else lookup id cache

unfoldable pub insert : String → Entry → Cache → Cache
insert id e cache = (id, e) ∷ retain (λ kept. not (str_eq kept.0 id)) cache

abbrev pub is_fresh : ℕ → String × Entry → Bool
is_fresh now (k, running) = true
is_fresh now (k, done reply at) = ltb (now - at) result_ttl

unfoldable pub prune : ℕ → Cache → Cache
prune now cache = if leb cache_soft_limit (length cache) then retain (is_fresh now) cache else cache

unfoldable pub kind_name : Down → String
kind_name (create_vm c) = "create_vm"
kind_name (start_vm id) = "start_vm"
kind_name (stop_vm id force) = "stop_vm"
kind_name (restart_vm id) = "restart_vm"
kind_name (delete_vm id) = "delete_vm"
kind_name (reinstall_vm c) = "reinstall_vm"
kind_name (reset_password id password) = "reset_password"
kind_name (set_port_fwd c) = "set_port_fwd"
kind_name (del_port_fwd id protocol host_port) = "del_port_fwd"
kind_name (get_port_fwds id) = "get_port_fwds"
kind_name ping = "ping"
kind_name console_open = "console_open"
kind_name console_input = "console_input"
kind_name console_resize = "console_resize"
kind_name console_close = "console_close"
kind_name wg_sync_response = "wg_sync_response"

module _ {W : Type 0} (s : Services W) where
  -- `ensure_ssh_forward` reports no error.
  unfoldable pub with_ssh : String → Exec Error W Unit
  unfolding ensure_ssh_forward
  with_ssh id w = (ok tt, (ensure_ssh_forward s.port_forwards id w).1)

  abbrev unsupported : Down → Exec Error W Unit
  unfolding kind_name
  unsupported other = bail (unsupported_command (kind_name other))

  -- The lock of the instance makes the calls of a command one step.
  unfoldable pub run : Option Down → Exec Error W Unit
  unfolding build with_ssh parse_vm_id validate_password parse_forward from_proto port unsupported
  run (some (create_vm c)) = do
    spec ← lift (build s.parse_uuid c)
    s.instances.create spec
    with_ssh spec.vm_id
  run (some (reinstall_vm c)) = do
    spec ← lift (build s.parse_uuid c)
    s.instances.reinstall spec
    with_ssh spec.vm_id
  run (some (start_vm vm_id)) = do id ← lift (parse_vm_id s.parse_uuid vm_id); s.instances.start id
  run (some (stop_vm vm_id force)) = do
    id ← lift (parse_vm_id s.parse_uuid vm_id)
    s.instances.stop id force
  run (some (restart_vm vm_id)) = do
    id ← lift (parse_vm_id s.parse_uuid vm_id)
    s.instances.restart id
  run (some (delete_vm vm_id)) = do
    id ← lift (parse_vm_id s.parse_uuid vm_id)
    s.instances.delete id
    s.port_forwards.remove_all id
  run (some (reset_password vm_id password)) = do
    id ← lift (parse_vm_id s.parse_uuid vm_id)
    lift (validate_password password)
    s.instances.reset_password id password
  run (some (set_port_fwd c)) = do
    rule ← lift (parse_forward s.parse_uuid c)
    s.port_forwards.add rule
  run (some (del_port_fwd vm_id protocol host_port)) = do
    id ← lift (parse_vm_id s.parse_uuid vm_id)
    proto ← lift (from_proto protocol)
    p ← lift (port host_port "host_port")
    s.port_forwards.remove id proto p
  run (some (get_port_fwds id)) = unsupported (get_port_fwds id)
  run (some ping) = unsupported ping
  run (some console_open) = unsupported console_open
  run (some console_input) = unsupported console_input
  run (some console_resize) = unsupported console_resize
  run (some console_close) = unsupported console_close
  run (some wg_sync_response) = unsupported wg_sync_response
  run none = bail empty_command

  unfoldable pub result : String → Result Error Unit → Up
  result command_id (ok u) = cmd_result command_id true ""
  result command_id (err e) = cmd_result command_id false (s.show_error e)

  unfoldable pub list_port_forwards : String → Exec Error W (List PortForwardEntry)
  unfolding parse_vm_id
  list_port_forwards vm_id = do
    id ← lift (parse_vm_id s.parse_uuid vm_id)
    rules ← s.port_forwards.list (some id)
    pure (map to_entry rules)

  abbrev run_command : String → Option Down → W → Up × W
  unfolding run result
  run_command command_id payload w = let (r, w1) = run payload w in (result command_id r, w1)

  abbrev list_reply : String → Result Error (List PortForwardEntry) → Up
  unfolding result
  list_reply command_id (ok entries) = port_fwd_list command_id entries
  list_reply command_id (err e) = result command_id (err e)

  unfoldable pub execute : String → Option Down → W → Up × W
  unfolding run_command list_reply list_port_forwards
  execute command_id (some (get_port_fwds vm_id)) w =
      let (r, w1) = list_port_forwards vm_id w in (list_reply command_id r, w1)
  execute command_id payload w = run_command command_id payload w

-- `CommandRunner`: the cache, the commands that were spawned and have not ended, and the services.
pub record Runner (W : Type 0) : Type 0 where
  pub cache : Cache
  pub tasks : List (String × Option Down)
  pub world : W

module _ {W : Type 0} (s : Services W) where
  -- What `submit` does when a command arrives at the time `now`.
  unfoldable pub submit : String → Option Down → ℕ → Runner W → Runner W
  unfolding lookup insert prune
  submit id payload now r =
      let spawned : Runner W = record r { tasks = (id, payload) ∷ r.tasks } in
      if is_empty id then spawned else elim (lookup id r.cache) [
        | some e ↦ elim e [
          | running ↦ r
          | done reply at ↦ record r { world = (s.send reply r.world).1 }
        ]
        | none ↦ record spawned { cache = insert id running (prune now r.cache) }
      ]

  -- The end of the spawned task: the other tasks stay, its reply is kept and sent.
  unfoldable pub finish :
      String → Option Down → List (String × Option Down) → ℕ → Runner W → Runner W
  unfolding execute insert
  finish id payload others now r =
      let (reply, w) = execute s id payload r.world in
      record {
        cache = if is_empty id then r.cache else insert id (done reply now) r.cache;
        tasks = others;
        world = (s.send reply w).1;
      }

  -- Commands arrive, and tasks end in any order.
  pub data Step : Runner W → Runner W → Type 0 where
    arrives :
        (id : String) (payload : Option Down) (now : ℕ) (r : Runner W)
        → Step r (submit id payload now r)
    ends :
        (id : String) (payload : Option Down) (before after : List (String × Option Down)) (now : ℕ)
        (r : Runner W)
        → r.tasks ≡ before ++ (id, payload) ∷ after
        → Step r (finish id payload (before ++ after) now r)

  pub data Reachable : Runner W → Type 0 where
    starts : (w : W) → Reachable (record { cache = []; tasks = []; world = w })
    steps : (r q : Runner W) → Reachable r → Step r q → Reachable q
