-- ===== src/HostPolicy/Abuse.antt =====
-- src/hostpolicy.rs: the firewall chain of the rules against abuse by containers.
use Prim.Native.Char.{code}
use runman_agent.Prelude.{
  ℕ, zero, suc, String, Bool, true, false, not, ◌&&◌, ◌||◌, Option, none, some, List, [], ◌∷◌, ◌++◌,
  ◌==◌, if◌then◌else◌, str_eq,
}
use runman_agent.Prelude.Effect.{Result, ok, err, is_ok, Exec, ◌>>=◌, ◌>>◌, pure, bail, continue}
use runman_agent.Connlimit.Firewall.{contains}
use runman_agent.HostPolicy.{
  Error, spawn_failed, command_failed, unowned_chain, out_of_fuel, not_a_bridge, AbusePolicy, Host,
}
use runman_agent.HostPolicy.Text.{trim}
pub mod OwnChain

abbrev pub abuse_chain : String
abuse_chain = "RUNMAN_RS_RFW_ABUSE"

abbrev pub abuse_marker : String
abuse_marker = "runman-agent-rs-v2-abuse"

abbrev pub full : List String → List String
full args = "-w" ∷ "5" ∷ "-t" ∷ "filter" ∷ args

abbrev output_of : Option (Bool × String) → Result Error String
output_of none = err spawn_failed
output_of (some (true, out)) = ok out
output_of (some (false, out)) = err command_failed

abbrev pub jump : List String
jump = "FORWARD" ∷ "-j" ∷ abuse_chain ∷ []

abbrev pub marker_rule : List String
marker_rule =
    "-A" ∷ abuse_chain ∷ "-m" ∷ "comment" ∷ "--comment" ∷ abuse_marker ∷ "-j" ∷ "RETURN" ∷ []

abbrev reject : List String
reject = "-j" ∷ "REJECT" ∷ "--reject-with" ∷ "tcp-reset" ∷ []

abbrev drop_rule : List String
drop_rule = "-j" ∷ "DROP" ∷ []

abbrev mining_ports : String
mining_ports = "3333,4444,5555,6666,7777,8888,9999,14433,14444"

abbrev pub speedtest_rules : List (List String)
speedtest_rules =
    ("-p" ∷ "tcp" ∷ "--dport" ∷ "5201" ∷ reject)
    ∷ ("-p" ∷ "udp" ∷ "--dport" ∷ "5201" ∷ drop_rule)
    ∷ []

abbrev pub mining_rules : List (List String)
mining_rules = ("-p" ∷ "tcp" ∷ "-m" ∷ "multiport" ∷ "--dports" ∷ mining_ports ∷ reject) ∷ []

-- A comma in the ports makes it a rule of several ports.
unfoldable pub bt_rule : String → String → List String
unfolding contains
bt_rule protocol ports =
    if contains ports ","
    then "-p" ∷ protocol ∷ "-m" ∷ "multiport" ∷ "--dports" ∷ ports ∷ drop_rule
    else "-p" ∷ protocol ∷ "--dport" ∷ ports ∷ drop_rule

unfoldable pub bt_rules_of : String → List String → List (List String)
unfolding bt_rule
bt_rules_of protocol [] = []
bt_rules_of protocol (ports ∷ rest) = bt_rule protocol ports ∷ bt_rules_of protocol rest

abbrev bt_ports : List String
bt_ports = "6881:6889" ∷ "6969" ∷ "51413" ∷ "4662,4672" ∷ []

abbrev pub bt_rules : List (List String)
bt_rules = bt_rules_of "tcp" bt_ports ++ bt_rules_of "udp" bt_ports

abbrev pub is_enabled : AbusePolicy → Bool
is_enabled policy = policy.speedtest || policy.mining || policy.bt

-- The rules of one interface, in the order of their insertion.
unfoldable pub abuse_rules : AbusePolicy → List (List String)
unfolding bt_rules_of
abuse_rules policy =
    (if policy.speedtest then speedtest_rules else [])
    ++ (if policy.mining then mining_rules else [])
    ++ (if policy.bt then bt_rules else [])

abbrev pub nothing_enabled : AbusePolicy
nothing_enabled = record { speedtest = false; mining = false; bt = false; interfaces = [] }

module _ {W : Type 0} (host : Host W) where
  unfoldable pub fw_output : String → List String → Exec Error W String
  fw_output tool args w = let (o, w1) = host.run tool (full args) w in (output_of o, w1)

  unfoldable pub fw_command : String → List String → Exec Error W Unit
  unfolding fw_output
  fw_command tool args = do _ ← fw_output tool args; pure tt

  -- Goes on with the answer of a call whose failure is no error.
  abbrev pub attempt :
      {A B : Type 0} → Exec Error W A → (Result Error A → Exec Error W B) → Exec Error W B
  attempt m f w = let (r, w1) = m w in f r w1

  -- `while fw_command(check).is_ok() { fw_command(delete)?; }`
  unfoldable pub delete_jumps : String → ℕ → Exec Error W Unit
  unfolding fw_command
  delete_jumps tool zero = bail out_of_fuel
  delete_jumps tool (suc n) = attempt (fw_command tool ("-C" ∷ jump)) λ found.
      if is_ok found then (do fw_command tool ("-D" ∷ jump); delete_jumps tool n) else pure tt

  unfoldable pub insert_abuse : String → String → List (List String) → Exec Error W Unit
  unfolding fw_command
  insert_abuse tool iface [] = pure tt
  insert_abuse tool iface (rule ∷ rules) = do
    fw_command tool ("-I" ∷ abuse_chain ∷ "1" ∷ "-i" ∷ iface ∷ rule)
    insert_abuse tool iface rules

  unfoldable pub insert_interfaces : String → List (List String) → List String → Exec Error W Unit
  unfolding insert_abuse
  insert_interfaces tool rules [] = pure tt
  insert_interfaces tool rules (iface ∷ ifaces) = do
    insert_abuse tool iface rules
    insert_interfaces tool rules ifaces

  -- The chain is there and holds its marker alone.
  unfoldable pub empty_chain : String → Bool → Exec Error W Unit
  unfolding fw_command
  empty_chain tool exists = do
    if exists
        then fw_command tool ("-F" ∷ abuse_chain ∷ [])
        else fw_command tool ("-N" ∷ abuse_chain ∷ [])
    fw_command tool marker_rule

  unfoldable pub ensure_jump : String → Exec Error W Unit
  unfolding fw_command
  ensure_jump tool = attempt (fw_command tool ("-C" ∷ jump)) λ found.
      if not (is_ok found)
      then fw_command tool ("-I" ∷ "FORWARD" ∷ "1" ∷ "-j" ∷ abuse_chain ∷ [])
      else pure tt

  unfoldable pub enable_abuse : String → AbusePolicy → Bool → Exec Error W Unit
  unfolding empty_chain insert_interfaces abuse_rules ensure_jump
  enable_abuse tool policy exists = do
    empty_chain tool exists
    insert_interfaces tool (abuse_rules policy) policy.interfaces
    ensure_jump tool

  unfoldable pub disable_abuse : ℕ → String → Bool → Exec Error W Unit
  unfolding fw_command delete_jumps
  disable_abuse fuel tool exists = if not exists then pure tt else (do
    delete_jumps tool fuel
    fw_command tool ("-F" ∷ abuse_chain ∷ [])
    fw_command tool ("-X" ∷ abuse_chain ∷ []))

  abbrev pub is_unowned : Result Error String → Bool
  is_unowned (ok lines) = not (contains lines abuse_marker)
  is_unowned (err e) = false

  unfoldable pub apply_abuse_family : ℕ → String → AbusePolicy → Exec Error W Unit
  unfolding fw_output contains enable_abuse disable_abuse
  apply_abuse_family fuel tool policy =
      attempt (fw_output tool ("-S" ∷ abuse_chain ∷ [])) λ existing.
        if is_unowned existing
        then bail unowned_chain
        else if not (is_enabled policy)
        then disable_abuse fuel tool (is_ok existing)
        else enable_abuse tool policy (is_ok existing)

  unfoldable pub read_ipv6 : Exec Error W (Option String)
  read_ipv6 w = let (f, w1) = host.disable_ipv6 w in (ok f, w1)

  -- The file is read, and does not say 1.
  abbrev pub has_ipv6 : Option String → Bool
  has_ipv6 none = false
  has_ipv6 (some s) = not (str_eq (trim s) "1")

  unfoldable pub apply_abuse : ℕ → AbusePolicy → Exec Error W Unit
  unfolding apply_abuse_family trim read_ipv6
  apply_abuse fuel policy = do
    apply_abuse_family fuel "iptables" policy
    file ← read_ipv6
    if has_ipv6 file then apply_abuse_family fuel "ip6tables" policy else pure tt

  unfoldable pub check_bridges : List String → Exec Error W Unit
  check_bridges [] w = (ok tt, w)
  check_bridges (iface ∷ ifaces) w =
      let (there, w1) = host.is_bridge iface w in
      if there then check_bridges ifaces w1 else (err not_a_bridge, w1)

  unfoldable pub verify_bridges : AbusePolicy → Exec Error W Unit
  unfolding check_bridges
  verify_bridges policy =
      if not (is_enabled policy) then pure tt else check_bridges policy.interfaces
