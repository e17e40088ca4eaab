-- ===== src/Connlimit/Firewall.antt =====
-- src/connlimit.rs: the commands that install and remove the rules of a policy. Programs, clock and
-- files are the world `W`, reached by the calls of `Host`.
use Prim.Native.Char.{code}
use Prim.Native.String.{String}
use runman_agent.Prelude.{
  ℕ, zero, suc, Bool, true, false, not, Option, none, some, List, [], ◌∷◌, ◌++◌, ◌==◌,
  if◌then◌else◌, str_eq,
}
use runman_agent.Prelude.Effect.{Result, ok, err, is_ok, Exec, ◌>>=◌, ◌>>◌, pure, bail, continue}
use runman_agent.Model.{starts_with}
use runman_agent.Connlimit.Policy.{
  Error, spawn_failed, command_failed, unowned_chain, invalid_stored_address, out_of_fuel, Policy,
  IpAddr, Texts, is_ipv6, rule_args,
}
pub mod Effects
pub mod Untouched

-- The calls of `save_state`, in the directory of the file of policies.
pub data FsCall : Type 0 where
  create_dir_all set_dir_mode : FsCall
  create_new set_file_mode sync_all rename : String → FsCall
  write_all : String → List Policy → FsCall

pub record Host (W : Type 0) : Type 0 where
  -- `Command::output`: nothing if the program does not start, else its success and standard output.
  pub run : String → List String → W → Option (Bool × String) × W
  pub clock : W → ℕ × W
  pub file_call : FsCall → W → Bool × W
  -- `uuid::Uuid::new_v4`, in a file name
  pub new_temp : W → String × W

abbrev pub chain : String
chain = "RUNMAN_RS_CLIMIT"

abbrev pub chain_marker : String
chain_marker = "runman-agent-rs-v2"

unfoldable pub contains : String → String → Bool
unfolding starts_with
contains String.[] p = starts_with "" p
contains (String.◌∷◌ c s) p = if starts_with (String.◌∷◌ c s) p then true else contains s p

abbrev pub tool_for : IpAddr → String
tool_for ip = if is_ipv6 ip then "ip6tables" else "iptables"

-- The arguments that come before those of every call.
abbrev pub full : List String → List String
full args = "-w" ∷ "5" ∷ "-t" ∷ "filter" ∷ args

abbrev pub output_of : Option (Bool × String) → Result Error String
output_of none = err spawn_failed
output_of (some (true, out)) = ok out
output_of (some (false, out)) = err command_failed

abbrev pub check_rule : List String → List String
check_rule args = "-C" ∷ chain ∷ args

abbrev pub insert_rule : List String → List String
insert_rule args = "-I" ∷ chain ∷ "1" ∷ args

abbrev pub delete_rule : List String → List String
delete_rule args = "-D" ∷ chain ∷ args

abbrev pub jump_rule : List String
jump_rule = "FORWARD" ∷ "-j" ∷ chain ∷ []

module _ {W : Type 0} (host : Host W) where
  unfoldable pub command_output : String → List String → Exec Error W String
  command_output tool args w = let (o, w1) = host.run tool (full args) w in (output_of o, w1)

  unfoldable pub command : String → List String → Exec Error W Unit
  unfolding command_output
  command tool args = do _ ← command_output tool args; pure tt

  -- Goes on with the answer of a call whose failure is no error.
  abbrev pub attempt :
      {A B : Type 0} → Exec Error W A → (Result Error A → Exec Error W B) → Exec Error W B
  attempt m f w = let (r, w1) = m w in f r w1

  unfoldable pub create_chain : String → Exec Error W Unit
  unfolding command
  create_chain tool = do
    command tool ("-N" ∷ chain ∷ [])
    command tool
        ("-A" ∷ chain ∷ "-m" ∷ "comment" ∷ "--comment" ∷ chain_marker ∷ "-j" ∷ "RETURN" ∷ [])

  -- The chain of one tool exists and is ours.
  unfoldable pub own_chain : String → Exec Error W Unit
  unfolding command_output create_chain contains
  own_chain tool = attempt (command_output tool ("-S" ∷ chain ∷ [])) λ state. elim state [
    | err e ↦ create_chain tool
    | ok out ↦ if not (contains out chain_marker) then bail unowned_chain else pure tt
  ]

  unfoldable pub ensure_jump : String → Exec Error W Unit
  unfolding command
  ensure_jump tool = attempt (command tool ("-C" ∷ jump_rule)) λ jump. elim jump [
    | err e ↦ command tool ("-I" ∷ "FORWARD" ∷ "1" ∷ "-j" ∷ chain ∷ [])
    | ok u ↦ pure tt
  ]

  unfoldable pub ensure_chain : Exec Error W Unit
  unfolding own_chain ensure_jump
  ensure_chain = do
    own_chain "iptables"
    ensure_jump "iptables"
    own_chain "ip6tables"
    ensure_jump "ip6tables"

  -- A rule is inserted unless it is found.
  unfoldable pub install_rule : String → List String → Exec Error W Unit
  unfolding command
  install_rule tool args =
      attempt (command tool (check_rule args))
        λ found. elim found [ ok u ↦ pure tt | err e ↦ command tool (insert_rule args) ]

  -- `while command(check).is_ok() { command(delete)?; }`
  unfoldable pub delete_while : String → List String → List String → ℕ → Exec Error W Unit
  unfolding command
  delete_while tool check delete zero = bail out_of_fuel
  delete_while tool check delete (suc n) = attempt (command tool check) λ found. elim found [
    | err e ↦ pure tt
    | ok u ↦ do command tool delete; delete_while tool check delete n
  ]

  module _ (texts : Texts) (bridge : String) (policy : Policy) where
    unfoldable pub install_ips : List String → Exec Error W Unit
    unfolding install_rule
    install_ips [] = pure tt
    install_ips (raw ∷ ips) = elim (texts.parse_ip raw) [
      | none ↦ bail invalid_stored_address
      | some ip ↦ do
        install_rule (tool_for ip) (rule_args texts bridge policy ip false)
        install_rule (tool_for ip) (rule_args texts bridge policy ip true)
        install_ips ips
    ]

    unfoldable pub install_rules : Exec Error W Unit
    unfolding ensure_chain install_ips
    install_rules = do ensure_chain; install_ips policy.ips

    abbrev pub remove_rule : ℕ → String → List String → Exec Error W Unit
    unfolding delete_while
    remove_rule fuel tool args = delete_while tool (check_rule args) (delete_rule args) fuel

    unfoldable pub remove_ips : ℕ → List String → Exec Error W Unit
    unfolding delete_while
    remove_ips fuel [] = pure tt
    remove_ips fuel (raw ∷ ips) = elim (texts.parse_ip raw) [
      | none ↦ remove_ips fuel ips
      | some ip ↦ do
        remove_rule fuel (tool_for ip) (rule_args texts bridge policy ip false)
        remove_rule fuel (tool_for ip) (rule_args texts bridge policy ip true)
        remove_ips fuel ips
    ]

    unfoldable pub remove_rules : ℕ → Exec Error W Unit
    unfolding remove_ips
    remove_rules fuel = remove_ips fuel policy.ips

  unfoldable pub delete_chain : ℕ → String → Exec Error W Unit
  unfolding command_output contains delete_while
  delete_chain fuel tool = attempt (command_output tool ("-S" ∷ chain ∷ [])) λ existing.
      elim existing [
        | err e ↦ pure tt
        | ok out ↦ if not (contains out chain_marker) then pure tt else (do
          delete_while tool ("-C" ∷ jump_rule) ("-D" ∷ jump_rule) fuel
          command tool ("-F" ∷ chain ∷ [])
          command tool ("-X" ∷ chain ∷ []))
      ]

  unfoldable pub cleanup_chain_if_empty : ℕ → List Policy → Exec Error W Unit
  unfolding delete_chain
  cleanup_chain_if_empty fuel [] = do delete_chain fuel "iptables"; delete_chain fuel "ip6tables"
  cleanup_chain_if_empty fuel (p ∷ policies) = pure tt
