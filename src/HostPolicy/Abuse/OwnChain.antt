-- ===== src/HostPolicy/Abuse/OwnChain.antt =====
-- src/hostpolicy.rs: the firewall commands of `apply_abuse` are about its own chain.
use runman_agent.Prelude.{ℕ, zero, suc, String, Bool, not, List, [], ◌∷◌}
use runman_agent.Prelude.Effect.{
  Result, ok, is_ok, Exec, Keeps, Keeps-then, Keeps-if, Keeps-bail, Keeps-lift,
}
use runman_agent.HostPolicy.{Error, unowned_chain, out_of_fuel, AbusePolicy, Host}
use runman_agent.HostPolicy.Abuse.{
  abuse_chain, full, jump, marker_rule, is_enabled, abuse_rules, fw_output, fw_command, attempt,
  delete_jumps, insert_abuse, insert_interfaces, empty_chain, ensure_jump, enable_abuse,
  disable_abuse, is_unowned, apply_abuse_family, read_ipv6, has_ipv6, apply_abuse,
}

-- A command about the chain of the agent, or about the jump to it.
pub data IsOwn : List String → Type 0 where
  about_chain : (op : String) (rest : List String) → IsOwn (op ∷ abuse_chain ∷ rest)
  about_jump : (op : String) → IsOwn (op ∷ jump)
  first_jump : IsOwn ("-I" ∷ "FORWARD" ∷ "1" ∷ "-j" ∷ abuse_chain ∷ [])

-- A property of the machine is kept by the commands about the chain, and by reading the file.
pub record KeptByOwn {W : Type 0} (host : Host W) (P : W → Type 0) : Type 0 where
  pub run_kept :
      (tool : String) (args : List String) (w : W)
      → IsOwn args
      → P w
      → P (host.run tool (full args) w).1
  pub read_kept : (w : W) → P w → P (host.disable_ipv6 w).1

module _ {W : Type 0} (host : Host W) {P : W → Type 0} (own : KeptByOwn host P) where
  output-kept :
      (tool : String) (args : List String) → IsOwn args → Keeps P (fw_output host tool args)
  unfolding fw_output
  output-kept tool args o = record { keep = λ w p. own.run_kept tool args w o p }

  command-kept :
      (tool : String) (args : List String) → IsOwn args → Keeps P (fw_command host tool args)
  unfolding fw_command
  command-kept tool args o = Keeps-then (output-kept tool args o) λ _. Keeps-lift (ok tt)

  attempt-kept :
      {A B : Type 0} {m : Exec Error W A} {f : Result Error A → Exec Error W B}
      → Keeps P m
      → ((r : Result Error A) → Keeps P (f r))
      → Keeps P (attempt host m f)
  attempt-kept {m} k h = record { keep = λ w p. (h (m w).0).keep (m w).1 (k.keep w p) }

  delete_jumps-kept : (tool : String) (fuel : ℕ) → Keeps P (delete_jumps host tool fuel)
  unfolding delete_jumps
  delete_jumps-kept tool zero = Keeps-bail out_of_fuel
  delete_jumps-kept tool (suc n) =
      attempt-kept (command-kept tool ("-C" ∷ jump) (about_jump "-C")) λ found.
        Keeps-if (is_ok found)
          (Keeps-then (command-kept tool ("-D" ∷ jump) (about_jump "-D"))
            λ _. delete_jumps-kept tool n)
          (Keeps-lift (ok tt))

  insert_abuse-kept :
      (tool iface : String) (rules : List (List String))
      → Keeps P (insert_abuse host tool iface rules)
  unfolding insert_abuse
  insert_abuse-kept tool iface [] = Keeps-lift (ok tt)
  insert_abuse-kept tool iface (rule ∷ rules) =
      Keeps-then (command-kept tool _ (about_chain "-I" ("1" ∷ "-i" ∷ iface ∷ rule)))
        λ _. insert_abuse-kept tool iface rules

  insert_interfaces-kept :
      (tool : String) (rules : List (List String)) (ifaces : List String)
      → Keeps P (insert_interfaces host tool rules ifaces)
  unfolding insert_interfaces
  insert_interfaces-kept tool rules [] = Keeps-lift (ok tt)
  insert_interfaces-kept tool rules (iface ∷ ifaces) =
      Keeps-then (insert_abuse-kept tool iface rules) λ _. insert_interfaces-kept tool rules ifaces

  empty_chain-kept : (tool : String) (exists : Bool) → Keeps P (empty_chain host tool exists)
  unfolding empty_chain
  empty_chain-kept tool exists =
      Keeps-then
        (Keeps-if exists (command-kept tool _ (about_chain "-F" []))
          (command-kept tool _ (about_chain "-N" [])))
        λ _. command-kept tool marker_rule (about_chain "-A" _)

  ensure_jump-kept : (tool : String) → Keeps P (ensure_jump host tool)
  unfolding ensure_jump
  ensure_jump-kept tool =
      attempt-kept (command-kept tool ("-C" ∷ jump) (about_jump "-C"))
        λ found. Keeps-if (not (is_ok found)) (command-kept tool _ first_jump) (Keeps-lift (ok tt))

  enable_abuse-kept :
      (tool : String) (policy : AbusePolicy) (exists : Bool)
      → Keeps P (enable_abuse host tool policy exists)
  unfolding enable_abuse
  enable_abuse-kept tool policy exists = Keeps-then (empty_chain-kept tool exists) λ _.
      Keeps-then (insert_interfaces-kept tool (abuse_rules policy) policy.interfaces)
        λ _. ensure_jump-kept tool

  disable_abuse-kept :
      (fuel : ℕ) (tool : String) (exists : Bool) → Keeps P (disable_abuse host fuel tool exists)
  unfolding disable_abuse
  disable_abuse-kept fuel tool exists = Keeps-if (not exists) (Keeps-lift (ok tt)) (
      Keeps-then (delete_jumps-kept tool fuel) λ _.
        Keeps-then (command-kept tool _ (about_chain "-F" []))
          λ _. command-kept tool _ (about_chain "-X" []))

  family-kept :
      (fuel : ℕ) (tool : String) (policy : AbusePolicy)
      → Keeps P (apply_abuse_family host fuel tool policy)
  unfolding apply_abuse_family
  family-kept fuel tool policy = attempt-kept (output-kept tool _ (about_chain "-S" [])) λ existing.
      Keeps-if (is_unowned host existing) (Keeps-bail unowned_chain) (
        Keeps-if (not (is_enabled policy)) (disable_abuse-kept fuel tool (is_ok existing))
          (enable_abuse-kept tool policy (is_ok existing)))

  read_ipv6-kept : Keeps P (read_ipv6 host)
  unfolding read_ipv6
  read_ipv6-kept = record { keep = λ w p. own.read_kept w p }

  -- A property of the machine that is kept by the commands about the chain of the agent and about the
  -- jump to it is kept by `apply_abuse`, whatever it returns: it runs no other command.
  pub apply_abuse-kept :
      (fuel : ℕ) (policy : AbusePolicy) (w : W) → P w → P (apply_abuse host fuel policy w).1
  unfolding apply_abuse
  apply_abuse-kept fuel policy w p =
      (Keeps-then (family-kept fuel "iptables" policy) λ _. Keeps-then read_ipv6-kept λ file.
          Keeps-if (has_ipv6 host file) (family-kept fuel "ip6tables" policy)
            (Keeps-lift (ok tt))).keep
        w p
