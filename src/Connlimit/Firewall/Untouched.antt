-- ===== src/Connlimit/Firewall/Untouched.antt =====
-- src/connlimit.rs: what no command of the packet filter touches is kept by the operations on rules.
use runman_agent.Prelude.{
  ℕ, zero, suc, not, String, true, false, List, [], ◌∷◌, inl, inr, if◌then◌else◌, Option-cases,
}
use runman_agent.Prelude.Effect.{
  ok, err, Exec, Keeps, Keeps-then, Keeps-if, Keeps-bail, ◌>>◌, pure, bail, Result-cases,
}
use runman_agent.Connlimit.Policy.{Error, unowned_chain, out_of_fuel, Policy, Texts, rule_args}
use runman_agent.Connlimit.Firewall.{
  Host, contains, chain, chain_marker, jump_rule, full, check_rule, insert_rule, delete_rule,
  command_output, command, create_chain, own_chain, ensure_jump, ensure_chain, install_rule,
  delete_while, install_ips, install_rules, remove_ips, remove_rules, delete_chain,
  cleanup_chain_if_empty, tool_for, attempt,
}

module _ {W : Type 0} (host : Host W) (P : W → Type 0) where
  -- The programs keep `P`.
  abbrev pub RunKeeps : Type 0
  RunKeeps = (tool : String) (args : List String) (w : W) → P w → P (host.run tool args w).1

  module _ (kept : RunKeeps) where
    output-Keeps : (tool : String) (args : List String) → Keeps P (command_output host tool args)
    unfolding command_output
    output-Keeps tool args = record { keep = λ w p. kept tool (full args) w p }

    command-Keeps : (tool : String) (args : List String) → Keeps P (command host tool args)
    unfolding command
    command-Keeps tool args =
        Keeps-then {m = command_output host tool args} (output-Keeps tool args)
          λ _. record { keep = λ w p. p }

    -- Both ways to go on after the answer.
    attempt-Keeps :
        {A B : Type 0} (m : Exec Error W A) (f : A → Exec Error W B) (g : Error → Exec Error W B)
        → Keeps P m
        → ((a : A) → Keeps P (f a))
        → ((e : Error) → Keeps P (g e))
        → Keeps P (attempt host m λ r. elim r [ ok a ↦ f a | err e ↦ g e ])
    attempt-Keeps m f g k h l = record {
      keep = λ w p. elim (Result-cases (m w).0) [
        | inl (a, e) ↦ rw (attempt, e) ((h a).keep (m w).1 (k.keep w p))
        | inr (x, e) ↦ rw (attempt, e) ((l x).keep (m w).1 (k.keep w p))
      ];
    }

    pure-Keeps : Keeps {E = Error} P (pure tt)
    pure-Keeps = record { keep = λ w p. p }

    create_chain-Keeps : (tool : String) → Keeps P (create_chain host tool)
    unfolding create_chain
    create_chain-Keeps tool =
        Keeps-then {m = command host tool _} (command-Keeps tool _) λ _. command-Keeps tool _

    own_chain-Keeps : (tool : String) → Keeps P (own_chain host tool)
    unfolding own_chain
    own_chain-Keeps tool =
        attempt-Keeps (command_output host tool ("-S" ∷ chain ∷ []))
          (λ out. if not (contains out chain_marker) then bail unowned_chain else pure tt)
          (λ _. create_chain host tool) (output-Keeps tool _)
          (λ out. Keeps-if (not (contains out chain_marker)) (Keeps-bail unowned_chain) pure-Keeps)
          λ _. create_chain-Keeps tool

    ensure_jump-Keeps : (tool : String) → Keeps P (ensure_jump host tool)
    unfolding ensure_jump
    ensure_jump-Keeps tool =
        attempt-Keeps (command host tool ("-C" ∷ jump_rule)) (λ _. pure tt)
          (λ _. command host tool ("-I" ∷ "FORWARD" ∷ "1" ∷ "-j" ∷ chain ∷ []))
          (command-Keeps tool _) (λ _. pure-Keeps) λ _. command-Keeps tool _

    ensure_chain-Keeps : Keeps P (ensure_chain host)
    unfolding ensure_chain
    ensure_chain-Keeps =
        Keeps-then {m = own_chain host "iptables"} (own_chain-Keeps "iptables") λ _.
          Keeps-then {m = ensure_jump host "iptables"} (ensure_jump-Keeps "iptables") λ _.
            Keeps-then {m = own_chain host "ip6tables"} (own_chain-Keeps "ip6tables")
              λ _. ensure_jump-Keeps "ip6tables"

    install_rule-Keeps :
        (tool : String) (args : List String) → Keeps P (install_rule host tool args)
    unfolding install_rule
    install_rule-Keeps tool args =
        attempt-Keeps (command host tool (check_rule args)) (λ _. pure tt)
          (λ _. command host tool (insert_rule args)) (command-Keeps tool _) (λ _. pure-Keeps)
          λ _. command-Keeps tool _

    delete_while-Keeps :
        (tool : String) (check delete : List String) (n : ℕ)
        → Keeps P (delete_while host tool check delete n)
    unfolding delete_while
    delete_while-Keeps tool check delete zero = Keeps-bail out_of_fuel
    delete_while-Keeps tool check delete (suc n) =
        attempt-Keeps (command host tool check)
          (λ _. command host tool delete >> delete_while host tool check delete n) (λ _. pure tt)
          (command-Keeps tool check)
          (λ _.
            Keeps-then {m = command host tool delete} (command-Keeps tool delete)
              λ _. delete_while-Keeps tool check delete n)
          λ _. pure-Keeps

    abbrev emptied : ℕ → String → Exec Error W Unit
    emptied fuel tool = do
      delete_while host tool ("-C" ∷ jump_rule) ("-D" ∷ jump_rule) fuel
      command host tool ("-F" ∷ chain ∷ [])
      command host tool ("-X" ∷ chain ∷ [])

    emptied-Keeps : (fuel : ℕ) (tool : String) → Keeps P (emptied fuel tool)
    emptied-Keeps fuel tool =
        Keeps-then {m = delete_while host tool ("-C" ∷ jump_rule) ("-D" ∷ jump_rule) fuel}
          (delete_while-Keeps tool _ _ fuel)
          λ _.
            Keeps-then {m = command host tool ("-F" ∷ chain ∷ [])} (command-Keeps tool _)
              λ _. command-Keeps tool _

    delete_chain-Keeps : (fuel : ℕ) (tool : String) → Keeps P (delete_chain host fuel tool)
    unfolding delete_chain
    delete_chain-Keeps fuel tool =
        attempt-Keeps (command_output host tool ("-S" ∷ chain ∷ []))
          (λ out. if not (contains out chain_marker) then pure tt else emptied fuel tool)
          (λ _. pure tt) (output-Keeps tool _)
          (λ out. Keeps-if (not (contains out chain_marker)) pure-Keeps (emptied-Keeps fuel tool))
          λ _. pure-Keeps

    pub cleanup-Keeps :
        (fuel : ℕ) (ps : List Policy) → Keeps P (cleanup_chain_if_empty host fuel ps)
    unfolding cleanup_chain_if_empty
    cleanup-Keeps fuel [] =
        Keeps-then {m = delete_chain host fuel "iptables"} (delete_chain-Keeps fuel "iptables")
          λ _. delete_chain-Keeps fuel "ip6tables"
    cleanup-Keeps fuel (p ∷ ps) = pure-Keeps

    module _ (texts : Texts) (bridge : String) (policy : Policy) where
      install_ips-Keeps : (ips : List String) → Keeps P (install_ips host texts bridge policy ips)
      unfolding install_ips
      install_ips-Keeps [] = pure-Keeps
      install_ips-Keeps (raw ∷ ips) = elim (Option-cases (texts.parse_ip raw)) [
        | inl e ↦ record { keep = λ w p. rw (install_ips, e) p }
        | inr (ip, e) ↦
            let out = rule_args texts bridge policy ip false in
            let inc = rule_args texts bridge policy ip true in
            record {
              keep = λ w p.
                  rw (install_ips, e)
                    ((Keeps-then {m = install_rule host (tool_for ip) out}
                        (install_rule-Keeps (tool_for ip) out)
                        λ _.
                          Keeps-then {m = install_rule host (tool_for ip) inc}
                            (install_rule-Keeps (tool_for ip) inc) λ _. install_ips-Keeps ips).keep
                      w p);
            }
      ]

      pub install_rules-Keeps : Keeps P (install_rules host texts bridge policy)
      unfolding install_rules
      install_rules-Keeps =
          Keeps-then {m = ensure_chain host} ensure_chain-Keeps λ _. install_ips-Keeps policy.ips

      remove_ips-Keeps :
          (fuel : ℕ) (ips : List String) → Keeps P (remove_ips host texts bridge policy fuel ips)
      unfolding remove_ips
      remove_ips-Keeps fuel [] = pure-Keeps
      remove_ips-Keeps fuel (raw ∷ ips) = elim (Option-cases (texts.parse_ip raw)) [
        | inl e ↦ record { keep = λ w p. rw (remove_ips, e) ((remove_ips-Keeps fuel ips).keep w p) }
        | inr (ip, e) ↦
            let out = rule_args texts bridge policy ip false in
            let inc = rule_args texts bridge policy ip true in
            record {
              keep = λ w p.
                  rw (remove_ips, e)
                    ((Keeps-then
                        {m = delete_while host (tool_for ip) (check_rule out) (delete_rule out)
                          fuel}
                        (delete_while-Keeps (tool_for ip) (check_rule out) (delete_rule out) fuel)
                        λ _.
                          Keeps-then
                            {m = delete_while host (tool_for ip) (check_rule inc) (delete_rule inc)
                              fuel}
                            (delete_while-Keeps (tool_for ip) (check_rule inc) (delete_rule inc)
                              fuel)
                            λ _. remove_ips-Keeps fuel ips).keep
                      w p);
            }
      ]

      pub remove_rules-Keeps : (fuel : ℕ) → Keeps P (remove_rules host texts bridge policy fuel)
      unfolding remove_rules
      remove_rules-Keeps fuel = remove_ips-Keeps fuel policy.ips
