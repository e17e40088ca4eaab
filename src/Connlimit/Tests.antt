-- ===== src/Connlimit/Tests.antt =====
-- Tests of the models of src/connlimit.rs, on a packet filter whose chain is a list of rules.
use runman_agent.Prelude.{
  ℕ, suc, ◌≤◌, ◌≡◌, ◌≢◌, refl, String, Bool, true, false, not, ◌&&◌, Option, none, some, List, [],
  ◌∷◌, All, arith, str_eq, str_eq_refl, if◌then◌else◌, ◌==◌, any, length,
}
use runman_agent.Prelude.Int.{pos, ◌-ℤ◌}
use runman_agent.Prelude.Effect.{Result, ok, err}
use runman_agent.Connlimit.Policy.{Error, out_of_fuel, rule_args, Policy, Target, Texts, v4}
use runman_agent.Connlimit.Firewall.{Host, command, command_output, remove_rules, install_rules}
use runman_agent.Connlimit.Firewall.Effects.{RuleLaws, AnswerLaws, CountsOf}
use runman_agent.Connlimit.Firewall.Effects.Removal.{remove_rules-bound}
use runman_agent.Connlimit.Firewall.Effects.Absent.{remove_rules-absent}
use runman_agent.Connlimit.Firewall.Effects.Installation.{install_rules-there}
use runman_agent.Connlimit.Manager.{strs_eq, Ctx, apply}
use runman_agent.Connlimit.Manager.Stored.{Loadable, apply-AllLoadable}
use runman_agent.Connlimit.Manager.Reconcile.{reconcile}
use runman_agent.Connlimit.Manager.Walk.{Live, reconcile-Live}
mod Files

-- The tool and the arguments of each rule in the chain.
abbrev Rules : Type 0
Rules = List (String × List String)

strs_eq_refl : (xs : List String) → strs_eq xs xs ≡ true
unfolding strs_eq
strs_eq_refl [] = refl
strs_eq_refl (x ∷ xs) = ground (arith, strs_eq_refl xs, str_eq_refl x)

unfoldable same_rule : String → List String → String × List String → Bool
unfolding strs_eq
same_rule tool args (t, a) = str_eq tool t && strs_eq args a

same_rule_refl : (tool : String) (args : List String) → same_rule tool args (tool, args) ≡ true
unfolding same_rule
same_rule_refl tool args = ground (arith, str_eq_refl tool, strs_eq_refl args)

unfoldable copies : String → List String → Rules → ℕ
copies tool args [] = 0
copies tool args (r ∷ rules) =
    if same_rule tool args r then suc (copies tool args rules) else copies tool args rules

unfoldable delete_first : String → List String → Rules → Rules
delete_first tool args [] = []
delete_first tool args (r ∷ rules) =
    if same_rule tool args r then rules else r ∷ delete_first tool args rules

unfoldable there : String → List String → Rules → Bool
there tool args [] = false
there tool args (r ∷ rules) = if same_rule tool args r then true else there tool args rules

-- What the program `iptables` does with its arguments. The chain exists, without the jump to it.
unfoldable in_chain : String → String → List String → Rules → Option (Bool × String) × Rules
unfolding there delete_first
in_chain tool option args rules =
    if str_eq option "-C"
    then (some (there tool args rules, ""), rules)
    else if str_eq option "-D"
    then (some (there tool args rules, ""), delete_first tool args rules)
    else (some (true, "runman-agent-rs-v2"), rules)

unfoldable insert_first : String → List String → Rules → Option (Bool × String) × Rules
insert_first tool [] rules = (some (false, ""), rules)
insert_first tool (one ∷ args) rules = (some (true, ""), (tool, args) ∷ rules)

unfoldable run_iptables : String → List String → Rules → Option (Bool × String) × Rules
unfolding in_chain insert_first
run_iptables tool (wait ∷ five ∷ t ∷ filter ∷ option ∷ name ∷ args) rules =
    if str_eq name "FORWARD"
    then (some (not (str_eq option "-C"), ""), rules)
    else if str_eq option "-I"
    then insert_first tool args rules
    else in_chain tool option args rules
run_iptables tool args rules = (some (false, ""), rules)

abbrev host : Host Rules
unfolding run_iptables
host = record {
  run = run_iptables;
  clock = λ rules. (1000, rules);
  file_call = λ call rules. (true, rules);
  new_temp = λ rules. ("temp", rules);
}

there-copies :
    (tool : String) (args : List String) (rules : Rules)
    → there tool args rules ≡ not (copies tool args rules == 0)
unfolding there copies
there-copies tool args [] = refl
there-copies tool args (r ∷ rules) = ground (arith, there-copies tool args rules)

delete_first-le :
    (tool : String) (args : List String) (t : String) (a : List String) (rules : Rules)
    → copies t a (delete_first tool args rules) ≤ copies t a rules
unfolding copies delete_first
delete_first-le tool args t a [] = omega arith
delete_first-le tool args t a (r ∷ rules) = ground (arith, delete_first-le tool args t a rules)

delete_first-there :
    (tool : String) (args : List String) (rules : Rules)
    → there tool args rules ≡ true
    → suc (copies tool args (delete_first tool args rules)) ≡ copies tool args rules
unfolding copies delete_first there
delete_first-there tool args [] h = ground arith
delete_first-there tool args (r ∷ rules) h = ground (arith, delete_first-there tool args rules)

copies-first :
    (tool : String) (args : List String) (t : String) (a : List String) (rules : Rules)
    → copies t a rules ≤ copies t a ((tool, args) ∷ rules)
unfolding copies
copies-first tool args t a rules = ground arith

copies-same :
    (tool : String) (args : List String) (rules : Rules)
    → copies tool args ((tool, args) ∷ rules) ≡ suc (copies tool args rules)
unfolding copies
copies-same tool args rules = rw (same_rule_refl tool args) refl

host-RuleLaws : RuleLaws host copies
unfolding host command command_output run_iptables in_chain insert_first
host-RuleLaws = record {
  check_keeps = λ tool args t a w. ground arith;
  check_found = λ tool args w e. ground (arith, there-copies tool args w);
  insert_ge = λ tool args t a w. copies-first tool args t a w;
  insert_ok = λ tool args w e. copies-same tool args w;
  delete_le = λ tool args t a w. ground (arith, delete_first-le tool args t a w);
  delete_ok = λ tool args w e. ground (arith, delete_first-there tool args w);
}

-- No process holds the lock of this packet filter.
abbrev Free : Rules → Type 0
Free rules = Unit

host-AnswerLaws : AnswerLaws host copies Free
unfolding host command command_output run_iptables in_chain
host-AnswerLaws = record {
  check_missing = λ tool args w a e. ground (arith, there-copies tool args w);
  check_answers = λ tool args w a. tt;
  delete_answers = λ tool args w a. tt;
}

-- A packet filter whose lock another process holds: every command fails.
abbrev held : Host Rules
held = record {
  run = λ tool args rules. (some (false, ""), rules);
  clock = λ rules. (1000, rules);
  file_call = λ call rules. (true, rules);
  new_temp = λ rules. ("temp", rules);
}

abbrev pub texts : Texts
texts = record {
  parse_ip = λ s. if str_eq s "10.0.0.2" then some (v4 167772162) else none;
  show_ip = λ ip. "10.0.0.2";
  parse_uuid = λ s. some s;
}

abbrev pub policy : Policy
policy = record {
  id = "0123456789abcdef0123456789abcdef";
  vm_id = "a";
  instance_id = "b";
  max_connections = 250;
  expires_at = pos 2000;
  ips = "10.0.0.2" ∷ [];
  remove_only = false;
}

abbrev pub target : Target
target = record { managed = true; running = true; instance_id = "b"; ips = "10.0.0.2" ∷ [] }

abbrev installed : Rules
unfolding install_rules
installed = (install_rules host texts "br0" policy []).1

two_rules : length installed ≡ 2
unfolding installed host same_rule rule_args
two_rules = refl

install_rules-there_example :
    All
      (CountsOf copies texts "br0" policy (λ n. 1 ≤ n) (install_rules host texts "br0" policy []).1)
      policy.ips
unfolding install_rules host same_rule rule_args
install_rules-there_example =
    install_rules-there host copies host-RuleLaws texts "br0" policy [] refl

remove_rules-absent_example :
    All
      (CountsOf copies texts "br0" policy
        (λ n. n ≡ 0)
        (remove_rules host texts "br0" policy 3 installed).1)
      policy.ips
unfolding remove_rules installed host same_rule rule_args
remove_rules-absent_example =
    remove_rules-absent host copies host-RuleLaws Free host-AnswerLaws texts "br0" policy 3
      installed tt refl

-- There the removal succeeds and leaves the rules.
left_while_held : remove_rules held texts "br0" policy 3 installed ≡ (ok tt, installed)
unfolding remove_rules installed host same_rule rule_args
left_while_held = refl

copies-le : (t : String) (a : List String) (rules : Rules) → copies t a rules ≤ length rules
unfolding copies
copies-le t a [] = omega arith
copies-le t a (r ∷ rules) = ground (arith, copies-le t a rules)

remove_rules-bound_example : (remove_rules host texts "br0" policy 3 installed).0 ≢ err out_of_fuel
remove_rules-bound_example =
    remove_rules-bound host copies host-RuleLaws texts "br0" policy 3 installed
      (λ t a. omega (arith, copies-le t a installed, two_rules))

abbrev empty : Ctx Rules
empty = record { policies = []; world = [] }

abbrev applied : Result Error Unit × Ctx Rules
unfolding apply
applied = apply host texts "br0" 3 policy target empty

applied_ok : applied.0 ≡ ok tt
unfolding applied host same_rule rule_args ◌-ℤ◌ any
applied_ok = refl

applied_once : length applied.1.policies ≡ 1
unfolding applied host same_rule rule_args ◌-ℤ◌ any
applied_once = refl

apply-AllLoadable_example : All Loadable applied.1.policies
unfolding applied
apply-AllLoadable_example = apply-AllLoadable host texts "br0" 3 policy target empty tt

abbrev resolve : String → Rules → Result Error Target × Rules
resolve id rules = (ok target, rules)

reconcile-Live_example : All Live (reconcile host texts "br0" 3 resolve applied.1).1.policies
unfolding reconcile applied host same_rule rule_args ◌-ℤ◌ any
reconcile-Live_example = reconcile-Live host texts "br0" 3 resolve applied.1 refl
