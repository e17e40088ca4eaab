-- ===== src/Connlimit/Firewall/Effects.antt =====
-- src/connlimit.rs: which rules stand in the chain after `install_rules` and `remove_rules`, for
-- packet filters whose commands count rules as documented.
use runman_agent.Prelude.{
  ℕ, zero, suc, ◌+◌, ◌≤◌, ◌<◌, ◌≡◌, ◌≢◌, refl, sym, subst, ◌∙◌, ap, String, Bool, true, false,
  Option, none, some, List, [], ◌∷◌, All, arith, inl, inr, ◌⊎◌, str_eq, Option-cases, Bool-cases,
}
use runman_agent.Prelude.Effect.{
  Result, ok, err, is_ok, Exec, Result-cases, ok_chain, bound_chain, ◌>>=◌, ◌>>◌, pure, bail,
  continue,
}
use runman_agent.Connlimit.Policy.{Error, out_of_fuel, Policy, IpAddr, Texts, rule_args}
use runman_agent.Connlimit.Firewall.{
  Host, command, command_output, check_rule, insert_rule, delete_rule, delete_while, install_rule,
  install_ips, remove_ips, tool_for,
}
pub mod Removal
pub mod Absent
pub mod Installation

-- `count tool args w`: how often the rule stands in the chain. A search that succeeds has found it, an
-- insertion that succeeds adds one and a deletion that succeeds takes one away; no other rule is
-- touched, and a command that fails changes nothing.
pub record RuleLaws {W : Type 0} (host : Host W) (count : String → List String → W → ℕ)
    : Type 0 where
  pub check_keeps :
      (tool : String) (args : List String) (t : String) (a : List String) (w : W)
      → count t a (command host tool (check_rule args) w).1 ≡ count t a w
  pub check_found :
      (tool : String) (args : List String) (w : W)
      → is_ok (command host tool (check_rule args) w).0 ≡ true
      → 1 ≤ count tool args w
  pub insert_ge :
      (tool : String) (args : List String) (t : String) (a : List String) (w : W)
      → count t a w ≤ count t a (command host tool (insert_rule args) w).1
  pub insert_ok :
      (tool : String) (args : List String) (w : W)
      → is_ok (command host tool (insert_rule args) w).0 ≡ true
      → count tool args (command host tool (insert_rule args) w).1 ≡ suc (count tool args w)
  pub delete_le :
      (tool : String) (args : List String) (t : String) (a : List String) (w : W)
      → count t a (command host tool (delete_rule args) w).1 ≤ count t a w
  pub delete_ok :
      (tool : String) (args : List String) (w : W)
      → is_ok (command host tool (delete_rule args) w).0 ≡ true
      → suc (count tool args (command host tool (delete_rule args) w).1) ≡ count tool args w

-- `Answers w`: the programs start, and no other process holds the lock of the packet filter or takes it
-- before the operation ends. Only then does a search that fails tell that the rule is missing: a search
-- that waits for the lock in vain fails as well.
pub record AnswerLaws {W : Type 0} (host : Host W) (count : String → List String → W → ℕ)
    (Answers : W → Type 0) : Type 0 where
  pub check_missing :
      (tool : String) (args : List String) (w : W)
      → Answers w
      → is_ok (command host tool (check_rule args) w).0 ≡ false
      → count tool args w ≡ 0
  pub check_answers :
      (tool : String) (args : List String) (w : W)
      → Answers w
      → Answers (command host tool (check_rule args) w).1
  pub delete_answers :
      (tool : String) (args : List String) (w : W)
      → Answers w
      → Answers (command host tool (delete_rule args) w).1

module _ {W : Type 0} (count : String → List String → W → ℕ) (texts : Texts) (bridge : String)
    (policy : Policy) where
  -- Both counts of the rules of an address satisfy `P`; a text that is no address has no rules.
  unfoldable pub CountsOf : (ℕ → Type 0) → W → String → Type 0
  unfolding rule_args
  CountsOf P w raw = elim (texts.parse_ip raw) [
    | none ↦ Unit
    | some ip ↦
        P (count (tool_for ip) (rule_args texts bridge policy ip false) w)
        × P (count (tool_for ip) (rule_args texts bridge policy ip true) w)
  ]

  pub CountsOf-none :
      (P : ℕ → Type 0) (w : W) (raw : String) → texts.parse_ip raw ≡ none → CountsOf P w raw
  unfolding CountsOf
  CountsOf-none P w raw e = rw (CountsOf, e) tt

  pub CountsOf-some :
      (P : ℕ → Type 0) (w : W) (raw : String) (ip : IpAddr)
      → texts.parse_ip raw ≡ some ip
      → CountsOf P w raw ≡ (
          P (count (tool_for ip) (rule_args texts bridge policy ip false) w)
          × P (count (tool_for ip) (rule_args texts bridge policy ip true) w))
  unfolding CountsOf
  CountsOf-some P w raw ip e = rw (CountsOf, e) refl
