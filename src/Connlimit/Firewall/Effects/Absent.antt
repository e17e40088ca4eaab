-- ===== src/Connlimit/Firewall/Effects/Absent.antt =====
-- src/connlimit.rs: the rules in the chain after `remove_rules`, where the searches are answered.
use runman_agent.Prelude.{
  ℕ, zero, suc, ◌≡◌, sym, subst, String, true, false, List, [], ◌∷◌, All, arith, inl, inr,
  Option-cases,
}
use runman_agent.Prelude.Effect.{
  Result, ok, err, is_ok, Exec, Keeps, Keeps-then, pure, ok_chain, ◌>>◌,
}
use runman_agent.Connlimit.Policy.{Error, Policy, Texts, rule_args}
use runman_agent.Connlimit.Firewall.{
  Host, remove_rules, remove_rule, command, check_rule, delete_rule, delete_while, remove_ips,
  tool_for,
}
use runman_agent.Connlimit.Firewall.Effects.{
  RuleLaws, AnswerLaws, CountsOf, CountsOf-none, CountsOf-some,
}
use runman_agent.Connlimit.Firewall.Effects.Removal.{
  delete_all-le, remove_ips-le, remove_ips-none, remove_ips-some,
}

module _ {W : Type 0} (host : Host W) (count : String → List String → W → ℕ)
    (laws : RuleLaws host count) (Answers : W → Type 0)
    (answers : AnswerLaws host count Answers) where
  -- What follows the search, whatever it tells.
  searched-Keeps :
      (tool : String) (args : List String) (rest : Exec Error W Unit) (r : Result Error Unit)
      → Keeps Answers rest
      → Keeps Answers (elim r as (λ _. Exec Error W Unit) [
        | err e ↦ pure tt
        | ok u ↦ command host tool (delete_rule args) >> rest
      ])
  searched-Keeps tool args rest (err e) k = record { keep = λ w a. a }
  searched-Keeps tool args rest (ok u) k =
      Keeps-then {m = command host tool (delete_rule args)}
        (record { keep = answers.delete_answers tool args }) λ _. k

  delete_all-Keeps :
      (tool : String) (args : List String) (n : ℕ)
      → Keeps Answers (delete_while host tool (check_rule args) (delete_rule args) n)
  unfolding delete_while
  delete_all-Keeps tool args zero = record { keep = λ w a. a }
  delete_all-Keeps tool args (suc n) = record {
    keep = λ w a.
        let rest = delete_while host tool (check_rule args) (delete_rule args) n in
        (searched-Keeps tool args rest (command host tool (check_rule args) w).0
            (delete_all-Keeps tool args n)).keep
          (command host tool (check_rule args) w).1 (answers.check_answers tool args w a);
  }

  delete_all-removed :
      (tool : String) (args : List String) (n : ℕ) (w : W)
      → Answers w
      → is_ok (delete_while host tool (check_rule args) (delete_rule args) n w).0 ≡ true
      → count tool args (delete_while host tool (check_rule args) (delete_rule args) n w).1 ≡ 0
  unfolding delete_while
  delete_all-removed tool args zero w a e = ground arith
  delete_all-removed tool args (suc n) w a e =
      let (r, w1) = command host tool (check_rule args) w in
      let (d, w2) = command host tool (delete_rule args) w1 in
      let kept = laws.check_keeps tool args tool args w in
      let missing = answers.check_missing tool args w a in
      let a2 = answers.delete_answers tool args w1 (answers.check_answers tool args w a) in
      let rest = delete_all-removed tool args n w2 a2 in ground arith

  module _ (texts : Texts) (bridge : String) (policy : Policy) where
    -- After the steps of one address, whatever the steps of the others do.
    both_absent :
        (fuel : ℕ) (ips : List String) (tool : String) (out inc : List String) (w : W)
        → Answers w
        → is_ok (remove_rule host texts bridge policy fuel tool out w).0 ≡ true
        → is_ok
            (remove_rule host texts bridge policy fuel tool inc
              (remove_rule host texts bridge policy fuel tool out w).1).0
          ≡ true
        → (let w2 =
              (remove_rule host texts bridge policy fuel tool inc
                (remove_rule host texts bridge policy fuel tool out w).1).1 in
            let v = (remove_ips host texts bridge policy fuel ips w2).1 in
            (count tool out v ≡ 0) × (count tool inc v ≡ 0))
    unfolding remove_rule
    both_absent fuel ips tool out inc w a d1 d2 =
        let w1 = (delete_while host tool (check_rule out) (delete_rule out) fuel w).1 in
        let w2 = (delete_while host tool (check_rule inc) (delete_rule inc) fuel w1).1 in
        let absent1 = delete_all-removed tool out fuel w a d1 in
        let absent2 =
          delete_all-removed tool inc fuel w1 ((delete_all-Keeps tool out fuel).keep w a) d2 in
        let le2 = delete_all-le host count laws tool inc tool out fuel w1 in
        let le3 = remove_ips-le host count laws texts bridge policy fuel ips tool out w2 in
        let le4 = remove_ips-le host count laws texts bridge policy fuel ips tool inc w2 in
        (omega arith, omega arith)

    both-Answers :
        (fuel : ℕ) (tool : String) (out inc : List String) (w : W)
        → Answers w
        → Answers
            (remove_rule host texts bridge policy fuel tool inc
              (remove_rule host texts bridge policy fuel tool out w).1).1
    unfolding remove_rule
    both-Answers fuel tool out inc w a =
        (delete_all-Keeps tool inc fuel).keep _ ((delete_all-Keeps tool out fuel).keep w a)

    remove_ips-absent :
        (fuel : ℕ) (ips : List String) (w : W)
        → Answers w
        → is_ok (remove_ips host texts bridge policy fuel ips w).0 ≡ true
        → All
            (CountsOf count texts bridge policy
              (λ n. n ≡ 0)
              (remove_ips host texts bridge policy fuel ips w).1)
            ips
    remove_ips-absent fuel [] w a = λ e. tt
    remove_ips-absent fuel (raw ∷ ips) w a = elim (Option-cases (texts.parse_ip raw)) [
      | inl e ↦
          subst
            (λ m.
              is_ok (m w).0 ≡ true
              → All (CountsOf count texts bridge policy (λ n. n ≡ 0) (m w).1) (raw ∷ ips))
            (sym (remove_ips-none host count laws texts bridge policy fuel raw ips e))
            (λ done. (
              CountsOf-none count texts bridge policy _ _ raw e,
              remove_ips-absent fuel ips w a done,
            ))
      | inr (ip, e) ↦
          subst
            (λ m.
              is_ok (m w).0 ≡ true
              → All (CountsOf count texts bridge policy (λ n. n ≡ 0) (m w).1) (raw ∷ ips))
            (sym (remove_ips-some host count laws texts bridge policy fuel raw ips ip e))
            (λ done.
              ok_chain
                (remove_rule host texts bridge policy fuel (tool_for ip)
                  (rule_args texts bridge policy ip false))
                (remove_rule host texts bridge policy fuel (tool_for ip)
                  (rule_args texts bridge policy ip true))
                (remove_ips host texts bridge policy fuel ips)
                (λ v. All (CountsOf count texts bridge policy (λ n. n ≡ 0) v) (raw ∷ ips)) w done
                (λ d1 d2 d3. (
                  rw (CountsOf-some count texts bridge policy (λ n. n ≡ 0) _ raw ip e)
                      (both_absent fuel ips (tool_for ip) _ _ w a d1 d2),
                  remove_ips-absent fuel ips _ (both-Answers fuel (tool_for ip) _ _ w a) d3,
                )))
    ]

    -- If `remove_rules` succeeds, the chain has no rule of any address of the policy, for a packet
    -- filter that satisfies `RuleLaws` and `AnswerLaws`, from a state in which it answers: no other
    -- process holds its lock while the operation lasts.
    pub remove_rules-absent :
        (fuel : ℕ) (w : W)
        → Answers w
        → is_ok (remove_rules host texts bridge policy fuel w).0 ≡ true
        → All
            (CountsOf count texts bridge policy
              (λ n. n ≡ 0)
              (remove_rules host texts bridge policy fuel w).1)
            policy.ips
    unfolding remove_rules
    remove_rules-absent fuel w a = remove_ips-absent fuel policy.ips w a
