-- ===== src/Connlimit/Firewall/Effects/Installation.antt =====
-- src/connlimit.rs: the rules in the chain after `install_rules`.
use runman_agent.Prelude.{
  ℕ, ◌≤◌, ◌≡◌, refl, sym, subst, String, true, false, none, some, List, [], ◌∷◌, All, arith, inl,
  inr, Option-cases,
}
use runman_agent.Prelude.Effect.{is_ok, Result-cases, ok_chain, ◌>>◌}
use runman_agent.Connlimit.Policy.{Policy, IpAddr, Texts, rule_args}
use runman_agent.Connlimit.Firewall.{
  Host, install_rules, ensure_chain, command, check_rule, install_rule, install_ips, tool_for,
}
use runman_agent.Connlimit.Firewall.Effects.{RuleLaws, CountsOf, CountsOf-some}

module _ {W : Type 0} (host : Host W) (count : String → List String → W → ℕ)
    (laws : RuleLaws host count) where
  install_rule-ge :
      (tool : String) (args : List String) (t : String) (a : List String) (w : W)
      → count t a w ≤ count t a (install_rule host tool args w).1
  unfolding install_rule
  install_rule-ge tool args t a w =
      let kept = laws.check_keeps tool args t a w in
      let more = laws.insert_ge tool args t a (command host tool (check_rule args) w).1 in
      ground arith

  install_rule-there :
      (tool : String) (args : List String) (w : W)
      → is_ok (install_rule host tool args w).0 ≡ true
      → 1 ≤ count tool args (install_rule host tool args w).1
  unfolding install_rule
  install_rule-there tool args w e =
      let w1 = (command host tool (check_rule args) w).1 in
      let kept = laws.check_keeps tool args tool args w in
      let found = laws.check_found tool args w in
      let inserted = laws.insert_ok tool args w1 in ground arith

  module _ (texts : Texts) (bridge : String) (policy : Policy) where
    install_ips-ge :
        (ips : List String) (t : String) (a : List String) (w : W)
        → count t a w ≤ count t a (install_ips host texts bridge policy ips w).1
    unfolding install_ips
    install_ips-ge [] t a w = omega arith
    install_ips-ge (raw ∷ ips) t a w = elim (Option-cases (texts.parse_ip raw)) [
      | inl e ↦ rw (install_ips, e) (omega arith)
      | inr (ip, e) ↦
          let out = rule_args texts bridge policy ip false in
          let inc = rule_args texts bridge policy ip true in
          let (r1, w1) = install_rule host (tool_for ip) out w in
          let (r2, w2) = install_rule host (tool_for ip) inc w1 in
          let ge1 = install_rule-ge (tool_for ip) out t a w in
          let ge2 = install_rule-ge (tool_for ip) inc t a w1 in
          let ge3 = install_ips-ge ips t a w2 in rw (install_ips, e) (ground arith)
    ]

    install_ips-some :
        (raw : String) (ips : List String) (ip : IpAddr)
        → texts.parse_ip raw ≡ some ip
        → install_ips host texts bridge policy (raw ∷ ips) ≡ (do
          install_rule host (tool_for ip) (rule_args texts bridge policy ip false)
          install_rule host (tool_for ip) (rule_args texts bridge policy ip true)
          install_ips host texts bridge policy ips)
    unfolding install_ips
    install_ips-some raw ips ip e = rw (install_ips, e) refl

    both_there :
        (ips : List String) (tool : String) (out inc : List String) (w : W)
        → is_ok (install_rule host tool out w).0 ≡ true
        → is_ok (install_rule host tool inc (install_rule host tool out w).1).0 ≡ true
        → (let w2 = (install_rule host tool inc (install_rule host tool out w).1).1 in
            let v = (install_ips host texts bridge policy ips w2).1 in
            (1 ≤ count tool out v) × (1 ≤ count tool inc v))
    both_there ips tool out inc w d1 d2 =
        let w1 = (install_rule host tool out w).1 in
        let w2 = (install_rule host tool inc w1).1 in
        let there1 = install_rule-there tool out w d1 in
        let there2 = install_rule-there tool inc w1 d2 in
        let ge2 = install_rule-ge tool inc tool out w1 in
        let ge3 = install_ips-ge ips tool out w2 in
        let ge4 = install_ips-ge ips tool inc w2 in (omega arith, omega arith)

    bad_address :
        (raw : String) (ips : List String) (w : W) (Q : Type 0)
        → texts.parse_ip raw ≡ none
        → is_ok (install_ips host texts bridge policy (raw ∷ ips) w).0 ≡ true
        → Q
    unfolding install_ips
    bad_address raw ips w Q e = rw (install_ips, e) (λ done. ground arith)

    install_ips-there :
        (ips : List String) (w : W)
        → is_ok (install_ips host texts bridge policy ips w).0 ≡ true
        → All
            (CountsOf count texts bridge policy
              (λ n. 1 ≤ n)
              (install_ips host texts bridge policy ips w).1)
            ips
    install_ips-there [] w = λ e. tt
    install_ips-there (raw ∷ ips) w = elim (Option-cases (texts.parse_ip raw)) [
      | inl e ↦ bad_address raw ips w _ e
      | inr (ip, e) ↦
          subst
            (λ m.
              is_ok (m w).0 ≡ true
              → All (CountsOf count texts bridge policy (λ n. 1 ≤ n) (m w).1) (raw ∷ ips))
            (sym (install_ips-some raw ips ip e))
            (λ done.
              ok_chain (install_rule host (tool_for ip) (rule_args texts bridge policy ip false))
                (install_rule host (tool_for ip) (rule_args texts bridge policy ip true))
                (install_ips host texts bridge policy ips)
                (λ v. All (CountsOf count texts bridge policy (λ n. 1 ≤ n) v) (raw ∷ ips)) w done
                (λ d1 d2 d3. (
                  rw (CountsOf-some count texts bridge policy (λ n. 1 ≤ n) _ raw ip e)
                      (both_there ips (tool_for ip) _ _ w d1 d2),
                  install_ips-there ips _ d3,
                )))
    ]

    -- If `install_rules` succeeds, both rules of each address of the policy stand in the chain, for a
    -- packet filter that satisfies `RuleLaws`.
    pub install_rules-there :
        (w : W)
        → is_ok (install_rules host texts bridge policy w).0 ≡ true
        → All
            (CountsOf count texts bridge policy
              (λ n. 1 ≤ n)
              (install_rules host texts bridge policy w).1)
            policy.ips
    unfolding install_rules
    install_rules-there w = elim (Result-cases (ensure_chain host w).0) [
      | inl (u, e) ↦ rw (install_rules, e) (install_ips-there policy.ips (ensure_chain host w).1)
      | inr (x, e) ↦ rw (install_rules, e) (λ done. ground arith)
    ]
