-- ===== src/Connlimit/Firewall/Effects/Removal.antt =====
-- src/connlimit.rs: `remove_rules` adds no rule, and its loops end.
use runman_agent.Prelude.{
  ℕ, zero, suc, ◌≤◌, ◌<◌, ◌≡◌, ◌≢◌, refl, sym, subst, String, true, false, none, some, List, [],
  ◌∷◌, arith, inl, inr, Option-cases,
}
use runman_agent.Prelude.Effect.{err, bound_chain, ◌>>◌}
use runman_agent.Connlimit.Policy.{out_of_fuel, Policy, IpAddr, Texts, rule_args}
use runman_agent.Connlimit.Firewall.{
  Host, remove_rules, remove_rule, command, command_output, check_rule, delete_rule, delete_while,
  remove_ips, tool_for,
}
use runman_agent.Connlimit.Firewall.Effects.{RuleLaws}

module _ {W : Type 0} (host : Host W) (count : String → List String → W → ℕ)
    (laws : RuleLaws host count) where
  pub delete_all-le :
      (tool : String) (args : List String) (t : String) (a : List String) (n : ℕ) (w : W)
      → count t a (delete_while host tool (check_rule args) (delete_rule args) n w).1 ≤ count t a w
  unfolding delete_while
  delete_all-le tool args t a zero w = omega arith
  delete_all-le tool args t a (suc n) w =
      let (r, w1) = command host tool (check_rule args) w in
      let (d, w2) = command host tool (delete_rule args) w1 in
      let kept = laws.check_keeps tool args t a w in
      let less = laws.delete_le tool args t a w1 in
      let rest = delete_all-le tool args t a n w2 in ground arith

  command-bound :
      (tool : String) (args : List String) (w : W) → (command host tool args w).0 ≢ err out_of_fuel
  unfolding command command_output
  command-bound tool args w = ground arith

  -- The bound of the loop is not met if it is above the number of copies.
  delete_all-bound :
      (tool : String) (args : List String) (n : ℕ) (w : W)
      → count tool args w < n
      → (delete_while host tool (check_rule args) (delete_rule args) n w).0 ≢ err out_of_fuel
  unfolding delete_while
  delete_all-bound tool args zero w h = absurd (omega arith)
  delete_all-bound tool args (suc n) w h =
      let (r, w1) = command host tool (check_rule args) w in
      let (d, w2) = command host tool (delete_rule args) w1 in
      let kept = laws.check_keeps tool args tool args w in
      let less = laws.delete_ok tool args w1 in
      let rest = delete_all-bound tool args n w2 in
      let bound = command-bound tool (delete_rule args) w1 in ground arith

  module _ (texts : Texts) (bridge : String) (policy : Policy) where
    pub remove_ips-le :
        (fuel : ℕ) (ips : List String) (t : String) (a : List String) (w : W)
        → count t a (remove_ips host texts bridge policy fuel ips w).1 ≤ count t a w
    unfolding remove_ips
    remove_ips-le fuel [] t a w = omega arith
    remove_ips-le fuel (raw ∷ ips) t a w = elim (Option-cases (texts.parse_ip raw)) [
      | inl e ↦ rw (remove_ips, e) (remove_ips-le fuel ips t a w)
      | inr (ip, e) ↦
          let out = rule_args texts bridge policy ip false in
          let inc = rule_args texts bridge policy ip true in
          let (r1, w1) =
            delete_while host (tool_for ip) (check_rule out) (delete_rule out) fuel w in
          let (r2, w2) =
            delete_while host (tool_for ip) (check_rule inc) (delete_rule inc) fuel w1 in
          let le1 = delete_all-le (tool_for ip) out t a fuel w in
          let le2 = delete_all-le (tool_for ip) inc t a fuel w1 in
          let le3 = remove_ips-le fuel ips t a w2 in rw (remove_ips, e) (ground arith)
    ]

    pub remove_ips-none :
        (fuel : ℕ) (raw : String) (ips : List String)
        → texts.parse_ip raw ≡ none
        → remove_ips host texts bridge policy fuel (raw ∷ ips)
          ≡ remove_ips host texts bridge policy fuel ips
    unfolding remove_ips
    remove_ips-none fuel raw ips e = rw (remove_ips, e) refl

    pub remove_ips-some :
        (fuel : ℕ) (raw : String) (ips : List String) (ip : IpAddr)
        → texts.parse_ip raw ≡ some ip
        → remove_ips host texts bridge policy fuel (raw ∷ ips) ≡ (do
          remove_rule host texts bridge policy fuel
              (tool_for ip)
              (rule_args texts bridge policy ip false)
          remove_rule host texts bridge policy fuel
              (tool_for ip)
              (rule_args texts bridge policy ip true)
          remove_ips host texts bridge policy fuel ips)
    unfolding remove_ips
    remove_ips-some fuel raw ips ip e = rw (remove_ips, e) refl

    remove_rule-bound :
        (fuel : ℕ) (tool : String) (args : List String) (w : W)
        → count tool args w < fuel
        → (remove_rule host texts bridge policy fuel tool args w).0 ≢ err out_of_fuel
    unfolding remove_rule
    remove_rule-bound fuel tool args w h = delete_all-bound tool args fuel w h

    remove_rule-le :
        (fuel : ℕ) (tool : String) (args : List String) (t : String) (a : List String) (w : W)
        → count t a (remove_rule host texts bridge policy fuel tool args w).1 ≤ count t a w
    unfolding remove_rule
    remove_rule-le fuel tool args t a w = delete_all-le tool args t a fuel w

    remove_ips-bound :
        (fuel : ℕ) (ips : List String) (w : W)
        → ((t : String) (a : List String) → count t a w < fuel)
        → (remove_ips host texts bridge policy fuel ips w).0 ≢ err out_of_fuel
    unfolding remove_ips
    remove_ips-bound fuel [] w h = ground arith
    remove_ips-bound fuel (raw ∷ ips) w h = elim (Option-cases (texts.parse_ip raw)) [
      | inl e ↦
          subst (λ m. (m w).0 ≢ err out_of_fuel) (sym (remove_ips-none fuel raw ips e))
            (remove_ips-bound fuel ips w h)
      | inr (ip, e) ↦
          let out = rule_args texts bridge policy ip false in
          let inc = rule_args texts bridge policy ip true in
          let m1 = remove_rule host texts bridge policy fuel (tool_for ip) out in
          let m2 = remove_rule host texts bridge policy fuel (tool_for ip) inc in
          let w1 = (m1 w).1 in
          let h1 : (t : String) (a : List String) → count t a w1 < fuel =
            λ t a. omega (arith, h t a, remove_rule-le fuel (tool_for ip) out t a w) in
          let h2 : (t : String) (a : List String) → count t a (m2 w1).1 < fuel =
            λ t a. omega (arith, h1 t a, remove_rule-le fuel (tool_for ip) inc t a w1) in
          subst (λ m. (m w).0 ≢ err out_of_fuel) (sym (remove_ips-some fuel raw ips ip e))
            (bound_chain m1 m2 (remove_ips host texts bridge policy fuel ips) out_of_fuel w
              (remove_rule-bound fuel (tool_for ip) out w (h (tool_for ip) out))
              (remove_rule-bound fuel (tool_for ip) inc w1 (h1 (tool_for ip) inc))
              (remove_ips-bound fuel ips (m2 w1).1 h2))
    ]

    -- The loops of `remove_rules` end within the bound if it is above the number of copies of every
    -- rule, for a packet filter that satisfies `RuleLaws`.
    pub remove_rules-bound :
        (fuel : ℕ) (w : W)
        → ((t : String) (a : List String) → count t a w < fuel)
        → (remove_rules host texts bridge policy fuel w).0 ≢ err out_of_fuel
    unfolding remove_rules
    remove_rules-bound fuel w = remove_ips-bound fuel policy.ips w
