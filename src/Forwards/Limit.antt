-- ===== src/Forwards/Limit.antt =====
-- src/backend.rs: `LimitedForwards`, the contract, and the number of rules of an instance.
use runman_agent.Prelude.{
  ℕ, ◌+◌, ◌≤◌, ◌<◌, ◌≡◌, ◌≢◌, ◌⊎◌, refl, ap, sym, String, Bool, true, false, not, none, some, List,
  [], ◌∷◌, ◌++◌, arith, inl, inr, if◌then◌else◌, length, find, any, retain, Bool-cases, str_eq_iff,
}
use runman_agent.Prelude.Effect.{Result, ok, err, is_ok, continue}
use runman_agent.Model.{Error, PortForward, rule_eq}
use runman_agent.Forwards.{PortForwards, owned_by, count_of, check_forward_limit, limited}
use runman_agent.Forwards.Laws.{ForwardLaws, Added, same_port, is_rule}
use runman_agent.Forwards.Unique.{Call, adds, removes, removes_all, step, run}

retain_idem :
    (p : PortForward → Bool) (rules : List PortForward) → retain p (retain p rules) ≡ retain p rules
unfolding retain
retain_idem p [] = refl
retain_idem p (f ∷ rules) = ground (arith, retain_idem p rules)

count_of-append :
    (id : String) (rule : PortForward) (rules : List PortForward)
    → count_of id (rules ++ rule ∷ []) ≡ count_of id rules + (if owned_by id rule then 1 else 0)
unfolding count_of retain
count_of-append id rule [] = ground arith
count_of-append id rule (f ∷ rules) = ground (arith, count_of-append id rule rules)

count_of-retain-le :
    (id : String) (q : PortForward → Bool) (rules : List PortForward)
    → count_of id (retain q rules) ≤ count_of id rules
unfolding count_of retain
count_of-retain-le id q [] = omega arith
count_of-retain-le id q (f ∷ rules) = ground (arith, count_of-retain-le id q rules)

-- A rule that is there already takes its own host port.
replay-takes_port :
    (p : PortForward → Bool) (rule : PortForward) (rules : List PortForward)
    → any (λ f. rule_eq f rule) (retain p rules) ≡ true
    → find (same_port rule) rules ≢ none
unfolding any retain find rule_eq
replay-takes_port p rule [] h = λ e. cc
replay-takes_port p rule (f ∷ rules) h = ground (arith, replay-takes_port p rule rules)

-- An accepted rule is a replay, or leaves its instance within the limit.
check_forward_limit-ok :
    (existing : List PortForward) (rule : PortForward) (max : ℕ)
    → 0 < max
    → is_ok (check_forward_limit existing rule max) ≡ true
    → (any (λ f. rule_eq f rule) existing ≡ true) ⊎ (count_of rule.vm_id existing < max)
unfolding check_forward_limit
check_forward_limit-ok existing rule max h k = ground arith

module _ {W : Type 0} (max_forwards : W → ℕ) (pf : PortForwards W) (rules : W → List PortForward)
    (laws : ForwardLaws pf rules) where
  abbrev verdict : PortForward → W → Result Error Unit
  verdict rule w =
      check_forward_limit (retain (owned_by rule.vm_id) (rules w)) rule (max_forwards w)

  abbrev refused_or_added : PortForward → W → Result Error Unit → Result Error Unit × W
  refused_or_added rule w (ok u) = pf.add rule w
  refused_or_added rule w (err e) = (err e, w)

  continue_add :
      (rule : PortForward) (w : W) (v : Result Error Unit)
      → continue (λ _. pf.add rule) v w ≡ refused_or_added rule w v
  continue_add rule w (ok u) = refl
  continue_add rule w (err e) = refl

  limited-add :
      (rule : PortForward) (w : W)
      → (limited max_forwards pf).add rule w ≡ refused_or_added rule w (verdict rule w)
  unfolding limited
  limited-add rule w = rw (laws.list_lem (some rule.vm_id) w) (continue_add rule w (verdict rule w))

  abbrev Adds : PortForward → W → Result Error Unit × W → Type 0
  Adds rule w r =
      (is_ok r.0 ≡ true → Added rule (rules w) (rules r.1))
      × (is_ok r.0 ≡ false → rules r.1 ≡ rules w)

  refused_or_added-Adds :
      (rule : PortForward) (w : W) (v : Result Error Unit) → Adds rule w (refused_or_added rule w v)
  refused_or_added-Adds rule w (ok u) = (laws.add_ok rule w, laws.add_err rule w)
  refused_or_added-Adds rule w (err e) = (λ h. cc, λ h. refl)

  limited-Adds : (rule : PortForward) (w : W) → Adds rule w ((limited max_forwards pf).add rule w)
  limited-Adds rule w = rw (limited-add rule w) (refused_or_added-Adds rule w (verdict rule w))

  -- If the wrapped implementation satisfies `ForwardLaws`, so does the one with the limit.
  pub limited-ForwardLaws : ForwardLaws (limited max_forwards pf) rules
  unfolding limited
  limited-ForwardLaws = record {
    add_ok = λ rule w. (limited-Adds rule w).0;
    add_err = λ rule w. (limited-Adds rule w).1;
    remove_ok = laws.remove_ok;
    remove_err = laws.remove_err;
    list_lem = laws.list_lem;
    remove_all_ok = laws.remove_all_ok;
    remove_all_err = laws.remove_all_err;
    free_port_keeps = laws.free_port_keeps;
  }

  -- The limit of the instance `id`.
  abbrev Within : String → W → List PortForward → Type 0
  Within id w after = count_of id after ≤ max_forwards w

  Added-Within :
      (rule : PortForward) (w : W) (id : String) (after : List PortForward)
      → 0 < max_forwards w
      → is_ok (verdict rule w) ≡ true
      → Added rule (rules w) after
      → Within id w (rules w)
      → Within id w after
  Added-Within rule w id after h k (inl (f, found, same, e)) c = rw e c
  Added-Within rule w id after h k (inr (free, e)) c =
      let owned = retain (owned_by rule.vm_id) (rules w) in
      let same_count : count_of rule.vm_id owned ≡ count_of rule.vm_id (rules w) =
        unfold count_of in ap length (retain_idem (owned_by rule.vm_id) (rules w)) in
      rw e (
        rw (count_of-append id rule (rules w)) (
          ground (
            arith,
            check_forward_limit-ok owned rule (max_forwards w) h k,
            λ (r : any (λ f. rule_eq f rule) owned ≡ true).
                replay-takes_port (owned_by rule.vm_id) rule (rules w) r free,
            str_eq_iff rule.vm_id id,
          )))

  verdict-Within :
      (rule : PortForward) (w : W) (id : String) (v : Result Error Unit)
      → 0 < max_forwards w
      → verdict rule w ≡ v
      → Within id w (rules w)
      → Within id w (rules (refused_or_added rule w v).1)
  verdict-Within rule w id (err x) h k c = c
  verdict-Within rule w id (ok u) h k c = elim (Bool-cases (is_ok (pf.add rule w).0)) [
    | inl done ↦ Added-Within rule w id _ h (rw k refl) (laws.add_ok rule w done) c
    | inr failed ↦ rw (laws.add_err rule w failed) c
  ]

  -- Adding through the wrapper keeps every instance within the limit, also if the add fails.
  pub limited-add-Within :
      (rule : PortForward) (w : W) (id : String)
      → 0 < max_forwards w
      → Within id w (rules w)
      → Within id w (rules ((limited max_forwards pf).add rule w).1)
  limited-add-Within rule w id h c =
      rw (limited-add rule w) (verdict-Within rule w id (verdict rule w) h refl c)

  module _ (max : ℕ) (positive : 0 < max) (constant : (w : W) → max_forwards w ≡ max)
      (id : String) where
    step-Within :
        (c : Call) (w : W)
        → count_of id (rules w) ≤ max
        → count_of id (rules (step (limited max_forwards pf) c w)) ≤ max
    unfolding step
    step-Within (adds rule) w h =
        rw (sym (constant w))
          (limited-add-Within rule w id (rw (constant w) positive) (rw (constant w) h))
    step-Within (removes vm proto host_port) w h =
        let l = limited-ForwardLaws in
        elim (Bool-cases (is_ok ((limited max_forwards pf).remove vm proto host_port w).0)) [
          | inl done ↦ rw (l.remove_ok vm proto host_port w done) (
              omega
                (arith, count_of-retain-le id (λ f. not (is_rule vm proto host_port f)) (rules w)))
          | inr failed ↦ rw (l.remove_err vm proto host_port w failed) h
        ]
    step-Within (removes_all vm) w h =
        let l = limited-ForwardLaws in
        elim (Bool-cases (is_ok ((limited max_forwards pf).remove_all vm w).0)) [
          | inl done ↦
              rw (l.remove_all_ok vm w done)
                (omega (arith, count_of-retain-le id (λ f. not (owned_by vm f)) (rules w)))
          | inr failed ↦ rw (l.remove_all_err vm w failed) h
        ]

    -- If the wrapped implementation satisfies `ForwardLaws` and the limit is constant and not 0, then no
    -- sequence of calls with the limit takes an instance that is within it over it.
    pub run-Within :
        (cs : List Call) (w : W)
        → count_of id (rules w) ≤ max
        → count_of id (rules (run (limited max_forwards pf) cs w)) ≤ max
    unfolding run
    run-Within [] w h = h
    run-Within (c ∷ cs) w h = run-Within cs (step (limited max_forwards pf) c w) (step-Within c w h)
