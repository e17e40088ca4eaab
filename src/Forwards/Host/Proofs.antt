-- ===== src/Forwards/Host/Proofs.antt =====
-- src/runtime/mod.rs: the runtime and the contract of `PortForwards`.
use runman_agent.Prelude.{
  ℕ, zero, suc, ◌≤◌, ◌≡◌, refl, Bool, true, false, not, List, [], ◌∷◌, ◌++◌, ◌==◌, arith, inl, inr,
  length, find, any, retain, Option-cases, Bool-cases,
}
use runman_agent.Prelude.Effect.{Result, ok, err, is_ok, Exec, continue}
use runman_agent.Model.{Error, PortForward}
use runman_agent.Forwards.{owned_by}
use runman_agent.Forwards.Laws.{ForwardLaws, Added, same_port, same_target, is_rule}
use runman_agent.Forwards.Host.{
  HostOps, Runtime, require, install, add_new, add_checked, add, keep_only, is_taken,
  free_port_attempts, free_port, runtime,
}

length-retain-le :
    (p : PortForward → Bool) (rules : List PortForward) → length (retain p rules) ≤ length rules
unfolding retain
length-retain-le p [] = omega arith
length-retain-le p (f ∷ rules) = ground (arith, length-retain-le p rules)

-- Nothing goes exactly when the length stays.
retain-same_length :
    (p : PortForward → Bool) (rules : List PortForward)
    → length (retain p rules) ≡ length rules
    → retain p rules ≡ rules
unfolding retain
retain-same_length p [] h = refl
retain-same_length p (f ∷ rules) h =
    ground (arith, length-retain-le p rules, retain-same_length p rules)

module _ {E : Type 0} (ops : HostOps E) where
  -- The rules change when everything has succeeded, and only then.
  abbrev Sets : List PortForward → Exec Error (Runtime E) Unit → Runtime E → Type 0
  Sets next m w =
      (is_ok (m w).0 ≡ true → (m w).1.forwards ≡ next)
      × (is_ok (m w).0 ≡ false → (m w).1.forwards ≡ w.forwards)

  install-Sets : (next : List PortForward) (w : Runtime E) → Sets next (install ops next) w
  unfolding install
  install-Sets next w = (λ h. ground arith, λ h. ground arith)

  add_new-Sets :
      (rule : PortForward) (w : Runtime E) → Sets (w.forwards ++ rule ∷ []) (add_new ops rule) w
  unfolding add_new
  add_new-Sets rule w =
      let (listening, e) = ops.host_listening rule.proto rule.host_port w.outside in
      ground (arith, install-Sets (w.forwards ++ rule ∷ []) (record w { outside = e }))

  abbrev Adds : PortForward → Exec Error (Runtime E) Unit → Runtime E → Type 0
  Adds rule m w =
      (is_ok (m w).0 ≡ true → Added rule w.forwards (m w).1.forwards)
      × (is_ok (m w).0 ≡ false → (m w).1.forwards ≡ w.forwards)

  add_checked-Adds : (rule : PortForward) (w : Runtime E) → Adds rule (add_checked ops rule) w
  unfolding add_checked
  add_checked-Adds rule w = elim (Option-cases (find (same_port rule) w.forwards)) [
    | inl free ↦
        let sets = add_new-Sets rule w in rw (free, add_checked) (λ h. inr (refl, sets.0 h), sets.1)
    | inr (f, taken) ↦ elim (Bool-cases (same_target rule f)) [
      | inl same ↦ rw (taken, add_checked) (rw same (λ h. inl (f, refl, same, refl), λ h. refl))
      | inr other ↦ rw (taken, add_checked) (rw other (λ h. cc, λ h. refl))
    ]
  ]

  after_require :
      (rule : PortForward) (w : Runtime E) (r : Result Error Unit) (e : E)
      → Adds rule (λ v. continue (λ _. add_checked ops rule) r (record v { outside = e })) w
  after_require rule w (ok u) e = add_checked-Adds rule (record w { outside = e })
  after_require rule w (err x) e = (λ h. cc, λ h. refl)

  add-Adds : (rule : PortForward) (w : Runtime E) → Adds rule (add ops rule) w
  unfolding add
  add-Adds rule w = let (r, e) = require ops rule.vm_id w.outside in after_require rule w r e

  keep_only-Sets :
      (kept : PortForward → Bool) (w : Runtime E)
      → Sets (retain kept w.forwards) (keep_only ops kept) w
  unfolding keep_only
  keep_only-Sets kept w =
      ground (arith, retain-same_length kept w.forwards, install-Sets (retain kept w.forwards) w)

  free_port_attempts-keeps :
      (n : ℕ) (w : Runtime E) → (free_port_attempts ops n w).1.forwards ≡ w.forwards
  unfolding free_port_attempts
  free_port_attempts-keeps zero w = refl
  free_port_attempts-keeps (suc n) w =
      let (port, e) = ops.random_port w.outside in
      let (taken, e1) = is_taken ops port w.forwards e in
      let rest = free_port_attempts-keeps n (record w { outside = e1 }) in ground (arith, rest)

  -- Whatever the host answers, the `PortForwards` of the runtime satisfies `ForwardLaws`.
  pub runtime-ForwardLaws : ForwardLaws (runtime ops) (λ w. w.forwards)
  unfolding runtime
  runtime-ForwardLaws = record {
    add_ok = λ rule w. (add-Adds rule w).0;
    add_err = λ rule w. (add-Adds rule w).1;
    remove_ok =
        λ id proto host_port w. (keep_only-Sets (λ f. not (is_rule id proto host_port f)) w).0;
    remove_err =
        λ id proto host_port w. (keep_only-Sets (λ f. not (is_rule id proto host_port f)) w).1;
    list_lem = λ id w. refl;
    remove_all_ok = λ id w. (keep_only-Sets (λ f. not (owned_by id f)) w).0;
    remove_all_err = λ id w. (keep_only-Sets (λ f. not (owned_by id f)) w).1;
    free_port_keeps = λ w. free_port_attempts-keeps 200 w;
  }

  is_taken-unused :
      (port : ℕ) (rules : List PortForward) (e : E)
      → (is_taken ops port rules e).0 ≡ false
      → any (λ f. f.host_port == port) rules ≡ false
  unfolding is_taken
  is_taken-unused port rules e h = ground arith

  free_port_attempts-unused :
      (n : ℕ) (w : Runtime E) (port : ℕ)
      → (free_port_attempts ops n w).0 ≡ ok port
      → any (λ f. f.host_port == port) w.forwards ≡ false
  unfolding free_port_attempts
  free_port_attempts-unused zero w port h = cc
  free_port_attempts-unused (suc n) w port h =
      let (drawn, e) = ops.random_port w.outside in
      let (taken, e1) = is_taken ops drawn w.forwards e in
      ground (
        arith,
        is_taken-unused drawn w.forwards e,
        free_port_attempts-unused n (record w { outside = e1 }) port,
      )

  -- A port that `free_port` returns is the host port of no rule.
  pub free_port-unused :
      (w : Runtime E) (port : ℕ)
      → (free_port ops w).0 ≡ ok port
      → any (λ f. f.host_port == port) w.forwards ≡ false
  unfolding free_port
  free_port-unused w port h = free_port_attempts-unused 200 w port h
