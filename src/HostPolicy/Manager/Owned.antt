-- ===== src/HostPolicy/Manager/Owned.antt =====
-- src/hostpolicy.rs: which rules of RFW `reconcile_rfw` deletes, and what it leaves owned.
use runman_agent.Prelude.{
  ◌≡◌, String, Bool, true, ◌||◌, List, [], ◌∷◌, ◌++◌, any, find, All, All-append_last, arith, inl,
  inr, Bool-cases, Option-cases,
}
use runman_agent.Prelude.Int.{ℤ, eqb_ℤ}
use runman_agent.Prelude.Effect.{
  Result, ok, err, Exec, lift, Keeps, Keeps-then, Keeps-if, Keeps-lift, Keeps-Outcome, Outcome-same,
  Outcome, Meets, Meets-then, Result-cases,
}
use runman_agent.HostPolicy.{Error, Rule, RawRule, ManagedRule, Host, Codec, Ctx}
use runman_agent.HostPolicy.Service.{contains_id}
use runman_agent.HostPolicy.Manager.{
  reach, change, has_row, raw_of, save, is_kept, owned_as, adopt, create_wanted, with_managed,
  delete_obsolete, check_protocols, settle, reconcile_rules, reconcile_rfw, nothing_to_do,
}
use runman_agent.HostPolicy.Manager.Sends.{
  Spares, create_rule-kept, list_rules-kept, known_capabilities-kept, remove_rule-kept,
  save_state-kept,
}

-- An owned rule has the identifier.
abbrev pub owns : List ManagedRule → ℤ → Bool
owns ms id = any (λ (m : ManagedRule). eqb_ℤ m.id id) ms

-- The identifiers are taken, or are owned from the start.
abbrev Covered : (ℤ → Bool) → List ℤ → ManagedRule → Type 0
Covered owned selected m = (owned m.id || contains_id selected m.id) ≡ true

All-Covered_more :
    (owned : ℤ → Bool) (selected : List ℤ) (id : ℤ) (ms : List ManagedRule)
    → All (Covered owned selected) ms
    → All (Covered owned (id ∷ selected)) ms
unfolding any
All-Covered_more owned selected id [] h = tt
All-Covered_more owned selected id (m ∷ ms) (h, hs) =
    (ground arith, All-Covered_more owned selected id ms hs)

All-owns_more :
    (x : ManagedRule) (ms ns : List ManagedRule)
    → All (λ m. owns ms m.id ≡ true) ns
    → All (λ m. owns (x ∷ ms) m.id ≡ true) ns
unfolding any
All-owns_more x ms [] h = tt
All-owns_more x ms (n ∷ ns) (h, hs) = (ground arith, All-owns_more x ms ns hs)

All-owns_self : (ms : List ManagedRule) → All (λ m. owns ms m.id ≡ true) ms
unfolding any
All-owns_self [] = tt
All-owns_self (m ∷ ms) = (ground arith, All-owns_more m ms ms (All-owns_self ms))

All-Covered_owned :
    (owned : ℤ → Bool) (ms : List ManagedRule)
    → All (λ m. owned m.id ≡ true) ms
    → All (Covered owned []) ms
All-Covered_owned owned [] h = tt
All-Covered_owned owned (m ∷ ms) (h, hs) = (ground arith, All-Covered_owned owned ms hs)

Covered-owned_as :
    (owned : ℤ → Bool) (selected : List ℤ) (m : ManagedRule) → Covered owned (m.id ∷ selected) m
unfolding any
Covered-owned_as owned selected m = ground arith

module _ {W : Type 0} (host : Host W) (codec : Codec) (base_url : String) where
  module _ {owned : ℤ → Bool} {P : W → Type 0} (spares : Spares host base_url owned P) where
    -- The property of the machine, and the identifiers.
    abbrev Held : List ℤ → Ctx W → Type 0
    Held selected s = P s.world × All (Covered owned selected) s.state.managed_rules

    abbrev Spared : Ctx W → Type 0
    Spared s = P s.world

    reach-Meets :
        {A : Type 0} (selected : List ℤ) {m : Exec Error W A}
        → Keeps P m
        → Meets (Held selected) (reach m) (λ _. Held selected) Spared
    reach-Meets selected {m} k = record {
      meet = λ s (p, h). elim (Result-cases (m s.world).0) [
        | inl (a, e) ↦ rw e (k.keep s.world p, h)
        | inr (x, e) ↦ rw e (k.keep s.world p)
      ];
    }

    save-Meets : (selected : List ℤ) → Meets (Held selected) (save host) (λ _. Held selected) Spared
    unfolding save
    save-Meets selected = record {
      meet =
          λ s. (reach-Meets selected (save_state-kept host codec base_url spares s.state)).meet s;
    }

    adopt-Meets :
        (desired : Rule) (id : ℤ) (selected : List ℤ)
        → Meets
            (Held selected)
            (change (adopt host codec base_url desired id))
            (λ _. Held (id ∷ selected))
            Spared
    adopt-Meets desired id selected = record {
      meet = λ s (p, h). (
        p,
        All-append_last (Covered owned (id ∷ selected)) s.state.managed_rules _
            (All-Covered_more owned selected id s.state.managed_rules h)
            (Covered-owned_as owned selected (owned_as host codec base_url desired id)),
      );
    }

    create_wanted-Meets :
        (rules : List Rule) (actual : List RawRule) (selected : List ℤ)
        → Meets
            (Held selected)
            (create_wanted host codec base_url rules actual selected)
            (λ found. Held found.1)
            Spared
    unfolding create_wanted
    create_wanted-Meets [] actual selected = record { meet = λ s h. h }
    create_wanted-Meets (desired ∷ rest) actual selected = record {
      meet = λ s (p, h).
          elim (Option-cases
            (find (is_kept host codec base_url desired actual selected) s.state.managed_rules)) [
              | inr (o, e) ↦
                  rw (create_wanted, e)
                    ((create_wanted-Meets rest actual (o.id ∷ selected)).meet s
                      (p, All-Covered_more owned selected o.id s.state.managed_rules h))
              | inl e ↦
                  rw (create_wanted, e)
                    ((Meets-then
                        (reach-Meets selected (create_rule-kept host codec base_url spares desired))
                        λ id.
                          Meets-then {Q = λ _. Held (id ∷ selected)}
                            (adopt-Meets desired id selected)
                            λ _. Meets-then (save-Meets (id ∷ selected)) λ _.
                              create_wanted-Meets rest (actual ++ raw_of id desired ∷ [])
                                (id ∷ selected)).meet
                      s (p, h))
            ];
    }

    reach-Keeps : {A : Type 0} {m : Exec Error W A} → Keeps P m → Keeps Spared (reach m)
    reach-Keeps k = record { keep = λ s p. k.keep s.world p }

    save-Keeps : Keeps Spared (save host)
    unfolding save
    save-Keeps = record {
      keep = λ s p. (save_state-kept host codec base_url spares s.state).keep s.world p;
    }

    delete_obsolete-Keeps :
        (actual : List RawRule) (selected : List ℤ) (kept rest : List ManagedRule)
        → All (Covered owned selected) rest
        → Keeps Spared (delete_obsolete host codec base_url actual selected kept rest)
    unfolding delete_obsolete
    delete_obsolete-Keeps actual selected kept [] h = record { keep = λ s p. p }
    delete_obsolete-Keeps actual selected kept (o ∷ rest) (h, hs) = record {
      keep = λ s p. elim (Bool-cases (contains_id selected o.id)) [
        | inl e ↦
            rw (delete_obsolete, e)
              ((delete_obsolete-Keeps actual selected (kept ++ o ∷ []) rest hs).keep s p)
        | inr e ↦
            let known : owned o.id ≡ true = ground arith in
            rw (delete_obsolete, e)
              ((Keeps-then
                  (Keeps-if (has_row actual o.id)
                    (reach-Keeps (remove_rule-kept host codec base_url spares o.id known))
                    (Keeps-lift (ok tt)))
                  λ _.
                    Keeps-then {m = change (with_managed host codec base_url (kept ++ rest))}
                      (record { keep = λ s p. p })
                      λ _.
                        Keeps-then save-Keeps
                          λ _. delete_obsolete-Keeps actual selected kept rest hs).keep
                s p)
      ];
    }

    settle-Meets :
        (rules : List Rule) (rows : List RawRule)
        → Meets (Held []) (settle host codec base_url rules rows) (λ _. Spared) Spared
    unfolding settle
    settle-Meets rules rows = Meets-then (create_wanted-Meets rules rows []) λ found. record {
      meet = λ s (p, h).
          Keeps-Outcome (delete_obsolete-Keeps found.0 found.1 [] s.state.managed_rules h) s p;
    }

    check-Meets : {A : Type 0} (r : Result Error A) → Meets (Held []) (lift r) (λ _. Held []) Spared
    check-Meets (ok a) = record { meet = λ s h. h }
    check-Meets (err e) = record { meet = λ s h. h.0 }

    reconcile_rules-Outcome :
        (s : Ctx W)
        → Held [] s
        → Outcome
            (λ _. Spared)
            Spared
            (reconcile_rules host codec base_url s).0
            (reconcile_rules host codec base_url s).1
    unfolding reconcile_rules
    reconcile_rules-Outcome s h =
        let rules = s.state.policy.rules in
        (Meets-then (reach-Meets [] (known_capabilities-kept host codec base_url spares)) λ found.
            Meets-then (check-Meets (check_protocols host codec base_url rules found)) λ _.
              Meets-then (reach-Meets [] (list_rules-kept host codec base_url spares))
                λ rows. settle-Meets rules rows).meet
          s h

  -- Whatever `reconcile_rfw` returns, it sends no deletion of a rule that was not owned before: a
  -- property of the machine that is kept by each other request and by the writes of the file is kept.
  pub reconcile_rfw-spared :
      (P : W → Type 0) (s : Ctx W)
      → Spares host base_url (owns s.state.managed_rules) P
      → P s.world
      → P (reconcile_rfw host codec base_url s).1.world
  unfolding reconcile_rfw
  reconcile_rfw-spared P s spares p =
      elim (Bool-cases (nothing_to_do host codec base_url s.state)) [
        | inl e ↦ rw (reconcile_rfw, e) p
        | inr e ↦
            rw (reconcile_rfw, e)
              (Outcome-same P (λ (s : Ctx W). s.world) (reconcile_rules host codec base_url s)
                (reconcile_rules-Outcome spares s (
                  p,
                  All-Covered_owned (owns s.state.managed_rules) s.state.managed_rules
                      (All-owns_self s.state.managed_rules),
                )))
      ]
