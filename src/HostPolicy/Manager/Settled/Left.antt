-- ===== src/HostPolicy/Manager/Settled/Left.antt =====
-- src/hostpolicy.rs: the deletions of `reconcile_rfw`, and what it leaves owned.
use runman_agent.Prelude.{
  ◌==◌, length, ◌≡◌, refl, ◌∙◌, sym, subst, String, Bool, true, false, ◌&&◌, List, [], ◌∷◌, ◌++◌,
  append-nil, append_assoc, if◌then◌else◌, any, All, All-append_last, arith, inl, inr, Bool-cases,
}
use runman_agent.Prelude.Int.{ℤ, eqb_ℤ}
use runman_agent.Prelude.Search.{any-remove, any-weaken, rev_onto, All-rev_onto, any-rev_onto}
use runman_agent.Prelude.Effect.{
  Result, ok, err, is_ok, Exec, pure, lift, Outcome, Outcome-weaken, Outcome-ok, Meets, Meets-then,
  Result-cases,
}
use runman_agent.HostPolicy.{Error, Rule, RawRule, ManagedRule, State, Host, Codec, Ctx}
use runman_agent.HostPolicy.Service.{contains_id, remove_rule, list_rules, known_capabilities}
use runman_agent.HostPolicy.Manager.{
  reach, change, has_row, save, save_state, with_managed, delete_obsolete, check_protocols, settle,
  reconcile_rules, reconcile_rfw, nothing_to_do,
}
use runman_agent.HostPolicy.Manager.Settled.{
  stands_for, stands_as, Pairs, Anything, create_wanted-Taken, eqb_ℤ-eq,
}

module _ {W : Type 0} (host : Host W) (codec : Codec) (base_url : String) where
  -- Every identifier of an owned rule is taken.
  abbrev AllTaken : List ℤ → List ManagedRule → Type 0
  AllTaken ids ms = All (λ (m : ManagedRule). contains_id ids m.id ≡ true) ms

  Pairs-remove :
      (kept rest : List ManagedRule) (o : ManagedRule) (ids : List ℤ) (rs : List Rule)
      → contains_id ids o.id ≡ false
      → Pairs host codec base_url (kept ++ o ∷ rest) ids rs
      → Pairs host codec base_url (kept ++ rest) ids rs
  unfolding any
  Pairs-remove kept rest o [] [] h k = tt
  Pairs-remove kept rest o [] (r ∷ rs) h k = k
  Pairs-remove kept rest o (id ∷ ids) [] h k = k
  Pairs-remove kept rest o (id ∷ ids) (r ∷ rs) h (k, ks) = (
    any-remove (stands_as host codec base_url id r) kept rest o (ground arith) k,
    Pairs-remove kept rest o ids rs (ground arith) ks,
  )

  abbrev Remaining : List ℤ → List Rule → List ManagedRule → List ManagedRule → Ctx W → Type 0
  Remaining ids rs kept rest s =
      (s.state.managed_rules ≡ kept ++ rest)
      × Pairs host codec base_url (kept ++ rest) ids rs
      × AllTaken ids kept

  abbrev Left : List ℤ → List Rule → Ctx W → Type 0
  Left ids rs s =
      Pairs host codec base_url s.state.managed_rules ids rs × AllTaken ids s.state.managed_rules

  Meets-known :
      {A : Type 0} (C : Type 0) (m : Exec Error (Ctx W) A)
      → Meets (λ _. C) m (λ _ _. C) (Anything host codec base_url)
  Meets-known C m = record {
    meet = λ s c. elim (Result-cases (m s).0) [ inl (a, e) ↦ rw e c | inr (x, e) ↦ rw e tt ];
  }

  drop-Remaining :
      (ids : List ℤ) (rs : List Rule) (kept rest : List ManagedRule)
      → Meets
          (λ _. Pairs host codec base_url (kept ++ rest) ids rs × AllTaken ids kept)
          (change (with_managed host codec base_url (kept ++ rest)))
          (λ _. Remaining ids rs kept rest)
          (Anything host codec base_url)
  drop-Remaining ids rs kept rest = record { meet = λ s (p, t). (refl, p, t) }

  save-Remaining :
      (ids : List ℤ) (rs : List Rule) (kept rest : List ManagedRule)
      → Meets
          (Remaining ids rs kept rest)
          (save host)
          (λ _. Remaining ids rs kept rest)
          (Anything host codec base_url)
  unfolding save
  save-Remaining ids rs kept rest = record {
    meet = λ s h. elim (Result-cases (save_state host s.state s.world).0) [
      | inl (a, e) ↦ rw e h
      | inr (x, e) ↦ rw e tt
    ];
  }

  Remaining-shift :
      (ids : List ℤ) (rs : List Rule) (kept rest : List ManagedRule) (o : ManagedRule) (s : Ctx W)
      → contains_id ids o.id ≡ true
      → Remaining ids rs kept (o ∷ rest) s
      → Remaining ids rs (kept ++ o ∷ []) rest s
  Remaining-shift ids rs kept rest o s e (m, p, t) =
      let same = append_assoc kept (o ∷ []) rest in
      (
        m ∙ sym same,
        subst (λ ms. Pairs host codec base_url ms ids rs) (sym same) p,
        All-append_last (λ (m : ManagedRule). contains_id ids m.id ≡ true) kept o t e,
      )

  Remaining-Left :
      (ids : List ℤ) (rs : List Rule) (kept : List ManagedRule) (s : Ctx W)
      → Remaining ids rs kept [] s
      → Left ids rs s
  Remaining-Left ids rs kept s (m, p, t) =
      let all = m ∙ append-nil kept in
      (
        subst (λ ms. Pairs host codec base_url ms ids rs) (sym m) p,
        subst (λ ms. AllTaken ids ms) (sym all) t,
      )

  delete_obsolete-Left :
      (actual : List RawRule) (ids : List ℤ) (rs : List Rule) (kept rest : List ManagedRule)
      → Meets
          (Remaining ids rs kept rest)
          (delete_obsolete host codec base_url actual ids kept rest)
          (λ _. Left ids rs)
          (Anything host codec base_url)
  unfolding delete_obsolete
  delete_obsolete-Left actual ids rs kept [] = record {
    meet = λ s h. Remaining-Left ids rs kept s h;
  }
  delete_obsolete-Left actual ids rs kept (o ∷ rest) = record {
    meet = λ s h. elim (Bool-cases (contains_id ids o.id)) [
      | inl e ↦
          rw (delete_obsolete, e)
            ((delete_obsolete-Left actual ids rs (kept ++ o ∷ []) rest).meet s
              (Remaining-shift ids rs kept rest o s e h))
      | inr e ↦
          rw (delete_obsolete, e)
            ((Meets-then
                (Meets-known (Pairs host codec base_url (kept ++ rest) ids rs × AllTaken ids kept) (
                  if has_row actual o.id
                  then reach (remove_rule host codec base_url o.id)
                  else pure tt))
                λ _. Meets-then (drop-Remaining ids rs kept rest) λ _.
                  Meets-then (save-Remaining ids rs kept rest)
                    λ _. delete_obsolete-Left actual ids rs kept rest).meet
              s (Pairs-remove kept rest o ids rs e h.1, h.2))
    ];
  }

  -- Each desired rule has an owned one that stands for it.
  abbrev pub AllOwned : List Rule → List ManagedRule → Type 0
  AllOwned rules ms = All (λ (r : Rule). any (stands_for host codec base_url r) ms ≡ true) rules

  -- Each owned rule has the identifier of one that stands for a desired rule.
  abbrev pub AllDesired : List Rule → List ManagedRule → Type 0
  AllDesired rules ms =
      All
        (λ (m : ManagedRule).
          any (λ (r : Rule). any (stands_as host codec base_url m.id r) ms) rules ≡ true)
        ms

  Pairs-AllOwned :
      (ms : List ManagedRule) (ids : List ℤ) (rs : List Rule)
      → Pairs host codec base_url ms ids rs
      → AllOwned rs ms
  Pairs-AllOwned ms [] [] h = tt
  Pairs-AllOwned ms [] (r ∷ rs) h = absurd h
  Pairs-AllOwned ms (id ∷ ids) [] h = tt
  Pairs-AllOwned ms (id ∷ ids) (r ∷ rs) (h, hs) = (
    any-weaken (stands_as host codec base_url id r) (stands_for host codec base_url r)
        (λ m k. ground arith) ms h,
    Pairs-AllOwned ms ids rs hs,
  )

  Pairs-desired :
      (ms : List ManagedRule) (ids : List ℤ) (rs : List Rule) (id : ℤ)
      → Pairs host codec base_url ms ids rs
      → contains_id ids id ≡ true
      → any (λ (r : Rule). any (stands_as host codec base_url id r) ms) rs ≡ true
  unfolding any
  Pairs-desired ms [] [] id h k = ground arith
  Pairs-desired ms [] (r ∷ rs) id h k = absurd h
  Pairs-desired ms (i ∷ ids) [] id h k = absurd h
  Pairs-desired ms (i ∷ ids) (r ∷ rs) id (h, hs) k = elim (Bool-cases (eqb_ℤ id i)) [
    | inl e ↦
        rw
          (subst (λ j. any (stands_as host codec base_url j r) ms ≡ true)
            (sym (eqb_ℤ-eq host codec base_url id i e)) h)
          refl
    | inr e ↦ ground (arith, Pairs-desired ms ids rs id hs)
  ]

  none_wanted : (q : Rule → Bool) → any q [] ≡ false
  unfolding any
  none_wanted q = refl

  taken-desired :
      (ms xs : List ManagedRule) (ids : List ℤ) (rs : List Rule)
      → Pairs host codec base_url ms ids (rev_onto [] rs)
      → AllTaken ids xs
      → All
          (λ (m : ManagedRule).
            any (λ (r : Rule). any (stands_as host codec base_url m.id r) ms) rs ≡ true)
          xs
  taken-desired ms [] ids rs p t = tt
  taken-desired ms (x ∷ xs) ids rs p (t, ts) =
      let q = λ (r : Rule). any (stands_as host codec base_url x.id r) ms in
      (
        any-rev_onto q [] rs (none_wanted q) (Pairs-desired ms ids (rev_onto [] rs) x.id p t),
        taken-desired ms xs ids rs p ts,
      )

  abbrev Settled : List Rule → List ManagedRule → Type 0
  Settled rules ms = AllOwned rules ms × AllDesired rules ms

  Left-Settled :
      (ids : List ℤ) (rules : List Rule) (s : Ctx W)
      → Left ids (rev_onto [] rules) s
      → Settled rules s.state.managed_rules
  Left-Settled ids rules s (p, t) =
      let ms = s.state.managed_rules in
      (
        (All-rev_onto _ [] rules (Pairs-AllOwned ms ids (rev_onto [] rules) p)).1,
        taken-desired ms ms ids rules p t,
      )

  settle-Settled :
      (rules : List Rule) (rows : List RawRule)
      → Meets
          (λ _. Unit {0})
          (settle host codec base_url rules rows)
          (λ _ s. Settled rules s.state.managed_rules)
          (Anything host codec base_url)
  unfolding settle
  settle-Settled rules rows =
      Meets-then (create_wanted-Taken host codec base_url rules [] rows []) λ found. record {
        meet = λ s p.
            let ms = s.state.managed_rules in
            let drop = delete_obsolete-Left found.0 found.1 (rev_onto [] rules) [] ms in
            Outcome-weaken (λ _. Left found.1 (rev_onto [] rules))
              (λ _ s. Settled rules s.state.managed_rules) (Anything host codec base_url)
              (delete_obsolete host codec base_url found.0 found.1 [] ms s)
              (λ _ s. Left-Settled found.1 rules s) (drop.meet s (refl, p, tt));
      }

  check-Anything :
      {A : Type 0} (r : Result Error A)
      → Meets (λ _. Unit {0}) (lift r) (λ _ _. Unit {0}) (Anything host codec base_url)
  check-Anything (ok a) = record { meet = λ s h. tt }
  check-Anything (err e) = record { meet = λ s h. tt }

  reconcile_rules-Settled :
      (s : Ctx W)
      → Outcome
          (λ _ (t : Ctx W). Settled s.state.policy.rules t.state.managed_rules)
          (Anything host codec base_url)
          (reconcile_rules host codec base_url s).0
          (reconcile_rules host codec base_url s).1
  unfolding reconcile_rules
  reconcile_rules-Settled s =
      let rules = s.state.policy.rules in
      (Meets-then (Meets-known (Unit {0}) (reach (known_capabilities host codec base_url))) λ found.
          Meets-then (check-Anything (check_protocols host codec base_url rules found)) λ _.
            Meets-then (Meets-known (Unit {0}) (reach (list_rules host codec base_url)))
              λ rows. settle-Settled rules rows).meet
        s tt

  both_empty :
      (rs : List Rule) (ms : List ManagedRule)
      → ((length rs == 0) && (length ms == 0)) ≡ true
      → Settled rs ms
  both_empty [] [] h = (tt, tt)
  both_empty [] (m ∷ ms) h = ground arith
  both_empty (r ∷ rs) ms h = ground arith

  nothing-Settled :
      (st : State)
      → nothing_to_do host codec base_url st ≡ true
      → Settled st.policy.rules st.managed_rules
  nothing-Settled st h = both_empty st.policy.rules st.managed_rules h

  -- Where `reconcile_rfw` succeeds, each rule of the policy has an owned rule that was made of its
  -- contents under its key, and each owned rule has the identifier of such a rule.
  pub reconcile_rfw-settled :
      (s : Ctx W)
      → is_ok (reconcile_rfw host codec base_url s).0 ≡ true
      → AllOwned s.state.policy.rules (reconcile_rfw host codec base_url s).1.state.managed_rules
        × AllDesired s.state.policy.rules
            (reconcile_rfw host codec base_url s).1.state.managed_rules
  unfolding reconcile_rfw
  reconcile_rfw-settled s = elim (Bool-cases (nothing_to_do host codec base_url s.state)) [
    | inl e ↦ rw (reconcile_rfw, e) (λ done. nothing-Settled s.state e)
    | inr e ↦
        rw (reconcile_rfw, e)
          (λ done.
            Outcome-ok (λ (t : Ctx W). Settled s.state.policy.rules t.state.managed_rules)
              (Anything host codec base_url) (reconcile_rules host codec base_url s)
              (reconcile_rules-Settled s) done)
  ]
