-- ===== src/HostPolicy/Manager/Settled.antt =====
-- src/hostpolicy.rs: the rules that are owned after `reconcile_rfw` succeeds.
use runman_agent.Prelude.{
  ℕ, ◌≡◌, refl, ◌∙◌, sym, subst, String, Bool, true, false, not, ◌&&◌, Option, none, some, List, [],
  ◌∷◌, ◌++◌, append-nil, append_assoc, if◌then◌else◌, any, find, All, All-append_last, arith, inl,
  inr, str_eq, str_eq_refl, Bool-cases, Option-cases,
}
use runman_agent.Prelude.Int.{ℤ, eqb_ℤ, eq_of_parts}
use runman_agent.Prelude.Search.{
  find_holds, any-find, any-append_left, any-append_last, any-remove, any-weaken, rev_onto,
  All-rev_onto, any-rev_onto,
}
use runman_agent.Prelude.Effect.{
  Result, ok, err, is_ok, Exec, ◌>>=◌, ◌>>◌, pure, lift, Outcome, Meets, Meets-then, Result-cases,
}
use runman_agent.HostPolicy.{Error, Rule, RawRule, ManagedRule, State, Host, Codec, Ctx}
use runman_agent.HostPolicy.Service.{
  contains_id, create_rule, remove_rule, list_rules, known_capabilities,
}
use runman_agent.HostPolicy.Manager.{
  reach, change, has_row, raw_of, save, save_state, fingerprint, is_kept, owned_as, adopt,
  create_wanted, with_managed, delete_obsolete, check_protocols, settle, reconcile_rules,
  reconcile_rfw, nothing_to_do,
}
pub mod Left

module _ {W : Type 0} (host : Host W) (codec : Codec) (base_url : String) where
  -- An owned rule was made of the contents of the desired one, under its key.
  abbrev pub stands_for : Rule → ManagedRule → Bool
  stands_for r m = str_eq m.key r.key && str_eq m.fingerprint (fingerprint host codec base_url r)

  abbrev pub stands_as : ℤ → Rule → ManagedRule → Bool
  stands_as id r m = eqb_ℤ m.id id && stands_for r m

  -- One identifier for each desired rule.
  abbrev pub Pairs : List ManagedRule → List ℤ → List Rule → Type 0
  Pairs ms [] [] = Unit
  Pairs ms [] (r ∷ rs) = ⊥
  Pairs ms (id ∷ ids) [] = ⊥
  Pairs ms (id ∷ ids) (r ∷ rs) = (any (stands_as id r) ms ≡ true) × Pairs ms ids rs

  Pairs-append :
      (ms : List ManagedRule) (m : ManagedRule) (ids : List ℤ) (rs : List Rule)
      → Pairs ms ids rs
      → Pairs (ms ++ m ∷ []) ids rs
  Pairs-append ms m [] [] h = tt
  Pairs-append ms m [] (r ∷ rs) h = h
  Pairs-append ms m (id ∷ ids) [] h = h
  Pairs-append ms m (id ∷ ids) (r ∷ rs) (h, hs) =
      (any-append_left _ ms _ h, Pairs-append ms m ids rs hs)

  pub eqb_ℤ-eq : (a b : ℤ) → eqb_ℤ a b ≡ true → a ≡ b
  eqb_ℤ-eq a b h = eq_of_parts a b (ground arith)

  eqb_refl : (n : ℤ) → eqb_ℤ n n ≡ true
  eqb_refl n = ground arith

  kept-stands :
      (desired : Rule) (actual : List RawRule) (selected : List ℤ) (o : ManagedRule)
      → is_kept host codec base_url desired actual selected o ≡ true
      → stands_as o.id desired o ≡ true
  unfolding is_kept
  kept-stands desired actual selected o h = ground (arith, eqb_refl o.id)

  created-stands :
      (desired : Rule) (id : ℤ)
      → stands_as id desired (owned_as host codec base_url desired id) ≡ true
  created-stands desired id = ground (
    arith,
    eqb_refl id,
    str_eq_refl desired.key,
    str_eq_refl (fingerprint host codec base_url desired),
  )

  abbrev pub Taken : List ℤ → List Rule → Ctx W → Type 0
  Taken selected done s = Pairs s.state.managed_rules selected done

  abbrev pub Anything : Ctx W → Type 0
  Anything s = Unit

  reach-Taken :
      {A : Type 0} (selected : List ℤ) (done : List Rule) (m : Exec Error W A)
      → Meets (Taken selected done) (reach m) (λ _. Taken selected done) Anything
  reach-Taken selected done m = record {
    meet = λ s h. elim (Result-cases (m s.world).0) [ inl (a, e) ↦ rw e h | inr (x, e) ↦ rw e tt ];
  }

  save-Taken :
      (selected : List ℤ) (done : List Rule)
      → Meets (Taken selected done) (save host) (λ _. Taken selected done) Anything
  unfolding save
  save-Taken selected done = record {
    meet = λ s. (reach-Taken selected done (save_state host s.state)).meet s;
  }

  adopt-Taken :
      (desired : Rule) (id : ℤ) (selected : List ℤ) (done : List Rule)
      → Meets
          (Taken selected done)
          (change (adopt host codec base_url desired id))
          (λ _. Taken (id ∷ selected) (desired ∷ done))
          Anything
  adopt-Taken desired id selected done = record {
    meet = λ s h. (
      any-append_last (stands_as id desired) s.state.managed_rules _ (created-stands desired id),
      Pairs-append s.state.managed_rules _ selected done h,
    );
  }

  pub create_wanted-Taken :
      (rules done : List Rule) (actual : List RawRule) (selected : List ℤ)
      → Meets
          (Taken selected done)
          (create_wanted host codec base_url rules actual selected)
          (λ found. Taken found.1 (rev_onto done rules))
          Anything
  unfolding create_wanted rev_onto
  create_wanted-Taken [] done actual selected = record { meet = λ s h. h }
  create_wanted-Taken (desired ∷ rest) done actual selected = record {
    meet = λ s h.
        elim (Option-cases
          (find (is_kept host codec base_url desired actual selected) s.state.managed_rules)) [
            | inr (o, e) ↦
                let p = is_kept host codec base_url desired actual selected in
                let stands =
                  kept-stands desired actual selected o (find_holds p s.state.managed_rules e) in
                rw (create_wanted, e)
                  ((create_wanted-Taken rest (desired ∷ done) actual (o.id ∷ selected)).meet s
                    (any-find p (stands_as o.id desired) s.state.managed_rules e stands, h))
            | inl e ↦
                rw (create_wanted, e)
                  ((Meets-then (reach-Taken selected done (create_rule host codec base_url desired))
                      λ id. Meets-then (adopt-Taken desired id selected done) λ _.
                        Meets-then (save-Taken (id ∷ selected) (desired ∷ done)) λ _.
                          create_wanted-Taken rest (desired ∷ done)
                            (actual ++ raw_of id desired ∷ []) (id ∷ selected)).meet
                    s h)
          ];
  }
