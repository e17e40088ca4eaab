-- ===== src/HostPolicy/Manager/Stored.antt =====
-- src/hostpolicy.rs: the state that `Manager` holds, whatever its operations return.
use runman_agent.Prelude.{
  ◌≡◌, refl, String, false, List, [], ◌∷◌, ◌++◌, any, find, All, arith, inl, inr, Bool-cases,
  Option-cases,
}
use runman_agent.Prelude.Int.{ℤ, pos, ◌≤ℤ◌, ltb_ℤ}
use runman_agent.Prelude.Effect.{ok, Exec, Keeps, Keeps-then, Keeps-given, Keeps-if, Keeps-lift}
use runman_agent.Model.{is_empty}
use runman_agent.Connlimit.Policy.{Texts}
use runman_agent.HostPolicy.{
  Error, Rule, Payload, Policy, RawRule, ManagedRule, State, Host, Codec, Ctx,
}
use runman_agent.HostPolicy.Normalize.{normalize_policy}
use runman_agent.HostPolicy.Normalize.Keys.{HasKey}
use runman_agent.HostPolicy.Service.{
  contains_id, list_rules, known_capabilities, create_rule, remove_rule,
}
use runman_agent.HostPolicy.Manager.{
  reach, change, has_row, raw_of, save, fingerprint, owned_as, is_kept, adopt, create_wanted,
  delete_obsolete, check_protocols, settle, reconcile_rules, reconcile_rfw, nothing_to_do,
}
use runman_agent.HostPolicy.Manager.Load.{is_bad_owner, check_policy, check_state}

abbrev NoBadOwner : List ManagedRule → Type 0
NoBadOwner ms = any is_bad_owner ms ≡ false

-- `load_state` takes the state as it is, its rules have keys, and its revision is at least `r`.
pub record IsSound (texts : Texts) (r : ℤ) (state : State) : Type 0 where
  pub accepted : check_state texts state ≡ ok state
  pub keyed : All HasKey state.policy.rules
  pub at_least : r ≤ℤ state.revision

-- The text of a JSON object is not empty.
pub record WritesObjects (codec : Codec) : Type 0 where
  pub not_empty : (p : Payload) → is_empty (codec.encode_payload p) ≡ false

any-append : (ms ns : List ManagedRule) → NoBadOwner ms → NoBadOwner ns → NoBadOwner (ms ++ ns)
unfolding any
any-append [] ns h k = k
any-append (m ∷ ms) ns h k = ground (arith, any-append ms ns)

NoBadOwner-cons :
    (m : ManagedRule) (ms : List ManagedRule)
    → NoBadOwner (m ∷ ms)
    → NoBadOwner (m ∷ []) × NoBadOwner ms
unfolding any
NoBadOwner-cons m ms h = ground arith

none_bad : NoBadOwner []
unfolding any
none_bad = refl

-- A property of the state that is kept when the owned rules change to valid ones.
pub record Stable (Q : State → Type 0) : Type 0 where
  pub owners : (st : State) → Q st → NoBadOwner st.managed_rules
  pub keys : (st : State) → Q st → All HasKey st.policy.rules
  pub with_owners :
      (ms : List ManagedRule) (st : State)
      → NoBadOwner ms
      → Q st
      → Q (record st { managed_rules = ms })

module _ (texts : Texts) where
  check_state-NoBadOwner : (st : State) → check_state texts st ≡ ok st → NoBadOwner st.managed_rules
  unfolding check_state check_policy
  check_state-NoBadOwner st e = ground arith

  check_state-with_managed :
      (st : State) (ms : List ManagedRule)
      → check_state texts st ≡ ok st
      → NoBadOwner ms
      → check_state texts (record st { managed_rules = ms }) ≡ ok (record st { managed_rules = ms })
  unfolding check_state check_policy
  check_state-with_managed st ms e h = ground arith

  pub check_state-with_policy :
      (st : State) (p : Policy)
      → check_state texts st ≡ ok st
      → normalize_policy texts p ≡ ok p
      → check_state texts (record st { revision = p.revision; policy = p })
        ≡ ok (record st { revision = p.revision; policy = p })
  unfolding check_state check_policy
  check_state-with_policy st p e h = let owners = check_state-NoBadOwner st e in ground arith

  pub IsSound-Stable : (r : ℤ) → Stable (IsSound texts r)
  IsSound-Stable r = record {
    owners = λ st i. check_state-NoBadOwner st i.accepted;
    keys = λ st i. i.keyed;
    with_owners = λ ms st h i. record {
      accepted = check_state-with_managed st ms i.accepted h;
      keyed = i.keyed;
      at_least = i.at_least;
    };
  }

  -- The state holds the policy, as it is written.
  abbrev pub IsHeld : Codec → ℤ → Policy → State → Type 0
  IsHeld codec r p st =
      IsSound texts r st
      × (codec.encode_policy st.policy ≡ codec.encode_policy p)
      × (st.revision ≡ p.revision)

  pub IsHeld-Stable : (codec : Codec) (r : ℤ) (p : Policy) → Stable (IsHeld codec r p)
  IsHeld-Stable codec r p =
      let sound = IsSound-Stable r in
      record {
        owners = λ st i. sound.owners st i.0;
        keys = λ st i. sound.keys st i.0;
        with_owners = λ ms st h (i, e, f). (sound.with_owners ms st h i, e, f);
      }

module _ {W : Type 0} (host : Host W) (codec : Codec) (base_url : String) where
  owned_as-NoBadOwner :
      (desired : Rule) (id : ℤ)
      → HasKey desired
      → ltb_ℤ id (pos 1) ≡ false
      → is_empty (fingerprint host codec base_url desired) ≡ false
      → NoBadOwner (owned_as host codec base_url desired id ∷ [])
  unfolding any
  owned_as-NoBadOwner desired id h k j = ground arith

  create_rule-id :
      (desired : Rule) (w : W) (id : ℤ)
      → (create_rule host codec base_url desired w).0 ≡ ok id
      → ltb_ℤ id (pos 1) ≡ false
  unfolding create_rule
  create_rule-id desired w id e = ground arith

  module _ {Q : State → Type 0} (stable : Stable Q) (json : WritesObjects codec) where
    abbrev pub Sound : Ctx W → Type 0
    Sound s = Q s.state

    pub reach-Keeps : {A : Type 0} (m : Exec Error W A) → Keeps Sound (reach m)
    reach-Keeps m = record { keep = λ s h. h }

    pub save-Keeps : Keeps Sound (save host)
    unfolding save
    save-Keeps = record { keep = λ s h. h }

    change-Keeps : (f : State → State) → ((st : State) → Q st → Q (f st)) → Keeps Sound (change f)
    change-Keeps f k = record { keep = λ s h. k s.state h }

    adopt-Stable :
        (desired : Rule) (id : ℤ) (st : State)
        → HasKey desired
        → ltb_ℤ id (pos 1) ≡ false
        → Q st
        → Q (adopt host codec base_url desired id st)
    adopt-Stable desired id st h k i =
        stable.with_owners _ st
          (any-append st.managed_rules _ (stable.owners st i)
            (owned_as-NoBadOwner desired id h k (json.not_empty _)))
          i

    create_wanted-Keeps :
        (rules : List Rule) (actual : List RawRule) (selected : List ℤ)
        → All HasKey rules
        → Keeps Sound (create_wanted host codec base_url rules actual selected)
    unfolding create_wanted
    create_wanted-Keeps [] actual selected h = record { keep = λ s i. i }
    create_wanted-Keeps (desired ∷ rest) actual selected (h, hs) = record {
      keep = λ s i.
          elim (Option-cases
            (find (is_kept host codec base_url desired actual selected) s.state.managed_rules)) [
              | inr (owned, e) ↦
                  rw (create_wanted, e)
                    ((create_wanted-Keeps rest actual (owned.id ∷ selected) hs).keep s i)
              | inl e ↦
                  rw (create_wanted, e)
                    ((Keeps-given {R = λ id. ltb_ℤ id (pos 1) ≡ false}
                        (reach-Keeps (create_rule host codec base_url desired))
                        (λ s id. create_rule-id desired s.world id)
                        λ id ok_id.
                          Keeps-then (change-Keeps _ λ st. adopt-Stable desired id st h ok_id) λ _.
                            Keeps-then save-Keeps λ _.
                              create_wanted-Keeps rest (actual ++ raw_of id desired ∷ [])
                                (id ∷ selected) hs).keep
                      s i)
            ];
    }

    delete_obsolete-Keeps :
        (actual : List RawRule) (selected : List ℤ) (kept rest : List ManagedRule)
        → NoBadOwner kept
        → NoBadOwner rest
        → Keeps Sound (delete_obsolete host codec base_url actual selected kept rest)
    unfolding delete_obsolete any
    delete_obsolete-Keeps actual selected kept [] h k = record { keep = λ s i. i }
    delete_obsolete-Keeps actual selected kept (owned ∷ rest) h k =
        let (owner, others) = NoBadOwner-cons owned rest k in
        record {
          keep = λ s i. elim (Bool-cases (contains_id selected owned.id)) [
            | inl e ↦
                rw (delete_obsolete, e)
                  ((delete_obsolete-Keeps actual selected (kept ++ owned ∷ []) rest
                      (any-append kept _ h owner) others).keep
                    s i)
            | inr e ↦
                rw (delete_obsolete, e)
                  ((Keeps-then
                      (Keeps-if (has_row actual owned.id)
                        (reach-Keeps (remove_rule host codec base_url owned.id))
                        (Keeps-lift (ok tt)))
                      λ _.
                        Keeps-then
                          (change-Keeps _ λ st.
                            stable.with_owners (kept ++ rest) st (any-append kept rest h others))
                          λ _.
                            Keeps-then save-Keeps
                              λ _. delete_obsolete-Keeps actual selected kept rest h others).keep
                    s i)
          ];
        }

    settle-Keeps :
        (rules : List Rule) (rows : List RawRule)
        → All HasKey rules
        → Keeps Sound (settle host codec base_url rules rows)
    unfolding settle
    settle-Keeps rules rows h = Keeps-then (create_wanted-Keeps rules rows [] h) λ found. record {
      keep = λ s i.
          (delete_obsolete-Keeps found.0 found.1 [] s.state.managed_rules none_bad
              (stable.owners s.state i)).keep
            s i;
    }

    reconcile_rules-Keeps : Keeps Sound (reconcile_rules host codec base_url)
    unfolding reconcile_rules
    reconcile_rules-Keeps = record {
      keep = λ s i.
          (Keeps-then (reach-Keeps (known_capabilities host codec base_url)) λ found.
              Keeps-then
                (Keeps-lift (check_protocols host codec base_url s.state.policy.rules found))
                λ _.
                  Keeps-then (reach-Keeps (list_rules host codec base_url))
                    λ rows. settle-Keeps s.state.policy.rules rows (stable.keys s.state i)).keep
            s i;
    }

    pub reconcile_rfw-Keeps : Keeps Sound (reconcile_rfw host codec base_url)
    unfolding reconcile_rfw
    reconcile_rfw-Keeps = record {
      keep = λ s i. elim (Bool-cases (nothing_to_do host codec base_url s.state)) [
        | inl e ↦ rw (reconcile_rfw, e) i
        | inr e ↦ rw (reconcile_rfw, e) (reconcile_rules-Keeps.keep s i)
      ];
    }
