-- ===== src/HostPolicy/Manager/Accepted.antt =====
-- src/hostpolicy.rs: the state after the operations of `Manager`, and the one loaded from its file.
use runman_agent.Prelude.{
  ℕ, ◌≡◌, String, false, not, Option, some, All, arith, inl, inr, str_eq, Bool-cases,
}
use runman_agent.Prelude.Int.{ℤ, pos, ltb_ℤ, eqb_ℤ}
use runman_agent.Prelude.Effect.{Result, ok, err, ◌>>◌, Keeps, Keeps-then, Keeps-given, Keeps-lift}
use runman_agent.Connlimit.Policy.{Texts}
use runman_agent.Connlimit.Manager.Load.{contents}
use runman_agent.HostPolicy.{Error, Policy, State, Host, Codec, Ctx}
use runman_agent.HostPolicy.Text.Cidr.{Readable}
use runman_agent.HostPolicy.Normalize.{normalize_policy}
use runman_agent.HostPolicy.Normalize.Fixed.{normalize_policy-again}
use runman_agent.HostPolicy.Normalize.Keys.{HasKey, normalize_policy-HasKey}
use runman_agent.HostPolicy.Abuse.{verify_bridges}
use runman_agent.HostPolicy.Manager.{
  summary, with_policy, accept, reconcile_rfw, abuse_held, apply, reconcile_verified, reconcile,
}
use runman_agent.HostPolicy.Manager.Load.{check_state, load_state}
use runman_agent.HostPolicy.Manager.Stored.{
  WritesObjects, IsSound, IsSound-Stable, Sound, reach-Keeps, save-Keeps, reconcile_rfw-Keeps,
  check_state-with_policy,
}

module _ {W : Type 0} (host : Host W) (codec : Codec) (base_url : String) where
  module _ (texts : Texts) (readable : Readable texts) (r : ℤ) (json : WritesObjects codec) where
    pub with_policy-IsSound :
        (p : Policy) (st : State)
        → normalize_policy texts p ≡ ok p
        → All HasKey p.rules
        → ltb_ℤ p.revision st.revision ≡ false
        → IsSound texts r st
        → IsSound texts r (with_policy host codec base_url p st)
    with_policy-IsSound p st n k l i = record {
      accepted = check_state-with_policy texts st p i.accepted n;
      keyed = k;
      at_least = ground (arith, i.at_least);
    }

    accept-Keeps :
        (p : Policy)
        → (normalize_policy texts p ≡ ok p) × All HasKey p.rules
        → Keeps
            (Sound host codec base_url (IsSound-Stable texts r) json)
            (accept host codec base_url p)
    unfolding accept
    accept-Keeps p (n, k) = record {
      keep = λ s i. elim (Bool-cases (ltb_ℤ p.revision s.state.revision)) [
        | inl e ↦ rw (accept, e) i
        | inr e ↦ elim (Bool-cases (eqb_ℤ p.revision s.state.revision)) [
          | inl f ↦
              elim (Bool-cases
                (not (str_eq (codec.encode_policy p) (codec.encode_policy s.state.policy)))) [
                  | inl g ↦ rw (accept, e, f, g) i
                  | inr g ↦ rw (accept, e, f, g) i
                ]
          | inr f ↦
              rw (accept, e, f)
                ((save-Keeps host codec base_url (IsSound-Stable texts r) json).keep
                  (record s { state = with_policy host codec base_url p s.state })
                  (with_policy-IsSound p s.state n k e i))
        ]
      ];
    }

    module _ (fuel : ℕ) where
      held-Keeps :
          Keeps
            (Sound host codec base_url (IsSound-Stable texts r) json)
            (abuse_held host codec base_url fuel)
      held-Keeps = record { keep = λ s i. i }

      apply_rest-Keeps : Keeps (Sound host codec base_url (IsSound-Stable texts r) json) (do
        reconcile_rfw host codec base_url
        abuse_held host codec base_url fuel
        (λ s. (ok (summary s.state), s)))
      apply_rest-Keeps =
          Keeps-then (reconcile_rfw-Keeps host codec base_url (IsSound-Stable texts r) json)
            λ _. Keeps-then held-Keeps λ _. record { keep = λ s i. i }

      -- Whatever `apply` returns, the state that is held can be loaded after a restart, its rules have
      -- keys, and its revision is not below what it was at least before.
      pub apply-IsSound :
          (requested : Policy) (s : Ctx W)
          → IsSound texts r s.state
          → IsSound texts r (apply host codec base_url fuel texts requested s).1.state
      unfolding apply
      apply-IsSound requested s i =
          (Keeps-given {R = λ p. normalize_policy texts requested ≡ ok p}
              (Keeps-lift (normalize_policy texts requested)) (λ s p e. e)
              λ p e.
                Keeps-then
                  (reach-Keeps host codec base_url (IsSound-Stable texts r) json
                    (verify_bridges host p.abuse))
                  λ _.
                    Keeps-then
                      (accept-Keeps p (
                        normalize_policy-again texts readable requested e,
                        normalize_policy-HasKey texts readable requested e,
                      ))
                      λ _. apply_rest-Keeps).keep
            s i

      reconcile_verified-Keeps :
          (v : Result Error Unit)
          → Keeps
              (Sound host codec base_url (IsSound-Stable texts r) json)
              (reconcile_verified host codec base_url fuel v)
      unfolding reconcile_verified
      reconcile_verified-Keeps (err e) = record { keep = λ s i. i }
      reconcile_verified-Keeps (ok u) =
          Keeps-then (reconcile_rfw-Keeps host codec base_url (IsSound-Stable texts r) json)
            λ _. held-Keeps

      -- Whatever `reconcile` returns, the same holds of the state.
      pub reconcile-IsSound :
          (s : Ctx W)
          → IsSound texts r s.state
          → IsSound texts r (reconcile host codec base_url fuel s).1.state
      unfolding reconcile
      reconcile-IsSound s i = elim (Bool-cases (eqb_ℤ s.state.revision (pos 0))) [
        | inl e ↦ rw (reconcile, e) i
        | inr e ↦
            let (verified, w) = verify_bridges host s.state.policy.abuse s.world in
            rw (reconcile, e) ((reconcile_verified-Keeps verified).keep (record s { world = w }) i)
      ]

-- A state that is taken as it is, is what `load_state` returns for the file that it was saved to.
pub load_state-saved :
    (texts : Texts) (decode : String → Option State) (encode : State → String) (state : State)
    → decode (encode state) ≡ some state
    → check_state texts state ≡ ok state
    → load_state texts decode (contents (encode state)) ≡ ok state
unfolding load_state
load_state-saved texts decode encode state decoded h = rw (load_state, decoded) h
