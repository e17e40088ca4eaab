-- ===== src/HostPolicy/Manager/Held.antt =====
-- src/hostpolicy.rs: the policy that `Manager` holds after `apply` succeeds.
use runman_agent.Prelude.{
  ℕ, ◌≡◌, refl, sym, String, true, All, arith, inl, inr, str_eq, str_eq_iff, Bool-cases,
}
use runman_agent.Prelude.Int.{ℤ, ltb_ℤ, eqb_ℤ, eq_of_parts}
use runman_agent.Prelude.Effect.{
  ok, is_ok, Exec, ◌>>◌, Keeps, Keeps-then, Keeps-Meets, Outcome, Outcome-ok, Meets, Meets-then,
  Result-cases,
}
use runman_agent.Connlimit.Policy.{Texts}
use runman_agent.HostPolicy.{Error, Policy, Host, Codec, Ctx}
use runman_agent.HostPolicy.Text.Cidr.{Readable}
use runman_agent.HostPolicy.Normalize.{normalize_policy}
use runman_agent.HostPolicy.Normalize.Fixed.{normalize_policy-again}
use runman_agent.HostPolicy.Normalize.Keys.{HasKey, normalize_policy-HasKey}
use runman_agent.HostPolicy.Abuse.{verify_bridges}
use runman_agent.HostPolicy.Manager.{
  reach, summary, save, save_state, with_policy, accept, reconcile_rfw, abuse_held, apply,
}
use runman_agent.HostPolicy.Manager.Stored.{
  WritesObjects, IsSound, IsHeld, IsHeld-Stable, reconcile_rfw-Keeps,
}
use runman_agent.HostPolicy.Manager.Accepted.{with_policy-IsSound}

module _ {W : Type 0} (host : Host W) (codec : Codec) (base_url : String) where
  module _ (texts : Texts) (readable : Readable texts) (r : ℤ) (json : WritesObjects codec) where
    abbrev Sound : Ctx W → Type 0
    Sound s = IsSound texts r s.state

    abbrev Held : Policy → Ctx W → Type 0
    Held p s = IsHeld texts codec r p s.state

    abbrev Anything : Ctx W → Type 0
    Anything s = Unit

    reach-Sound : {A : Type 0} (m : Exec Error W A) → Meets Sound (reach m) (λ _. Sound) Anything
    reach-Sound m = record {
      meet =
          λ s h. elim (Result-cases (m s.world).0) [ inl (a, e) ↦ rw e h | inr (x, e) ↦ rw e tt ];
    }

    save-Held : (p : Policy) → Meets (Held p) (save host) (λ _. Held p) Anything
    unfolding save
    save-Held p = record {
      meet = λ s h. elim (Result-cases (save_state host s.state s.world).0) [
        | inl (a, e) ↦ rw e h
        | inr (x, e) ↦ rw e tt
      ];
    }

    accept-Held :
        (p : Policy)
        → (normalize_policy texts p ≡ ok p) × All HasKey p.rules
        → Meets Sound (accept host codec base_url p) (λ _. Held p) Anything
    unfolding accept
    accept-Held p (n, k) = record {
      meet = λ s i. elim (Bool-cases (ltb_ℤ p.revision s.state.revision)) [
        | inl e ↦ rw (accept, e) tt
        | inr e ↦ elim (Bool-cases (eqb_ℤ p.revision s.state.revision)) [
          | inl f ↦
              let asked = codec.encode_policy p in
              let held = codec.encode_policy s.state.policy in
              elim (Bool-cases (str_eq asked held)) [
                | inr g ↦ rw (accept, e, f, g) tt
                | inl g ↦
                    rw (accept, e, f, g)
                      (i, sym ((str_eq_iff asked held).0 g), sym (eq_of_parts _ _ (ground arith)))
              ]
          | inr f ↦
              rw (accept, e, f)
                ((save-Held p).meet (record s { state = with_policy host codec base_url p s.state })
                  (
                    with_policy-IsSound host codec base_url texts readable r json p s.state n k e i,
                    refl,
                    refl,
                  ))
        ]
      ];
    }

    module _ (fuel : ℕ) where
      rest-Held :
          (p : Policy)
          → Keeps (Held p) (do
            reconcile_rfw host codec base_url
            abuse_held host codec base_url fuel
            (λ s. (ok (summary s.state), s)))
      rest-Held p =
          Keeps-then (reconcile_rfw-Keeps host codec base_url (IsHeld-Stable texts codec r p) json)
            λ _.
              Keeps-then {m = abuse_held host codec base_url fuel} (record { keep = λ s i. i })
                λ _. record { keep = λ s i. i }

      apply-Outcome :
          (requested : Policy) {p : Policy} (s : Ctx W)
          → normalize_policy texts requested ≡ ok p
          → IsSound texts r s.state
          → Outcome
              (λ _. Held p)
              Anything
              (apply host codec base_url fuel texts requested s).0
              (apply host codec base_url fuel texts requested s).1
      unfolding apply
      apply-Outcome requested {p} s n i =
          rw (apply, n)
            ((Meets-then (reach-Sound (verify_bridges host p.abuse)) λ _.
                Meets-then
                  (accept-Held p (
                    normalize_policy-again texts readable requested n,
                    normalize_policy-HasKey texts readable requested n,
                  ))
                  λ _. Keeps-Meets (rest-Held p)).meet
              s i)

      -- Where `apply` succeeds, the state holds the policy that was asked for, in its normal form, and
      -- its revision.
      pub apply-IsHeld :
          (requested : Policy) {p : Policy} (s : Ctx W)
          → normalize_policy texts requested ≡ ok p
          → IsSound texts r s.state
          → is_ok (apply host codec base_url fuel texts requested s).0 ≡ true
          → IsHeld texts codec r p (apply host codec base_url fuel texts requested s).1.state
      apply-IsHeld requested {p} s n i done =
          Outcome-ok (Held p) Anything (apply host codec base_url fuel texts requested s)
            (apply-Outcome requested s n i) done
