-- ===== src/Connlimit/Manager/Walk.antt =====
-- src/connlimit.rs: the policies behind a turn of the loop of `reconcile`, and behind all of it.
use runman_agent.Prelude.{
  ℕ, ◌+◌, ◌≤◌, ◌≡◌, ◌⊎◌, refl, sym, subst, String, Bool, true, false, not, ◌||◌, List, [], ◌∷◌,
  ◌++◌, All, All-append_last, arith, inl, inr, str_eq, if◌then◌else◌,
}
use runman_agent.Prelude.Int.{pos, leb_ℤ}
use runman_agent.Prelude.Effect.{Result, ok, Result-cases}
use runman_agent.Connlimit.Policy.{Error, Target, Policy, Texts, validate_ips}
use runman_agent.Connlimit.Firewall.{Host}
use runman_agent.Connlimit.Manager.{Ctx, with_ips}
use runman_agent.Connlimit.Manager.Reconcile.{
  Turn, kept, removed, is_nil, unwrap_or_default, drop_policy, suspend_policy, reinstall,
  renew_policy, check_live, turn, walk, reconcile,
}
use runman_agent.Connlimit.Manager.Stored.{Loadable, with_ips-Loadable}

-- A policy that stays keeps all but its addresses, and if it is to be removed a step failed; if the
-- policy behind a removed one is passed over, a step failed.
abbrev pub Sound : Policy → Turn → Type 0
Sound p (kept p' n) = (p' ≡ with_ips p'.ips p) × (p.remove_only ≡ true → 1 ≤ n)
Sound p (removed pass n) = pass ≡ true → 1 ≤ n

Sound-if :
    {W : Type 0} (p : Policy) (b : Bool) (x y : Turn × W)
    → Sound p x.0
    → (b ≡ false → Sound p y.0)
    → Sound p (if b then x else y).0
Sound-if p true x y h k = h
Sound-if p false x y h k = k refl

Turn-cases :
    (t : Turn)
    → ((p : Policy) × (n : ℕ) × (t ≡ kept p n)) ⊎ ((pass : Bool) × (n : ℕ) × (t ≡ removed pass n))
Turn-cases (kept p n) = inl (p, n, refl)
Turn-cases (removed pass n) = inr (pass, n, refl)

module _ {W : Type 0} (host : Host W) (texts : Texts) (bridge : String) (fuel : ℕ)
    (resolve : String → W → Result Error Target × W) (done : List Policy) (rest : List Policy) where
  drop_policy-Sound :
      (p : Policy) (w : W) → Sound p (drop_policy host texts bridge fuel resolve done p rest w).0
  unfolding drop_policy
  drop_policy-Sound p w = ground arith

  reinstall-Sound :
      (p : Policy) (w : W)
      → p.remove_only ≡ false
      → Sound p (reinstall host texts bridge fuel resolve p w).0
  unfolding reinstall
  reinstall-Sound p w live = ground arith

  suspend_policy-Sound :
      (p : Policy) (w : W)
      → p.remove_only ≡ false
      → Sound p (suspend_policy host texts bridge fuel resolve done p rest w).0
  unfolding suspend_policy
  suspend_policy-Sound p w live = ground arith

  renew_policy-Sound :
      (p : Policy) (ips : List String) (w : W)
      → p.remove_only ≡ false
      → Sound p (renew_policy host texts bridge fuel resolve done p rest ips w).0
  unfolding renew_policy reinstall
  renew_policy-Sound p ips w live = ground arith

  check_live-Sound :
      (p : Policy) (w : W)
      → p.remove_only ≡ false
      → Sound p (check_live host texts bridge fuel resolve done p rest w).0
  unfolding check_live
  check_live-Sound p w live = elim (Result-cases (resolve p.vm_id w).0) [
    | inr (x, e) ↦ rw (check_live, e) (refl, λ marked. omega arith)
    | inl (target, e) ↦
        let w1 = (resolve p.vm_id w).1 in
        rw (check_live, e)
          (Sound-if p (not target.managed || not (str_eq target.instance_id p.instance_id)) _ _
            (drop_policy-Sound p w1)
            (λ _.
              Sound-if p
                (not target.running || is_nil (unwrap_or_default (validate_ips texts target.ips))) _
                _ (suspend_policy-Sound p w1 live)
                (λ _.
                  renew_policy-Sound p (unwrap_or_default (validate_ips texts target.ips)) w1
                    live)))
  ]

  turn-Sound : (p : Policy) (w : W) → Sound p (turn host texts bridge fuel resolve done p rest w).0
  unfolding turn
  turn-Sound p w =
      let (n, w1) = host.clock w in
      Sound-if p p.remove_only _ _ (drop_policy-Sound p w) λ live.
        Sound-if p (leb_ℤ p.expires_at (pos n)) _ _ (drop_policy-Sound p w1)
          λ _. check_live-Sound p w1 live

abbrev pub Live : Policy → Type 0
Live p = p.remove_only ≡ false

kept-Live : (p : Policy) (n : ℕ) → (p.remove_only ≡ true → 1 ≤ n) → n ≡ 0 → Live p
kept-Live p n marked z = ground arith

module _ {W : Type 0} (host : Host W) (texts : Texts) (bridge : String) (fuel : ℕ)
    (resolve : String → W → Result Error Target × W) where
  walk-failures :
      (skip : Bool) (done ps : List Policy) (f : ℕ) (w : W)
      → f ≤ (walk host texts bridge fuel resolve skip done ps f w).0.1
  unfolding walk
  walk-failures skip done [] f w = omega arith
  walk-failures true done (p ∷ rest) f w = walk-failures false (done ++ p ∷ []) rest f w
  walk-failures false done (p ∷ rest) f w =
      let (t, w1) = turn host texts bridge fuel resolve done p rest w in
      elim (Turn-cases t) [
        | inl (p', n, e) ↦
            rw (walk, e) (omega (arith, walk-failures false (done ++ p' ∷ []) rest (f + n) w1))
        | inr (pass, n, e) ↦ rw (walk, e) (omega (arith, walk-failures pass done rest (f + n) w1))
      ]

  walk-kept :
      (done : List Policy) (p : Policy) (rest : List Policy) (f : ℕ) (w : W) (p' : Policy) (n : ℕ)
      → (turn host texts bridge fuel resolve done p rest w).0 ≡ kept p' n
      → walk host texts bridge fuel resolve false done (p ∷ rest) f w
        ≡ walk host texts bridge fuel resolve false
            (done ++ p' ∷ [])
            rest
            (f + n)
            (turn host texts bridge fuel resolve done p rest w).1
  unfolding walk
  walk-kept done p rest f w p' n e = rw (walk, e) refl

  walk-removed :
      (done : List Policy) (p : Policy) (rest : List Policy) (f : ℕ) (w : W) (pass : Bool) (n : ℕ)
      → (turn host texts bridge fuel resolve done p rest w).0 ≡ removed pass n
      → walk host texts bridge fuel resolve false done (p ∷ rest) f w
        ≡ walk host texts bridge fuel resolve pass done rest
            (f + n)
            (turn host texts bridge fuel resolve done p rest w).1
  unfolding walk
  walk-removed done p rest f w pass n e = rw (walk, e) refl

  -- Without a failed step, every policy that is left is live.
  abbrev Cleared : (List Policy × ℕ) × W → Type 0
  Cleared ((policies, failures), w) = failures ≡ 0 → All Live policies

  walk-Cleared :
      (skip : Bool) (done ps : List Policy) (f : ℕ) (w : W)
      → (skip ≡ true → 1 ≤ f)
      → (f ≡ 0 → All Live done)
      → Cleared (walk host texts bridge fuel resolve skip done ps f w)
  unfolding walk
  walk-Cleared skip done [] f w s h = h
  walk-Cleared true done (p ∷ rest) f w s h =
      λ z. absurd (omega (arith, s refl, z, walk-failures false (done ++ p ∷ []) rest f w))
  walk-Cleared false done (p ∷ rest) f w s h =
      let (t, w1) = turn host texts bridge fuel resolve done p rest w in
      elim (Turn-cases t) [
        | inl (p', n, e) ↦
            let (same, marked) =
              subst (Sound p) e (turn-Sound host texts bridge fuel resolve done rest p w) in
            subst Cleared (sym (walk-kept done p rest f w p' n e)) (
              walk-Cleared false (done ++ p' ∷ []) rest (f + n) w1 (λ q. ground arith)
                (λ z.
                  All-append_last Live done p' (h (omega arith))
                    (rw same (kept-Live p n marked (omega arith)))))
        | inr (pass, n, e) ↦
            let passes =
              subst (Sound p) e (turn-Sound host texts bridge fuel resolve done rest p w) in
            subst Cleared (sym (walk-removed done p rest f w pass n e)) (
              walk-Cleared pass done rest (f + n) w1 (λ q. omega (arith, passes q))
                (λ z. h (omega arith)))
      ]

  walk-Loadable :
      (skip : Bool) (done ps : List Policy) (f : ℕ) (w : W)
      → All Loadable done
      → All Loadable ps
      → All Loadable (walk host texts bridge fuel resolve skip done ps f w).0.0
  unfolding walk
  walk-Loadable skip done [] f w h k = h
  walk-Loadable true done (p ∷ rest) f w h (k, ks) =
      walk-Loadable false (done ++ p ∷ []) rest f w (All-append_last Loadable done p h k) ks
  walk-Loadable false done (p ∷ rest) f w h (k, ks) =
      let (t, w1) = turn host texts bridge fuel resolve done p rest w in
      elim (Turn-cases t) [
        | inl (p', n, e) ↦
            let (same, marked) =
              subst (Sound p) e (turn-Sound host texts bridge fuel resolve done rest p w) in
            subst (λ r. All Loadable r.0.0) (sym (walk-kept done p rest f w p' n e))
              (walk-Loadable false (done ++ p' ∷ []) rest (f + n) w1
                (All-append_last Loadable done p' h
                  (subst Loadable (sym same) (with_ips-Loadable p'.ips p k)))
                ks)
        | inr (pass, n, e) ↦
            subst (λ r. All Loadable r.0.0) (sym (walk-removed done p rest f w pass n e))
              (walk-Loadable pass done rest (f + n) w1 h ks)
      ]

  -- After a `reconcile` that succeeds no policy is left that is marked for removal.
  pub reconcile-Live :
      (s : Ctx W)
      → (reconcile host texts bridge fuel resolve s).0 ≡ ok tt
      → All Live (reconcile host texts bridge fuel resolve s).1.policies
  unfolding reconcile
  reconcile-Live s e =
      let walked = walk-Cleared false [] s.policies 0 s.world (λ q. ground arith) (λ z. tt) in
      ground arith

  -- `reconcile` keeps the policies such that `load_state` takes each of them, whatever it returns.
  pub reconcile-Loadable :
      (s : Ctx W)
      → All Loadable s.policies
      → All Loadable (reconcile host texts bridge fuel resolve s).1.policies
  unfolding reconcile
  reconcile-Loadable s h =
      let walked = walk-Loadable false [] s.policies 0 s.world tt h in ground arith
