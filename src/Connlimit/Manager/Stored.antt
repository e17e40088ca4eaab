-- ===== src/Connlimit/Manager/Stored.antt =====
-- src/connlimit.rs: the policies that `Manager` holds, whatever its operations return.
use runman_agent.Prelude.{
  ℕ, ◌≡◌, String, Bool, true, not, ◌&&◌, ◌||◌, List, [], ◌∷◌, ◌==◌, All, All-append_last, arith,
  inl, inr, str_eq, retain, find, Option-cases, Bool-cases,
}
use runman_agent.Prelude.Int.{pos, ltb_ℤ, leb_ℤ}
use runman_agent.Prelude.Effect.{
  ok, Exec, Keeps, Keeps-then, Keeps-if, Keeps-bail, Keeps-lift, Result-cases,
}
use runman_agent.Connlimit.Policy.{
  Error, already_limited, different_contents, cleanup_pending, policy_expired, Target, Policy,
  Texts, validate_policy,
}
use runman_agent.Model.{is_empty}
use runman_agent.Connlimit.Firewall.{Host}
use runman_agent.Connlimit.Manager.{
  Ctx, is_loadable, update, has_id, reach, mark_remove, with_ips, strs_eq, now, save, change,
  any_unexpired, install, uninstall, install_or_mark, apply_existing, apply_new, apply_locked,
  check_target, apply, check_release, cleanup, release_found, release_locked, release,
}

-- `load_state` takes the policy.
abbrev pub Loadable : Policy → Type 0
Loadable p = is_loadable p ≡ true

abbrev pub AllLoadable : {W : Type 0} → Ctx W → Type 0
AllLoadable s = All Loadable s.policies

All-update :
    (f : Policy → Policy) (keep : (p : Policy) → Loadable p → Loadable (f p)) (id : String)
    (ps : List Policy)
    → All Loadable ps
    → All Loadable (update f id ps)
unfolding update
All-update f keep id [] h = tt
All-update f keep id (p ∷ ps) (h, hs) = elim (Bool-cases (has_id id p)) [
  | inl e ↦ rw e (keep p h, hs)
  | inr e ↦ rw e (h, All-update f keep id ps hs)
]

All-retain : (q : Policy → Bool) (ps : List Policy) → All Loadable ps → All Loadable (retain q ps)
unfolding retain
All-retain q [] h = tt
All-retain q (p ∷ ps) (h, hs) = elim (Bool-cases (q p)) [
  | inl e ↦ rw e (h, All-retain q ps hs)
  | inr e ↦ rw e (All-retain q ps hs)
]

validate_policy-Loadable :
    (texts : Texts) (p : Policy) (n : ℕ) → validate_policy texts p n ≡ ok tt → Loadable p
unfolding validate_policy
validate_policy-Loadable texts p n e = ground arith

mark_remove-Loadable : (p : Policy) → Loadable p → Loadable (mark_remove p)
unfolding is_loadable
mark_remove-Loadable p h = h

pub with_ips-Loadable : (ips : List String) (p : Policy) → Loadable p → Loadable (with_ips ips p)
unfolding is_loadable
with_ips-Loadable ips p h = h

module _ {W : Type 0} (host : Host W) where
  -- A call that reaches only the world.
  reach-Keeps : {A : Type 0} (m : Exec Error W A) → Keeps AllLoadable (reach m)
  reach-Keeps m = record { keep = λ s h. h }

  save-Keeps : Keeps AllLoadable (save host)
  unfolding save
  save-Keeps = record { keep = λ s h. h }

  now-Keeps : Keeps AllLoadable (now host)
  now-Keeps = record { keep = λ s h. h }

  change-Keeps :
      (f : List Policy → List Policy)
      → ((ps : List Policy) → All Loadable ps → All Loadable (f ps))
      → Keeps AllLoadable (change host f)
  change-Keeps f k = record { keep = λ s h. k s.policies h }

  any_unexpired-Keeps :
      (p : Policy) (ps : List Policy) → Keeps AllLoadable (any_unexpired host p ps)
  unfolding any_unexpired
  any_unexpired-Keeps p [] = record { keep = λ s h. h }
  any_unexpired-Keeps p (q ∷ ps) =
      Keeps-if (str_eq q.vm_id p.vm_id && str_eq q.instance_id p.instance_id)
        (Keeps-then now-Keeps λ n.
          Keeps-if (ltb_ℤ (pos n) q.expires_at) (Keeps-lift (ok true)) (any_unexpired-Keeps p ps))
        (any_unexpired-Keeps p ps)

  mark-Keeps : (id : String) → Keeps AllLoadable (change host (update mark_remove id))
  mark-Keeps id = change-Keeps _ (All-update mark_remove mark_remove-Loadable id)

  module _ (texts : Texts) (bridge : String) (fuel : ℕ) where
    uninstall-Keeps : (p : Policy) → Keeps AllLoadable (uninstall host texts bridge fuel p)
    unfolding uninstall
    uninstall-Keeps p = record { keep = λ s h. h }

    install-Keeps : (p : Policy) → Keeps AllLoadable (install host texts bridge fuel p)
    unfolding install
    install-Keeps p = record { keep = λ s h. h }

    install_or_mark-Keeps :
        (p : Policy) → Keeps AllLoadable (install_or_mark host texts bridge fuel p)
    unfolding install_or_mark
    install_or_mark-Keeps p = record {
      keep = λ s h.
          let h1 = (install-Keeps p).keep s h in
          elim (Result-cases (install host texts bridge fuel p s).0) [
            | inl (u, e) ↦ rw (install_or_mark, e) h1
            | inr (x, e) ↦
                rw (install_or_mark, e)
                  ((Keeps-then (mark-Keeps p.id) λ _. Keeps-then save-Keeps λ _. Keeps-bail x).keep
                    _ h1)
          ];
    }

    apply_new-Keeps :
        (p : Policy) → Loadable p → Keeps AllLoadable (apply_new host texts bridge fuel p)
    unfolding apply_new
    apply_new-Keeps p l = record {
      keep = λ s.
          (Keeps-then (any_unexpired-Keeps p s.policies) λ b.
              Keeps-if b (Keeps-bail already_limited) (
                Keeps-then (change-Keeps _ (λ ps h. All-append_last Loadable ps p h l))
                  λ _. Keeps-then save-Keeps λ _. install_or_mark-Keeps p)).keep
            s;
    }

    apply_existing-Keeps :
        (old p : Policy) → Keeps AllLoadable (apply_existing host texts bridge fuel old p)
    unfolding apply_existing
    apply_existing-Keeps old p =
        Keeps-if
          (not (str_eq old.vm_id p.vm_id)
            || not (str_eq old.instance_id p.instance_id)
            || not (old.max_connections == p.max_connections))
          (Keeps-bail different_contents)
          (Keeps-if old.remove_only (Keeps-bail cleanup_pending) (
            Keeps-then now-Keeps λ n.
              Keeps-if (leb_ℤ old.expires_at (pos n)) (Keeps-bail policy_expired) (
                Keeps-if (not (strs_eq old.ips p.ips))
                  (Keeps-then (uninstall-Keeps old) λ _.
                    Keeps-then
                      (change-Keeps _ (All-update (with_ips p.ips) (with_ips-Loadable p.ips) p.id))
                      λ _. Keeps-then save-Keeps λ _. install_or_mark-Keeps (with_ips p.ips old))
                  (install-Keeps old))))

    cleanup-Keeps : Keeps AllLoadable (cleanup host texts bridge fuel)
    unfolding cleanup
    cleanup-Keeps = record { keep = λ s h. h }

    release_found-Keeps : (p : Policy) → Keeps AllLoadable (release_found host texts bridge fuel p)
    unfolding release_found
    release_found-Keeps p = Keeps-then (mark-Keeps p.id) λ _. Keeps-then save-Keeps λ _.
        Keeps-then (uninstall-Keeps p) λ _.
          Keeps-then (change-Keeps _ (All-retain λ q. not (has_id p.id q)))
            λ _. Keeps-then save-Keeps λ _. cleanup-Keeps

    apply_locked-Keeps :
        (p : Policy) → Loadable p → Keeps AllLoadable (apply_locked host texts bridge fuel p)
    unfolding apply_locked
    apply_locked-Keeps p l = record {
      keep = λ s h. elim (Option-cases (find (has_id p.id) s.policies)) [
        | inl e ↦ rw (apply_locked, e) ((apply_new-Keeps p l).keep s h)
        | inr (old, e) ↦ rw (apply_locked, e) ((apply_existing-Keeps old p).keep s h)
      ];
    }

    -- `apply` keeps the policies such that `load_state` takes each of them, whatever it returns.
    pub apply-AllLoadable :
        (p : Policy) (t : Target) (s : Ctx W)
        → AllLoadable s
        → AllLoadable (apply host texts bridge fuel p t s).1
    unfolding apply
    apply-AllLoadable p t s h =
        let (n, w) = host.clock s.world in
        elim (Result-cases (validate_policy texts p n)) [
          | inr (x, e) ↦ rw (apply, e) h
          | inl (tt, e) ↦
              let l = validate_policy-Loadable texts p n e in
              rw (apply, e)
                ((Keeps-then {P = AllLoadable}
                    (Keeps-lift (check_target host texts bridge fuel p t))
                    λ ips. apply_locked-Keeps (with_ips ips p) (with_ips-Loadable ips p l)).keep
                  _ h)
        ]

    -- `release` keeps the policies such that `load_state` takes each of them, whatever it returns.
    pub release-AllLoadable :
        (id vm_id instance_id : String) (s : Ctx W)
        → AllLoadable s
        → AllLoadable (release host texts bridge fuel id vm_id instance_id s).1
    unfolding release release_locked
    release-AllLoadable id vm_id instance_id s h =
        elim (Result-cases (check_release host texts bridge fuel id vm_id instance_id)) [
          | inr (x, e) ↦ rw (release, e) h
          | inl (u, e) ↦ elim (Option-cases (find (has_id id) s.policies)) [
            | inl none_e ↦ rw (release, e, release_locked, none_e) h
            | inr (p, found) ↦
                rw (release, e, release_locked, found)
                  (elim (Bool-cases (
                    not (str_eq p.vm_id vm_id)
                    || (not (is_empty instance_id) && not (str_eq p.instance_id instance_id)))) [
                      | inl m ↦ rw m h
                      | inr m ↦ rw m ((release_found-Keeps p).keep s h)
                    ])
          ]
        ]
