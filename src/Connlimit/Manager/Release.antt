-- ===== src/Connlimit/Manager/Release.antt =====
-- src/connlimit.rs: the outcome of `Manager::release`.
use runman_agent.Prelude.{
  ℕ, ◌≡◌, refl, subst, String, not, ◌&&◌, ◌||◌, none, some, List, [], ◌∷◌, arith, inl, inr, str_eq,
  str_eq_iff, retain, find, Option-cases, Bool-cases,
}
use runman_agent.Prelude.Effect.{ok, Result-cases}
use runman_agent.Model.{is_empty}
use runman_agent.Connlimit.Policy.{Policy, Texts}
use runman_agent.Connlimit.Firewall.{Host}
use runman_agent.Connlimit.Manager.{
  Ctx, update, has_id, mark_remove, save, uninstall, cleanup, check_release, release_found,
  release_locked, release,
}

find-retain :
    (id : String) (ps : List Policy) → find (has_id id) (retain (λ q. not (has_id id q)) ps) ≡ none
unfolding find retain
find-retain id [] = refl
find-retain id (p ∷ ps) = elim (Bool-cases (has_id id p)) [
  | inl e ↦ rw e (find-retain id ps)
  | inr e ↦ rw (e, e) (find-retain id ps)
]

find-has_id :
    (id : String) (ps : List Policy) (p : Policy) → find (has_id id) ps ≡ some p → p.id ≡ id
unfolding find
find-has_id id [] p e = cc
find-has_id id (q ∷ ps) p e = ground (arith, find-has_id id ps p, str_eq_iff q.id id)

module _ {W : Type 0} (host : Host W) (texts : Texts) (bridge : String) (fuel : ℕ) where
  release_found-removed :
      (p : Policy) (s : Ctx W)
      → (release_found host texts bridge fuel p s).0 ≡ ok tt
      → find (has_id p.id) (release_found host texts bridge fuel p s).1.policies ≡ none
  unfolding release_found save uninstall cleanup
  release_found-removed p s e =
      ground (arith, find-retain p.id (update mark_remove p.id s.policies))

  release_locked-removed :
      (id vm_id instance_id : String) (s : Ctx W)
      → (release_locked host texts bridge fuel id vm_id instance_id s).0 ≡ ok tt
      → find (has_id id) (release_locked host texts bridge fuel id vm_id instance_id s).1.policies
        ≡ none
  unfolding release_locked
  release_locked-removed id vm_id instance_id s =
      elim (Option-cases (find (has_id id) s.policies)) [
        | inl missing ↦ rw (release_locked, missing) (λ e. missing)
        | inr (p, found) ↦
            let removed = release_found-removed p s in
            let same = find-has_id id s.policies p found in
            let removed' =
              subst
                (λ i.
                  (release_found host texts bridge fuel p s).0 ≡ ok tt
                  → find (has_id i) (release_found host texts bridge fuel p s).1.policies ≡ none)
                same removed in
            rw (release_locked, found)
              (elim (Bool-cases (
                not (str_eq p.vm_id vm_id)
                || (not (is_empty instance_id) && not (str_eq p.instance_id instance_id)))) [
                  | inl m ↦ rw m (λ e. cc)
                  | inr m ↦ rw m removed'
                ])
      ]

  -- After a `release` that succeeds no policy has the identifier.
  pub release-removed :
      (id vm_id instance_id : String) (s : Ctx W)
      → (release host texts bridge fuel id vm_id instance_id s).0 ≡ ok tt
      → find (has_id id) (release host texts bridge fuel id vm_id instance_id s).1.policies ≡ none
  unfolding release
  release-removed id vm_id instance_id s =
      elim (Result-cases (check_release host texts bridge fuel id vm_id instance_id)) [
        | inr (x, e) ↦ rw (release, e) (λ e. cc)
        | inl (u, e) ↦ rw (release, e) (release_locked-removed id vm_id instance_id s)
      ]
