-- ===== src/Connlimit/Manager.antt =====
-- src/connlimit.rs: `Manager`. Its lock makes each operation one step on the saved policies; the
-- bound `fuel` is that of the deletion loops, and `notify_one` is left to the waiting loop.
use runman_agent.Prelude.{
  ℕ, zero, suc, String, Bool, true, false, not, ◌&&◌, ◌||◌, Option, none, some, List, [], ◌∷◌, ◌++◌,
  ◌==◌, ltb, leb, if◌then◌else◌, str_eq, find, any, retain,
}
use runman_agent.Prelude.Int.{ℤ, pos, leb_ℤ, ltb_ℤ, eqb_ℤ}
use runman_agent.Prelude.Effect.{
  Result, ok, err, is_ok, Exec, ◌>>=◌, ◌>>◌, pure, bail, lift, continue,
}
use runman_agent.Model.{is_empty}
use runman_agent.Connlimit.Policy.{
  Error, invalid_vm, invalid_instance, not_running, identity_changed, no_addresses,
  different_contents, cleanup_pending, policy_expired, already_limited, invalid_release,
  identity_mismatch, save_failed, incomplete, Target, Policy, Texts, is_some, valid_policy_id,
  validate_policy, validate_ips,
}
use runman_agent.Connlimit.Firewall.{
  Host, FsCall, create_dir_all, set_dir_mode, create_new, set_file_mode, write_all, sync_all,
  rename, install_rules, remove_rules, cleanup_chain_if_empty,
}
pub mod Reconcile
pub mod Load
pub mod Saved
pub mod Stored
pub mod Walk
pub mod Release

-- The policies in memory, and the rest of the machine.
pub record Ctx (W : Type 0) : Type 0 where
  pub policies : List Policy
  pub world : W

-- A call that reaches only the world.
abbrev pub reach : {W A : Type 0} → Exec Error W A → Exec Error (Ctx W) A
reach m s = let (r, w) = m s.world in (r, record s { world = w })

-- The first policy with the identifier.
abbrev pub has_id : String → Policy → Bool
has_id id p = str_eq p.id id

-- `state.policies[index] = ..` at the first policy with the identifier.
unfoldable pub update : (Policy → Policy) → String → List Policy → List Policy
update f id [] = []
update f id (p ∷ ps) = if has_id id p then f p ∷ ps else p ∷ update f id ps

abbrev pub mark_remove : Policy → Policy
mark_remove p = record p { remove_only = true }

abbrev pub with_ips : List String → Policy → Policy
with_ips ips p = record p { ips = ips }

unfoldable pub strs_eq : List String → List String → Bool
strs_eq [] [] = true
strs_eq [] (y ∷ ys) = false
strs_eq (x ∷ xs) [] = false
strs_eq (x ∷ xs) (y ∷ ys) = if str_eq x y then strs_eq xs ys else false

module _ {W : Type 0} (host : Host W) where
  unfoldable pub call_file : FsCall → Exec Error W Unit
  call_file c w =
      let (done, w1) = host.file_call c w in (if done then ok tt else err save_failed, w1)

  abbrev pub now : Exec Error (Ctx W) ℕ
  now s = let (n, w) = host.clock s.world in (ok n, record s { world = w })

  unfoldable pub save_state : List Policy → Exec Error W Unit
  unfolding call_file
  save_state policies = do
    call_file create_dir_all
    call_file set_dir_mode
    temp ← (λ w. let (name, w1) = host.new_temp w in (ok name, w1))
    call_file (create_new temp)
    call_file (set_file_mode temp)
    call_file (write_all temp policies)
    call_file (sync_all temp)
    call_file (rename temp)

  unfoldable pub save : Exec Error (Ctx W) Unit
  unfolding save_state
  save s = reach (save_state s.policies) s

  abbrev pub change : (List Policy → List Policy) → Exec Error (Ctx W) Unit
  change f s = (ok tt, record s { policies = f s.policies })

  -- `any`: the clock is read at each policy of the same instance until one has not expired.
  unfoldable pub any_unexpired : Policy → List Policy → Exec Error (Ctx W) Bool
  any_unexpired policy [] = pure false
  any_unexpired policy (old ∷ rest) =
      let later = any_unexpired policy rest in
      if str_eq old.vm_id policy.vm_id && str_eq old.instance_id policy.instance_id
      then (do n ← now; if ltb_ℤ (pos n) old.expires_at then pure true else later)
      else later

  module _ (texts : Texts) (bridge : String) (fuel : ℕ) where
    abbrev pub install : Policy → Exec Error (Ctx W) Unit
    unfolding install_rules
    install p = reach (install_rules host texts bridge p)

    abbrev pub uninstall : Policy → Exec Error (Ctx W) Unit
    unfolding remove_rules
    uninstall p = reach (remove_rules host texts bridge p fuel)

    -- The rules are installed; if that fails, the saved policy is marked for removal.
    unfoldable pub install_or_mark : Policy → Exec Error (Ctx W) Unit
    unfolding save install_rules update
    install_or_mark p s =
        let (done, s1) = install p s in
        elim done [
          | ok u ↦ (ok tt, s1)
          | err cause ↦ (do change (update mark_remove p.id); save; bail cause) s1
        ]

    unfoldable pub apply_existing : Policy → Policy → Exec Error (Ctx W) Unit
    unfolding install_or_mark strs_eq update save
    apply_existing old policy =
        if not (str_eq old.vm_id policy.vm_id)
          || not (str_eq old.instance_id policy.instance_id)
          || not (old.max_connections == policy.max_connections)
        then bail different_contents
        else if old.remove_only
        then bail cleanup_pending
        else (do
          n ← now
          if leb_ℤ old.expires_at (pos n)
              then bail policy_expired
              else if not (strs_eq old.ips policy.ips)
              then (do
                uninstall old
                change (update (with_ips policy.ips) policy.id)
                save
                install_or_mark (with_ips policy.ips old))
              else install old)

    unfoldable pub apply_new : Policy → Exec Error (Ctx W) Unit
    unfolding any_unexpired save install_or_mark
    apply_new policy s =
        (do
          limited ← any_unexpired policy s.policies
          if limited
              then bail already_limited
              else (do change (λ ps. ps ++ policy ∷ []); save; install_or_mark policy))
          s

    -- What `apply` does under the lock.
    unfoldable pub apply_locked : Policy → Exec Error (Ctx W) Unit
    unfolding apply_existing apply_new find
    apply_locked policy s = elim (find (has_id policy.id) s.policies) [
      | some old ↦ apply_existing old policy s
      | none ↦ apply_new policy s
    ]

    -- The checks on the target, and the addresses that the policy gets.
    unfoldable pub check_target : Policy → Target → Result Error (List String)
    unfolding validate_ips
    check_target policy target =
        if not target.managed || not target.running
        then err not_running
        else if not (str_eq target.instance_id policy.instance_id)
        then err identity_changed
        else elim (validate_ips texts target.ips) [
          | err e ↦ err e
          | ok [] ↦ err no_addresses
          | ok (ip ∷ ips) ↦ ok (ip ∷ ips)
        ]

    unfoldable pub apply : Policy → Target → Exec Error (Ctx W) Unit
    unfolding validate_policy check_target apply_locked
    apply policy target = do
      n ← now
      lift (validate_policy texts policy n)
      ips ← lift (check_target policy target)
      apply_locked (with_ips ips policy)

    unfoldable pub check_release : String → String → String → Result Error Unit
    unfolding valid_policy_id
    check_release id vm_id instance_id =
        if not (valid_policy_id id) || is_empty vm_id
        then err invalid_release
        else if not (is_some (texts.parse_uuid vm_id))
        then err invalid_vm
        else if not (is_empty instance_id) && not (is_some (texts.parse_uuid instance_id))
        then err invalid_instance
        else ok tt

    abbrev pub cleanup : Exec Error (Ctx W) Unit
    unfolding cleanup_chain_if_empty
    cleanup s = reach (cleanup_chain_if_empty host fuel s.policies) s

    -- Marked and saved first, so that a failed removal is tried again.
    unfoldable pub release_found : Policy → Exec Error (Ctx W) Unit
    unfolding save remove_rules update retain cleanup
    release_found p = do
      change (update mark_remove p.id)
      save
      uninstall p
      change (retain (λ q. not (has_id p.id q)))
      save
      cleanup

    -- What `release` does under the lock.
    unfoldable pub release_locked : String → String → String → Exec Error (Ctx W) Unit
    unfolding release_found find
    release_locked id vm_id instance_id s = elim (find (has_id id) s.policies) [
      | none ↦ (ok tt, s)
      | some p ↦
          if not (str_eq p.vm_id vm_id)
            || (not (is_empty instance_id) && not (str_eq p.instance_id instance_id))
          then (err identity_mismatch, s)
          else release_found p s
    ]

    unfoldable pub release : String → String → String → Exec Error (Ctx W) Unit
    unfolding check_release release_locked
    release id vm_id instance_id = do
      lift (check_release id vm_id instance_id)
      release_locked id vm_id instance_id

-- What `load_state` accepts of a file of policies.
abbrev pub is_loadable : Policy → Bool
unfolding valid_policy_id
is_loadable p = valid_policy_id p.id && not (is_empty p.vm_id) && not (ltb p.max_connections 100)
