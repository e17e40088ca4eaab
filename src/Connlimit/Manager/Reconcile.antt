-- ===== src/Connlimit/Manager/Reconcile.antt =====
-- src/connlimit.rs: `Manager::reconcile`, which walks through the policies by index, removes the ones
-- that are over and installs the rules of the others again, and the delay of the loop around it.
use runman_agent.Prelude.{
  ℕ, zero, suc, ◌+◌, ◌==◌, min, String, Bool, true, false, not, ◌||◌, List, [], ◌∷◌, ◌++◌,
  if◌then◌else◌, str_eq,
}
use runman_agent.Prelude.Int.{pos, pos_part, leb_ℤ}
use runman_agent.Prelude.Effect.{Result, ok, err, Exec}
use runman_agent.Connlimit.Policy.{
  Error, incomplete, Target, Policy, Texts, saturating_sub, validate_ips,
}
use runman_agent.Connlimit.Firewall.{Host, install_rules, remove_rules, cleanup_chain_if_empty}
use runman_agent.Connlimit.Manager.{Ctx, strs_eq, save_state, with_ips}

abbrev pub is_nil : List String → Bool
is_nil [] = true
is_nil (x ∷ xs) = false

-- `validate_ips(..).unwrap_or_default()`
abbrev pub unwrap_or_default : Result Error (List String) → List String
unwrap_or_default (ok ips) = ips
unwrap_or_default (err e) = []

-- What a turn of the loop does with the policy at the index: whether it stays, and as which policy,
-- and how many steps failed; and if it goes, whether the policy after it is passed over.
pub data Turn : Type 0 where
  kept : Policy → ℕ → Turn
  removed : Bool → ℕ → Turn

module _ {W : Type 0} (host : Host W) (texts : Texts) (bridge : String) (fuel : ℕ)
    (resolve : String → W → Result Error Target × W) where
  abbrev pub uninstall : Policy → W → Result Error Unit × W
  unfolding remove_rules
  uninstall p = remove_rules host texts bridge p fuel

  unfoldable pub reinstall : Policy → W → Turn × W
  unfolding install_rules
  reinstall p w =
      let (r, w1) = install_rules host texts bridge p w in
      elim r [ err e ↦ (kept p 1, w1) | ok u ↦ (kept p 0, w1) ]

  -- `done` and `rest` are the policies before and behind the index.
  module _ (done : List Policy) (p : Policy) (rest : List Policy) where
    -- Removes the rules and the policy. After a failed save the index moves on all the same.
    unfoldable pub drop_policy : W → Turn × W
    unfolding remove_rules save_state
    drop_policy w =
        let (r, w1) = uninstall p w in
        let (saved, w2) = save_state host (done ++ rest) w1 in
        elim r [
          | err e ↦ (kept p 1, w1)
          | ok u ↦ elim saved [ err e ↦ (removed true 1, w2) | ok u ↦ (removed false 0, w2) ]
        ]

    -- Its instance does not run: the rules go, the policy stays without addresses.
    unfoldable pub suspend_policy : W → Turn × W
    unfolding remove_rules save_state
    suspend_policy w =
        let (r, w1) = uninstall p w in
        let suspended = with_ips [] p in
        let (saved, w2) = save_state host (done ++ suspended ∷ rest) w1 in
        elim r [
          | err e ↦ (kept p 1, w1)
          | ok u ↦
              if is_nil p.ips
              then (kept p 0, w1)
              else elim saved [ err e ↦ (kept suspended 1, w2) | ok u ↦ (kept suspended 0, w2) ]
        ]

  module _ (done : List Policy) (p : Policy) (rest : List Policy) where
    unfoldable pub renew_policy : List String → W → Turn × W
    unfolding reinstall remove_rules save_state strs_eq
    renew_policy current_ips w =
        let renewed = with_ips current_ips p in
        let (r, w1) = uninstall p w in
        let (saved, w2) = save_state host (done ++ renewed ∷ rest) w1 in
        if not (strs_eq current_ips p.ips)
        then elim r [
          | err e ↦ (kept p 1, w1)
          | ok u ↦ elim saved [ err e ↦ (kept renewed 1, w2) | ok u ↦ reinstall renewed w2 ]
        ]
        else reinstall p w

    unfoldable pub check_live : W → Turn × W
    unfolding drop_policy suspend_policy renew_policy validate_ips
    check_live w =
        let (found, w1) = resolve p.vm_id w in
        elim found [
          | err e ↦ (kept p 1, w1)
          | ok target ↦
              let current_ips = unwrap_or_default (validate_ips texts target.ips) in
              if not target.managed || not (str_eq target.instance_id p.instance_id)
              then drop_policy done p rest w1
              else if not target.running || is_nil current_ips
              then suspend_policy done p rest w1
              else renew_policy current_ips w1
        ]

    -- The clock is read only if the policy is not marked.
    unfoldable pub turn : W → Turn × W
    unfolding drop_policy check_live
    turn w =
        let (n, w1) = host.clock w in
        if p.remove_only
        then drop_policy done p rest w
        else if leb_ℤ p.expires_at (pos n)
        then drop_policy done p rest w1
        else check_live w1

  -- `skip`: the index passes over the first of the policies.
  unfoldable pub walk : Bool → List Policy → List Policy → ℕ → W → (List Policy × ℕ) × W
  unfolding turn
  walk skip done [] failures w = ((done, failures), w)
  walk skip done (p ∷ rest) failures w =
      let (t, w1) = turn done p rest w in
      let passed = walk false (done ++ p ∷ []) rest failures w in
      if skip then passed else elim t [
        | kept p' n ↦ walk false (done ++ p' ∷ []) rest (failures + n) w1
        | removed pass n ↦ walk pass done rest (failures + n) w1
      ]

  unfoldable pub reconcile : Exec Error (Ctx W) Unit
  unfolding walk cleanup_chain_if_empty
  reconcile s =
      let ((policies, failures), w) = walk false [] s.policies 0 s.world in
      let (cleaned, w1) = cleanup_chain_if_empty host fuel policies w in
      let s1 : Ctx W = record { policies = policies; world = w1 } in
      elim cleaned [
        | err e ↦ (err e, s1)
        | ok u ↦ elim failures [ zero ↦ (ok tt, s1) | suc n ↦ (err (incomplete (suc n)), s1) ]
      ]

-- The seconds until the next turn: at most 30, and a policy that is over is due in one. `now` stands
-- for the readings of the clock.
unfoldable pub reconcile_delay : ℕ → List Policy → ℕ
unfolding saturating_sub
reconcile_delay now [] = 30
reconcile_delay now (p ∷ ps) =
    let later = reconcile_delay now ps in
    let left = pos_part (saturating_sub p.expires_at (pos now)) in
    if p.remove_only then later else min later (if left == 0 then 1 else left)
