-- ===== src/Connlimit/Manager/Saved.antt =====
-- src/connlimit.rs: the file of policies after the operations of `Manager`.
use runman_agent.Prelude.{
  ℕ, ◌≡◌, ◌⊎◌, ◌∙◌, refl, String, true, not, ◌||◌, ◌&&◌, Option, none, some, List, [], ◌∷◌, ◌++◌,
  All, find, str_eq, inl, inr, Option-cases, Bool-cases, ◌==◌,
}
use runman_agent.Prelude.Int.{pos, leb_ℤ, ltb_ℤ}
use runman_agent.Prelude.Effect.{
  ok, is_ok, Exec, ◌>>◌, bail, Keeps, Keeps-then, Keeps-if, Keeps-lift, Keeps-Meets, Outcome-ok,
  Meets, Meets-then, Meets-if, Result-cases,
}
use runman_agent.Connlimit.Policy.{
  Error, different_contents, cleanup_pending, policy_expired, already_limited, Target, Policy,
  Texts, validate_policy,
}
use runman_agent.Connlimit.Firewall.{
  Host, FsCall, create_dir_all, set_dir_mode, create_new, set_file_mode, write_all, sync_all,
  rename, install_rules, remove_rules,
}
use runman_agent.Connlimit.Firewall.Untouched.{RunKeeps, install_rules-Keeps, remove_rules-Keeps}
use runman_agent.Connlimit.Manager.{
  Ctx, reach, has_id, update, mark_remove, with_ips, strs_eq, call_file, now, save_state, save,
  change, any_unexpired, install, uninstall, install_or_mark, apply_existing, apply_new,
  apply_locked, check_target, apply,
}
use runman_agent.Connlimit.Manager.Load.{ReadFile, contents, not_found, load_state, all-Loadable}
use runman_agent.Connlimit.Manager.Stored.{Loadable, AllLoadable, apply-AllLoadable}

-- `std::fs::read` of the file.
abbrev pub read : Option String → ReadFile
read none = not_found
read (some raw) = contents raw

-- What the calls are documented to do: `file w` is what the file of policies holds, `temp t w` what the
-- temporary file `t` holds, and `encode` the text that is written. A new file is empty, a renaming puts
-- the one file in the place of the other or changes nothing, and neither the clock nor the packet filter
-- touches the file.
pub record FileLaws {W : Type 0} (host : Host W) (encode : List Policy → String)
    (file : W → Option String) (temp : String → W → Option String) : Type 0 where
  pub run_file : (x : Option String) → RunKeeps host (λ w. file w ≡ x)
  pub clock_file : (w : W) → file (host.clock w).1 ≡ file w
  pub created :
      (t : String) (w : W)
      → (host.file_call (create_new t) w).0 ≡ true
      → temp t (host.file_call (create_new t) w).1 ≡ some ""
  pub mode_kept : (t : String) (w : W) → temp t (host.file_call (set_file_mode t) w).1 ≡ temp t w
  pub written :
      (t : String) (ps : List Policy) (w : W)
      → temp t w ≡ some ""
      → (host.file_call (write_all t ps) w).0 ≡ true
      → temp t (host.file_call (write_all t ps) w).1 ≡ some (encode ps)
  pub synced : (t : String) (w : W) → temp t (host.file_call (sync_all t) w).1 ≡ temp t w
  pub renamed :
      (t : String) (w : W)
      → (host.file_call (rename t) w).0 ≡ true
      → file (host.file_call (rename t) w).1 ≡ temp t w

abbrev Anything : {S : Type 0} → S → Type 0
Anything s = Unit

module _ {W : Type 0} (host : Host W) (encode : List Policy → String) (file : W → Option String)
    (temp : String → W → Option String) (laws : FileLaws host encode file temp) where
  call_file-Meets :
      (c : FsCall) (P Q : W → Type 0)
      → ((w : W) → P w → (host.file_call c w).0 ≡ true → Q (host.file_call c w).1)
      → Meets P (call_file host c) (λ _. Q) Anything
  unfolding call_file
  call_file-Meets c P Q done = record {
    meet = λ w p. elim (Bool-cases (host.file_call c w).0) [
      | inl e ↦ rw e (done w p e)
      | inr e ↦ rw e tt
    ];
  }

  abbrev put : String → List Policy → Exec Error W Unit
  put t ps = do
    call_file host (create_new t)
    call_file host (set_file_mode t)
    call_file host (write_all t ps)
    call_file host (sync_all t)
    call_file host (rename t)

  put-Meets :
      (t : String) (ps : List Policy)
      → Meets Anything (put t ps) (λ _ w. file w ≡ some (encode ps)) Anything
  put-Meets t ps =
      Meets-then {Q = λ _ w. temp t w ≡ some ""} {m = call_file host (create_new t)}
        (call_file-Meets (create_new t) _ _ (λ w p e. laws.created t w e))
        λ _.
          Meets-then {Q = λ _ w. temp t w ≡ some ""} {m = call_file host (set_file_mode t)}
            (call_file-Meets (set_file_mode t) _ _ (λ w p e. laws.mode_kept t w ∙ p))
            λ _.
              Meets-then {Q = λ _ w. temp t w ≡ some (encode ps)}
                {m = call_file host (write_all t ps)}
                (call_file-Meets (write_all t ps) _ _ (λ w p e. laws.written t ps w p e))
                λ _.
                  Meets-then {Q = λ _ w. temp t w ≡ some (encode ps)}
                    {m = call_file host (sync_all t)}
                    (call_file-Meets (sync_all t) _ _ (λ w p e. laws.synced t w ∙ p))
                    λ _. call_file-Meets (rename t) _ _ (λ w p e. laws.renamed t w e ∙ p)

  save_state-Meets :
      (ps : List Policy)
      → Meets Anything (save_state host ps) (λ _ w. file w ≡ some (encode ps)) Anything
  unfolding save_state
  save_state-Meets ps =
      Meets-then {Q = λ _. Anything} {m = call_file host create_dir_all}
        (call_file-Meets create_dir_all _ _ (λ w p e. tt))
        λ _.
          Meets-then {Q = λ _. Anything} {m = call_file host set_dir_mode}
            (call_file-Meets set_dir_mode _ _ (λ w p e. tt))
            λ _. record {
              meet = λ w p. (put-Meets (host.new_temp w).0 ps).meet (host.new_temp w).1 tt;
            }

  -- Either the file holds the policies, or neither has changed since `old` and `raw`.
  module _ (old : List Policy) (raw : Option String) where
    abbrev Filed : Ctx W → Type 0
    Filed s =
        (file s.world ≡ some (encode s.policies)) ⊎ ((s.policies ≡ old) × (file s.world ≡ raw))

    abbrev Saves : {A : Type 0} → Exec Error (Ctx W) A → Type 0
    Saves m = Meets Anything m (λ _. Filed) Anything

    save-Saves : Saves (save host)
    unfolding save
    save-Saves = record {
      meet = λ s p.
          let o = (save_state-Meets s.policies).meet s.world tt in
          elim (Result-cases (save_state host s.policies s.world).0) [
            | inl (u, e) ↦ rw e (inl (rw e at o))
            | inr (x, e) ↦ rw e tt
          ];
    }

    reach-Filed :
        {A : Type 0} (m : Exec Error W A)
        → ((x : Option String) → Keeps (λ w. file w ≡ x) m)
        → Keeps Filed (reach m)
    reach-Filed m k = record {
      keep = λ s h. elim h [
        | inl e ↦ inl ((k (file s.world)).keep s.world refl ∙ e)
        | inr (e, f) ↦ inr (e, (k (file s.world)).keep s.world refl ∙ f)
      ];
    }

    now-Filed : Keeps Filed (now host)
    now-Filed = record {
      keep = λ s h. elim h [
        | inl e ↦ inl (laws.clock_file s.world ∙ e)
        | inr (e, f) ↦ inr (e, laws.clock_file s.world ∙ f)
      ];
    }

    change-Meets :
        {P : Ctx W → Type 0} (f : List Policy → List Policy)
        → Meets P (change host f) (λ _. Anything) Anything
    change-Meets f = record { meet = λ s p. tt }

    abbrev Ends : {A : Type 0} → Exec Error (Ctx W) A → Type 0
    Ends m = Meets Filed m (λ _. Filed) Anything

    bail-Ends : {A : Type 0} (e : Error) → Ends (bail {A = A} e)
    bail-Ends e = record { meet = λ s h. tt }

    any_unexpired-Filed : (p : Policy) (ps : List Policy) → Keeps Filed (any_unexpired host p ps)
    unfolding any_unexpired
    any_unexpired-Filed p [] = record { keep = λ s h. h }
    any_unexpired-Filed p (q ∷ ps) =
        Keeps-if (str_eq q.vm_id p.vm_id && str_eq q.instance_id p.instance_id)
          (Keeps-then now-Filed λ n.
            Keeps-if (ltb_ℤ (pos n) q.expires_at) (Keeps-lift (ok true)) (any_unexpired-Filed p ps))
          (any_unexpired-Filed p ps)

    module _ (texts : Texts) (bridge : String) (fuel : ℕ) where
      install-Filed : (p : Policy) → Keeps Filed (install host texts bridge fuel p)
      unfolding install
      install-Filed p =
          reach-Filed (install_rules host texts bridge p)
            λ x. install_rules-Keeps host _ (laws.run_file x) texts bridge p

      uninstall-Filed : (p : Policy) → Keeps Filed (uninstall host texts bridge fuel p)
      unfolding uninstall
      uninstall-Filed p =
          reach-Filed (remove_rules host texts bridge p fuel)
            λ x. remove_rules-Keeps host _ (laws.run_file x) texts bridge p fuel

      -- Whatever was to be marked, the operation fails.
      marked-Ends :
          (p : Policy) (x : Error)
          → Meets Anything
              (do change host (update mark_remove p.id); save host; bail {A = Unit} x)
              (λ _. Filed)
              Anything
      marked-Ends p x =
          Meets-then {m = change host (update mark_remove p.id)} (change-Meets _)
            λ _. Meets-then {m = save host} save-Saves λ _. bail-Ends x

      install_or_mark-Ends : (p : Policy) → Ends (install_or_mark host texts bridge fuel p)
      unfolding install_or_mark
      install_or_mark-Ends p = record {
        meet = λ s h.
            let h1 = (install-Filed p).keep s h in
            elim (Result-cases (install host texts bridge fuel p s).0) [
              | inl (u, e) ↦ rw (install_or_mark, e) h1
              | inr (x, e) ↦ rw (install_or_mark, e) ((marked-Ends p x).meet _ tt)
            ];
      }

      -- The policies are changed and saved, and the rules installed.
      changed-Ends :
          (f : List Policy → List Policy) (p : Policy)
          → Ends (do change host f; save host; install_or_mark host texts bridge fuel p)
      changed-Ends f p =
          Meets-then {m = change host f} (change-Meets f)
            λ _. Meets-then {m = save host} save-Saves λ _. install_or_mark-Ends p

      apply_new-Ends : (p : Policy) → Ends (apply_new host texts bridge fuel p)
      unfolding apply_new
      apply_new-Ends p = record {
        meet = λ s.
            (Meets-then (Keeps-Meets (any_unexpired-Filed p s.policies)) λ b.
                Meets-if b (bail-Ends already_limited) (changed-Ends (λ ps. ps ++ p ∷ []) p)).meet
              s;
      }

      apply_existing-Ends : (was p : Policy) → Ends (apply_existing host texts bridge fuel was p)
      unfolding apply_existing
      apply_existing-Ends was p =
          Meets-if
            (not (str_eq was.vm_id p.vm_id)
              || not (str_eq was.instance_id p.instance_id)
              || not (was.max_connections == p.max_connections))
            (bail-Ends different_contents)
            (Meets-if was.remove_only (bail-Ends cleanup_pending) (
              Meets-then (Keeps-Meets now-Filed) λ n.
                Meets-if (leb_ℤ was.expires_at (pos n)) (bail-Ends policy_expired) (
                  Meets-if (not (strs_eq was.ips p.ips))
                    (Meets-then (Keeps-Meets (uninstall-Filed was))
                      λ _. changed-Ends (update (with_ips p.ips) p.id) (with_ips p.ips was))
                    (Keeps-Meets (install-Filed was)))))

      apply_locked-Ends : (p : Policy) → Ends (apply_locked host texts bridge fuel p)
      unfolding apply_locked
      apply_locked-Ends p = record {
        meet = λ s h. elim (Option-cases (find (has_id p.id) s.policies)) [
          | inl e ↦ rw (apply_locked, e) ((apply_new-Ends p).meet s h)
          | inr (was, e) ↦ rw (apply_locked, e) ((apply_existing-Ends was p).meet s h)
        ];
      }

      apply-Ends : (p : Policy) (t : Target) → Ends (apply host texts bridge fuel p t)
      unfolding apply
      apply-Ends p t = Meets-then (Keeps-Meets now-Filed) λ n.
          Meets-then (Keeps-Meets (Keeps-lift (validate_policy texts p n))) λ _.
            Meets-then (Keeps-Meets (Keeps-lift (check_target host texts bridge fuel p t)))
              λ ips. apply_locked-Ends (with_ips ips p)

  module _ (decode : String → Option (List Policy)) where
    load_state-encode :
        (ps : List Policy) (raw : Option String)
        → raw ≡ some (encode ps)
        → decode (encode ps) ≡ some ps
        → All Loadable ps
        → load_state decode (read raw) ≡ ok ps
    unfolding load_state
    load_state-encode ps raw e d h = rw (e, d, all-Loadable decode ps h) refl

    -- From a file that `load_state` reads as the policies that are held, if `apply` succeeds then
    -- `load_state` reads the file as the policies that are held after it: a restart loses and adds none.
    -- The files satisfy `FileLaws`, the policies held before are ones that `load_state` accepts, and
    -- `serde_json` reads back what it writes of the policies held after.
    pub apply-saved :
        (texts : Texts) (bridge : String) (fuel : ℕ) (p : Policy) (t : Target) (s : Ctx W)
        → load_state decode (read (file s.world)) ≡ ok s.policies
        → AllLoadable s
        → is_ok (apply host texts bridge fuel p t s).0 ≡ true
        → decode (encode (apply host texts bridge fuel p t s).1.policies)
          ≡ some (apply host texts bridge fuel p t s).1.policies
        → load_state decode (read (file (apply host texts bridge fuel p t s).1.world))
          ≡ ok (apply host texts bridge fuel p t s).1.policies
    apply-saved texts bridge fuel p t s read_before loadable done back =
        let r = apply host texts bridge fuel p t s in
        let filed =
          Outcome-ok (Filed s.policies (file s.world)) Anything r
            ((apply-Ends s.policies (file s.world) texts bridge fuel p t).meet s (inr (refl, refl)))
            done in
        elim filed [
          | inl e ↦
              load_state-encode r.1.policies (file r.1.world) e back
                (apply-AllLoadable host texts bridge fuel p t s loadable)
          | inr (e, f) ↦ rw (e, f) read_before
        ]
