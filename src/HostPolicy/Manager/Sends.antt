-- ===== src/HostPolicy/Manager/Sends.antt =====
-- src/hostpolicy.rs: what the requests and the writes of the state's file leave of the machine.
use runman_agent.Prelude.{◌≡◌, refl, subst, sym, String, Bool, true, false, arith, str_eq}
use runman_agent.Prelude.Int.{ℤ}
use runman_agent.Prelude.Effect.{Keeps, Keeps-then}
use runman_agent.HostPolicy.{
  Rule, State, FsCall, create_dir_all, set_dir_mode, create_new, set_file_mode, write_all, sync_all,
  rename, HttpRequest, Host, Codec,
}
use runman_agent.HostPolicy.Rules.{rfw_payload}
use runman_agent.HostPolicy.Service.{
  get_rules, get_status, post_rule, delete_rule, list_rules, known_capabilities, create_rule,
  remove_rule,
}
use runman_agent.HostPolicy.Manager.{call_file, temp_name, save_state}

-- A property of the machine is kept by each call but the deletion of a rule that is not owned: by each
-- request of another method, by the deletion of an owned rule, and by the calls on files.
pub record Spares {W : Type 0} (host : Host W) (base_url : String) (owned : ℤ → Bool)
    (P : W → Type 0) : Type 0 where
  pub other_kept :
      (q : HttpRequest) (w : W) → str_eq q.method "DELETE" ≡ false → P w → P (host.send q w).1
  pub delete_kept :
      (id : ℤ) (w : W) → owned id ≡ true → P w → P (host.send (delete_rule base_url id) w).1
  pub file_kept : (c : FsCall) (w : W) → P w → P (host.file_call c w).1
  pub temp_kept : (w : W) → P w → P (host.new_temp w).1

module _ {W : Type 0} (host : Host W) (codec : Codec) (base_url : String) where
  create_rule-world :
      (desired : Rule) (w : W)
      → (create_rule host codec base_url desired w).1
        ≡ (host.send (post_rule base_url (codec.encode_payload (rfw_payload desired))) w).1
  unfolding create_rule
  create_rule-world desired w = ground arith

  list_rules-world :
      (w : W) → (list_rules host codec base_url w).1 ≡ (host.send (get_rules base_url) w).1
  unfolding list_rules
  list_rules-world w = ground arith

  known_capabilities-world :
      (w : W) → (known_capabilities host codec base_url w).1 ≡ (host.send (get_status base_url) w).1
  unfolding known_capabilities
  known_capabilities-world w = ground arith

  remove_rule-world :
      (id : ℤ) (w : W)
      → (remove_rule host codec base_url id w).1 ≡ (host.send (delete_rule base_url id) w).1
  unfolding remove_rule
  remove_rule-world id w = ground arith

  module _ {owned : ℤ → Bool} {P : W → Type 0} (spares : Spares host base_url owned P) where
    pub create_rule-kept : (desired : Rule) → Keeps P (create_rule host codec base_url desired)
    create_rule-kept desired = record {
      keep = λ w p. subst P (sym (create_rule-world desired w)) (spares.other_kept _ w refl p);
    }

    pub list_rules-kept : Keeps P (list_rules host codec base_url)
    list_rules-kept = record {
      keep = λ w p. subst P (sym (list_rules-world w)) (spares.other_kept _ w refl p);
    }

    pub known_capabilities-kept : Keeps P (known_capabilities host codec base_url)
    known_capabilities-kept = record {
      keep = λ w p. subst P (sym (known_capabilities-world w)) (spares.other_kept _ w refl p);
    }

    pub remove_rule-kept : (id : ℤ) → owned id ≡ true → Keeps P (remove_rule host codec base_url id)
    remove_rule-kept id h = record {
      keep = λ w p. subst P (sym (remove_rule-world id w)) (spares.delete_kept id w h p);
    }

    call_file-kept : (c : FsCall) → Keeps P (call_file host c)
    unfolding call_file
    call_file-kept c = record { keep = λ w p. spares.file_kept c w p }

    temp_name-kept : Keeps P (temp_name host)
    unfolding temp_name
    temp_name-kept = record { keep = λ w p. spares.temp_kept w p }

    pub save_state-kept : (state : State) → Keeps P (save_state host state)
    unfolding save_state
    save_state-kept state = Keeps-then (call_file-kept create_dir_all) λ _.
        Keeps-then (call_file-kept set_dir_mode) λ _. Keeps-then temp_name-kept λ temp.
          Keeps-then (call_file-kept (create_new temp)) λ _.
            Keeps-then (call_file-kept (set_file_mode temp)) λ _.
              Keeps-then (call_file-kept (write_all temp state))
                λ _. Keeps-then (call_file-kept (sync_all temp)) λ _. call_file-kept (rename temp)
