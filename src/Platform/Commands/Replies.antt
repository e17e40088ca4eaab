-- ===== src/Platform/Commands/Replies.antt =====
-- src/platform/commands.rs: the replies to a command and to its replays.
use runman_agent.Prelude.{ℕ, ◌≡◌, refl, String, Bool, true, false, Option, some, List, str_eq_refl}
use runman_agent.Prelude.Effect.{Result, ok, err}
use runman_agent.Model.{Error, is_empty, PortForwardEntry}
use runman_agent.Platform.Commands.{
  Down, get_port_fwds, Up, cmd_result, port_fwd_list, Services, done, lookup, insert, result,
  list_reply, run, list_port_forwards, execute, Runner, submit, finish,
}

-- The command that a reply answers.
abbrev pub reply_id : Up → String
reply_id (cmd_result id success error) = id
reply_id (port_fwd_list id entries) = id

abbrev pub is_success : Up → Bool
is_success (cmd_result id success error) = success
is_success (port_fwd_list id entries) = true

module _ {W : Type 0} (s : Services W) where
  result-reply_id : (id : String) (r : Result Error Unit) → reply_id (result s id r) ≡ id
  unfolding result
  result-reply_id id (ok u) = refl
  result-reply_id id (err e) = refl

  list_reply-reply_id :
      (id : String) (r : Result Error (List PortForwardEntry)) → reply_id (list_reply s id r) ≡ id
  unfolding list_reply
  list_reply-reply_id id (ok entries) = refl
  list_reply-reply_id id (err e) = result-reply_id id (err e)

  -- The reply to a command has the command's identifier, whatever the command and its outcome.
  pub execute-reply_id :
      (id : String) (payload : Option Down) (w : W) → reply_id (execute s id payload w).0 ≡ id
  unfolding execute
  execute-reply_id id (some (get_port_fwds vm_id)) w =
      list_reply-reply_id id (list_port_forwards s vm_id w).0
  execute-reply_id id payload w = result-reply_id id (run s payload w).0

  pub submit-replay :
      (id : String) (again : Option Down) (later : ℕ) (q : Runner W) (reply : Up) (at : ℕ)
      → is_empty id ≡ false
      → lookup id q.cache ≡ some (done reply at)
      → submit s id again later q ≡ record q { world = (s.send reply q.world).1 }
  unfolding submit
  submit-replay id again later q reply at named found = rw (submit, named, found) refl

  pub finish-lookup :
      (id : String) (payload : Option Down) (others : List (String × Option Down)) (now : ℕ)
      (r : Runner W)
      → is_empty id ≡ false
      → lookup id (finish s id payload others now r).cache
        ≡ some (done (execute s id payload r.world).0 now)
  unfolding finish lookup insert
  finish-lookup id payload others now r named = rw (finish, named, str_eq_refl id) refl
