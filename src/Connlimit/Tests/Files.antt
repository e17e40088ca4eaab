-- ===== src/Connlimit/Tests/Files.antt =====
-- Tests of the file of policies of src/connlimit.rs, with a packet filter that has every rule.
use runman_agent.Prelude.{
  ◌≡◌, refl, String, Bool, true, Option, none, some, List, [], ◌∷◌, any, if◌then◌else◌, str_eq,
}
use runman_agent.Prelude.Int.{◌-ℤ◌}
use runman_agent.Prelude.Effect.{Result, ok}
use runman_agent.Connlimit.Policy.{Error, Policy, rule_args}
use runman_agent.Connlimit.Firewall.{
  Host, FsCall, create_dir_all, set_dir_mode, create_new, set_file_mode, write_all, sync_all,
  rename,
}
use runman_agent.Connlimit.Manager.{Ctx, apply}
use runman_agent.Connlimit.Manager.Load.{load_state}
use runman_agent.Connlimit.Manager.Saved.{read, FileLaws, apply-saved}
use runman_agent.Connlimit.Tests.{texts, policy, target}

-- The file of policies and the temporary file.
abbrev Disk : Type 0
Disk = Option String × Option String

abbrev encode : List Policy → String
encode [] = "none"
encode (p ∷ ps) = "some"

unfoldable on_disk : FsCall → Disk → Bool × Disk
on_disk (create_new t) (file, temp) = (true, (file, some ""))
on_disk (write_all t ps) (file, temp) = (true, (file, some (encode ps)))
on_disk (rename t) (file, temp) = (true, (temp, none))
on_disk (set_file_mode t) disk = (true, disk)
on_disk (sync_all t) disk = (true, disk)
on_disk create_dir_all disk = (true, disk)
on_disk set_dir_mode disk = (true, disk)

abbrev host : Host Disk
host = record {
  run = λ tool args disk. (some (true, "runman-agent-rs-v2"), disk);
  clock = λ disk. (1000, disk);
  file_call = on_disk;
  new_temp = λ disk. ("temp", disk);
}

host-FileLaws : FileLaws host encode (λ disk. disk.0) (λ t disk. disk.1)
unfolding on_disk
host-FileLaws = record {
  run_file = λ x tool args w h. h;
  clock_file = λ w. refl;
  created = λ t w e. refl;
  mode_kept = λ t w. refl;
  written = λ t ps w h e. refl;
  synced = λ t w. refl;
  renamed = λ t w e. refl;
}

abbrev empty : Ctx Disk
empty = record { policies = []; world = (none, none) }

abbrev applied : Result Error Unit × Ctx Disk
applied = apply host texts "br0" 3 policy target empty

applied_file : applied.1.world ≡ (some "some", none)
unfolding apply on_disk rule_args ◌-ℤ◌ any
applied_file = refl

abbrev decode : String → Option (List Policy)
decode text = if str_eq text "some" then some (policy ∷ []) else none

apply-saved_example : load_state decode (read applied.1.world.0) ≡ ok applied.1.policies
unfolding apply load_state on_disk rule_args ◌-ℤ◌ any
apply-saved_example =
    apply-saved host encode (λ disk. disk.0) (λ t disk. disk.1) host-FileLaws decode texts "br0" 3
      policy target empty refl tt refl refl
