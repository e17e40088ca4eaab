-- ===== src/Config/Tests.antt =====
-- Tests of the model of src/config.rs, on the configuration that it starts with.
use Prim.Native.String.{◌++◌ as append}
use runman_agent.Prelude.{
  ◌<◌, ◌⊎◌, ◌≡◌, refl, sym, String, Bool, true, false, Option, some, none, if◌then◌else◌, str_eq,
}
use runman_agent.Prelude.Int.{negsuc, ◌+ℤ◌, ◌*ℤ◌}
use runman_agent.Prelude.Effect.{ok, err, is_ok}
use runman_agent.Traffic.Schedule.{next_reset}
use runman_agent.Config.{
  Config, default_config, parse_utc_offset, traffic_schedule, validate, update, load, persist,
  write_atomic, call_file, FileCall, open_temp, write_all, sync_all, rename, FileHost, reset_day,
}
use runman_agent.Config.Stored.{FileLaws, update-outcome}
use runman_agent.Config.Valid.{IsValidSchedule, validate-IsValidSchedule, validate-lt_next_reset}

abbrev all_addresses : String → Bool
all_addresses text = true

default_accepted : validate all_addresses default_config ≡ ok tt
unfolding validate ◌+ℤ◌ ◌*ℤ◌
default_accepted = refl

west : parse_utc_offset "-03:30" ≡ some (negsuc 209)
unfolding parse_utc_offset ◌+ℤ◌ ◌*ℤ◌
west = refl

no_minutes : parse_utc_offset "+08:60" ≡ none
unfolding parse_utc_offset ◌+ℤ◌ ◌*ℤ◌
no_minutes = refl

-- A sign before the hours is read too.
two_signs : parse_utc_offset "+-5:30" ≡ some (negsuc 269)
unfolding parse_utc_offset ◌+ℤ◌ ◌*ℤ◌
two_signs = refl

validate-IsValidSchedule_example : IsValidSchedule (traffic_schedule default_config)
validate-IsValidSchedule_example =
    validate-IsValidSchedule all_addresses default_config default_accepted

validate-lt_next_reset_example :
    1700000000 < next_reset (traffic_schedule default_config) 1600000000 1700000000
validate-lt_next_reset_example =
    validate-lt_next_reset all_addresses default_config 1600000000 1700000000 default_accepted

eq_of_some : {s t : String} → ◌≡◌ {A = Option String} (some s) (some t) → s ≡ t
eq_of_some h = cc (h)

-- The file and the temporary file.
abbrev Disk : Type 0
Disk = Option String × Option String

abbrev add_text : String → Option String → Option String
add_text text none = none
add_text text (some held) = some (if str_eq held "" then text else append held text)

unfoldable on_disk : FileCall → Disk → Bool × Disk
on_disk open_temp (file, temp) = (true, (file, some ""))
on_disk (write_all text) (file, temp) = (true, (file, add_text text temp))
on_disk sync_all disk = (true, disk)
on_disk rename (file, temp) = (true, (temp, temp))

abbrev disk : FileHost Disk
disk = record { call = on_disk }

disk-FileLaws : FileLaws disk (λ d. d.0) (λ d. d.1)
unfolding on_disk
disk-FileLaws = record {
  open_file = λ w. refl;
  open_empty = λ w e. refl;
  write_file = λ text w. refl;
  write_temp = λ text w h e. rw h refl;
  sync_file = λ w. refl;
  sync_temp = λ w. refl;
  rename_done = λ w e. refl;
  rename_failed = λ w e. absurd (cc (e));
}

abbrev set_day : Config → Config
set_day c = record c { traffic_reset_day = 5 }

abbrev no_day : Config → Config
no_day c = record c { traffic_reset_day = 0 }

-- The texts of the configuration before the change and after it.
abbrev parse : String → Option Config
parse text = some (if str_eq text "new" then set_day default_config else default_config)

abbrev encode : Config → Option String
encode c = some "new"

start_accepted : load all_addresses parse (some "old") ≡ ok default_config
unfolding load validate ◌+ℤ◌ ◌*ℤ◌
start_accepted = refl

update_test :
    update all_addresses disk encode true set_day (default_config, (some "old", none))
    ≡ (ok tt, (set_day default_config, (some "new", some "new")))
unfolding update persist write_atomic call_file on_disk validate ◌+ℤ◌ ◌*ℤ◌
update_test = refl

refused :
    update all_addresses disk encode true no_day (default_config, (some "old", none))
    ≡ (err reset_day, (default_config, (some "old", none)))
unfolding update persist write_atomic call_file on_disk validate ◌+ℤ◌ ◌*ℤ◌
refused = refl

update-outcome_example :
    let (r, s) =
      update all_addresses disk encode true set_day (default_config, (some "old", none)) in
    (load all_addresses parse s.1.0 ≡ ok s.0)
    × (((r ≡ ok tt) × (s.0 ≡ set_day default_config))
        ⊎ ((is_ok r ≡ false) × (s.0 ≡ default_config)))
update-outcome_example =
    update-outcome disk (λ d. d.0) (λ d. d.1) disk-FileLaws all_addresses parse encode set_day
      default_config (some "old", none) start_accepted (λ text e. rw (sym (eq_of_some e)) refl)
