-- ===== src/HostPolicy/Tests/Reports.antt =====
-- Tests of the reports, the events and the firewall chain of src/hostpolicy.rs.
use runman_agent.Prelude.{
  ◌≤◌, ◌≡◌, refl, String, Bool, true, false, ◌&&◌, ◌||◌, none, some, List, [], ◌∷◌, arith, str_eq,
  length, All,
}
use runman_agent.Prelude.Int.{pos}
use runman_agent.Prelude.Effect.{ok}
use runman_agent.Model.{byte_len}
use runman_agent.HostPolicy.{AbusePolicy, Host}
use runman_agent.HostPolicy.Abuse.{apply_abuse, full}
use runman_agent.HostPolicy.Abuse.OwnChain.{
  IsOwn, about_chain, about_jump, first_jump, KeptByOwn, apply_abuse-kept,
}
use runman_agent.HostPolicy.Reports.{report}
use runman_agent.HostPolicy.Reports.Consistent.{IsConsistent, report-IsConsistent}
use runman_agent.HostPolicy.Events.{Event, EventPage, is_bad_event, events}
use runman_agent.HostPolicy.Events.Bounds.{events-bounds}
use runman_agent.HostPolicy.Tests.{texts, parse_ip}
use runman_agent.HostPolicy.Tests.Machine.{host, codec, by_hand, stale, owning}

report-IsConsistent_example :
    IsConsistent
      (report host codec "" owning.state (pos 1000) ("0.1.0", [], false) (by_hand ∷ stale ∷ []))
report-IsConsistent_example =
    report-IsConsistent host codec "" owning.state (pos 1000) ("0.1.0", [], false)
      (by_hand ∷ stale ∷ [])

abbrev page : EventPage
page = record {
  instance_id = "rfw";
  next_cursor = "next";
  cursor_reset = false;
  dropped = 0;
  dropped_total = 0;
  events =
      record {
        sequence = 1;
        cursor = "c";
        observed_at = pos 1000;
        source_ip = "4..";
        source_port = 1;
        destination_ip = "4...";
        destination_port = 2;
        transport = "tcp";
        app_protocol = "";
        direction = "in";
        action = "block";
        rule_index = 0;
        rule_id = none;
        rule_protocol = none;
        rule_action = none;
        rule_countries = [];
      }
      ∷ [];
}

-- An RFW that answers each request with the page.
abbrev pages : Host (Unit {0})
pages = record {
  send = λ q w. (some ("page", 200), w);
  run = λ tool args w. (none, w);
  is_bridge = λ iface w. (true, w);
  disable_ipv6 = λ w. (none, w);
  file_call = λ c w. (true, w);
  new_temp = λ w. ("temp", w);
  clock = λ w. (pos 1000, w);
}

page_read : (events pages "" texts codec (λ s. some page) "" 10 tt).0 ≡ ok page
unfolding events is_bad_event parse_ip
page_read = refl

events-bounds_example :
    (1 ≤ 10)
    × (10 ≤ 100)
    × (length page.events ≤ 10)
    × (byte_len page.next_cursor ≤ 160)
    × All (λ (e : Event). is_bad_event texts e ≡ false) page.events
events-bounds_example =
    events-bounds pages "" texts codec (λ s. some page) "" 10 tt {page = page} page_read

-- The machine says whether the chain INPUT was flushed; every command succeeds.
abbrev flushes : List String → Bool
flushes (w ∷ n ∷ t ∷ filter ∷ op ∷ chain ∷ rest) = str_eq op "-F" && str_eq chain "INPUT"
flushes args = false

abbrev shell : Host Bool
shell = record {
  send = λ q w. (none, w);
  run = λ tool args w. (some (true, "runman-agent-rs-v2-abuse"), w || flushes args);
  is_bridge = λ iface w. (true, w);
  disable_ipv6 = λ w. (some "0", w);
  file_call = λ c w. (true, w);
  new_temp = λ w. ("temp", w);
  clock = λ w. (pos 1000, w);
}

abbrev IsWhole : Bool → Type 0
IsWhole w = w ≡ false

run-IsWhole :
    (tool : String) (args : List String) (w : Bool)
    → IsOwn args
    → IsWhole w
    → IsWhole (shell.run tool (full args) w).1
run-IsWhole tool args w (about_chain op rest) p = ground arith
run-IsWhole tool args w (about_jump op) p = ground arith
run-IsWhole tool args w first_jump p = ground arith

own : KeptByOwn shell IsWhole
own = record { run_kept = run-IsWhole; read_kept = λ w p. p }

abbrev bt_policy : AbusePolicy
bt_policy = record { speedtest = true; mining = true; bt = true; interfaces = "br0" ∷ [] }

apply_abuse-kept_example : IsWhole (apply_abuse shell 4 bt_policy false).1
apply_abuse-kept_example = apply_abuse-kept shell own 4 bt_policy false refl
