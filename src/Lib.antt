-- ===== src/Lib.antt =====
-- Verification of the Runman agent (Rust v2): the daemon that runs container instances on a host for
-- a platform.
--
-- The agent keeps one stream to the platform (src/platform/mod.rs), runs the commands that arrive on it
-- (src/platform/commands.rs) against services (src/backend.rs), which are the container runtime
-- (src/runtime) or an in-memory backend (src/fake.rs), counts the traffic of the instances
-- (src/traffic.rs), caps their connections (src/connlimit.rs) and keeps a configuration
-- (src/config.rs) that the schedule of the traffic is read from. It holds the policy of the host's
-- firewall, which a service named RFW enforces (src/hostpolicy.rs), and routes dedicated addresses to
-- instances through tunnels (src/runtime/wg.rs).
--
-- Parts and files:
-- - Prelude: the libraries' names passed on, lists with Boolean tests, integers over the native
--   numbers, and `Exec`, code that changes a state and may fail. What is changed before an error stays
--   changed.
-- - Traffic.Calendar, Traffic.Schedule, Traffic.Counters (src/traffic.rs): `civil_from_days`,
--   `days_from_civil`, `next_month`; `Schedule` with `anchor`, `start_of`, `period_month`, `next_reset`;
--   `Traffic::update` and `month`.
-- - Model (src/model.rs): the data of requests and their validation: `InstanceSpec`, `PortForward`,
--   `port`, `validate_password`.
-- - Forwards (src/backend.rs): the trait `PortForwards` as a record of operations, `LimitedForwards` and
--   `ensure_ssh_forward`. Forwards.Laws is its contract; Forwards.Fake (src/fake.rs) and Forwards.Host
--   (src/runtime/mod.rs) implement it, and Forwards.Unique, Forwards.Limit and Forwards.Ssh use it.
-- - Connlimit (src/connlimit.rs): Policy holds the policies and their validation, Firewall the commands
--   of `iptables`, Manager the operations `apply` and `release`, Manager.Reconcile `reconcile`, and
--   Manager.Load the file of policies. Firewall.Effects states what the commands are relied on for,
--   Firewall.Untouched that they touch nothing else, and Manager.Saved what the file holds.
-- - Platform.Commands (src/platform/commands.rs): `CommandRunner`, as a step relation over the arrivals
--   of commands and the ends of their tasks in any order. Platform.Fake (src/fake.rs) is the in-memory
--   backend that runs them.
-- - Platform.Session (src/platform/mod.rs): the delay of `Agent::run`, `Link`, and `dispatch`.
-- - HostPolicy (src/hostpolicy.rs): HostPolicy.Text reads texts and networks, HostPolicy.Rules has
--   `rfw_payload`, `raw_matches` and `readback_rule`, HostPolicy.Normalize `normalize_policy`,
--   HostPolicy.Service the requests of RFW, HostPolicy.Abuse the chain of `iptables` against abuse,
--   HostPolicy.Manager the operations `apply`, `reconcile` and `delete_manual_rule` with the state file,
--   HostPolicy.Reports `readback` and HostPolicy.Events `events`.
-- - Tunnels (src/runtime/wg.rs): Tunnels.Binding holds `Binding::from_proto`, Tunnels.Commands `setup`,
--   `teardown` and `resolve_endpoint`, Tunnels.Slots what `free_n` chooses, and Tunnels.Reconcile
--   `load`, `addresses_by_vm` and `reconcile`.
-- - Network (src/runtime/net.rs): `Net::from_config`, `max_idx` and `addrs_for`; Network.Addresses says
--   where the addresses lie.
-- - Consoles (src/platform/console.rs): the sessions of a stream, as a step relation over the tasks that
--   open and end them. Consoles.Running has its invariant.
-- - Config (src/config.rs): `Config::validate`, `parse_utc_offset`, `Store::load` and `update` with
--   `write_atomic`. Config.Stored relates the file to the configuration in memory.
-- - Speedtest (src/speedtest.rs): `effective` and `check_correction`.
--
-- How the code is read. An operation that holds a lock while it runs is one step on the state that the
-- lock guards; a command of the platform is one step on the services, for the lock of its instance.
-- Unsigned numbers are natural numbers and `i64` is an integer, where the code keeps them far from the
-- ends of their ranges; wrapping and saturating operations are written out, and the counters of
-- Traffic are bounded by 2^64. Texts are the native ones, with their length in UTF-8 where the code
-- asks for it. A `HashMap` is an association list with one entry for a key.
--
-- Parameters are what lies outside the code: the packet filter and its programs, the files, the clock,
-- the sockets, random numbers, the HTTP interface of RFW, the resolver of names, the hash of a binding,
-- and the crates that read and write UUIDs, addresses, JSON and TOML.
-- Their hypotheses are the records of laws that the theorems take, and the tests instantiate them.
--
-- Bounds. The loops of `remove_rules` and `cleanup_chain_if_empty` run until a command fails; they take
-- a bound, with the error `out_of_fuel` where it is met, and a bound above the number of copies of each
-- rule is not met by those of `remove_rules`. The loop of `apply_abuse` that deletes jumps and that of
-- `teardown` that deletes rules take such a bound, and the theorems about their callers hold for every
-- bound. `free_n` searches up to one past the greatest number in use, where a free number is found.
-- The other loops are structural. Five attempts of
-- `ensure_ssh_forward` and 200 of `free_port` are the code's own numbers; twenty digits are enough for
-- a number of 64 bits.
--
-- Not modelled: the text of messages and of Schedule::period, the timers and the stream of a session,
-- the waiting of `reconcile_loop`, the transfers of the speed test; the detection of IPv6, metrics, the
-- rules and routes of the network, the images and the processes of the runtime, the files of local
-- tunnels, the panel and its
-- HTTP interface, which are other parts of the agent; and the Go program of the first version beside it.
pub mod Prelude
pub mod Traffic
pub mod Model
pub mod Forwards
pub mod Connlimit
pub mod Platform
pub mod Config
pub mod Speedtest
pub mod HostPolicy
pub mod Consoles
pub mod Network
pub mod Tunnels
