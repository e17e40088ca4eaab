-- ===== src/Forwards/Tests.antt =====
-- Tests of the port forwards, and their theorems at concrete inputs.
use runman_agent.Prelude.{
  ℕ, ◌+◌, ◌≤◌, ◌≡◌, refl, String, true, false, some, List, [], ◌∷◌, arith, any, find, retain,
}
use runman_agent.Prelude.Effect.{ok}
use runman_agent.Model.{PortForward, tcp}
use runman_agent.Forwards.{count_of, limited, ensure_ssh_forward}
use runman_agent.Forwards.Laws.{ForwardLaws}
use runman_agent.Forwards.Fake
use runman_agent.Forwards.Fake.{Fake, fake, fake-ForwardLaws}
use runman_agent.Forwards.Host.{HostOps, Runtime, runtime}
use runman_agent.Forwards.Host.Proofs.{runtime-ForwardLaws}
use runman_agent.Forwards.Unique.{IsUnique, Call, adds, removes, run, run-IsUnique}
use runman_agent.Forwards.Limit.{limited-ForwardLaws, run-Within}
use runman_agent.Forwards.Ssh.{HasSsh, ensure_ssh_forward-HasSsh}

abbrev rule : String → ℕ → ℕ → PortForward
rule id host_port guest_port = record {
  vm_id = id;
  proto = tcp;
  host_port = host_port;
  guest_port = guest_port;
  description = "test";
}

-- A host where every instance exists, nothing else listens, and the random numbers count up.
abbrev quiet : HostOps ℕ
quiet = record {
  load = λ id e. (ok true, e);
  host_listening = λ proto port e. (false, e);
  apply_network = λ rules e. (ok tt, e);
  save_forwards = λ rules e. (ok tt, e);
  random_port = λ e. (20000 + e, e + 1);
}

abbrev host : Runtime ℕ
host = record { forwards = rule "a" 20000 22 ∷ []; outside = 0 }

abbrev calls : List Call
calls =
    adds (rule "a" 20000 80)
    ∷ adds (rule "a" 20001 80)
    ∷ adds (rule "b" 20002 80)
    ∷ removes "a" tcp 20000
    ∷ []

runtime-ForwardLaws_example : ForwardLaws (runtime quiet) (λ w. w.forwards)
runtime-ForwardLaws_example = runtime-ForwardLaws quiet

run-IsUnique_example : IsUnique (run (runtime quiet) calls host).forwards
run-IsUnique_example =
    run-IsUnique (runtime quiet) (λ w. w.forwards) (runtime-ForwardLaws quiet) calls host
      (unfold find in (refl, tt))

limited-ForwardLaws_example : ForwardLaws (limited (λ w. 1) fake) (λ w. w.rules)
limited-ForwardLaws_example = limited-ForwardLaws (λ w. 1) fake (λ w. w.rules) fake-ForwardLaws

run-Within_example : count_of "a" (run (limited (λ w. 1) fake) calls Fake.new).rules ≤ 1
run-Within_example =
    run-Within (λ w. 1) fake (λ w. w.rules) fake-ForwardLaws 1 (omega arith) (λ w. refl) "a" calls
      Fake.new (unfold count_of retain in omega arith)

-- The first port that the host offers is taken by a rule, the second is free.
ensured : ensure_ssh_forward (runtime quiet) "b" host ≡ (
  some 20001,
  record {
    forwards =
        rule "a" 20000 22
        ∷ record {
          vm_id = "b";
          proto = tcp;
          host_port = 20001;
          guest_port = 22;
          description = "ssh";
        }
        ∷ [];
    outside = 2;
  },
)
unfolding ensure_ssh_forward runtime find retain any
ensured = refl

ensure_ssh_forward-HasSsh_example :
    HasSsh
      (runtime quiet)
      (λ w. w.forwards)
      (runtime-ForwardLaws quiet)
      "b"
      host
      (ensure_ssh_forward (runtime quiet) "b" host)
ensure_ssh_forward-HasSsh_example =
    ensure_ssh_forward-HasSsh (runtime quiet) (λ w. w.forwards) (runtime-ForwardLaws quiet) "b" host
