-- ===== src/Consoles/Tests.antt =====
-- Runs of the sessions, with the witness.
use runman_agent.Prelude.{◌≡◌, refl, true, [], ◌∷◌, any, retain}
use runman_agent.Consoles.{
  Consoles, open_session, opened, ended, Steps, stay, more, arrive, answer, connected, disconnected,
}
use runman_agent.Consoles.Running.{IsLive, Steps-IsLive}

abbrev start : Consoles
start = record { sessions = []; opening = []; running = []; events = []; next_task = 0 }

abbrev asked_twice : Consoles
asked_twice = record start { opening = ("s", 1) ∷ ("s", 0) ∷ []; next_task = 2 }

-- Two requests with one identifier that arrive before the backend answers are both let through.
both_pass : open_session true "s" (open_session true "s" start) ≡ asked_twice
unfolding open_session any
both_pass = refl

-- Once the first ends, the second goes on without an entry.
lost : ended "s" 0 (opened true "s" 1 (opened true "s" 0 asked_twice)) ≡ record start {
  running = ("s", 1) ∷ [];
  events = ("s", disconnected) ∷ ("s", connected) ∷ ("s", connected) ∷ [];
  next_task = 2;
}
unfolding opened ended retain
lost = refl

steps : Steps start (opened true "s" 0 (open_session true "s" start))
unfolding open_session any
steps =
    more start _ _ (more start start _ (stay start) (arrive true "s" start))
      (answer true "s" 0 _ refl)

Steps-IsLive_example : IsLive (opened true "s" 0 (open_session true "s" start))
Steps-IsLive_example = Steps-IsLive steps tt
