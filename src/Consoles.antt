-- ===== src/Consoles.antt =====
-- src/platform/console.rs: `Consoles`, the sessions of one stream. Each task of a session is three steps:
-- up to the call of the backend, from its answer to the loop, and after the loop. The bytes that a
-- session carries are not modelled.
use runman_agent.Prelude.{
  ℕ, ◌+◌, String, Bool, true, false, not, ◌&&◌, List, [], ◌∷◌, any, retain, ◌==◌, if◌then◌else◌,
  str_eq, ◌≡◌,
}
pub mod Running
mod Tests

pub data EventType : Type 0 where
  failed connected disconnected : EventType

-- A task has a number that stands for its channels.
pub record Consoles : Type 0 where
  pub sessions : List (String × ℕ)
  pub opening : List (String × ℕ)
  pub running : List (String × ℕ)
  pub events : List (String × EventType)
  pub next_task : ℕ

abbrev pub same : String → ℕ → String × ℕ → Bool
same sid task e = str_eq e.0 sid && e.1 == task

abbrev pub has_key : String → String × ℕ → Bool
has_key sid e = str_eq e.0 sid

abbrev pub say : String → EventType → Consoles → Consoles
say sid e c = record c { events = (sid, e) ∷ c.events }

unfoldable pub open_session : Bool → String → Consoles → Consoles
unfolding any
open_session valid sid c =
    if not valid
    then say sid failed c
    else if any (has_key sid) c.sessions
    then say sid failed c
    else record c { opening = (sid, c.next_task) ∷ c.opening; next_task = c.next_task + 1 }

-- The backend has answered.
unfoldable pub opened : Bool → String → ℕ → Consoles → Consoles
unfolding retain
opened done sid task c =
    let opening = retain (λ e. not (same sid task e)) c.opening in
    if not done
    then say sid failed (record c { opening = opening })
    else say sid connected (record c {
      opening = opening;
      running = (sid, task) ∷ c.running;
      sessions = (sid, task) ∷ retain (λ e. not (has_key sid e)) c.sessions;
    })

-- The loop has ended.
unfoldable pub ended : String → ℕ → Consoles → Consoles
unfolding retain
ended sid task c = say sid disconnected (record c {
  running = retain (λ e. not (same sid task e)) c.running;
  sessions = retain (λ e. not (has_key sid e)) c.sessions;
})

-- Tasks go on in any order.
pub data Step : Consoles → Consoles → Type 0 where
  arrive : (valid : Bool) (sid : String) (c : Consoles) → Step c (open_session valid sid c)
  answer :
      (done : Bool) (sid : String) (task : ℕ) (c : Consoles)
      → any (same sid task) c.opening ≡ true
      → Step c (opened done sid task c)
  finish :
      (sid : String) (task : ℕ) (c : Consoles)
      → any (same sid task) c.running ≡ true
      → Step c (ended sid task c)

pub data Steps : Consoles → Consoles → Type 0 where
  stay : (c : Consoles) → Steps c c
  more : (a b c : Consoles) → Steps a b → Step b c → Steps a c
