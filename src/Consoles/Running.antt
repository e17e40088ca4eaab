-- ===== src/Consoles/Running.antt =====
-- src/platform/console.rs: the entries of the sessions.
use runman_agent.Prelude.{
  ℕ, ◌≡◌, refl, String, true, false, not, List, [], ◌∷◌, All, any, retain, str_eq, str_eq_iff,
  ==_iff, arith, inl, inr, Bool-cases,
}
use runman_agent.Consoles.{
  Consoles, same, has_key, open_session, opened, ended, Step, arrive, answer, finish, Steps, stay,
  more,
}

-- The task of an entry of the sessions is in its loop.
abbrev pub IsRunning : List (String × ℕ) → String × ℕ → Type 0
IsRunning running e = any (same e.0 e.1) running ≡ true

abbrev pub IsLive : Consoles → Type 0
IsLive c = All (IsRunning c.running) c.sessions

same-cons :
    (sid : String) (task : ℕ) (running sessions : List (String × ℕ))
    → All (IsRunning running) sessions
    → All (IsRunning ((sid, task) ∷ running)) (retain (λ e. not (has_key sid e)) sessions)
unfolding any retain
same-cons sid task running [] h = tt
same-cons sid task running (e ∷ sessions) (h, hs) = elim (Bool-cases (str_eq e.0 sid)) [
  | inl k ↦ rw k (same-cons sid task running sessions hs)
  | inr k ↦ rw k (ground (arith, h), same-cons sid task running sessions hs)
]

any-others :
    (sid k : String) (task u : ℕ) (running : List (String × ℕ))
    → str_eq k sid ≡ false
    → any (same k u) running ≡ true
    → any (same k u) (retain (λ e. not (same sid task e)) running) ≡ true
unfolding any retain
any-others sid k task u [] d h = h
any-others sid k task u ((j, v) ∷ running) d h = elim (Bool-cases (str_eq j k)) [
  | inl e ↦
      let q = (str_eq_iff j k).0 e in
      rw (q, d) (ground (arith, rw q at h, any-others sid k task u running d))
  | inr e ↦ elim (Bool-cases (same sid task (j, v))) [
    | inl f ↦ rw f (any-others sid k task u running d (rw e at h))
    | inr f ↦ rw (f, e) (any-others sid k task u running d (rw e at h))
  ]
]

retain-others :
    (sid : String) (task : ℕ) (running sessions : List (String × ℕ))
    → All (IsRunning running) sessions
    → All
        (IsRunning (retain (λ e. not (same sid task e)) running))
        (retain (λ e. not (has_key sid e)) sessions)
unfolding retain
retain-others sid task running [] h = tt
retain-others sid task running (e ∷ sessions) (h, hs) = elim (Bool-cases (str_eq e.0 sid)) [
  | inl k ↦ rw k (retain-others sid task running sessions hs)
  | inr k ↦
      rw k (any-others sid e.0 task e.1 running k h, retain-others sid task running sessions hs)
]

same_self : (sid : String) (task : ℕ) → same sid task (sid, task) ≡ true
same_self sid task = rw ((str_eq_iff sid sid).1 refl, (==_iff task task).1 refl) refl

Step-IsLive : (a b : Consoles) → Step a b → IsLive a → IsLive b
unfolding open_session opened ended any
Step-IsLive _ _ (arrive valid sid c) h = elim (Bool-cases valid) [
  | inr e ↦ rw e h
  | inl e ↦ elim (Bool-cases (any (has_key sid) c.sessions)) [
    | inl f ↦ rw (e, f) h
    | inr f ↦ rw (e, f) h
  ]
]
Step-IsLive _ _ (answer done sid task c asked) h = elim (Bool-cases done) [
  | inr e ↦ rw e h
  | inl e ↦ rw e (rw (same_self sid task) refl, same-cons sid task c.running c.sessions h)
]
Step-IsLive _ _ (finish sid task c looped) h = retain-others sid task c.running c.sessions h

-- In every order in which the tasks go on, from a state in which they do, the sessions hold only tasks
-- that are in their loops.
pub Steps-IsLive : {a b : Consoles} → Steps a b → IsLive a → IsLive b
Steps-IsLive (stay c) h = h
Steps-IsLive (more a b c steps step) h = Step-IsLive b c step (Steps-IsLive steps h)
