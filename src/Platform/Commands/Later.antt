-- ===== src/Platform/Commands/Later.antt =====
-- src/platform/commands.rs: replays of a command, after any further commands and ends of tasks.
use runman_agent.Prelude.{
  ℕ, ◌-◌, ◌≡◌, ◌⊎◌, refl, subst, String, true, false, Option, some, List, [], ◌∷◌, ◌++◌, length,
  leb, ltb, arith, inl, inr, str_eq, str_eq_iff, retain, Bool-cases, Option-cases,
}
use runman_agent.Model.{is_empty}
use runman_agent.Platform.Commands.{
  Down, Up, Services, Entry, running, done, result_ttl, Cache, cache_soft_limit, lookup, is_fresh,
  prune, execute, Runner, submit, finish, ends, Reachable, steps,
}
use runman_agent.Platform.Commands.Running.{
  task_count, task_count-append, lookup-insert, not_empty, Reachable-task_count,
}
use runman_agent.Platform.Commands.Replies.{submit-replay, finish-lookup}

-- An arrival at the time `now` prunes no reply of the time `at`: the cache is below its soft limit, or
-- the reply is younger than the time that it is kept for.
abbrev pub SparesReply : ℕ → ℕ → Cache → Type 0
SparesReply at now cache =
    (leb cache_soft_limit (length cache) ≡ false) ⊎ (ltb (now - at) result_ttl ≡ true)

retain-done :
    (now : ℕ) (id : String) (cache : Cache) (reply : Up) (at : ℕ)
    → ltb (now - at) result_ttl ≡ true
    → lookup id cache ≡ some (done reply at)
    → lookup id (retain (is_fresh now) cache) ≡ some (done reply at)
unfolding lookup retain
retain-done now id [] reply at fresh h = ground arith
retain-done now id ((k, e) ∷ cache) reply at fresh h = elim (Bool-cases (str_eq k id)) [
  | inl same ↦ let q = eq_of_some (rw same at h) in rw (q, fresh, same) refl
  | inr other ↦ elim (Bool-cases (is_fresh now (k, e))) [
    | inl kept ↦ rw (kept, other) (retain-done now id cache reply at fresh (rw other at h))
    | inr gone ↦ rw gone (retain-done now id cache reply at fresh (rw other at h))
  ]
]
  where
    eq_of_some : {a b : Entry} → ◌≡◌ {A = Option Entry} (some a) (some b) → a ≡ b
    eq_of_some p = cc (p)

prune-done :
    (now : ℕ) (id : String) (cache : Cache) (reply : Up) (at : ℕ)
    → SparesReply at now cache
    → lookup id cache ≡ some (done reply at)
    → lookup id (prune now cache) ≡ some (done reply at)
unfolding prune
prune-done now id cache reply at spared h =
    elim (Bool-cases (leb cache_soft_limit (length cache))) [
      | inr room ↦ rw room h
      | inl full ↦ elim spared [
        | inl room ↦ absurd (cc (full, room))
        | inr fresh ↦ rw full (retain-done now id cache reply at fresh h)
      ]
    ]

others_left :
    (id other : String) (payload : Option Down) (before after : List (String × Option Down))
    → task_count id (before ++ (other, payload) ∷ after) ≡ 0
    → (str_eq other id ≡ false) × (task_count id (before ++ after) ≡ 0)
others_left id other payload before after h =
    let split = task_count-append id other payload before after in
    (ground (arith, split, h), ground (arith, split, h))

module _ {W : Type 0} (s : Services W) where
  -- The command has ended with the reply, and no task of it goes on.
  abbrev HasReply : String → Up → ℕ → Runner W → Type 0
  HasReply id reply at r = (lookup id r.cache ≡ some (done reply at)) × (task_count id r.tasks ≡ 0)

  submit-HasReply :
      (id : String) (reply : Up) (at : ℕ) (other : String) (payload : Option Down) (now : ℕ)
      (r : Runner W)
      → is_empty id ≡ false
      → SparesReply at now r.cache
      → HasReply id reply at r
      → HasReply id reply at (submit s other payload now r)
  unfolding submit task_count
  submit-HasReply id reply at other payload now r named spared (h, t) =
      elim (Bool-cases (is_empty other)) [
        | inl e ↦ rw (submit, e) (h, rw (not_empty other id e named) t)
        | inr e ↦ elim (Option-cases (lookup other r.cache)) [
          | inr (running, f) ↦ rw (submit, e, f) (h, t)
          | inr (done again since, f) ↦ rw (submit, e, f) (h, t)
          | inl f ↦ elim (Bool-cases (str_eq other id)) [
            | inl same ↦ absurd (cc (h, f, (str_eq_iff other id).0 same))
            | inr differs ↦
                rw (submit, e, f, lookup-insert id other running (prune now r.cache), differs)
                  (prune-done now id r.cache reply at spared h, t)
          ]
        ]
      ]

  finish-HasReply :
      (id : String) (reply : Up) (at : ℕ) (other : String) (payload : Option Down)
      (before after : List (String × Option Down)) (now : ℕ) (r : Runner W)
      → r.tasks ≡ before ++ (other, payload) ∷ after
      → HasReply id reply at r
      → HasReply id reply at (finish s other payload (before ++ after) now r)
  unfolding finish
  finish-HasReply id reply at other payload before after now r e (h, t) =
      let (differs, rest) =
        others_left id other payload before after (subst (λ tasks. task_count id tasks ≡ 0) e t) in
      elim (Bool-cases (is_empty other)) [
        | inl empty ↦ rw empty (h, rest)
        | inr named ↦
            rw
              (
                named,
                lookup-insert id other (done (execute s other payload r.world).0 now) r.cache,
                differs,
              )
              (h, rest)
      ]

  -- Arrivals and ends of tasks, in any order, after which a reply of the time `at` is still kept.
  pub data Later (at : ℕ) : Runner W → Runner W → Type 0 where
    stay : (r : Runner W) → Later at r r
    arrive :
        (other : String) (payload : Option Down) (now : ℕ) (r q : Runner W)
        → Later at r q
        → SparesReply at now q.cache
        → Later at r (submit s other payload now q)
    end :
        (other : String) (payload : Option Down) (before after : List (String × Option Down))
        (now : ℕ) (r q : Runner W)
        → Later at r q
        → q.tasks ≡ before ++ (other, payload) ∷ after
        → Later at r (finish s other payload (before ++ after) now q)

  Later-HasReply :
      (id : String) (reply : Up) (at : ℕ) {r q : Runner W}
      → is_empty id ≡ false
      → Later at r q
      → HasReply id reply at r
      → HasReply id reply at q
  Later-HasReply id reply at named (stay r) h = h
  Later-HasReply id reply at named (arrive other payload now r q before spared) h =
      submit-HasReply id reply at other payload now q named spared
        (Later-HasReply id reply at named before h)
  Later-HasReply id reply at named (end other payload xs ys now r q before e) h =
      finish-HasReply id reply at other payload xs ys now q e
        (Later-HasReply id reply at named before h)

  -- A command with an identifier whose task ended in a reachable state, and which arrives again after
  -- any further arrivals and ends that do not prune its reply, is not run again: the reply that it had
  -- is sent once more, and nothing else changes, whatever the message holds this time. An arrival
  -- prunes the reply only if the cache is at its soft limit and the reply is as old as replies are kept.
  pub finish-submit :
      (id : String) (payload again : Option Down) (before after : List (String × Option Down))
      (at now : ℕ) (r q : Runner W)
      → Reachable s r
      → r.tasks ≡ before ++ (id, payload) ∷ after
      → is_empty id ≡ false
      → Later at (finish s id payload (before ++ after) at r) q
      → submit s id again now q
        ≡ record q { world = (s.send (execute s id payload r.world).0 q.world).1 }
  finish-submit id payload again before after at now r q reached e named later =
      let ended = finish s id payload (before ++ after) at r in
      let reply = (execute s id payload r.world).0 in
      let found = finish-lookup s id payload (before ++ after) at r named in
      let counted =
        Reachable-task_count s ended (steps r ended reached (ends id payload before after at r e))
          id named in
      let alone = rw found at counted in
      submit-replay s id again now q reply at named
        (Later-HasReply id reply at named later (found, alone)).0
