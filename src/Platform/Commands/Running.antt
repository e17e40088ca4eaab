-- ===== src/Platform/Commands/Running.antt =====
-- src/platform/commands.rs: which commands are being run, by the cache.
use runman_agent.Prelude.{
  ℕ, leb, suc, ◌≡◌, refl, sym, subst, ◌∙◌, String, Bool, true, false, not, Option, none, some, List,
  [], ◌∷◌, ◌++◌, if◌then◌else◌, str_eq, str_eq_iff, length, retain, arith, inl, inr, Bool-cases,
  Option-cases,
}
use runman_agent.Model.{is_empty}
use runman_agent.Platform.Commands.{
  Down, Entry, running, done, Cache, lookup, insert, is_fresh, cache_soft_limit, prune, Services,
  execute, Runner, submit, finish, Step, arrives, ends, Reachable, starts, steps,
}

-- How many tasks have the identifier.
unfoldable pub task_count : String → List (String × Option Down) → ℕ
task_count id [] = 0
task_count id ((k, payload) ∷ tasks) =
    if str_eq k id then suc (task_count id tasks) else task_count id tasks

abbrev pub is_running : Option Entry → Bool
is_running none = false
is_running (some running) = true
is_running (some (done reply at)) = false

-- One task for each identifier that the cache has as running, and none for the others.
abbrev pub IsConsistent : {W : Type 0} → Runner W → Type 0
IsConsistent r =
    (id : String)
    → is_empty id ≡ false
    → task_count id r.tasks ≡ (if is_running (lookup id r.cache) then 1 else 0)

pub task_count-append :
    (id k : String) (payload : Option Down) (before after : List (String × Option Down))
    → task_count id (before ++ (k, payload) ∷ after) ≡ (
        if str_eq k id
        then suc (task_count id (before ++ after))
        else task_count id (before ++ after))
unfolding task_count
task_count-append id k payload [] after = refl
task_count-append id k payload ((j, q) ∷ before) after =
    ground (arith, task_count-append id k payload before after)

lookup-removed :
    (id : String) (cache : Cache) → lookup id (retain (λ kept. not (str_eq kept.0 id)) cache) ≡ none
unfolding lookup retain
lookup-removed id [] = refl
lookup-removed id ((k, e) ∷ cache) = ground (arith, lookup-removed id cache)

lookup-others :
    (id k : String) (cache : Cache)
    → str_eq k id ≡ false
    → lookup id (retain (λ kept. not (str_eq kept.0 k)) cache) ≡ lookup id cache
unfolding lookup retain
lookup-others id k [] ne = refl
lookup-others id k ((j, e) ∷ cache) ne =
    ground (arith, lookup-others id k cache ne, str_eq_iff j k, str_eq_iff j id, str_eq_iff k id)

pub lookup-insert :
    (id k : String) (e : Entry) (cache : Cache)
    → lookup id (insert k e cache) ≡ (if str_eq k id then some e else lookup id cache)
unfolding lookup insert
lookup-insert id k e cache = elim (Bool-cases (str_eq k id)) [
  | inl same ↦ rw same refl
  | inr other ↦ rw other (lookup-others id k cache other)
]

-- A map has one entry for a key.
abbrev pub HasDistinctKeys : Cache → Type 0
HasDistinctKeys [] = Unit
HasDistinctKeys ((k, e) ∷ cache) = (lookup k cache ≡ none) × HasDistinctKeys cache

lookup-retain-none :
    (q : String × Entry → Bool) (id : String) (cache : Cache)
    → lookup id cache ≡ none
    → lookup id (retain q cache) ≡ none
unfolding lookup retain
lookup-retain-none q id [] h = refl
lookup-retain-none q id ((k, e) ∷ cache) h = ground (arith, lookup-retain-none q id cache)

retain-HasDistinctKeys :
    (q : String × Entry → Bool) (cache : Cache)
    → HasDistinctKeys cache
    → HasDistinctKeys (retain q cache)
unfolding retain
retain-HasDistinctKeys q [] h = tt
retain-HasDistinctKeys q ((k, e) ∷ cache) (h, hs) = elim (Bool-cases (q (k, e))) [
  | inl kept ↦ rw kept (lookup-retain-none q k cache h, retain-HasDistinctKeys q cache hs)
  | inr gone ↦ rw gone (retain-HasDistinctKeys q cache hs)
]

insert-HasDistinctKeys :
    (id : String) (e : Entry) (cache : Cache)
    → HasDistinctKeys cache
    → HasDistinctKeys (insert id e cache)
unfolding insert
insert-HasDistinctKeys id e cache h = (lookup-removed id cache, retain-HasDistinctKeys _ cache h)

prune-HasDistinctKeys :
    (now : ℕ) (cache : Cache) → HasDistinctKeys cache → HasDistinctKeys (prune now cache)
unfolding prune
prune-HasDistinctKeys now cache h = elim (Bool-cases (leb cache_soft_limit (length cache))) [
  | inl full ↦ rw full (retain-HasDistinctKeys (is_fresh now) cache h)
  | inr room ↦ rw room h
]

-- No entry of a running command is pruned.
retain-running :
    (now : ℕ) (id : String) (cache : Cache)
    → HasDistinctKeys cache
    → is_running (lookup id (retain (is_fresh now) cache)) ≡ is_running (lookup id cache)
unfolding lookup retain
retain-running now id [] h = refl
retain-running now id ((k, running) ∷ cache) (h, hs) =
    ground (arith, retain-running now id cache hs)
retain-running now id ((k, done reply at) ∷ cache) (h, hs) =
    let hidden = lookup-retain-none (is_fresh now) k cache h in
    let rest = retain-running now id cache hs in
    elim (Bool-cases (str_eq k id)) [
      | inl same ↦
          let hidden' =
            subst (λ i. lookup i (retain (is_fresh now) cache) ≡ none) ((str_eq_iff k id).0 same)
              hidden in
          ground (arith, hidden')
      | inr other ↦ ground (arith, rest)
    ]

prune-running :
    (now : ℕ) (id : String) (cache : Cache)
    → HasDistinctKeys cache
    → is_running (lookup id (prune now cache)) ≡ is_running (lookup id cache)
unfolding prune
prune-running now id cache h = elim (Bool-cases (leb cache_soft_limit (length cache))) [
  | inl full ↦ rw full (retain-running now id cache h)
  | inr room ↦ rw room refl
]

-- The texts that are no identifiers are not those of a query.
pub not_empty : (id q : String) → is_empty id ≡ true → is_empty q ≡ false → str_eq id q ≡ false
not_empty id q e ne = ground (arith, str_eq_iff id "", str_eq_iff q "", str_eq_iff id q)

-- One test on two texts that are the same.
task_count-same :
    (id q : String) (tasks : List (String × Option Down)) (b : Bool)
    → str_eq id q ≡ true
    → task_count id tasks ≡ (if b then 1 else 0)
    → task_count q tasks ≡ (if b then 1 else 0)
task_count-same id q tasks b same h =
    subst (λ x. task_count x tasks ≡ (if b then 1 else 0)) ((str_eq_iff id q).0 same) h

module _ {W : Type 0} (s : Services W) where
  spawn-IsConsistent :
      (id : String) (payload : Option Down) (now : ℕ) (r : Runner W)
      → HasDistinctKeys r.cache
      → IsConsistent r
      → is_empty id ≡ false
      → lookup id r.cache ≡ none
      → IsConsistent (record r {
        cache = insert id running (prune now r.cache);
        tasks = (id, payload) ∷ r.tasks;
      })
  unfolding task_count
  spawn-IsConsistent id payload now r h c e missing q ne =
      let before = c q ne in
      let pruned = prune-running now q r.cache h in
      elim (Bool-cases (str_eq id q)) [
        | inl same ↦
            let none_yet = task_count-same id q r.tasks false same (c id e ∙ rw missing refl) in
            rw (lookup-insert q id running (prune now r.cache), same) (omega arith)
        | inr other ↦ rw (lookup-insert q id running (prune now r.cache), other, pruned) before
      ]

  submit-IsConsistent :
      (id : String) (payload : Option Down) (now : ℕ) (r : Runner W)
      → HasDistinctKeys r.cache
      → IsConsistent r
      → IsConsistent (submit s id payload now r)
  unfolding submit task_count
  submit-IsConsistent id payload now r h c = elim (Bool-cases (is_empty id)) [
    | inl e ↦ rw (submit, e) (λ q ne. rw (not_empty id q e ne) (c q ne))
    | inr e ↦ elim (Option-cases (lookup id r.cache)) [
      | inl missing ↦ rw (submit, e, missing) (spawn-IsConsistent id payload now r h c e missing)
      | inr (running, found) ↦ rw (submit, e, found) c
      | inr (done reply at, found) ↦ rw (submit, e, found) c
    ]
  ]

  finish-IsConsistent :
      (id : String) (payload : Option Down) (before after : List (String × Option Down)) (now : ℕ)
      (r : Runner W)
      → r.tasks ≡ before ++ (id, payload) ∷ after
      → IsConsistent r
      → IsConsistent (finish s id payload (before ++ after) now r)
  unfolding finish
  finish-IsConsistent id payload before after now r e c q ne =
      let counted =
        subst (λ tasks. task_count q tasks ≡ (if is_running (lookup q r.cache) then 1 else 0)) e
          (c q ne) in
      let split = sym (task_count-append q id payload before after) ∙ counted in
      elim (Bool-cases (is_empty id)) [
        | inl empty ↦ let other = not_empty id q empty ne in rw (finish, empty) (ground arith)
        | inr named ↦ rw (finish, named, lookup-insert q id (done _ now) r.cache) (ground arith)
      ]

  nothing_runs : (w : W) → IsConsistent (record { cache = []; tasks = []; world = w })
  unfolding task_count lookup
  nothing_runs w q ne = refl

  submit-HasDistinctKeys :
      (id : String) (payload : Option Down) (now : ℕ) (r : Runner W)
      → HasDistinctKeys r.cache
      → HasDistinctKeys (submit s id payload now r).cache
  unfolding submit
  submit-HasDistinctKeys id payload now r h = elim (Bool-cases (is_empty id)) [
    | inl e ↦ rw (submit, e) h
    | inr e ↦ elim (Option-cases (lookup id r.cache)) [
      | inl missing ↦
          rw (submit, e, missing)
            (insert-HasDistinctKeys id running (prune now r.cache)
              (prune-HasDistinctKeys now r.cache h))
      | inr (running, found) ↦ rw (submit, e, found) h
      | inr (done reply at, found) ↦ rw (submit, e, found) h
    ]
  ]

  finish-HasDistinctKeys :
      (id : String) (payload : Option Down) (others : List (String × Option Down)) (now : ℕ)
      (r : Runner W)
      → HasDistinctKeys r.cache
      → HasDistinctKeys (finish s id payload others now r).cache
  unfolding finish
  finish-HasDistinctKeys id payload others now r h = elim (Bool-cases (is_empty id)) [
    | inl e ↦ rw (finish, e) h
    | inr e ↦
        rw (finish, e)
          (insert-HasDistinctKeys id (done (execute s id payload r.world).0 now) r.cache h)
  ]

  Step-IsConsistent :
      (r q : Runner W)
      → Step s r q
      → HasDistinctKeys r.cache × IsConsistent r
      → HasDistinctKeys q.cache × IsConsistent q
  Step-IsConsistent _ _ (arrives id payload now r) (h, c) =
      (submit-HasDistinctKeys id payload now r h, submit-IsConsistent id payload now r h c)
  Step-IsConsistent _ _ (ends id payload before after now r e) (h, c) = (
    finish-HasDistinctKeys id payload (before ++ after) now r h,
    finish-IsConsistent id payload before after now r e c,
  )

  Reachable-IsConsistent : (r : Runner W) → Reachable s r → HasDistinctKeys r.cache × IsConsistent r
  Reachable-IsConsistent _ (starts w) = (tt, nothing_runs w)
  Reachable-IsConsistent _ (steps p q before step) =
      Step-IsConsistent p q step (Reachable-IsConsistent p before)

  -- In every state that is reached from an empty cache, an identifier that is not empty has one task if
  -- its entry in the cache is `running`, and no task if it is not.
  pub Reachable-task_count :
      (r : Runner W)
      → Reachable s r
      → (id : String) → is_empty id ≡ false
      → task_count id r.tasks ≡ (if is_running (lookup id r.cache) then 1 else 0)
  Reachable-task_count r reached = (Reachable-IsConsistent r reached).1
