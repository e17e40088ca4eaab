-- ===== src/Platform/Session/Backoff.antt =====
-- src/platform/mod.rs: the delay between sessions.
use runman_agent.Prelude.{
  ℕ, zero, suc, ◌*◌, ◌≤◌, ◌≡◌, ◌≢◌, min, false, Option, none, some, List, [], ◌∷◌, arith, ◌<◌, refl,
  ◌∙◌, dec_lt,
}
use runman_agent.Platform.Session.{
  Timing, Turn, standalone, session, next_delay, delay_after, set, clear_if,
}

abbrev pub repeat : ℕ → Turn → List Turn
repeat zero turn = []
repeat (suc n) turn = turn ∷ repeat n turn

-- A number doubled `n` times.
unfoldable pub doubled : ℕ → ℕ → ℕ
doubled zero d = d
doubled (suc n) d = doubled n (d * 2)

le-doubled : (n d : ℕ) → d ≤ doubled n d
unfolding doubled
le-doubled zero d = omega arith
le-doubled (suc n) d = omega (arith, le-doubled n (d * 2))

capped : (cap n x : ℕ) → cap < x → min (doubled n cap) cap ≡ min (doubled n x) cap
capped cap n x h = omega (arith, le-doubled n cap, le-doubled n x)

-- A cap before the doublings makes no difference to one behind them.
min-doubled : (cap n x : ℕ) → min (doubled n (min x cap)) cap ≡ min (doubled n x) cap
min-doubled cap n x = elim (dec_lt cap x) [
  | yes h ↦ let full : min x cap ≡ cap = omega arith in rw full (capped cap n x h)
  | no h ↦ let small : min x cap ≡ x = omega arith in rw small refl
]

module _ (t : Timing) (base_le : t.backoff_base ≤ t.backoff_max) where
  -- If the base is at most the cap, a delay between them stays between them over any turns.
  pub delay_after-bounds :
      (turns : List Turn) (delay : ℕ)
      → t.backoff_base ≤ delay
      → delay ≤ t.backoff_max
      → (t.backoff_base ≤ delay_after t delay turns) × (delay_after t delay turns ≤ t.backoff_max)
  unfolding delay_after
  delay_after-bounds [] delay lo hi = (lo, hi)
  delay_after-bounds (standalone ∷ turns) delay lo hi = delay_after-bounds turns delay lo hi
  delay_after-bounds (session c r ∷ turns) delay lo hi =
      delay_after-bounds turns (next_delay t delay (session c r)) (ground arith) (ground arith)

  -- If the base is at most the cap, then after `n` sessions in a row that received nothing and whose
  -- waits were not cut short, a delay up to the cap is doubled `n` times, and capped.
  pub delay_after-failures :
      (n delay : ℕ)
      → delay ≤ t.backoff_max
      → delay_after t delay (repeat n (session false false)) ≡ min (doubled n delay) t.backoff_max
  unfolding delay_after next_delay doubled
  delay_after-failures zero delay h = omega arith
  delay_after-failures (suc n) delay h =
      delay_after-failures n (min (delay * 2) t.backoff_max) (omega arith)
      ∙ min-doubled t.backoff_max n (delay * 2)

-- Once a session has set its channel, the link loses it when that session ends, and keeps it when a
-- session with another channel ends.
pub clear_if-set :
    (old new : ℕ) (link : Option ℕ)
    → (clear_if new (set new link) ≡ none) × (old ≢ new → clear_if old (set new link) ≡ some new)
unfolding clear_if set
clear_if-set old new link = (ground arith, λ differ. ground arith)
