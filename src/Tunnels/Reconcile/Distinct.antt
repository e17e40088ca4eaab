-- ===== src/Tunnels/Reconcile/Distinct.antt =====
-- src/runtime/wg.rs: what `Tunnels::reconcile` keeps of the slots, whatever fails on the way.
use runman_agent.Prelude.{
  ℕ, ◌≡◌, refl, String, false, ◌&&◌, Option, none, some, List, [], ◌∷◌, All, if◌then◌else◌, inl,
  inr, Bool-cases,
}
use runman_agent.Prelude.Effect.{
  Exec, ◌>>◌, pure, Keeps, Keeps-then, Meets, Meets-then, Meets-if, Meets-Keeps, Keeps-Outcome,
  Result-cases,
}
use runman_agent.Connlimit.Policy.{Texts}
use runman_agent.Tunnels.{
  Error, Bind, Slot, get, insert, remove, numbers, holds, free_n, Endpoint, Names, Host, Ctx,
}
use runman_agent.Tunnels.Slots.{free_n-first}
use runman_agent.Tunnels.Commands.{iface, run, resolve_endpoint, teardown, setup}
use runman_agent.Tunnels.Reconcile.{
  reach, attempt, if_some, slot_of, applied_of, indexed, drop_slot, note_applied, endpoint_args,
  is_same, is_moved, was_made, slot_with, save, remove_stale, iface_present, update_endpoint,
  choose_slot, noted, set_up, converge_to, converge, reconcile, stale,
}

-- A property of the slots that the operations on them keep: a slot that is not wanted is removed, a
-- slot is replaced by one with its number, and a new slot has an unused number.
pub record Stable (Gone : String → Type 0) (P : List (String × Slot) → Type 0) : Type 0 where
  pub removed : (k : String) (m : List (String × Slot)) → Gone k → P m → P (remove k m)
  pub same :
      (k : String) (slot old : Slot) (m : List (String × Slot))
      → get k m ≡ some old
      → old.n ≡ slot.n
      → P m
      → P (insert k slot m)
  pub new :
      (k : String) (slot : Slot) (m : List (String × Slot))
      → get k m ≡ none
      → holds (numbers m) slot.n ≡ false
      → P m
      → P (insert k slot m)

module _ {W : Type 0} (P : List (String × Slot) → Type 0) where
  abbrev Held : Ctx W → Type 0
  Held s = P s.slots

  reach-Held : {A : Type 0} (m : Exec Error W A) → Keeps Held (reach m)
  reach-Held m = record { keep = λ s h. h }

  if_some-Held :
      {A : Type 0} (a : Option A) (f : A → Exec Error (Ctx W) Unit)
      → ((x : A) → Keeps Held (f x))
      → Keeps Held (if_some a f)
  if_some-Held none f h = record { keep = λ s i. i }
  if_some-Held (some a) f h = h a

module _ {Gone : String → Type 0} {P : List (String × Slot) → Type 0} (stable : Stable Gone P) where
  module _ {W : Type 0} (host : Host W) where
    save-Held : Keeps (Held P) (save host)
    unfolding save
    save-Held = record { keep = λ s h. h }

    module _ (texts : Texts) (names : Names) (fuel : ℕ) where
      remove_stale-Held :
          (rs : List String) → All Gone rs → Keeps (Held P) (remove_stale host texts names fuel rs)
      unfolding remove_stale
      remove_stale-Held [] g = record { keep = λ s h. h }
      remove_stale-Held (r ∷ rs) (g, gs) =
          Keeps-then {m = indexed r} (record { keep = λ s h. h })
            λ slot.
              let down = attempt (teardown host texts names fuel slot) in
              Keeps-then {m = reach down} (reach-Held P down) λ done.
                Keeps-then {m = if_some done (λ _. drop_slot r >> save host)}
                  (if_some-Held P done (λ _. drop_slot r >> save host)
                    λ _.
                      Keeps-then {m = drop_slot r}
                        (record { keep = λ s h. stable.removed r s.slots g h }) λ _. save-Held)
                  λ _. remove_stale-Held rs gs

      update_endpoint-Held :
          (b : Bind) (endpoint : Endpoint)
          → Keeps (Held P) (update_endpoint host texts names fuel b endpoint)
      unfolding update_endpoint
      update_endpoint-Held b endpoint =
          Keeps-then {m = indexed b.resource_id} (record { keep = λ s h. h })
            λ slot.
              let told = attempt (run host "wg" (endpoint_args (iface names slot) b endpoint)) in
              Keeps-then {m = reach told} (reach-Held P told) λ done.
                if_some-Held P done (λ _. note_applied b.resource_id (host.fingerprint b, endpoint))
                  λ _. record { keep = λ s h. h }

      -- The state as it is before a binding has its slot.
      abbrev Asked : Bind → Option Slot → Ctx W → Type 0
      Asked b held s = Held P s × (get b.resource_id s.slots ≡ held)

      -- The slot that was chosen may be inserted.
      abbrev Ready : Bind → Option Slot → Ctx W → Type 0
      Ready b none s = Held P s
      Ready b (some slot) s = P (insert b.resource_id slot s.slots)

      choose_slot-Ready :
          (b : Bind) (held : Option Slot)
          → Meets (Asked b held) (choose_slot host texts names fuel b held) (Ready b) (Held P)
      unfolding choose_slot
      choose_slot-Ready b none = record {
        meet = λ s (h, e).
            stable.new b.resource_id (slot_with (free_n s.slots) b) s.slots e
              (free_n-first s.slots).0 h;
      }
      choose_slot-Ready b (some old) = record {
        meet = λ s (h, e). elim (Bool-cases (is_same b (some old))) [
          | inl q ↦ rw q (stable.same b.resource_id old old s.slots e refl h)
          | inr q ↦ elim (Result-cases (attempt (teardown host texts names fuel old) s.world).0) [
            | inr (x, f) ↦ rw (q, f) h
            | inl (none, f) ↦ rw (q, f) h
            | inl (some u, f) ↦
                rw (q, f) (stable.same b.resource_id (slot_with old.n b) old s.slots e refl h)
          ]
        ];
      }

      noted-Held :
          (b : Bind) (endpoint : Endpoint) (done : Option (Unit {0}))
          → Keeps (Held P) (noted host texts names fuel b endpoint done)
      unfolding noted
      noted-Held b endpoint none = record { keep = λ s h. h }
      noted-Held b endpoint (some _) = record { keep = λ s h. h }

      set_up-Held :
          (b : Bind) (endpoint : Endpoint) (slot : Slot)
          → Meets
              (Ready b (some slot))
              (set_up host texts names fuel b endpoint slot)
              (λ _. Held P)
              (Held P)
      unfolding set_up
      set_up-Held b endpoint slot = record {
        meet = λ s h.
            Keeps-Outcome
              (Keeps-then save-Held λ _.
                let up = attempt (setup host texts names slot b endpoint) in
                Keeps-then {m = reach up} (reach-Held P up) λ done. noted-Held b endpoint done)
              (record s { slots = insert b.resource_id slot s.slots }) h;
      }

      reach-Asked :
          {A : Type 0} (b : Bind) (held : Option Slot) (m : Exec Error W A)
          → Meets (Asked b held) (reach m) (λ _. Asked b held) (Held P)
      reach-Asked b held m = record {
        meet = λ s h. elim (Result-cases (m s.world).0) [
          | inl (a, e) ↦ rw e h
          | inr (x, e) ↦ rw e h.0
        ];
      }

      placed-Held :
          (b : Bind) (endpoint : Endpoint) (slot : Option Slot)
          → Meets
              (Ready b slot)
              (if_some slot (set_up host texts names fuel b endpoint))
              (λ _. Held P)
              (Held P)
      placed-Held b endpoint none = record { meet = λ s h. h }
      placed-Held b endpoint (some slot) = set_up-Held b endpoint slot

      moved-Held :
          (b : Bind) (endpoint : Endpoint) (held : Option Slot) (made : Option (ℕ × Endpoint))
          → Meets
              (Asked b held)
              (if is_moved endpoint made
                then update_endpoint host texts names fuel b endpoint
                else pure tt)
              (λ _. Held P)
              (Held P)
      moved-Held b endpoint held made = record {
        meet = λ s h. elim (Bool-cases (is_moved endpoint made)) [
          | inl e ↦ rw e (Keeps-Outcome (update_endpoint-Held b endpoint) s h.0)
          | inr e ↦ rw e h.0
        ];
      }

      converge_to-Held :
          (b : Bind) (endpoint : Endpoint)
          → Keeps (Held P) (converge_to host texts names fuel b endpoint)
      unfolding converge_to
      converge_to-Held b endpoint = Meets-Keeps (
          Meets-then {m = slot_of b.resource_id} (record { meet = λ s h. (h, refl) })
            λ held.
              let seen = iface_present host texts names fuel held in
              Meets-then {m = reach seen} (reach-Asked b held seen) λ there.
                Meets-then {m = applied_of b.resource_id} (record { meet = λ s h. h })
                  λ made.
                    Meets-if (was_made (host.fingerprint b) made && is_same b held && there)
                      (moved-Held b endpoint held made)
                      (Meets-then (choose_slot-Ready b held) (placed-Held b endpoint)))

      converge-Held : (bs : List Bind) → Keeps (Held P) (converge host texts names fuel bs)
      unfolding converge
      converge-Held [] = record { keep = λ s h. h }
      converge-Held (b ∷ bs) =
          let found = attempt (resolve_endpoint host b.endpoint) in
          Keeps-then {m = reach found} (reach-Held P found) λ endpoint.
            Keeps-then {m = if_some endpoint (converge_to host texts names fuel b)}
              (if_some-Held P endpoint (converge_to host texts names fuel b) (converge_to-Held b))
              λ _. converge-Held bs

      -- `Tunnels::reconcile` keeps such a property, where the slots that are not wanted may go.
      pub reconcile-Held :
          (desired : List Bind)
          → ((slots : List (String × Slot)) → All Gone (stale desired slots))
          → Keeps (Held P) (reconcile host texts names fuel desired)
      unfolding reconcile
      reconcile-Held desired gone =
          Keeps-then {m = λ s. remove_stale host texts names fuel (stale desired s.slots) s}
            (record { keep = λ s h. (remove_stale-Held _ (gone s.slots)).keep s h })
            λ _. converge-Held desired
