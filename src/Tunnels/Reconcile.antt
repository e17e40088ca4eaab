-- ===== src/Tunnels/Reconcile.antt =====
-- src/runtime/wg.rs: `Tunnels::load`, `addresses_by_vm` and `reconcile`. Times and the log are not
-- modelled; the bound `fuel` is that of the loop that deletes rules.
use runman_agent.Prelude.{
  ℕ, String, Bool, true, false, not, ◌&&◌, Option, none, some, List, [], ◌∷◌, ◌++◌, map, any,
  retain, ◌==◌, if◌then◌else◌, str_eq,
}
use runman_agent.Prelude.Effect.{Result, ok, err, Exec, ◌>>=◌, ◌>>◌, pure, bail, continue}
use runman_agent.Connlimit.Policy.{IpAddr, v4, v6, Texts}
use runman_agent.Connlimit.Manager.Load.{ReadFile, contents, not_found, unreadable}
use runman_agent.Tunnels.{
  Error, command_failed, save_failed, not_loaded, missing_key, out_of_fuel, Bind, Slot, get, insert,
  remove, is_present, free_n, Endpoint, Names, Host, Ctx,
}
use runman_agent.Tunnels.Commands.{iface, run, present, resolve_endpoint, teardown, setup}
pub mod Distinct
pub mod Numbers

unfoldable pub load :
    (String → Option (List (String × Slot))) → ReadFile → Result Error (List (String × Slot))
load decode (contents raw) = elim (decode raw) [ none ↦ err not_loaded | some slots ↦ ok slots ]
load decode not_found = ok []
load decode unreadable = err not_loaded

-- The addresses under an instance, in the order of the slots.
unfoldable pub add_address :
    List (String × List IpAddr) → String × Slot → List (String × List IpAddr)
unfolding get insert
add_address m (resource, slot) = elim (get slot.vm_id m) [
  | none ↦ insert slot.vm_id (slot.address ∷ []) m
  | some held ↦ insert slot.vm_id (held ++ slot.address ∷ []) m
]

unfoldable pub addresses_by_vm :
    List (String × Slot) → List (String × List IpAddr) → List (String × List IpAddr)
unfolding add_address
addresses_by_vm [] m = m
addresses_by_vm (e ∷ slots) m = addresses_by_vm slots (add_address m e)

-- A call that reaches only the world.
abbrev pub reach : {W A : Type 0} → Exec Error W A → Exec Error (Ctx W) A
reach m s = let (r, w) = m s.world in (r, record s { world = w })

-- An error that is logged and left.
abbrev caught : {A : Type 0} → Result Error A → Result Error (Option A)
caught (ok a) = ok (some a)
caught (err out_of_fuel) = err out_of_fuel
caught (err e) = ok none

abbrev pub attempt : {W A : Type 0} → Exec Error W A → Exec Error W (Option A)
attempt m w = let (r, w1) = m w in (caught r, w1)

-- The rest of a round of a loop, or `continue`.
abbrev pub if_some :
    {W A : Type 0} → Option A → (A → Exec Error (Ctx W) Unit) → Exec Error (Ctx W) Unit
if_some none f = pure tt
if_some (some a) f = f a

abbrev pub slot_of : {W : Type 0} → String → Exec Error (Ctx W) (Option Slot)
slot_of resource s = (ok (get resource s.slots), s)

abbrev pub applied_of : {W : Type 0} → String → Exec Error (Ctx W) (Option (ℕ × Endpoint))
applied_of resource s = (ok (get resource s.applied), s)

abbrev or_missing : Option Slot → Result Error Slot
or_missing none = err missing_key
or_missing (some slot) = ok slot

-- `self.slots[&resource]`
abbrev pub indexed : {W : Type 0} → String → Exec Error (Ctx W) Slot
indexed resource s = (or_missing (get resource s.slots), s)

abbrev pub drop_slot : {W : Type 0} → String → Exec Error (Ctx W) Unit
drop_slot resource s =
    (ok tt, record s { slots = remove resource s.slots; applied = remove resource s.applied })

abbrev pub insert_slot : {W : Type 0} → String → Slot → Exec Error (Ctx W) Unit
insert_slot resource slot s = (ok tt, record s { slots = insert resource slot s.slots })

abbrev pub note_applied : {W : Type 0} → String → ℕ × Endpoint → Exec Error (Ctx W) Unit
note_applied resource made s = (ok tt, record s { applied = insert resource made s.applied })

abbrev pub forget_applied : {W : Type 0} → String → Exec Error (Ctx W) Unit
forget_applied resource s = (ok tt, record s { applied = remove resource s.applied })

abbrev same_ip : IpAddr → IpAddr → Bool
same_ip (v4 m) (v4 n) = m == n
same_ip (v6 m) (v6 n) = m == n
same_ip (v4 m) (v6 n) = false
same_ip (v6 m) (v4 n) = false

-- The slot is that of the instance and the address of the binding.
unfoldable pub is_same : Bind → Option Slot → Bool
is_same b none = false
is_same b (some s) = str_eq s.vm_id b.vm_id && same_ip s.address b.address

abbrev pub was_made : ℕ → Option (ℕ × Endpoint) → Bool
was_made fp none = false
was_made fp (some made) = made.0 == fp

abbrev pub is_moved : Endpoint → Option (ℕ × Endpoint) → Bool
is_moved endpoint none = true
is_moved endpoint (some made) = not (str_eq made.1.text endpoint.text)

abbrev pub is_wanted : List Bind → String → Bool
is_wanted desired resource = any (λ (b : Bind). str_eq b.resource_id resource) desired

unfoldable pub stale : List Bind → List (String × Slot) → List String
unfolding any retain
stale desired slots =
    retain (λ r. not (is_wanted desired r)) (map (λ (e : String × Slot). e.0) slots)

abbrev pub endpoint_args : String → Bind → Endpoint → List String
endpoint_args ifc b endpoint =
    "set" ∷ ifc ∷ "peer" ∷ b.peer_public_key ∷ "endpoint" ∷ endpoint.text ∷ []

abbrev pub slot_with : ℕ → Bind → Slot
slot_with n b = record { n = n; vm_id = b.vm_id; address = b.address }

module _ {W : Type 0} (host : Host W) where
  unfoldable pub save : Exec Error (Ctx W) Unit
  save s =
      let (done, w) = host.write_slots s.slots s.world in
      (if done then ok tt else err save_failed, record s { world = w })

  module _ (texts : Texts) (names : Names) (fuel : ℕ) where
    unfoldable pub remove_stale : List String → Exec Error (Ctx W) Unit
    unfolding teardown save remove
    remove_stale [] = pure tt
    remove_stale (resource ∷ rest) = do
      slot ← indexed resource
      done ← reach (attempt (teardown host texts names fuel slot))
      if_some done λ _. do drop_slot resource; save
      remove_stale rest

    unfoldable pub iface_present : Option Slot → Exec Error W Bool
    unfolding iface present
    iface_present none = pure false
    iface_present (some slot) = present host (iface names slot)

    -- The name of the gateway now resolves elsewhere.
    unfoldable pub update_endpoint : Bind → Endpoint → Exec Error (Ctx W) Unit
    unfolding run iface insert
    update_endpoint b endpoint = do
      slot ← indexed b.resource_id
      done ← reach (attempt (run host "wg" (endpoint_args (iface names slot) b endpoint)))
      if_some done λ _. note_applied b.resource_id (host.fingerprint b, endpoint)

    -- The slot of a binding: the one it has, one with the number it had, or one with a free number.
    unfoldable pub choose_slot : Bind → Option Slot → Exec Error (Ctx W) (Option Slot)
    unfolding teardown free_n is_same
    choose_slot b none s = (ok (some (slot_with (free_n s.slots) b)), s)
    choose_slot b (some old) s =
        (if is_same b (some old) then pure (some old) else do
          done ← reach (attempt (teardown host texts names fuel old))
          pure (elim done [ none ↦ none | some _ ↦ some (slot_with old.n b) ]))
          s

    unfoldable pub noted : Bind → Endpoint → Option (Unit {0}) → Exec Error (Ctx W) Unit
    unfolding insert remove
    noted b endpoint none = forget_applied b.resource_id
    noted b endpoint (some _) = note_applied b.resource_id (host.fingerprint b, endpoint)

    unfoldable pub set_up : Bind → Endpoint → Slot → Exec Error (Ctx W) Unit
    unfolding save setup insert noted
    set_up b endpoint slot = do
      insert_slot b.resource_id slot
      save
      done ← reach (attempt (setup host texts names slot b endpoint))
      noted b endpoint done

    unfoldable pub converge_to : Bind → Endpoint → Exec Error (Ctx W) Unit
    unfolding iface_present update_endpoint choose_slot set_up is_same get
    converge_to b endpoint = do
      held ← slot_of b.resource_id
      there ← reach (iface_present held)
      made ← applied_of b.resource_id
      if was_made (host.fingerprint b) made && is_same b held && there
          then (if is_moved endpoint made then update_endpoint b endpoint else pure tt)
          else do slot ← choose_slot b held; if_some slot (set_up b endpoint)

    unfoldable pub converge : List Bind → Exec Error (Ctx W) Unit
    unfolding resolve_endpoint converge_to
    converge [] = pure tt
    converge (b ∷ rest) = do
      found ← reach (attempt (resolve_endpoint host b.endpoint))
      if_some found (converge_to b)
      converge rest

    unfoldable pub reconcile : List Bind → Exec Error (Ctx W) Unit
    unfolding remove_stale converge stale
    reconcile desired = do (λ s. remove_stale (stale desired s.slots) s); converge desired
