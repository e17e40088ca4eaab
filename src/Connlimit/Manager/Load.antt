-- ===== src/Connlimit/Manager/Load.antt =====
-- src/connlimit.rs: `load_state` and `Manager::new`. The text of the file is read by the
-- crate `serde_json`: `decode`.
use Prim.Native.Char.{code}
use runman_agent.Prelude.{
  ℕ, ◌≡◌, refl, String, Bool, true, false, not, ◌&&◌, ◌||◌, Option, none, some, List, [], ◌∷◌, All,
  all, ltb, leb, ◌==◌, if◌then◌else◌,
}
use runman_agent.Prelude.Effect.{Result, ok, err}
use runman_agent.Model.{is_empty, byte_len}
use runman_agent.Connlimit.Policy.{Policy}
use runman_agent.Connlimit.Manager.{is_loadable}
use runman_agent.Connlimit.Manager.Stored.{Loadable}

-- `std::fs::read` of the file of policies.
pub data ReadFile : Type 0 where
  contents : String → ReadFile
  not_found unreadable : ReadFile

pub data LoadError : Type 0 where
  bad_bridge not_decoded invalid_policy not_read : LoadError

module _ (decode : String → Option (List Policy)) where
  unfoldable pub load_state : ReadFile → Result LoadError (List Policy)
  unfolding is_loadable all
  load_state (contents raw) = elim (decode raw) [
    | none ↦ err not_decoded
    | some policies ↦ if all is_loadable policies then ok policies else err invalid_policy
  ]
  load_state not_found = ok []
  load_state unreadable = err not_read

  -- An ASCII letter or digit, or one of `_`, `-` and `.`.
  abbrev pub is_bridge_byte : ℕ → Bool
  is_bridge_byte b =
      (leb b'0' b && leb b b'9')
      || (leb b'a' b && leb b b'z')
      || (leb b'A' b && leb b b'Z')
      || (b == b'_')
      || (b == b'-')
      || (b == b'.')

  unfoldable pub all_bridge : String → Bool
  all_bridge String.[] = true
  all_bridge (String.◌∷◌ c s) = if is_bridge_byte (code c) then all_bridge s else false

  -- `Manager::new`: the policies that the manager starts with.
  unfoldable pub new : ReadFile → String → Result LoadError (List Policy)
  unfolding load_state all_bridge byte_len
  new file bridge =
      if is_empty bridge || ltb 15 (byte_len bridge) || not (all_bridge bridge)
      then err bad_bridge
      else load_state file

  pub all-Loadable : (ps : List Policy) → All Loadable ps → all is_loadable ps ≡ true
  unfolding all
  all-Loadable [] h = refl
  all-Loadable (p ∷ ps) (h, hs) = rw h (all-Loadable ps hs)
