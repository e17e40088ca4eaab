-- ===== src/Config/Stored.antt =====
-- src/config.rs: the file of a store and the configuration in memory.
use runman_agent.Prelude.{
  ◌≡◌, refl, ◌⊎◌, inl, inr, ◌∙◌, String, Bool, true, false, Option, some, Bool-cases, Option-cases,
}
use runman_agent.Prelude.Effect.{
  ok, is_ok, Outcome, Outcome-weaken, Meets, Meets-then, Result-cases,
}
use runman_agent.Config.{
  Config, FileCall, open_temp, write_all, sync_all, rename, FileHost, call_file, write_atomic,
  persist, validate, update, load,
}

-- What the calls are documented to do: `file w` and `temp w` are the contents of the file and of the
-- temporary file. A file that is opened for writing is emptied, a text is appended, and a renaming puts
-- the one file in the place of the other or changes nothing.
pub record FileLaws {W : Type 0} (host : FileHost W) (file temp : W → Option String) : Type 0 where
  pub open_file : (w : W) → file (host.call open_temp w).1 ≡ file w
  pub open_empty :
      (w : W) → (host.call open_temp w).0 ≡ true → temp (host.call open_temp w).1 ≡ some ""
  pub write_file : (text : String) (w : W) → file (host.call (write_all text) w).1 ≡ file w
  pub write_temp :
      (text : String) (w : W)
      → temp w ≡ some ""
      → (host.call (write_all text) w).0 ≡ true
      → temp (host.call (write_all text) w).1 ≡ some text
  pub sync_file : (w : W) → file (host.call sync_all w).1 ≡ file w
  pub sync_temp : (w : W) → temp (host.call sync_all w).1 ≡ temp w
  pub rename_done : (w : W) → (host.call rename w).0 ≡ true → file (host.call rename w).1 ≡ temp w
  pub rename_failed :
      (w : W) → (host.call rename w).0 ≡ false → file (host.call rename w).1 ≡ file w

module _ {W : Type 0} (host : FileHost W) where
  call_file-Meets :
      (c : FileCall) (P F : W → Type 0) (Q : W → Type 0)
      → ((w : W) → P w → (host.call c w).0 ≡ true → Q (host.call c w).1)
      → ((w : W) → P w → (host.call c w).0 ≡ false → F (host.call c w).1)
      → Meets P (call_file host c) (λ _. Q) F
  unfolding call_file
  call_file-Meets c P F Q done failed = record {
    meet = λ w p. elim (Bool-cases (host.call c w).0) [
      | inl e ↦ rw e (done w p e)
      | inr e ↦ rw e (failed w p e)
    ];
  }

  module _ (file temp : W → Option String) (laws : FileLaws host file temp) where
    -- The file is replaced as a whole, or is as it was.
    write_atomic-Meets :
        (text : String) (old : Option String)
        → Meets
            (λ w. file w ≡ old)
            (write_atomic host text)
            (λ _ w. file w ≡ some text)
            (λ w. file w ≡ old)
    unfolding write_atomic
    write_atomic-Meets text old =
        Meets-then {Q = λ _ w. (file w ≡ old) × (temp w ≡ some "")} {m = call_file host open_temp}
          (call_file-Meets open_temp _ _ _ (λ w p e. (laws.open_file w ∙ p, laws.open_empty w e))
            (λ w p e. laws.open_file w ∙ p))
          λ _.
            Meets-then {Q = λ _ w. (file w ≡ old) × (temp w ≡ some text)}
              {m = call_file host (write_all text)}
              (call_file-Meets (write_all text) _ _ _
                (λ w p e. (laws.write_file text w ∙ p.0, laws.write_temp text w p.1 e))
                (λ w p e. laws.write_file text w ∙ p.0))
              λ _.
                Meets-then {Q = λ _ w. (file w ≡ old) × (temp w ≡ some text)}
                  {m = call_file host sync_all}
                  (call_file-Meets sync_all _ _ _
                    (λ w p e. (laws.sync_file w ∙ p.0, laws.sync_temp w ∙ p.1))
                    (λ w p e. laws.sync_file w ∙ p.0))
                  λ _.
                    call_file-Meets rename _ _ _ (λ w p e. laws.rename_done w e ∙ p.1)
                      (λ w p e. laws.rename_failed w e ∙ p.0)

    module _ (is_socket_addr : String → Bool) (parse : String → Option Config)
        (encode : Config → Option String) where
      -- What `persist` leaves in the file.
      persist-Outcome :
          (c : Config) (w : W)
          → Outcome
              (λ _ w1. (text : String) × ((encode c ≡ some text) × (file w1 ≡ some text)))
              (λ w1. file w1 ≡ file w)
              (persist host encode true c w).0
              (persist host encode true c w).1
      unfolding persist
      persist-Outcome c w = elim (Option-cases (encode c)) [
        | inl e ↦ rw (persist, e) refl
        | inr (text, e) ↦
            rw (persist, e)
              (Outcome-weaken (λ _ w1. file w1 ≡ some text)
                (λ _ w1. (t : String) × ((some text ≡ some t) × (file w1 ≡ some t)))
                (λ w1. file w1 ≡ file w) (write_atomic host text w) (λ _ w1 h. (text, (refl, h)))
                ((write_atomic-Meets text (file w)).meet w refl))
      ]

      load-encode :
          (c : Config) (text : String)
          → parse text ≡ some c
          → validate is_socket_addr c ≡ ok tt
          → load is_socket_addr parse (some text) ≡ ok c
      unfolding load
      load-encode c text e v = rw (load, e, v) refl

      -- From a file that `Store::load` reads as the configuration in memory, `Store::update` either
      -- succeeds, and the configuration is the changed one, or fails, and it is the old one. Whatever it
      -- returns, `Store::load` then reads the file as the configuration in memory. The file is one that
      -- satisfies `FileLaws`, and the crate `toml` reads back what it writes of the changed configuration.
      pub update-outcome :
          (f : Config → Config) (c : Config) (w : W)
          → load is_socket_addr parse (file w) ≡ ok c
          → ((text : String) → encode (f c) ≡ some text → parse text ≡ some (f c))
          → (let (r, s) = update is_socket_addr host encode true f (c, w) in
              (load is_socket_addr parse (file s.1) ≡ ok s.0)
              × (((r ≡ ok tt) × (s.0 ≡ f c)) ⊎ ((is_ok r ≡ false) × (s.0 ≡ c))))
      unfolding update
      update-outcome f c w h read_back =
          let o = persist-Outcome (f c) w in
          elim (Result-cases (validate is_socket_addr (f c))) [
            | inr (x, e) ↦ rw (update, e) (h, inr (refl, refl))
            | inl (u, e) ↦ elim (Result-cases (persist host encode true (f c) w).0) [
              | inl (v, k) ↦
                  let (text, (g, there)) = rw k at o in
                  rw (update, e, k)
                    (rw there (load-encode (f c) text (read_back text g) e), inl (refl, refl))
              | inr (x, k) ↦ rw (update, e, k) (rw (rw k at o) h, inr (refl, refl))
            ]
          ]
