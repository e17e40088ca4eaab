-- ===== src/Config/Valid.antt =====
-- src/config.rs: what a configuration that was accepted satisfies.
use Prim.Native.Char.{code}
use runman_agent.Prelude.{
  ℕ, ◌&&◌, leb, if◌then◌else◌, ◌==◌, not, ◌||◌, ◌≤◌, ◌<◌, ◌≡◌, refl, String, Bool, true, false,
  Option, none, some, arith, inl, inr, Option-cases, Bool-cases,
}
use runman_agent.Prelude.Int.{ℤ, pos, negsuc, leb_ℤ}
use runman_agent.Prelude.Effect.{Result, ok, err}
use runman_agent.Traffic.Schedule.{Schedule, next_reset}
use runman_agent.Traffic.Schedule.Reset.{lt-next_reset}
use runman_agent.Model.{byte_len, is_empty}
use runman_agent.Config.{
  is_http, has_whitespace, unwrap_or, Error, Config, parse_utc_offset, parse_signed, parse_halves,
  parse_i32, split_colon, offset_of, traffic_schedule, validate,
}

-- From 12 hours west to 14 hours east, in minutes.
abbrev pub IsOffset : ℤ → Type 0
IsOffset z = (leb_ℤ (negsuc 719) z ≡ true) × (leb_ℤ z (pos 840) ≡ true)

abbrev pub IsValidSchedule : Schedule → Type 0
IsValidSchedule s = (1 ≤ s.reset_day) × (s.reset_day ≤ 28) × IsOffset s.utc_offset_min

-- What was read, if anything was, is an offset.
abbrev ReadsOffset : Option ℤ → Type 0
ReadsOffset none = Unit
ReadsOffset (some z) = IsOffset z

offset_of-ReadsOffset : (sign h m : ℤ) → ReadsOffset (offset_of sign h m)
unfolding offset_of
offset_of-ReadsOffset sign h m = ground arith

parse_halves-ReadsOffset :
    (sign : ℤ) (halves : String × String) → ReadsOffset (parse_halves sign halves)
unfolding parse_halves
parse_halves-ReadsOffset sign (h, m) =
    elim (Bool-cases (not (byte_len h == 2) || not (byte_len m == 2))) [
      | inl bad ↦ rw bad tt
      | inr good ↦ rw good (elim (Option-cases (parse_i32 h)) [
        | inl e ↦ rw e tt
        | inr (hours, e) ↦ rw e (elim (Option-cases (parse_i32 m)) [
          | inl e ↦ rw e tt
          | inr (minutes, e) ↦ rw e (offset_of-ReadsOffset sign hours minutes)
        ])
      ])
    ]

parse_signed-ReadsOffset : (sign : ℤ) (rest : String) → ReadsOffset (parse_signed sign rest)
unfolding parse_signed
parse_signed-ReadsOffset sign rest = elim (Option-cases (split_colon rest)) [
  | inl e ↦ rw (parse_signed, e) tt
  | inr (halves, e) ↦ rw (parse_signed, e) (parse_halves-ReadsOffset sign halves)
]

parse_utc_offset-ReadsOffset : (text : String) → ReadsOffset (parse_utc_offset text)
unfolding parse_utc_offset
parse_utc_offset-ReadsOffset String.[] = tt
parse_utc_offset-ReadsOffset (String.◌∷◌ c s) = elim (Bool-cases (code c == b'+')) [
  | inl e ↦ rw e (parse_signed-ReadsOffset (pos 1) s)
  | inr e ↦ rw e (elim (Bool-cases (code c == b'-')) [
    | inl f ↦ rw f (parse_signed-ReadsOffset (negsuc 0) s)
    | inr f ↦ rw f tt
  ])
]

-- A time zone that is not read counts as UTC.
unwrap_or-IsOffset : (o : Option ℤ) → ReadsOffset o → IsOffset (unwrap_or o (pos 0))
unwrap_or-IsOffset none h = (refl, refl)
unwrap_or-IsOffset (some z) h = h

-- What a check that was passed shows, and the checks behind it.
after :
    (b : Bool) (e : Error) (r : Result Error Unit) → (if b then err e else r) ≡ ok tt → r ≡ ok tt
after true e r h = ground arith
after false e r h = h

passed :
    (b : Bool) (e : Error) (r : Result Error Unit)
    → (if not b then err e else r) ≡ ok tt
    → (b ≡ true) × (r ≡ ok tt)
passed true e r h = (refl, h)
passed false e r h = ground arith

within : (n : ℕ) → (leb 1 n && leb n 28) ≡ true → (1 ≤ n) × (n ≤ 28)
within n h = ground arith

module _ (is_socket_addr : String → Bool) where
  -- The schedule of a configuration that is accepted has a day from 1 to 28 and an offset from 12 hours
  -- west to 14 hours east.
  pub validate-IsValidSchedule :
      (c : Config) → validate is_socket_addr c ≡ ok tt → IsValidSchedule (traffic_schedule c)
  unfolding validate traffic_schedule
  validate-IsValidSchedule c e =
      let (b1, e1) = passed (is_http c.platform_url) _ _ e in
      let e2 =
        after
          (not (is_empty c.token) && not (leb 16 (byte_len c.token) && leb (byte_len c.token) 512))
          _ _ e1 in
      let e3 = after (not (is_empty c.web_listen) && not (is_socket_addr c.web_listen)) _ _ e2 in
      let (b4, e4) = passed (is_socket_addr c.rfw_addr) _ _ e3 in
      let (b5, e5) = passed (is_http c.update_url) _ _ e4 in
      let (b6, e6) = passed (is_http c.image_base_url) _ _ e5 in
      let e7 = after (has_whitespace c.image_base_url) _ _ e6 in
      let (b8, e8) = passed (leb 1 c.traffic_reset_day && leb c.traffic_reset_day 28) _ _ e7 in
      let (lo, hi) = within c.traffic_reset_day b8 in
      (lo, hi, unwrap_or-IsOffset _ (parse_utc_offset-ReadsOffset c.traffic_timezone))

  -- With the schedule of a configuration that is accepted, the next reset is after the present, for
  -- every instance and time.
  pub validate-lt_next_reset :
      (c : Config) (created now : ℕ)
      → validate is_socket_addr c ≡ ok tt
      → now < next_reset (traffic_schedule c) created now
  validate-lt_next_reset c created now e =
      lt-next_reset (traffic_schedule c) created now (validate-IsValidSchedule c e).0
