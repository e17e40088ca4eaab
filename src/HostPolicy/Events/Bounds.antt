-- ===== src/HostPolicy/Events/Bounds.antt =====
-- src/hostpolicy.rs: the bounds of a page that `events` returns.
use runman_agent.Prelude.{
  ℕ, ◌≤◌, ◌≡◌, ◌||◌, ◌&&◌, not, ltb, leb, Bool-cases, Option-cases, String, false, Option, length,
  All, arith, inl, inr,
}
use runman_agent.Prelude.Search.{any-All_not}
use runman_agent.Prelude.Effect.{ok, Result-cases}
use runman_agent.Model.{byte_len}
use runman_agent.Connlimit.Policy.{Texts}
use runman_agent.HostPolicy.{Host, Codec}
use runman_agent.HostPolicy.Service.{request}
use runman_agent.HostPolicy.Events.{
  Event, EventPage, is_bad_event, check_page, read_page, events, get_events,
}

check_page-bounds :
    (texts : Texts) (limit : ℕ) (raw : EventPage) {page : EventPage}
    → check_page texts limit raw ≡ ok page
    → (length page.events ≤ limit)
      × (byte_len page.next_cursor ≤ 160)
      × All (λ (e : Event). is_bad_event texts e ≡ false) page.events
unfolding check_page
check_page-bounds texts limit raw {page} e =
    let all = any-All_not (is_bad_event texts) page.events in
    (ground arith, ground arith, all (ground arith))

module _ {W : Type 0} (host : Host W) (base_url : String) (texts : Texts) (codec : Codec) where
  module _ (decode_page : String → Option EventPage) where
    read_page-bounds :
        (limit : ℕ) (answer : String × ℕ) {page : EventPage}
        → read_page host base_url texts codec decode_page limit answer ≡ ok page
        → (length page.events ≤ limit)
          × (byte_len page.next_cursor ≤ 160)
          × All (λ (e : Event). is_bad_event texts e ≡ false) page.events
    unfolding read_page
    read_page-bounds limit (body, status) {page} e = elim (Option-cases (decode_page body)) [
      | inl f ↦ absurd (ground arith)
      | inr (raw, f) ↦ check_page-bounds texts limit raw {page = page} (ground arith)
    ]

    -- A page that `events` returns has no more events than were asked for, which is from 1 to 100, its
    -- next cursor can be sent back, and each of its events is valid.
    pub events-bounds :
        (cursor : String) (limit : ℕ) (w : W) {page : EventPage}
        → (events host base_url texts codec decode_page cursor limit w).0 ≡ ok page
        → (1 ≤ limit)
          × (limit ≤ 100)
          × (length page.events ≤ limit)
          × (byte_len page.next_cursor ≤ 160)
          × All (λ (e : Event). is_bad_event texts e ≡ false) page.events
    unfolding events
    events-bounds cursor limit w {page} e =
        elim (Bool-cases (ltb 160 (byte_len cursor) || not (leb 1 limit && leb limit 100))) [
          | inl bad ↦ absurd (ground arith)
          | inr good ↦
              elim (Result-cases
                (request host codec base_url (get_events host base_url cursor limit) w).0) [
                  | inr (x, f) ↦ absurd (ground arith)
                  | inl (answer, f) ↦
                      let read : read_page host base_url texts codec decode_page limit answer
                          ≡ ok page =
                        ground arith in
                      let (few, short, valid) = read_page-bounds limit answer read in
                      (ground arith, ground arith, few, short, valid)
                ]
        ]
