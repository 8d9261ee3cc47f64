-- ===== src/Connection/Inbound/Laws.antt =====
-- Which inbound messages `assertConnectionOrServiceDecorator` lets pass.
use test_lib.Common.{
  String, Bool, true, false, Option, none, some, ◌≡◌, ◌≢◌, ◌⊎◌, ◌↔◌, inl, inr, refl, arith,
  includes, is_truthy, is_defined, ◌||◌, eq_iff,
}
use test_lib.Exec.{ok, Exec, assert, ◌>>=◌, ◌>>◌}
use test_lib.Message.{ServiceDecorator, AgentMessage}
use test_lib.Connection.Record.{ConnectionRecord, is_ready, assert_ready}
use test_lib.Connection.Inbound.{
  InboundMessageContext, service_includes, check_previous, check_service, ready_or,
  assert_connection_or_service_decorator,
}

-- the key is not empty, and stands in the ~service decorator of the previous message, if there is
-- a previous message
abbrev pub IsVerified : Option AgentMessage → Option String → Type 0
IsVerified none key = Unit
IsVerified (some previous) key =
    (service : ServiceDecorator) × (k : String) × (previous.service ≡ some service)
    × (key ≡ some k)
    × (k ≢ "")
    × (includes service.recipient_keys k ≡ true)

-- a ready connection; or none, with keys that the previous messages announced, and with a
-- recipient key or a ~service decorator of the message's own
abbrev pub IsAllowed :
    {M : Type 0}
    → InboundMessageContext M
    → Option ServiceDecorator
    → Option AgentMessage
    → Option AgentMessage
    → Type 0
IsAllowed context service sent received =
    ((connection : ConnectionRecord) × (context.connection ≡ some connection)
      × (is_ready connection ≡ true))
    ⊎ ((context.connection ≡ none)
        × IsVerified sent context.recipient_key
        × IsVerified received context.sender_key
        × ((is_defined service || is_truthy context.recipient_key) ≡ true))

is_truthy_iff :
    (key : Option String) → (is_truthy key ≡ true) ↔ ((k : String) × (key ≡ some k) × (k ≢ ""))
is_truthy_iff none = (λ h. absurd (ground (arith, h)), λ (k, e, _). absurd (ground (arith, e)))
is_truthy_iff (some k) = (
  λ h. (k, refl, λ e. ground (arith, h, e, eq_iff k "")),
  λ (j, e, ne). ground (arith, e, ne, eq_iff k "", eq_iff j ""),
)

service_includes_iff :
    (service : Option ServiceDecorator) (key : Option String)
    → (service_includes service key ≡ true) ↔ (
        (d : ServiceDecorator) × (k : String) × (service ≡ some d)
        × (key ≡ some k)
        × (includes d.recipient_keys k ≡ true))
unfolding service_includes
service_includes_iff none key =
    (λ h. absurd (ground (arith, h)), λ (d, k, e, _, _). absurd (ground (arith, e)))
service_includes_iff (some d) none =
    (λ h. absurd (ground (arith, h)), λ (_, k, _, e, _). absurd (ground (arith, e)))
service_includes_iff (some d) (some k) = (λ h. (d, k, refl, refl, h), λ (d', k', e, e', h). cc)

module _ {S : Type 0} where
  assert_iff :
      (b : Bool) (message : String) (s : S) → (assert b message s ≡ (ok tt, s)) ↔ (b ≡ true)
  assert_iff true message s = (λ _. refl, λ _. refl)
  assert_iff false message s = (λ h. absurd (ground (arith, h)), λ h. absurd (ground (arith, h)))

  -- a first check, and then the rest
  pass_iff :
      (b : Bool) (message : String) (m : Exec S Unit) (s : S)
      → ((assert b message >> m) s ≡ (ok tt, s)) ↔ ((b ≡ true) × (m s ≡ (ok tt, s)))
  unfolding ◌>>=◌
  pass_iff true message m s = (λ h. (refl, h), λ h. h.1)
  pass_iff false message m s = (λ h. absurd (ground (arith, h)), λ h. absurd (ground (arith, h.0)))

  -- two checks, and then the rest
  pass_both_iff :
      (b c : Bool) (one two : String) (m : Exec S Unit) (s : S)
      → ((assert b one >> assert c two >> m) s ≡ (ok tt, s))
        ↔ ((b ≡ true) × (c ≡ true) × (m s ≡ (ok tt, s)))
  unfolding ◌>>=◌
  pass_both_iff true true one two m s = (λ h. (refl, refl, h), λ (_, _, h). h)
  pass_both_iff true false one two m s =
      (λ h. absurd (ground (arith, h)), λ (_, h, _). absurd (ground (arith, h)))
  pass_both_iff false c one two m s =
      (λ h. absurd (ground (arith, h)), λ (h, _, _). absurd (ground (arith, h)))

  -- a message from before is checked, and then the rest
  check_previous_iff :
      (no_key not_included : String) (previous : Option AgentMessage) (key : Option String)
      (m : Exec S Unit) (s : S)
      → ((check_previous no_key not_included previous key >> m) s ≡ (ok tt, s))
        ↔ (IsVerified previous key × (m s ≡ (ok tt, s)))
  unfolding check_previous
  check_previous_iff no_key not_included none key m s = (unfold ◌>>=◌ in (λ h. (tt, h), λ h. h.1))
  check_previous_iff no_key not_included (some previous) key m s =
      let both =
        pass_both_iff (is_truthy key) (service_includes previous.service key) no_key not_included m
          s in
      (
        λ h.
            let (truthy, within, later) = both.0 h in
            let (k, e, ne) = (is_truthy_iff key).0 truthy in
            let (d, k', ed, e', inc) = (service_includes_iff previous.service key).0 within in
            ((d, k', ed, e', ground (arith, e, e', ne), inc), later),
        λ ((d, k, ed, e, ne, inc), later). both.1 (
          (is_truthy_iff key).1 (k, e, ne),
          (service_includes_iff previous.service key).1 (d, k, ed, e, inc),
          later,
        ),
      )

  check_service_iff :
      {M : Type 0} (context : InboundMessageContext M) (service : Option ServiceDecorator)
      (sent received : Option AgentMessage) (s : S)
      → (check_service context service sent received s ≡ (ok tt, s)) ↔ (
          IsVerified sent context.recipient_key
          × IsVerified received context.sender_key
          × ((is_defined service || is_truthy context.recipient_key) ≡ true))
  unfolding check_service
  check_service_iff context service sent received s =
      let first = check_previous_iff _ _ sent context.recipient_key _ s in
      let second = check_previous_iff _ _ received context.sender_key _ s in
      let third =
        assert_iff (is_defined service || is_truthy context.recipient_key)
          "Message recipientKey must have ~service decorator" s in
      (
        λ h.
            let (verified, h1) = first.0 h in
            let (verified', h2) = second.0 h1 in (verified, verified', third.0 h2),
        λ (verified, verified', h). first.1 (verified, second.1 (verified', third.1 h)),
      )

  IsAllowed-iff :
      {M : Type 0} (context : InboundMessageContext M) (service : Option ServiceDecorator)
      (sent received : Option AgentMessage) (s : S) (connection : Option ConnectionRecord)
      → context.connection ≡ connection
      → (ready_or connection (check_service context service sent received) s ≡ (ok tt, s))
        ↔ IsAllowed context service sent received
  unfolding assert_ready
  IsAllowed-iff context service sent received s none none_given =
      let checks = check_service_iff context service sent received s in
      (
        λ h. let (one, two, three) = checks.0 h in inr (none_given, one, two, three),
        λ h. elim h [
          | inl (c, e, _) ↦ absurd (ground (arith, none_given, e))
          | inr (_, one, two, three) ↦ checks.1 (one, two, three)
        ],
      )
  IsAllowed-iff context service sent received s (some c) given =
      let ready = assert_iff (is_ready c) "Connection record is not ready to be used" s in
      (
        λ h. inl (c, given, ready.0 h),
        λ h. elim h [
          | inl (d, e, r) ↦ ready.1 (cc)
          | inr (e, _, _, _) ↦ absurd (ground (arith, given, e))
        ],
      )

  -- The check lets an inbound message pass exactly when it has a ready connection, or has none and
  -- was packed with the keys that the messages sent and received before announced in their
  -- ~service decorators, and has a recipient key or a ~service decorator itself.
  pub assert_connection_or_service_decorator_iff :
      {M : Type 0} (context : InboundMessageContext M) (service : Option ServiceDecorator)
      (sent received : Option AgentMessage) (s : S)
      → (assert_connection_or_service_decorator context service sent received s ≡ (ok tt, s))
        ↔ IsAllowed context service sent received
  unfolding assert_connection_or_service_decorator
  assert_connection_or_service_decorator_iff context service sent received s =
      IsAllowed-iff context service sent received s context.connection refl
