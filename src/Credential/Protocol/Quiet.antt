-- ===== src/Credential/Protocol/Quiet.antt =====
-- The steps of the protocol's methods that write neither records nor events.
use test_lib.Common.{String, Option, List, [], ◌∷◌}
use test_lib.Message.{MessageClass}
use test_lib.Exchange.Effect.{
  IsQuiet, IsQuiet-on_stores, IsQuiet-assert, IsQuiet-pure, IsQuiet-bind,
}
use test_lib.Exchange.Quiet.{shared_rules}
use test_lib.Credential.Record.{CredentialExchangeRecord, assert_protocol_version}
use test_lib.Credential.Format.{CredentialFormatService, FormatPayload}
use test_lib.Credential.Protocol.Base.{World, Config}
use test_lib.Credential.Protocol.Formats.{some_of, provided_or_stored, services_to_accept}

module _ {CS MS X : Type 0} where
  pub IsQuiet-assert_protocol_version :
      (version : String) (r : CredentialExchangeRecord)
      → IsQuiet (assert_protocol_version {S = World CS MS X} version r)
  unfolding assert_protocol_version
  IsQuiet-assert_protocol_version version r = IsQuiet-assert _ _

module _ {CS MS X : Type 0} (config : Config CS MS X) where
  pub IsQuiet-some_of :
      (message : String) (format_services : List (CredentialFormatService X))
      → IsQuiet (some_of config message format_services)
  unfolding some_of
  IsQuiet-some_of message format_services = IsQuiet-assert _ _

  IsQuiet-provided_or_stored :
      (format_services : List (CredentialFormatService X)) (r : CredentialExchangeRecord)
      (message_class : MessageClass)
      → IsQuiet (provided_or_stored config format_services r message_class)
  IsQuiet-provided_or_stored [] r message_class =
      IsQuiet-bind _ _ (IsQuiet-on_stores _) λ _. IsQuiet-pure _
  IsQuiet-provided_or_stored (_ ∷ _) r message_class = IsQuiet-pure _

  pub IsQuiet-services_to_accept :
      (message : String) (payload : Option FormatPayload) (r : CredentialExchangeRecord)
      (message_class : MessageClass)
      → IsQuiet (services_to_accept config message payload r message_class)
  unfolding services_to_accept
  IsQuiet-services_to_accept message payload r message_class =
      IsQuiet-bind _ _ (IsQuiet-provided_or_stored _ r message_class) λ format_services.
        IsQuiet-bind _ _ (IsQuiet-some_of message format_services) λ _. IsQuiet-pure _

pub ruleset quiet_rules =
    (shared_rules, IsQuiet-assert_protocol_version, IsQuiet-some_of, IsQuiet-services_to_accept)
