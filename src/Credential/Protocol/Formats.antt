-- ===== src/Credential/Protocol/Formats.antt =====
-- Which format services take part: `getFormatServices`, `getFormatServicesFromMessage`,
-- `getFormatServiceForFormatKey` and `getFormatServiceForFormat` of V2CredentialProtocol.ts.
pub mod Selection
use test_lib.Common.{
  ℕ, suc, String, Bool, true, false, Option, none, some, List, [], ◌∷◌, ◌++◌, map, not, ◌==◌, find,
  is_empty, same, if◌then◌else◌,
}
use test_lib.Exec.{Exec, pure, assert, ◌>>=◌, ◌>>◌}
use test_lib.Message.{FormatSpec, MessageClass}
use test_lib.Storage.DidComm
use test_lib.Exchange.Selection.{numbered, collect, from_set}
use test_lib.Credential.Format.{CredentialFormatService, FormatPayload}
use test_lib.Credential.Record.{CredentialExchangeRecord}
use test_lib.Credential.Protocol.Base.{World, Config, on_stores}

module _ {X : Type 0} (credential_formats : List (CredentialFormatService X)) where
  unfoldable pub get_format_service_for_format_key : String → Option (ℕ × CredentialFormatService X)
  unfolding numbered
  get_format_service_for_format_key format_key =
      find (λ (p : ℕ × CredentialFormatService X). p.1.format_key == format_key)
        (numbered 0 credential_formats)

  unfoldable pub get_format_service_for_format : String → Option (ℕ × CredentialFormatService X)
  unfolding numbered
  get_format_service_for_format format =
      find (λ (p : ℕ × CredentialFormatService X). p.1.supports_format format)
        (numbered 0 credential_formats)

  unfoldable pub get_format_services : FormatPayload → List (CredentialFormatService X)
  unfolding get_format_service_for_format_key collect
  get_format_services payload =
      from_set (collect (λ (p : String × String). get_format_service_for_format_key p.0) payload [])

  unfoldable pub get_format_services_from_message :
      List FormatSpec → List (CredentialFormatService X)
  unfolding get_format_service_for_format collect
  get_format_services_from_message message_formats = from_set (
      collect (λ (spec : FormatSpec). get_format_service_for_format spec.format) message_formats [])

abbrev payload_or_empty : Option FormatPayload → FormatPayload
payload_or_empty none = []
payload_or_empty (some payload) = payload

module _ {CS MS X : Type 0} (config : Config CS MS X) where
  open config use {externals, credential_formats}

  -- `if (formatServices.length === 0) throw`
  unfoldable pub some_of : String → List (CredentialFormatService X) → Exec (World CS MS X) Unit
  some_of message format_services = assert (not (is_empty format_services)) message

  abbrev pub provided_or_stored :
      List (CredentialFormatService X)
      → CredentialExchangeRecord
      → MessageClass
      → Exec (World CS MS X) (List (CredentialFormatService X))
  provided_or_stored [] r message_class = do
    message ← on_stores (DidComm.get_agent_message externals r.id message_class)
    pure (get_format_services_from_message credential_formats message.formats)
  provided_or_stored format_services r message_class = pure format_services

  -- the services for the given options, or else those for the formats of the stored message
  unfoldable pub services_to_accept :
      String
      → Option FormatPayload
      → CredentialExchangeRecord
      → MessageClass
      → Exec (World CS MS X) (List (CredentialFormatService X))
  services_to_accept message payload r message_class = do
    let provided = get_format_services credential_formats (payload_or_empty payload)
    format_services ← provided_or_stored provided r message_class
    some_of message format_services
    pure format_services
