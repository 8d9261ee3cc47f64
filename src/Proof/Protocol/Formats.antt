-- ===== src/Proof/Protocol/Formats.antt =====
-- Which format services take part: `getFormatServices`, `getFormatServicesFromMessage`,
-- `getFormatServiceForFormatKey` and `getFormatServiceForFormat` of V2ProofProtocol.ts.
use test_lib.Common.{ℕ, String, Option, none, some, List, [], not, ◌==◌, find, is_empty}
use test_lib.Exec.{Exec, pure, assert, ◌>>=◌, ◌>>◌}
use test_lib.Message.{FormatSpec, MessageClass}
use test_lib.Storage.DidComm
use test_lib.Exchange.Selection.{numbered, collect, from_set}
use test_lib.Proof.Format.{ProofFormatService, ProofPayload}
use test_lib.Proof.Record.{ProofExchangeRecord}
use test_lib.Proof.Protocol.Base.{World, Config, on_stores}

module _ {X : Type 0} (proof_formats : List (ProofFormatService X)) where
  unfoldable pub get_format_service_for_format_key : String → Option (ℕ × ProofFormatService X)
  unfolding numbered
  get_format_service_for_format_key format_key =
      find (λ (p : ℕ × ProofFormatService X). p.1.format_key == format_key)
        (numbered 0 proof_formats)

  unfoldable pub get_format_service_for_format : String → Option (ℕ × ProofFormatService X)
  unfolding numbered
  get_format_service_for_format format =
      find (λ (p : ℕ × ProofFormatService X). p.1.supports_format format) (numbered 0 proof_formats)

  unfoldable pub get_format_services : ProofPayload → List (ProofFormatService X)
  unfolding get_format_service_for_format_key collect
  get_format_services payload =
      from_set (collect (λ (p : String × String). get_format_service_for_format_key p.0) payload [])

  unfoldable pub get_format_services_from_message : List FormatSpec → List (ProofFormatService X)
  unfolding get_format_service_for_format collect
  get_format_services_from_message message_formats = from_set (
      collect (λ (spec : FormatSpec). get_format_service_for_format spec.format) message_formats [])

-- `proofFormats ?? {}`
abbrev payload_or_empty : Option ProofPayload → ProofPayload
payload_or_empty none = []
payload_or_empty (some payload) = payload

module _ {PS MS X : Type 0} (config : Config PS MS X) where
  open config use {externals, proof_formats}

  -- `if (formatServices.length === 0) throw`
  unfoldable pub some_of : String → List (ProofFormatService X) → Exec (World PS MS X) Unit
  some_of message format_services = assert (not (is_empty format_services)) message

  abbrev pub provided_or_stored :
      List (ProofFormatService X)
      → ProofExchangeRecord
      → MessageClass
      → Exec (World PS MS X) (List (ProofFormatService X))
  provided_or_stored [] r message_class = do
    message ← on_stores (DidComm.get_agent_message externals r.id message_class)
    pure (get_format_services_from_message proof_formats message.formats)
  provided_or_stored format_services r message_class = pure format_services

  -- the services for the given options, or else those for the formats of the stored message
  unfoldable pub services_to_accept :
      String
      → Option ProofPayload
      → ProofExchangeRecord
      → MessageClass
      → Exec (World PS MS X) (List (ProofFormatService X))
  services_to_accept message payload r message_class = do
    let provided = get_format_services proof_formats (payload_or_empty payload)
    format_services ← provided_or_stored provided r message_class
    some_of message format_services
    pure format_services
