-- ===== src/Credential/Protocol/Formats/Selection.antt =====
-- What `getFormatServices` and `getFormatServicesFromMessage` return.
use test_lib.Common.{String, List}
use test_lib.Credential.Format.{CredentialFormatService, FormatPayload}
use test_lib.Exchange.Selection.Laws.{IsFirst, IsSelection, find-numbered, collect-IsSelection}
use test_lib.Credential.Protocol.Formats.{get_format_service_for_format_key, get_format_services}
use test_lib.Common.{◌==◌}

module _ {X : Type 0} (credential_formats : List (CredentialFormatService X)) where
  key-IsFirst :
      (key : String)
      → IsFirst
          (λ service. service.format_key == key)
          0
          credential_formats
          (get_format_service_for_format_key credential_formats key)
  unfolding get_format_service_for_format_key
  key-IsFirst key = find-numbered _ 0 credential_formats

  -- The service for a key is the first of the configured list with that key, and there is none only
  -- if no service has it. The services for the options that the user gives are taken at different
  -- places of the list, and a place is taken exactly when its service is the one for a key of the
  -- options.
  pub get_format_services-IsSelection :
      (payload : FormatPayload)
      → ((key : String)
          → IsFirst
              (λ service. service.format_key == key)
              0
              credential_formats
              (get_format_service_for_format_key credential_formats key))
        × IsSelection credential_formats
            (λ (p : String × String). get_format_service_for_format_key credential_formats p.0)
            payload
            (get_format_services credential_formats payload)
  unfolding get_format_services
  get_format_services-IsSelection payload = (
    key-IsFirst,
    collect-IsSelection credential_formats
        (λ (p : String × String) service. service.format_key == p.0) payload,
  )
