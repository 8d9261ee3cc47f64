-- ===== src/Tests/Agent/Building.antt =====
-- The loop that creates a message, at concrete inputs.
use test_lib.Common.{ℕ, none, List, [], ◌∷◌, ◌++◌, ◌≡◌, refl, sym, ◌==◌, arith}
use test_lib.Exec.{ok, Exec, pure, ◌>>=◌}
use test_lib.Storage.DidComm.{DidCommMessageRecord, Stores}
use test_lib.Credential.Record.{CredentialExchangeRecord, no_contents}
use test_lib.Credential.Format.{CreateReturn, CredentialFormatService}
use test_lib.Credential.Coordinator.Build.{Draft, empty_draft, add, build, on_rest}
use test_lib.Credential.Coordinator.Build.Laws.{formats_of, attachments_of, Made, build-Made}
use test_lib.Credential.Coordinator.Build.Found.{IsOwn, IsForeign, FindsOwn, build-FindsOwn}
use test_lib.Tests.Agent.{new_agent, plain, made}
use test_lib.Tests.Agent.Credential.{offered}

abbrev offer_by :
    CredentialFormatService ℕ
    → CredentialExchangeRecord
    → Exec (Stores (List DidCommMessageRecord) ℕ) CreateReturn
offer_by service r = on_rest (service.create_offer r [])

abbrev gathered : Draft
gathered = add (made offered.contents) (empty_draft offered.contents)

loop_runs :
    build offer_by offered (plain ∷ []) (empty_draft offered.contents) new_agent.stores
    ≡ (ok gathered, new_agent.stores)
unfolding build ◌>>=◌
loop_runs = refl

build-Made_example :
    (ms : List CreateReturn) × Made offer_by offered
      (plain ∷ [])
      (empty_draft offered.contents)
      new_agent.stores
      ms
      new_agent.stores
    × (gathered.formats ≡ (empty_draft offered.contents).formats ++ formats_of ms)
    × (gathered.attachments ≡ (empty_draft offered.contents).attachments ++ attachments_of ms)
build-Made_example =
    build-Made offer_by offered (plain ∷ []) (empty_draft offered.contents) gathered
      new_agent.stores new_agent.stores loop_runs

-- what a service of another format makes
abbrev other_made : CreateReturn
other_made = record {
  contents = no_contents;
  format = record { attachment_id = "other-0"; format = "other" };
  attachment = record { id = "other-0"; content = "{}" };
  preview_attributes = none;
}

abbrev other : CredentialFormatService ℕ
other = record plain {
  format_key = "other";
  supports_format = λ format. format == "other";
  create_offer = λ r _. pure other_made;
}

abbrev both : List (CredentialFormatService ℕ)
both = plain ∷ other ∷ []

abbrev gathered_both : Draft
gathered_both = add other_made (add (made no_contents) (empty_draft no_contents))

both_run :
    build offer_by offered both (empty_draft no_contents) new_agent.stores
    ≡ (ok gathered_both, new_agent.stores)
unfolding build ◌>>=◌
both_run = refl

plain_makes :
    (r : CredentialExchangeRecord) (s s' : Stores (List DidCommMessageRecord) ℕ) (m : CreateReturn)
    → offer_by plain r s ≡ (ok m, s')
    → made r.contents ≡ m
plain_makes r s s' m h = ground (arith, h)

other_makes :
    (r : CredentialExchangeRecord) (s s' : Stores (List DidCommMessageRecord) ℕ) (m : CreateReturn)
    → offer_by other r s ≡ (ok m, s')
    → other_made ≡ m
other_makes r s s' m h = ground (arith, h)

plain-IsOwn : IsOwn offer_by plain
plain-IsOwn = record {
  supported = λ r s s' m created. rw (sym (plain_makes r s s' m created)) refl;
  named = λ r s s' m created. rw (sym (plain_makes r s s' m created)) refl;
}

other-IsOwn : IsOwn offer_by other
other-IsOwn = record {
  supported = λ r s s' m created. rw (sym (other_makes r s s' m created)) refl;
  named = λ r s s' m created. rw (sym (other_makes r s s' m created)) refl;
}

plain-IsForeign : IsForeign offer_by plain other
plain-IsForeign = record {
  unsupported = λ r s s' m created. rw (sym (plain_makes r s s' m created)) refl;
}

build-FindsOwn_example :
    (ms : List CreateReturn) × Made offer_by offered both
      (empty_draft no_contents)
      new_agent.stores
      ms
      new_agent.stores
    × FindsOwn gathered_both.formats gathered_both.attachments both ms
unfolding add
build-FindsOwn_example =
    build-FindsOwn offer_by offered both no_contents gathered_both new_agent.stores new_agent.stores
      both_run (plain-IsOwn, (other-IsOwn, tt)) ((plain-IsForeign, tt), (tt, tt))
      ((refl, tt), (tt, tt))
