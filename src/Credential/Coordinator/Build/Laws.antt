-- ===== src/Credential/Coordinator/Build/Laws.antt =====
-- What the loops of CredentialFormatCoordinator.ts put together, and that the other side finds it.
use test_lib.Common.{
  Bool, true, false, some, List, [], ◌∷◌, ◌++◌, map, ◌≡◌, refl, sym, ap, ◌==◌, eq_iff, find, All,
  subst, append-step, append-nil,
}
use test_lib.Exec.{ok, Exec, bind-ok}
use test_lib.Message.{FormatSpec, Attachment}
use test_lib.Storage.DidComm.{Stores}
use test_lib.Credential.Record.{CredentialExchangeRecord}
use test_lib.Credential.Format.{CreateReturn, CredentialFormatService}
use test_lib.Exchange.Attachments.{get_attachment_for, get_attachment_id_for}
use test_lib.Credential.Coordinator.Attachments.{get_attachment_for_service}
use test_lib.Credential.Coordinator.Build.{Draft, add, build}

abbrev pub formats_of : List CreateReturn → List FormatSpec
formats_of = map (λ m. m.format)

abbrev pub attachments_of : List CreateReturn → List Attachment
attachments_of = map (λ m. m.attachment)

-- The services, each called once in their order, with the contents that the ones before it left.
pub data Made {MS X : Type 0}
    (create : CredentialFormatService X
      → CredentialExchangeRecord
      → Exec (Stores MS X) CreateReturn)
    (r : CredentialExchangeRecord)
    : List (CredentialFormatService X)
      → Draft
      → Stores MS X
      → List CreateReturn
      → Stores MS X
      → Type 0 where
  all_made : {d : Draft} {s : Stores MS X} → Made create r [] d s [] s
  one_made :
      {service : CredentialFormatService X} {services : List (CredentialFormatService X)}
      {d : Draft} {m : CreateReturn} {ms : List CreateReturn} {s between s' : Stores MS X}
      → create service (record r { contents = d.contents }) s ≡ (ok m, between)
      → Made create r services (add m d) between ms s'
      → Made create r (service ∷ services) d s (m ∷ ms) s'

module _ {MS X : Type 0}
    (create : CredentialFormatService X
      → CredentialExchangeRecord
      → Exec (Stores MS X) CreateReturn)
    (r : CredentialExchangeRecord) where
  -- The loop that creates a message calls each format service once, in order, and adds the format
  -- and the attachment of each call to the draft, in that order.
  pub build-Made :
      (services : List (CredentialFormatService X)) (d d' : Draft) (s s' : Stores MS X)
      → build create r services d s ≡ (ok d', s')
      → (ms : List CreateReturn) × Made create r services d s ms s'
        × (d'.formats ≡ d.formats ++ formats_of ms)
        × (d'.attachments ≡ d.attachments ++ attachments_of ms)
  unfolding build add
  build-Made [] d d' s s' h =
      let es : s ≡ s' = ap (λ p. p.1) h in
      let ed : d ≡ d' = cc in
      (
        [],
        subst (λ t. Made create r [] d s [] t) es all_made,
        rw (sym ed) (append-nil d.formats),
        rw (sym ed) (append-nil d.attachments),
      )
  build-Made (service ∷ services) d d' s s' h =
      let (m, between, called, later) =
        bind-ok (create service (record r { contents = d.contents })) _ s s' d' h in
      let (ms, rest, formats, attachments) = build-Made services (add m d) d' between s' later in
      (
        m ∷ ms,
        one_made called rest,
        append-step d.formats m.format (formats_of ms) d'.formats formats,
        append-step d.attachments m.attachment (attachments_of ms) d'.attachments attachments,
      )

module _ {A : Type 0} (p : A → Bool) {B : Type 0} (f : B → A) where
  find-after :
      (before : List B) (x : B) (after : List B)
      → All (λ y. p (f y) ≡ false) before
      → p (f x) ≡ true
      → find p (map f (before ++ x ∷ after)) ≡ some (f x)
  find-after [] x after h here = rw here refl
  find-after (y ∷ before) x after (skip, h) here = rw skip (find-after before x after h here)

-- A service finds its attachment in a message, if it supports none of the formats before its own
-- and no attachment before has the same id.
pub get_attachment_for_service-made :
    {X : Type 0} (service : CredentialFormatService X) (before : List CreateReturn)
    (m : CreateReturn) (after : List CreateReturn)
    → All (λ n. service.supports_format n.format.format ≡ false) before
    → service.supports_format m.format.format ≡ true
    → m.format.attachment_id ≡ m.attachment.id
    → All (λ n. (n.attachment.id == m.format.attachment_id) ≡ false) before
    → get_attachment_for_service service
        (formats_of (before ++ m ∷ after))
        (attachments_of (before ++ m ∷ after))
      ≡ ok m.attachment
unfolding get_attachment_for get_attachment_id_for
get_attachment_for_service-made service before m after others own id apart =
    rw
      (
        get_attachment_for,
        get_attachment_id_for,
        find-after (λ (spec : FormatSpec). service.supports_format spec.format) (λ n. n.format)
            before m after others own,
        find-after (λ (a : Attachment). a.id == m.format.attachment_id) (λ n. n.attachment) before m
            after apart ((eq_iff _ _).1 (sym id)),
      )
      refl
