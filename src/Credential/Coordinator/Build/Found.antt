-- ===== src/Credential/Coordinator/Build/Found.antt =====
-- The attachments that the creating loop puts into a message are found by the services that made
-- them.
use test_lib.Common.{
  true, false, List, [], ◌∷◌, ◌++◌, ◌≡◌, refl, sym, ap, ◌==◌, map, subst, All, All-concat,
}
use test_lib.Exec.{ok, Exec}
use test_lib.Message.{FormatSpec, Attachment}
use test_lib.Storage.DidComm.{Stores}
use test_lib.Credential.Record.{Contents, CredentialExchangeRecord}
use test_lib.Credential.Format.{CreateReturn, CredentialFormatService}
use test_lib.Credential.Coordinator.Attachments.{get_attachment_for_service}
use test_lib.Credential.Coordinator.Build.{Draft, empty_draft, build}
use test_lib.Credential.Coordinator.Build.Laws.{
  formats_of, attachments_of, Made, all_made, one_made, build-Made, get_attachment_for_service-made,
}

-- no two attachments have the same id
abbrev pub HasDistinctIds : List Attachment → Type 0
HasDistinctIds [] = Unit
HasDistinctIds (a ∷ rest) = All (λ b. (a.id == b.id) ≡ false) rest × HasDistinctIds rest

module _ {X : Type 0} where
  -- each service finds, among these formats and attachments, the attachment that it made
  pub data FindsOwn (formats : List FormatSpec) (attachments : List Attachment)
      : List (CredentialFormatService X) → List CreateReturn → Type 0 where
    all_found : FindsOwn formats attachments [] []
    one_found :
        {service : CredentialFormatService X} {services : List (CredentialFormatService X)}
        {m : CreateReturn} {ms : List CreateReturn}
        → get_attachment_for_service service formats attachments ≡ ok m.attachment
        → FindsOwn formats attachments services ms
        → FindsOwn formats attachments (service ∷ services) (m ∷ ms)

  -- the service supports the format of none of these
  abbrev Skips : CredentialFormatService X → List CreateReturn → Type 0
  Skips service = All (λ n. service.supports_format n.format.format ≡ false)

module _ {MS X : Type 0}
    (create : CredentialFormatService X
      → CredentialExchangeRecord
      → Exec (Stores MS X) CreateReturn) where
  -- A service supports the format that it makes, and the format names the attachment.
  pub record IsOwn (service : CredentialFormatService X) : Type 0 where
    pub supported :
        (r : CredentialExchangeRecord) (s s' : Stores MS X) (m : CreateReturn)
        → create service r s ≡ (ok m, s')
        → service.supports_format m.format.format ≡ true
    pub named :
        (r : CredentialExchangeRecord) (s s' : Stores MS X) (m : CreateReturn)
        → create service r s ≡ (ok m, s')
        → m.format.attachment_id ≡ m.attachment.id

  -- The later service supports no format that the earlier one makes.
  pub record IsForeign (earlier later : CredentialFormatService X) : Type 0 where
    pub unsupported :
        (r : CredentialExchangeRecord) (s s' : Stores MS X) (m : CreateReturn)
        → create earlier r s ≡ (ok m, s')
        → later.supports_format m.format.format ≡ false

  abbrev pub AreApart : List (CredentialFormatService X) → Type 0
  AreApart [] = Unit
  AreApart (service ∷ services) = All (IsForeign service) services × AreApart services

module _ {A B : Type 0} (f : A → B) (P : B → Type 0) where
  All-middle :
      (before : List A) (x : A) (after : List A) → All P (map f (before ++ x ∷ after)) → P (f x)
  All-middle [] x after (p, _) = p
  All-middle (y ∷ before) x after (_, ps) = All-middle before x after ps

append-middle :
    {A : Type 0} (before : List A) (x : A) (after : List A)
    → before ++ x ∷ after ≡ (before ++ x ∷ []) ++ after
append-middle [] x after = refl
append-middle (y ∷ before) x after = ap (λ l. y ∷ l) (append-middle before x after)

ids-before :
    (before : List CreateReturn) (m : CreateReturn) (after : List CreateReturn)
    → HasDistinctIds (attachments_of (before ++ m ∷ after))
    → All (λ n. (n.attachment.id == m.attachment.id) ≡ false) before
ids-before [] m after h = tt
ids-before (n ∷ before) m after (apart, h) = (
  All-middle (λ (k : CreateReturn). k.attachment)
      (λ (b : Attachment). (n.attachment.id == b.id) ≡ false) before m after apart,
  ids-before before m after h,
)

module _ {X : Type 0} where
  Skips-nil : (services : List (CredentialFormatService X)) → All (λ later. Skips later []) services
  Skips-nil [] = tt
  Skips-nil (service ∷ services) = (tt, Skips-nil services)

module _ {MS X : Type 0}
    (create : CredentialFormatService X
      → CredentialExchangeRecord
      → Exec (Stores MS X) CreateReturn)
    (r : CredentialExchangeRecord) where
  All-Skips :
      (services : List (CredentialFormatService X)) (before : List CreateReturn)
      {service : CredentialFormatService X} (s s' : Stores MS X) (m : CreateReturn)
      (r' : CredentialExchangeRecord)
      → create service r' s ≡ (ok m, s')
      → All (IsForeign create service) services
      → All (λ later. Skips later before) services
      → All (λ later. Skips later (before ++ m ∷ [])) services
  All-Skips [] before s s' m r' made foreign skips = tt
  All-Skips (later ∷ services) before s s' m r' made (apart, foreign) (skip, skips) = (
    All-concat (λ n. later.supports_format n.format.format ≡ false) before skip
        (apart.unsupported r' s s' m made),
    All-Skips services before s s' m r' made foreign skips,
  )

  Made-FindsOwn :
      (services : List (CredentialFormatService X)) (before ms : List CreateReturn) (d : Draft)
      (s s' : Stores MS X)
      → Made create r services d s ms s'
      → All (IsOwn create) services
      → AreApart create services
      → All (λ later. Skips later before) services
      → HasDistinctIds (attachments_of (before ++ ms))
      → FindsOwn (formats_of (before ++ ms)) (attachments_of (before ++ ms)) services ms
  Made-FindsOwn _ before _ d s s' all_made own apart skips distinct = all_found
  Made-FindsOwn (service ∷ services) before (m ∷ ms) d s s' (one_made created rest) (mine, own)
        (foreign, apart) (skip, skips) distinct =
      let named = mine.named _ s _ m created in
      let e = append-middle before m ms in
      one_found
        (get_attachment_for_service-made service before m ms skip (mine.supported _ s _ m created)
          named
          (subst (λ id. All (λ (n : CreateReturn). (n.attachment.id == id) ≡ false) before)
            (sym named) (ids-before before m ms distinct)))
        (subst (λ l. FindsOwn (formats_of l) (attachments_of l) services ms) (sym e)
          (Made-FindsOwn services (before ++ m ∷ []) ms _ _ s' rest own apart
            (All-Skips services before s _ m _ created foreign skips)
            (subst (λ l. HasDistinctIds (attachments_of l)) e distinct)))

  -- If the creating loop succeeds from an empty draft, every service supports the formats that it makes
  -- and names its attachment in them, no service supports a format that an earlier one makes, and the
  -- gathered attachments have distinct ids, then each service finds, among the gathered formats and
  -- attachments, the attachment that it made in this run.
  pub build-FindsOwn :
      (services : List (CredentialFormatService X)) (contents : Contents) (d' : Draft)
      (s s' : Stores MS X)
      → build create r services (empty_draft contents) s ≡ (ok d', s')
      → All (IsOwn create) services
      → AreApart create services
      → HasDistinctIds d'.attachments
      → (ms : List CreateReturn) × Made create r services (empty_draft contents) s ms s'
        × FindsOwn d'.formats d'.attachments services ms
  build-FindsOwn services contents d' s s' h own apart distinct =
      let (ms, made, formats, attachments) =
        build-Made create r services (empty_draft contents) d' s s' h in
      (
        ms,
        made,
        rw (formats, attachments)
            (Made-FindsOwn services [] ms _ s s' made own apart (Skips-nil services)
              (subst HasDistinctIds attachments distinct)),
      )
