-- ===== src/Exchange/Events.antt =====
-- What the effects of methods make of the events so far and of the storage.
use test_lib.Common.{String, Option, none, some, ◌≡◌, All, All-concat}
use test_lib.Exec.{Result, ok, err}
use test_lib.Storage.Service.{StorageService, IsStorage}
use test_lib.Exchange.{World, States, StateChanged}
use test_lib.Exchange.Effect.{Effect}

-- an event that tells of a transition of the protocol
abbrev pub Tells :
    {R St : Type 0} → States R St → (Option St → St → Type 0) → StateChanged R St → Type 0
Tells states Allowed e = Allowed e.previous_state (states.state_of e.changed)

module _ {S R Q St MS X : Type 0} (storage : StorageService S R Q) (states : States R St)
    (Allowed : Option St → St → Type 0) where
  pub Effect-All :
      (w : World S R St MS X) (r : Result R) (w' : World S R St MS X)
      → Effect storage states Allowed w r w'
      → All (Tells states Allowed) w.events
      → All (Tells states Allowed) w'.events
  Effect-All w (err e) w' (_, same) h = rw same h
  Effect-All w (ok r) w' (previous, allowed, _, logged) h =
      rw logged (All-concat (Tells states Allowed) w.events h allowed)

  pub Effect-stored :
      (id_of : R → String)
      → IsStorage id_of storage
      → (w w' : World S R St MS X) (r : R) → Effect storage states Allowed w (ok r) w'
      → storage.get_by_id w'.records.store (id_of r) ≡ ok r
  Effect-stored id_of laws w w' r (none, _, written, _) = laws.get-save _ _ r written
  Effect-stored id_of laws w w' r (some _, _, written, _) = laws.get-update _ _ r written
