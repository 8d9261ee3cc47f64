-- ===== src/Mediation/Keylist/Laws.antt =====
-- The two sides of a keylist update come to the same keys.
use test_lib.Common.{String, List, [], ◌∷◌, ◌≡◌, refl, sym, ap}
use test_lib.Exec.{Result, ok, lift, bind-ok, run-bind}
use test_lib.Mediation.Keylist.{
  KeylistUpdate, KeylistUpdated, did_key_to_verkey, update_keys, process_updates, process_results,
}

module _ (from_did : String → Result String) {S T : Type 0} where
  -- If the mediator has gone through the updates from a list of keys, then the recipient, from the
  -- same list, goes through the results without an error, and comes to the same keys.
  pub process_results-process_updates :
      (updates : List KeylistUpdate) (keys keys' : List String) (keylist : List KeylistUpdated)
      (s s' : S) (t : T)
      → process_updates from_did updates keys s ≡ (ok (keys', keylist), s')
      → process_results from_did keylist keys t ≡ (ok keys', t)
  unfolding process_updates process_results
  process_results-process_updates [] keys keys' keylist s s' t h =
      let e : keys ≡ keys' = cc in let el : [] ≡ keylist = cc in rw (sym el, sym e) refl
  process_results-process_updates (update ∷ updates) keys keys' keylist s s' t h =
      let (key, s₁, converted, h₁) =
        bind-ok (lift (did_key_to_verkey from_did update.recipient_key)) _ s s' (keys', keylist)
          h in
      let next = update_keys from_did update.action key keys in
      let ((keys₂, rest), s₂, updated, h₂) =
        bind-ok (process_updates from_did updates next.1) _ s₁ s' (keys', keylist) h₁ in
      let e : keys₂ ≡ keys' = cc in
      let el : record {
        recipient_key = update.recipient_key;
        action = update.action;
        result = next.0;
      }
            ∷ rest
          ≡ keylist =
        cc in
      rw (sym el, sym e)
        (run-bind _ _ (ap (λ p. (p.0, t)) converted)
          (process_results-process_updates updates next.1 keys₂ rest s₁ s₂ t updated))
