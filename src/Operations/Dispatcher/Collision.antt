-- ===== src/Operations/Dispatcher/Collision.antt =====
-- Events with one token: src/investment_tracker/operations.py.
use Prim.Native.String.{◌++◌ as str_append}
use text.Mathlib.TextLemmas.{append_assoc as str_append_assoc}
use investment_tracker.Prelude.{sym, ◌≢◌, ◌∙◌, ℕ, String, ◌≡◌, some, none, ok, ap}
use investment_tracker.Dict.{get-put_ne, string_key, pair_key, get, put, get-put_self}
use investment_tracker.Timestamp.{aware}
use investment_tracker.Operations.Dispatcher.{
  Alert, Dispatcher, raise_alert, new_alert, event_token,
}

token-shift :
    (x y z : String)
    → event_token x (str_append y (str_append "\0" z))
      ≡ event_token (str_append x (str_append "\0" y)) z
token-shift x y z = sym (
    str_append_assoc x (str_append "\0" y) (str_append "\0" z)
    ∙ ap (λ (t : String). str_append x t) (str_append_assoc "\0" y (str_append "\0" z)))

module _ (sha256 : String → String) (message : String) (at : ℕ) where
  -- The dispatcher after a new event.
  abbrev pub raised_in : Dispatcher → String → String → Dispatcher
  raised_in d run code = record d {
    alerts =
        put d.alerts (sha256 (event_token run code)) (new_alert sha256 run code message (aware at));
    event_ids = put d.event_ids (run, code) (sha256 (event_token run code));
  }

  raise-new :
      (run code : String) (d : Dispatcher)
      → get d.event_ids (run, code) ≡ none
      → raise_alert sha256 run code message (aware at) d
        ≡ (ok (new_alert sha256 run code message (aware at)), raised_in d run code)
  unfolding raise_alert
  raise-new run code d e = rw e

  raise-known :
      (run code id : String) (a : Alert) (d : Dispatcher)
      → get d.event_ids (run, code) ≡ some id
      → get d.alerts id ≡ some a
      → raise_alert sha256 run code message (aware at) d ≡ (ok a, d)
  unfolding raise_alert
  raise-known run code id a d e f = rw e (rw f)

  -- Two events whose names split one text at different zero bytes share a token, so whatever the digest
  -- is: once both are raised, raising the first one again gives the alert of the second.
  pub raise_alert-collides :
      (x y z : String) (d : Dispatcher)
      → let first = str_append x (str_append "\0" y) in
        let last = str_append y (str_append "\0" z) in
        get d.event_ids (first, z) ≡ none
        → get d.event_ids (x, last) ≡ none
        → first ≢ x
        → let d₁ = (raise_alert sha256 first z message (aware at) d).1 in
          let d₂ = (raise_alert sha256 x last message (aware at) d₁).1 in
          (raise_alert sha256 first z message (aware at) d₂).0
          ≡ ok (new_alert sha256 x last message (aware at))
  raise_alert-collides x y z d e f differ =
      let first = str_append x (str_append "\0" y) in
      let last = str_append y (str_append "\0" z) in
      let d₁ = raised_in d first z in
      let d₂ = raised_in d₁ x last in
      let a = new_alert sha256 x last message (aware at) in
      let free : get d₁.event_ids (x, last) ≡ none =
        get-put_ne d.event_ids (first, z) (x, last) _
          (λ p. differ (ap (λ (q : String × String). q.0) p))
        ∙ f in
      let known : get d₂.event_ids (first, z) ≡ some (sha256 (event_token first z)) =
        get-put_ne d₁.event_ids (x, last) (first, z) _
          (λ p. differ (ap (λ (q : String × String). q.0) (sym p)))
        ∙ get-put_self d.event_ids (first, z) (sha256 (event_token first z)) in
      let held : get d₂.alerts (sha256 (event_token first z)) ≡ some a =
        ap (λ (t : String). get d₂.alerts (sha256 t)) (sym (token-shift x y z))
        ∙ get-put_self d₁.alerts (sha256 (event_token x last)) a in
      rw (raise-new first z d e)
        (rw (raise-new x last d₁ free) (rw (raise-known first z _ a d₂ known held)))
