-- ===== src/Broker/Remembered.antt =====
-- The sign-in of internal/localremote that is remembered, or not, by a vault in memory.
use wol.Prelude.{
  Bool, List, Option, Outcome-cases, arith, err, false, if◌then◌else◌, inl, inr, none, ok, refl,
  some, true, ℕ, ◌≡◌,
}
use wol.Broker.{Credentials, validate_credentials}
use wol.Broker.Docker.{filled}
use wol.Broker.Handler.{
  accept_form, begin_remote, completed_credentials, connect, remember, saved_credentials, sign_on,
  stored_key, valid_form_token,
}
use wol.Broker.Items.{find_item-delete_item, find_item-put_item}
use wol.Broker.Requests.{
  BrokerHandler, BrokerState, HttpRequest, get_value, typed_credentials, usable,
}
use wol.Broker.Vaults.{Items, memory_delete, memory_get, memory_put, memory_vault, vault_miss}
use wol.Store.Rules.{failed}
use wol.Text.{Text, codes, is_empty, teq}
use wol.Text.Laws.{teq_refl}

module _ {V : Type 0} (b : BrokerHandler V) where
  begin_remote-stored :
      (c : Credentials) (now : ℕ) (s t : BrokerState V)
      → begin_remote b c now s ≡ ok t
      → t.stored ≡ s.stored
  unfolding begin_remote
  begin_remote-stored c now s t h = ground arith

  pub sign_on-stored :
      (now : ℕ) (keep : Bool) (c : Credentials) (s : BrokerState V)
      → validate_credentials b.config.protocol c ≡ ok tt
      → (sign_on b now keep c s).1.stored ≡ remember b keep c s.stored
  unfolding sign_on
  sign_on-stored now keep c s good =
      let s' = record s { stored = remember b keep c s.stored } in
      elim (Outcome-cases (begin_remote b c now s')) [
        | inl (t, begun) ↦ rw (good, begun, sign_on) (begin_remote-stored c now s' t begun)
        | inr (e, failed) ↦ rw (good, failed, sign_on) refl
      ]

  completed_credentials-typed :
      (v : V) (typed : Credentials)
      → is_empty typed.password ≡ false
      → completed_credentials b v typed ≡ typed
  unfolding completed_credentials
  completed_credentials-typed v typed full = ground arith

module _ (b : BrokerHandler (Option Items)) (in_memory : b.vault ≡ some memory_vault) where
  remember-get :
      (keep : Bool) (c : Credentials) (items : Items)
      → memory_get (remember b keep c (some items)) (stored_key b)
        ≡ (if keep then ok c else err vault_miss)
  unfolding remember memory_get memory_put memory_delete memory_vault
  remember-get keep c items =
      let key = stored_key b in
      ground (
        arith,
        find_item-put_item items key key c,
        find_item-delete_item items key key,
        teq_refl key,
      )

  remember-saved :
      (keep : Bool) (c : Credentials) (items : Items)
      → validate_credentials b.config.protocol c ≡ ok tt
      → usable b.config.protocol c ≡ true
      → saved_credentials b (remember b keep c (some items)) ≡ (if keep then some c else none)
  unfolding saved_credentials memory_vault
  remember-saved keep c items good fit = ground (arith, remember-get keep c items)

  -- With a vault in memory, a sign-in by a POST whose form has the form token, does not ask to
  -- forget, and has a password, a sign-in that passes the check and is usable for the protocol,
  -- leaves that sign-in saved if the form asks to remember it, and none saved otherwise.
  pub connect-saved :
      (r : HttpRequest) (s : BrokerState (Option Items)) (form : List (Text × Text)) (items : Items)
      → s.stored ≡ some items
      → r.method ≡ codes "POST"
      → r.form 16384 ≡ some form
      → get_value (codes "csrf") form ≡ b.form_token
      → teq (get_value (codes "action") form) (codes "forget") ≡ false
      → is_empty (typed_credentials form).password ≡ false
      → validate_credentials b.config.protocol (typed_credentials form) ≡ ok tt
      → usable b.config.protocol (typed_credentials form) ≡ true
      → saved_credentials b (connect b r s).1.stored ≡ (
          if teq (get_value (codes "remember") form) (codes "1")
          then some (typed_credentials form)
          else none)
  unfolding connect accept_form valid_form_token
  connect-saved r s form items filled post read csrf keep full good fit =
      let c = typed_credentials form in
      let asked = teq (get_value (codes "remember") form) (codes "1") in
      rw
        (
          post,
          teq_refl (codes "POST"),
          read,
          csrf,
          teq_refl b.form_token,
          keep,
          completed_credentials-typed b s.stored c full,
          sign_on-stored b r.now asked c s good,
          filled,
          connect,
          accept_form,
        )
        (remember-saved asked c items good fit)
