-- ===== src/Push/Private.antt =====
-- What a member who turned previews off shows on a lock screen.
use daeil_scholar.Prelude.{◌≡◌, refl, ap, false, none, some, List, if◌then◌else◌}
use daeil_scholar.Prelude.Int.{ℤ}
use daeil_scholar.Prelude.Text.{Text}
use daeil_scholar.Push.{
  PushPreferences, message, Payload, Act, Env, build_payload, build_message_payload, is_message_off,
}
use daeil_scholar.Push.Delivery.{deliver, deliver_payload}

module _ (env : Env) (recvr sender : ℤ) (name : Text) (id : ℤ) (created_at content content' : Text)
    (preferences : PushPreferences) where
  masked_payload :
      preferences.message_preview_enabled ≡ false
      → build_message_payload env recvr sender name id created_at content (some preferences)
        ≡ build_message_payload env recvr sender name id created_at content' (some preferences)
  masked_payload off = rw off refl

  build_payload-private :
      env.preferences recvr ≡ some (some preferences)
      → preferences.message_preview_enabled ≡ false
      → build_payload env (message recvr sender name id created_at content)
        ≡ build_payload env (message recvr sender name id created_at content')
  unfolding build_payload
  build_payload-private found off = rw found (
      ap (λ (p : Payload). if is_message_off (some preferences) then none else some p)
        (masked_payload off))

  -- For a recipient who has turned previews off, whatever a message says, the same is done: the
  -- same devices are sent the same notifications, after the same questions, and nothing of the text
  -- is in them.
  pub deliver-private :
      (acts : List Act)
      → env.preferences recvr ≡ some (some preferences)
      → preferences.message_preview_enabled ≡ false
      → deliver env (message recvr sender name id created_at content) acts
        ≡ deliver env (message recvr sender name id created_at content') acts
  unfolding deliver
  deliver-private acts found off =
      ap (λ o. deliver_payload env (message recvr sender name id created_at content) o acts)
        (build_payload-private found off)
