-- ===== src/Devices.antt =====
-- backend/src/devices/devices.service.ts: the devices that a user's pushes go to.
use coupi.Prelude.{
  ◌≡◌, refl, sym, ap, ◌∙◌, true, not, Option, none, some, Text, text_eq, if◌then◌else◌, Bool-cases,
  inl, inr,
}
use coupi.Domain.{DevicePlatform}
use coupi.Effects
use coupi.Effects.{Exec, pure, ◌>>=◌, ◌>>◌}
use coupi.Effects.Calls.{bind-ok, pure-ok}

pub data UnregisterResult : Type 0 where
  ok not_found forbidden : UnregisterResult

-- The calls of the table devices: the upsert on the pair of user and token, which writes the platform
-- and the time of the last activity, the user of a device, and the deletion.
pub record DeviceTable (W : Type 0) : Type 0 where
  pub upsert_device : Text → Text → DevicePlatform → Exec W Text
  pub find_owner : Text → Exec W (Option Text)
  pub delete_device : Text → Exec W (Unit {0})

module _ {W : Type 0} (table : DeviceTable W) where
  unfoldable pub register : Text → Text → DevicePlatform → Exec W Text
  register user_id fcm_token platform = table.upsert_device user_id fcm_token platform

  unfoldable pub unregister_row : Text → Text → Option Text → Exec W UnregisterResult
  unregister_row user_id device_id none = pure not_found
  unregister_row user_id device_id (some owner) =
      if not (text_eq owner user_id)
      then pure forbidden
      else (do table.delete_device device_id; pure ok)

  unfoldable pub unregister : Text → Text → Exec W UnregisterResult
  unregister user_id device_id = do
    owner ← table.find_owner device_id
    unregister_row user_id device_id owner

  -- What was done for an answer.
  abbrev IsAnswered : Text → Text → UnregisterResult → W → W → Type 0
  IsAnswered user_id device_id ok w w' = table.delete_device device_id w ≡ (Effects.ok tt, w')
  IsAnswered user_id device_id not_found w w' = w' ≡ w
  IsAnswered user_id device_id forbidden w w' = w' ≡ w

  unregister_row-IsAnswered :
      (user_id device_id : Text) (owner : Option Text) (r : UnregisterResult) (w w' : W)
      → unregister_row user_id device_id owner w ≡ (Effects.ok r, w')
      → IsAnswered user_id device_id r w w'
        × (r ≡ ok → (o : Text) × (owner ≡ some o) × (text_eq o user_id ≡ true))
  unfolding unregister_row
  unregister_row-IsAnswered user_id device_id none r w w' e =
      let (same, end) = pure-ok _ _ _ _ e in rw (sym same) (sym end, λ h. cc)
  unregister_row-IsAnswered user_id device_id (some owner) r w w' e =
      elim (Bool-cases (text_eq owner user_id)) [
        | inl own ↦
            let (x, w1, deleted, e1) = bind-ok _ _ _ _ _ (rw own at e) in
            let (same, end) = pure-ok _ _ _ _ e1 in
            rw (sym same) (deleted ∙ ap (λ v. (Effects.ok tt, v)) end, λ h. (owner, refl, own))
        | inr other ↦
            let (same, end) = pure-ok _ _ _ _ (rw other at e) in rw (sym same) (sym end, λ h. cc)
      ]

  -- A device is deleted only for its owner: any other answer than ok has left the table as the query
  -- left it.
  unregister-IsAnswered :
      (user_id device_id : Text) (r : UnregisterResult) (w w' : W)
      → unregister user_id device_id w ≡ (Effects.ok r, w')
      → (owner : Option Text) × (w1 : W) × (table.find_owner device_id w ≡ (Effects.ok owner, w1))
        × IsAnswered user_id device_id r w1 w'
        × (r ≡ ok → (o : Text) × (owner ≡ some o) × (text_eq o user_id ≡ true))
  unfolding unregister
  unregister-IsAnswered user_id device_id r w w' e =
      let (owner, w1, found, e1) = bind-ok _ _ _ _ _ e in
      let (answered, own) = unregister_row-IsAnswered user_id device_id owner r w1 w' e1 in
      (owner, w1, found, answered, own)
