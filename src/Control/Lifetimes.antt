-- ===== src/Control/Lifetimes.antt =====
-- The life of an id (kbdus/src/control.c): it names the device that was created under it, and once
-- the device is destroyed it names none.
use bdus.Base.{
  ℕ, ◌+◌, ◌^◌, ◌<◌, ◌≤◌, ◌≡◌, refl, ◌==◌, Bool-cases, if◌then◌else◌, true, false, [], ◌∷◌, ◌++◌,
  inl, inr, none, some, arith,
}
use bdus.Base.Errno.{enodev, ok, err}
use bdus.Device.Life.{Device}
use bdus.Control.State.{
  OnDetach, DeviceWrapper, Control, id_of, get_device_wrapper_by_id, destroy_device,
}
use bdus.Control.Create.{add_device}
use bdus.Control.Devices.{trigger_locked, sleep_until_destroyed}
use bdus.Control.Lookup.{copies, find_device-id, find_device-append, find_device-remove_device}
use bdus.Control.Valid.{IsValid}
use bdus.Control.Operations.{get_device_wrapper_by_id-ok}

-- In a valid state, a device that is added is found under its id, which was the next one, and every
-- other id finds what it found, as long as ids do not run out.
pub get_device_wrapper_by_id-add_device :
    (c : Control) (k index id : ℕ) (d : Device)
    → IsValid c
    → d.config.id ≡ c.next_id
    → c.next_id + 1 < 2 ^ 64
    → id ≤ c.next_id
    → get_device_wrapper_by_id (add_device c k index d) id ≡ (
        if id == c.next_id
        then ok (record { index = index; device = d; fd = some k; on_detach = OnDetach.nobody })
        else get_device_wrapper_by_id c id)
unfolding get_device_wrapper_by_id add_device
get_device_wrapper_by_id-add_device c k index id d iv named more le =
    let v : DeviceWrapper = record {
      index = index;
      device = d;
      fd = some k;
      on_detach = OnDetach.nobody;
    } in
    let absent : copies (id_of v) c.devices ≡ 0 = iv.fresh (id_of v) (omega (arith, named)) in
    let found = find_device-append v id c.devices absent in
    elim (Bool-cases (id == c.next_id)) [
      | inl e ↦ ground (arith, found, named)
      | inr e ↦ ground (arith, found, named)
    ]

-- In a valid state, a thread that waits for the end of a device that no file description is attached to
-- goes to sleep; once the destruction of the device was triggered, no thread is asleep, the id finds no
-- device, and the thread, which checks again, need not wait any longer.
pub sleep_until_destroyed-trigger_locked :
    (c : Control) (id : ℕ) (w : DeviceWrapper)
    → IsValid c
    → get_device_wrapper_by_id c id ≡ ok w
    → w.fd ≡ none
    → (asleep woken : Control) × (sleep_until_destroyed c id ≡ ok (false, asleep))
      × (asleep.sleepers ≡ c.sleepers ++ id ∷ [])
      × (trigger_locked asleep id ≡ ok woken)
      × (woken.sleepers ≡ [])
      × (get_device_wrapper_by_id woken id ≡ err enodev)
      × (sleep_until_destroyed woken id ≡ ok (true, woken))
unfolding trigger_locked destroy_device sleep_until_destroyed get_device_wrapper_by_id
sleep_until_destroyed-trigger_locked c id w iv e alone =
    let asleep : Control = record c { sleepers = c.sleepers ++ id ∷ [] } in
    let named = find_device-id id c.devices w (get_device_wrapper_by_id-ok c id w e) in
    let gone = find_device-remove_device (id_of w) id c.devices (iv.unique (id_of w)) in
    (
      asleep,
      destroy_device asleep w,
      ground (arith, e),
      refl,
      ground (arith, e, alone),
      refl,
      ground (arith, e, gone, named),
      ground (arith, e, gone, named),
    )
