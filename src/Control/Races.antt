-- ===== src/Control/Races.antt =====
-- What can happen in kbdus/src/control.c while an attaching thread waits without the mutex.
use bdus.Base.{ℕ, ◌+◌, ◌≡◌, ◌≢◌, refl, ap, ◌∙◌, Bool, true, false, none, some, arith}
use bdus.Base.Int.{pos}
use bdus.Base.Errno.{erestartsys, Result, ok}
use bdus.Control.State.{
  OnDetach, DeviceWrapper, Control, id_of, find_device, set_fd, set_device, destroy_device,
  get_device_wrapper_by_id,
}
use bdus.Device.Life.{DeviceState, device_activate, device_deactivate}
use bdus.Control.Attach.{Attach, attach_transceiver, attach_begin, attach_resume}
use bdus.Control.Devices.{trigger_locked}
use bdus.Control.Lookup.{find_device-id, find_device-remove_device, find_device-replace_device}
use bdus.Control.Valid.{IsValid}
use bdus.Control.Operations.{get_device_wrapper_by_id-ok}

-- A thread waits to attach to a device, whose file description has been released, so that the wait is
-- over but the thread does not have the mutex yet. If the destruction of the device is triggered now,
-- its wrapper is freed, and the thread follows a pointer to it when it goes on.
pub trigger_locked-attach_resume :
    (c : Control) (id k : ℕ) (w : DeviceWrapper) (interrupted : Bool)
    (transceiver : Result (Unit {0}))
    → IsValid c
    → get_device_wrapper_by_id c id ≡ ok w
    → w.fd ≡ none
    → w.on_detach ≡ OnDetach.signalled
    → (c' : Control) × (trigger_locked c id ≡ ok c')
      × (attach_resume c' k id interrupted transceiver ≡ none)
unfolding trigger_locked attach_resume destroy_device
trigger_locked-attach_resume c id k w interrupted transceiver iv e alone awaited =
    let named = find_device-id id c.devices w (get_device_wrapper_by_id-ok c id w e) in
    (
      destroy_device c w,
      ground arith,
      ground (arith, find_device-remove_device (id_of w) id c.devices (iv.unique (id_of w))),
    )

-- A thread waits to attach a file description to a device, and another thread has meanwhile
-- attached the same file description to another device. The first goes on to attach it a second time,
-- and the state is not valid any more: two devices point to one file description.
pub attach_resume-attached :
    (c : Control) (k id other : ℕ) (w u : DeviceWrapper)
    → find_device id c.devices ≡ some w
    → w.device.state ≡ DeviceState.inactive
    → find_device other c.devices ≡ some u
    → u.fd ≡ some k
    → id ≢ other
    → (c' : Control) × (attach_resume c k id false (ok tt) ≡ some (pos 0, c')) × (¬ IsValid c')
unfolding attach_resume attach_transceiver device_activate
attach_resume-attached c k id other w u found ready there theirs apart =
    let named = find_device-id id c.devices w found in
    let v : DeviceWrapper = record w {
      device = device_activate w.device;
      fd = some k;
      on_detach = OnDetach.nobody;
    } in
    let found' = ap (λ i. find_device i c.devices) named ∙ found in
    let c' : Control =
      set_fd k (record (c.fds k) { attached = true; device_wrapper = id_of w }) (set_device v c) in
    (
      c',
      ground arith,
      λ iv.
          let (busy, same) =
            iv.owned other k u
              (ground
                (arith, apart, named, there, find_device-replace_device v w other c.devices found'))
              theirs in
          apart (ground (arith, same, named)),
    )

-- The wrapper as a thread leaves it that begins to wait.
waiting_wrapper : DeviceWrapper → DeviceWrapper
waiting_wrapper w = record w {
  device = device_deactivate w.device true;
  on_detach = OnDetach.waiting;
}

is_present : DeviceState → Bool
is_present DeviceState.active = true
is_present DeviceState.inactive = true
is_present _ = false

attach_begin_waits :
    (c : Control) (k j : ℕ) (w : DeviceWrapper) (t : Result (Unit {0}))
    → is_present w.device.state ≡ true
    → w.fd ≡ some j
    → w.on_detach ≡ OnDetach.nobody
    → attach_begin c k w t ≡ (Attach.waits (id_of w), set_device (waiting_wrapper w) c)
unfolding attach_begin waiting_wrapper is_present
attach_begin_waits c k j w t present held unawaited = ground arith

attach_resume_interrupted :
    (c : Control) (k j id : ℕ) (w : DeviceWrapper) (t : Result (Unit {0}))
    → find_device id c.devices ≡ some w
    → w.fd ≡ some j
    → attach_resume c k id true t
      ≡ some (erestartsys, set_device (record w { on_detach = OnDetach.nobody }) c)
unfolding attach_resume
attach_resume_interrupted c k j id w t found held = ground arith

-- A thread that waits to attach to an active device is interrupted before the device is released. The
-- device stays deactivated, with its file description attached, and the next thread that comes to
-- attach deactivates it again: the warning that the device was not active is one more.
pub attach_begin-attach_resume :
    (c : Control) (k j id : ℕ) (w : DeviceWrapper) (t : Result (Unit {0}))
    → find_device id c.devices ≡ some w
    → w.device.state ≡ DeviceState.active
    → w.fd ≡ some j
    → w.on_detach ≡ OnDetach.nobody
    → (c' : Control) × (w' w'' : DeviceWrapper) × (attach_resume
          (attach_begin c k w t).1
          k
          id
          true
          t
        ≡ some (erestartsys, c'))
      × (find_device id c'.devices ≡ some w')
      × (find_device id (attach_begin c' k w' t).1.devices ≡ some w'')
      × (w''.device.warnings ≡ w.device.warnings + 1)
unfolding waiting_wrapper is_present device_deactivate
attach_begin-attach_resume c k j id w t found active held unawaited =
    let named = find_device-id id c.devices w found in
    let at = ap (λ i. find_device i c.devices) named ∙ found in
    let w1 = waiting_wrapper w in
    let c1 = set_device w1 c in
    let found1 = find_device-replace_device w1 w id c.devices at in
    let here1 : find_device id c1.devices ≡ some w1 = ground (arith, found1, named) in
    let w2 : DeviceWrapper = record w1 { on_detach = OnDetach.nobody } in
    let c2 = set_device w2 c1 in
    let here2 : find_device id c2.devices ≡ some w2 = ground (
      arith,
      named,
      find_device-replace_device w2 w1 id c1.devices
          (ap (λ i. find_device i c1.devices) named ∙ here1),
    ) in
    let w3 = waiting_wrapper w2 in
    let here3 : find_device id (set_device w3 c2).devices ≡ some w3 = ground (
      arith,
      named,
      find_device-replace_device w3 w2 id c2.devices
          (ap (λ i. find_device i c2.devices) named ∙ here2),
    ) in
    let first = attach_begin_waits c k j w t (ground (arith, active)) held unawaited in
    (
      c2,
      w2,
      w3,
      ap (λ r. attach_resume r.1 k id true t) first
          ∙ attach_resume_interrupted c1 k j id w1 t here1 held,
      here2,
      ap (λ r. find_device id r.1.devices) (attach_begin_waits c2 k j w2 t refl held refl) ∙ here3,
      ground (arith, active),
    )
