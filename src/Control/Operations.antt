-- ===== src/Control/Operations.antt =====
-- The operations of kbdus/src/control.c keep its state valid, and follow no pointer to a device that
-- was freed.
use bdus.Base.{
  ℕ, ◌≤◌, ◌≡◌, refl, ap, ◌∙◌, Bool-cases, Option-cases, inl, inr, ◌⊎◌, if_intro, Bool, true, false,
  none, some, arith,
}
use bdus.Base.Int.{ℤ, pos, ◌==ℤ◌}
use bdus.Base.Errno.{einval, erestartsys, ok, err, Result-cases}
use bdus.Control.State.{
  DeviceWrapper, Control, id_of, find_device, set_fd, set_device, destroy_device,
  get_device_wrapper_by_id,
}
use bdus.Device.Life.{Device, device_terminate, device_deactivate}
use bdus.Control.Files.{
  fresh_fd, open_fd, signal_detach, released_device, released_for_good, release_wrapper, release,
  terminated_device, ioctl_terminate, ioctl_mark_as_successful,
}
use bdus.Control.Devices.{trigger_locked}
use bdus.Control.Lookup.{find_device-id}
use bdus.Control.Valid.{IsValid}
use bdus.Control.Preserve.{
  Table-set_fd, set_device-IsValid, destroy_device-IsValid, detach-IsValid, destroy-detach-IsValid,
  fresh-IsValid,
}

pub config-released_device :
    (d : Device) (successful : Bool) → (released_device d successful).config ≡ d.config
unfolding released_device device_terminate device_deactivate
config-released_device d successful = ground arith

pub config-terminated_device : (d : Device) → (terminated_device d).config ≡ d.config
unfolding terminated_device device_terminate device_deactivate
config-terminated_device d = ground arith

config-device_terminate : (d : Device) → (device_terminate d).config ≡ d.config
unfolding device_terminate
config-device_terminate d = refl

pub get_device_wrapper_by_id-ok :
    (c : Control) (id : ℕ) (w : DeviceWrapper)
    → get_device_wrapper_by_id c id ≡ ok w
    → find_device id c.devices ≡ some w
unfolding get_device_wrapper_by_id
get_device_wrapper_by_id-ok c id w h = ground arith

get_device_wrapper_by_id-err :
    (c : Control) (id : ℕ) (e : ℤ)
    → get_device_wrapper_by_id c id ≡ err e
    → (e ==ℤ einval) ≡ true
    → c.next_id ≤ id
unfolding get_device_wrapper_by_id
get_device_wrapper_by_id-err c id e h never = ground arith

-- A description that is opened under a new number is not attached.
pub open_fd-IsValid :
    (c : Control) (k : ℕ) (capable allocated : Bool)
    → IsValid c
    → (c.fds k).attached ≡ false
    → IsValid (open_fd c k capable allocated).1
unfolding open_fd
open_fd-IsValid c k false allocated iv idle = iv
open_fd-IsValid c k true false iv idle = iv
open_fd-IsValid c k true true iv idle = fresh-IsValid c k iv idle

release_wrapper-IsValid :
    (c : Control) (k : ℕ) (w : DeviceWrapper) (successful : Bool)
    → IsValid c
    → find_device (id_of w) c.devices ≡ some w
    → w.fd ≡ some k
    → IsValid (set_fd k fresh_fd (release_wrapper c w successful))
unfolding release_wrapper
release_wrapper-IsValid c k w successful iv found held =
    let same =
      ap (λ config. find_device config.id c.devices) (config-released_device w.device successful)
      ∙ found in
    let detached : DeviceWrapper = record w {
      fd = none;
      device = released_device w.device successful;
    } in
    if_intro (λ c'. IsValid (set_fd k fresh_fd c')) _ _ _
      (λ _. detach-IsValid c (signal_detach detached) w iv same k held refl)
      (λ _.
        if_intro (λ c'. IsValid (set_fd k fresh_fd c')) (released_for_good w.device) _ _
          (λ _. destroy-detach-IsValid c detached w iv same k held)
          (λ _. detach-IsValid c detached w iv same k held refl))

-- In a valid state, the release of a file description never follows a pointer to a device that was freed; it leaves
-- the state valid and the description attached to nothing.
pub release-IsValid :
    (c : Control) (k : ℕ)
    → IsValid c
    → (c' : Control) × (release c k ≡ some c') × IsValid c' × ((c'.fds k).attached ≡ false)
unfolding release
release-IsValid c k iv = elim (Bool-cases (c.fds k).attached) [
  | inr idle ↦ (set_fd k fresh_fd c, ground arith, fresh-IsValid c k iv idle, ground arith)
  | inl busy ↦
      let (w, found, held) = iv.owner k busy in
      let named = find_device-id (c.fds k).device_wrapper c.devices w found in
      let found' = ap (λ id. find_device id c.devices) named ∙ found in
      (
        set_fd k fresh_fd (release_wrapper c w (c.fds k).successful),
        ground arith,
        release_wrapper-IsValid c k w (c.fds k).successful iv found' held,
        ground arith,
      )
]

-- A write of a device, with its configuration kept, to the wrapper that holds it.
store_device-IsValid :
    (c : Control) (w : DeviceWrapper) (d : Device)
    → IsValid c
    → find_device (id_of w) c.devices ≡ some w
    → d.config ≡ w.device.config
    → IsValid (set_device (record w { device = d }) c)
store_device-IsValid c w d iv found kept =
    set_device-IsValid c (record w { device = d }) w iv
      (ap (λ config. find_device config.id c.devices) kept ∙ found) refl
      (iv.signalled_late (id_of w) w found)

-- In a valid state, the ioctl that terminates the device of a file description never follows a pointer
-- to a device that was freed, and leaves the state valid on every path.
pub ioctl_terminate-IsValid :
    (c : Control) (k : ℕ) (interrupted : Bool)
    → IsValid c
    → (ret : ℤ) × (c' : Control) × (ioctl_terminate c k interrupted ≡ some (ret, c')) × IsValid c'
unfolding ioctl_terminate
ioctl_terminate-IsValid c k interrupted iv = elim (Bool-cases (c.fds k).attached) [
  | inr idle ↦ (einval, c, ground arith, iv)
  | inl busy ↦ elim (Bool-cases interrupted) [
    | inl i ↦ (erestartsys, c, ground arith, iv)
    | inr i ↦
        let (w, found, held) = iv.owner k busy in
        let named = find_device-id (c.fds k).device_wrapper c.devices w found in
        let found' = ap (λ id. find_device id c.devices) named ∙ found in
        (
          pos 0,
          set_device (record w { device = terminated_device w.device }) c,
          ground arith,
          store_device-IsValid c w (terminated_device w.device) iv found'
              (config-terminated_device w.device),
        )
  ]
]

pub ioctl_mark_as_successful-IsValid :
    (c : Control) (k : ℕ) → IsValid c → IsValid (ioctl_mark_as_successful c k).1
unfolding ioctl_mark_as_successful
ioctl_mark_as_successful-IsValid c k iv = record {
  table = Table-set_fd c k _ iv.table;
  owner = λ j a. let (u, at, f) = iv.owner j (ground arith) in (u, ground arith, f);
  owned = λ id j u at f. ground (arith, iv.owned id j u at f);
  signalled_late = λ id u at f. iv.signalled_late id u at f;
}

-- In a valid state, with the mutex held, the trigger of a destruction fails only if the id was never given out, and
-- else returns and leaves the state valid.
pub trigger_locked-IsValid :
    (c : Control) (id : ℕ)
    → IsValid c
    → ((trigger_locked c id ≡ err einval) × (c.next_id ≤ id))
      ⊎ ((c' : Control) × (trigger_locked c id ≡ ok c') × IsValid c')
unfolding trigger_locked
trigger_locked-IsValid c id iv = elim (Result-cases (get_device_wrapper_by_id c id)) [
  | inl (w, e) ↦
      let named = find_device-id id c.devices w (get_device_wrapper_by_id-ok c id w e) in
      let found = ap (λ i. find_device i c.devices) named ∙ get_device_wrapper_by_id-ok c id w e in
      elim (Option-cases w.fd) [
        | inl alone ↦
            inr (destroy_device c w, ground arith, destroy_device-IsValid c w w iv found alone)
        | inr (k, held) ↦ inr (
          set_device (record w { device = device_terminate w.device }) c,
          ground arith,
          store_device-IsValid c w (device_terminate w.device) iv found
              (config-device_terminate w.device),
        )
      ]
  | inr (e, failed) ↦ elim (Bool-cases (e ==ℤ einval)) [
    | inl never ↦ inl (ground arith, ground (arith, get_device_wrapper_by_id-err c id e failed))
    | inr gone ↦ inr (c, ground arith, iv)
  ]
]
