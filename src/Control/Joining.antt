-- ===== src/Control/Joining.antt =====
-- The ioctls of kbdus/src/control.c that attach a file description keep the state valid, and create
-- gives each device an id that was never given out.
use bdus.Base.{
  ℕ, ◌≡◌, sym, refl, ap, ◌∙◌, subst, Bool-cases, Option-cases, inl, inr, ◌⊎◌, if◌then◌else◌,
  if_intro, Bool, true, false, not, ◌&&◌, none, some, arith,
}
use bdus.Base.Int.{ℤ}
use bdus.Base.Errno.{erestartsys, enodev, Result, ok, err, Result-cases}
use bdus.Control.State.{
  OnDetach, DeviceWrapper, Control, id_of, is_set, find_device, set_fd, set_device, destroy_device,
  get_device_wrapper_by_id,
}
use bdus.Device.Life.{Device, DeviceState, same_device_state, device_activate, device_deactivate}
use bdus.Control.Attach.{
  is_attached, Attach, attach_transceiver, attach_begin, attach_resume, AttachInput,
  ioctl_attach_to_device,
}
use bdus.Control.Lookup.{find_device-id}
use bdus.Control.Valid.{IsValid}
use bdus.Control.Preserve.{set_device-IsValid, destroy_device-IsValid}
use bdus.Control.Attaching.{attach-IsValid}
use bdus.Control.Operations.{get_device_wrapper_by_id-ok}

config-device_activate : (d : Device) → (device_activate d).config ≡ d.config
unfolding device_activate
config-device_activate d = refl

config-device_deactivate :
    (d : Device) (flush : Bool) → (device_deactivate d flush).config ≡ d.config
unfolding device_deactivate
config-device_deactivate d flush = refl

module _ (c : Control) (k : ℕ) (v w : DeviceWrapper) (iv : IsValid c)
    (found : find_device (id_of v) c.devices ≡ some w) (alone : w.fd ≡ none) where
  -- A wrapper that no file description is attached to takes the one that is not attached, or is
  -- written back, or goes.
  pub attach_transceiver-IsValid :
      (transceiver : Result (Unit {0}))
      → v.fd ≡ none
      → v.on_detach ≡ OnDetach.nobody
      → (c.fds k).attached ≡ false
      → IsValid (attach_transceiver c k v transceiver).1
  unfolding attach_transceiver
  attach_transceiver-IsValid (err e) free quiet idle =
      if_intro IsValid (not v.device.config.recoverable) _ _
        (λ _. destroy_device-IsValid c v w iv found alone)
        (λ _. set_device-IsValid c v w iv found (free ∙ sym alone) (λ _. free))
  attach_transceiver-IsValid (ok u) free quiet idle =
      subst
        (λ i. IsValid (
          set_fd k (record (c.fds k) { attached = true; device_wrapper = i })
            (set_device (record v { device = device_activate v.device; fd = some k }) c)))
        (ap (λ config. config.id) (config-device_activate v.device))
        (attach-IsValid c k (record v { device = device_activate v.device; fd = some k }) w iv
          (ap (λ config. find_device config.id c.devices) (config-device_activate v.device) ∙ found)
          alone idle refl quiet)

nobody_of_unset : (o : OnDetach) → is_set o ≡ false → o ≡ OnDetach.nobody
nobody_of_unset OnDetach.nobody h = refl
nobody_of_unset OnDetach.waiting h = cc
nobody_of_unset OnDetach.signalled h = cc

detached_of_over :
    (interrupted : Bool) (w : DeviceWrapper)
    → (interrupted && is_attached w.fd) ≡ false
    → (interrupted ≡ false → w.fd ≡ none)
    → w.fd ≡ none
detached_of_over interrupted w over woken = ground arith

pub attach_begin-IsValid :
    (c : Control) (k : ℕ) (w : DeviceWrapper) (transceiver : Result (Unit {0}))
    → IsValid c
    → find_device (id_of w) c.devices ≡ some w
    → (c.fds k).attached ≡ false
    → IsValid (attach_begin c k w transceiver).1
unfolding attach_begin
attach_begin-IsValid c k w transceiver iv found idle =
    let P = λ (r : Attach × Control). IsValid r.1 in
    if_intro P (same_device_state w.device.state DeviceState.unavailable) _ _ (λ _. iv)
      λ _.
        if_intro P (is_set w.on_detach) _ _ (λ _. iv)
          λ unset. elim (Option-cases w.fd) [
            | inl alone ↦
                let joined =
                  attach_transceiver-IsValid c k w w iv found alone transceiver alone
                    (nobody_of_unset w.on_detach unset) idle in
                ground (arith, joined)
            | inr (j, held) ↦
                let waiting : DeviceWrapper = record w {
                  device =
                      if same_device_state w.device.state DeviceState.terminated
                      then w.device
                      else device_deactivate w.device true;
                  on_detach = OnDetach.waiting;
                } in
                let kept : waiting.device.config ≡ w.device.config =
                  ground (arith, config-device_deactivate w.device true) in
                let waits =
                  set_device-IsValid c waiting w iv
                    (ap (λ config. find_device config.id c.devices) kept ∙ found) refl (λ h. cc) in
                ground (arith, waits)
          ]

-- Back from the wait, which the release of the device has ended or a signal, the call returns and
-- leaves the state valid, if its device is still in the table and its file description was not attached
-- meanwhile.
pub attach_resume-IsValid :
    (c : Control) (k : ℕ) (w : DeviceWrapper) (interrupted : Bool) (transceiver : Result (Unit {0}))
    → IsValid c
    → find_device (id_of w) c.devices ≡ some w
    → (c.fds k).attached ≡ false
    → (interrupted ≡ false → w.on_detach ≡ OnDetach.signalled)
    → (ret : ℤ) × (c' : Control) × (attach_resume c k (id_of w) interrupted transceiver
        ≡ some (ret, c'))
      × IsValid c'
unfolding attach_resume
attach_resume-IsValid c k w interrupted transceiver iv found idle woken =
    let awake : DeviceWrapper = record w { on_detach = OnDetach.nobody } in
    elim (Bool-cases (interrupted && is_attached w.fd)) [
      | inl still ↦ (
        erestartsys,
        set_device awake c,
        ground arith,
        set_device-IsValid c awake w iv found refl (λ h. cc),
      )
      | inr over ↦
          let alone : w.fd ≡ none =
            detached_of_over interrupted w over
              (λ i. iv.signalled_late (id_of w) w found (woken i)) in
          elim (Bool-cases (same_device_state w.device.state DeviceState.terminated)) [
            | inl t ↦ (
              enodev,
              destroy_device c awake,
              ground arith,
              destroy_device-IsValid c awake w iv found alone,
            )
            | inr t ↦ (
              (attach_transceiver c k awake transceiver).0,
              (attach_transceiver c k awake transceiver).1,
              ground arith,
              attach_transceiver-IsValid c k awake w iv found alone transceiver alone refl idle,
            )
          ]
    ]

-- The call either leaves all as it was, or begins the attachment to a device that it has found.
ioctl_attach_to_device_cases :
    (c : Control) (k : ℕ) (input : AttachInput)
    → ((ioctl_attach_to_device c k input).1 ≡ c)
      ⊎ ((id : ℕ) × (w : DeviceWrapper) × (get_device_wrapper_by_id c id ≡ ok w)
          × ((c.fds k).attached ≡ false)
          × (ioctl_attach_to_device c k input ≡ attach_begin c k w input.transceiver))
unfolding ioctl_attach_to_device
ioctl_attach_to_device_cases c k input = elim (Option-cases input.id) [
  | inl fault ↦ inl (ground arith)
  | inr (id, given) ↦ elim (Result-cases (get_device_wrapper_by_id c id)) [
    | inr (e, failed) ↦ inl (ground arith)
    | inl (w, e) ↦
        elim (Bool-cases
          (input.capable && not input.interrupted && not (c.fds k).attached && input.copied_out)) [
            | inr bad ↦ inl (ground arith)
            | inl good ↦ elim (Result-cases input.config_ok) [
              | inl (u, ok') ↦ inr (id, w, e, ground arith, ground arith)
              | inr (n, bad) ↦ inl (ground arith)
            ]
          ]
  ]
]

-- In a valid state, the ioctl that attaches leaves the state valid when it returns or starts to wait.
pub ioctl_attach_to_device-IsValid :
    (c : Control) (k : ℕ) (input : AttachInput)
    → IsValid c
    → IsValid (ioctl_attach_to_device c k input).1
ioctl_attach_to_device-IsValid c k input iv = elim (ioctl_attach_to_device_cases c k input) [
  | inl same ↦ subst IsValid (sym same) iv
  | inr (id, w, e, idle, begun) ↦
      let at = get_device_wrapper_by_id-ok c id w e in
      let found = ap (λ i. find_device i c.devices) (find_device-id id c.devices w at) ∙ at in
      subst IsValid (sym (ap (λ r. r.1) begun))
        (attach_begin-IsValid c k w input.transceiver iv found idle)
]
