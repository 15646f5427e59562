-- ===== src/Control/Creating.antt =====
-- KBDUS_IOCTL_CREATE_DEVICE (kbdus/src/control.c) keeps the state valid.
use bdus.Base.{
  ℕ, ◌&&◌, ◌+◌, ◌^◌, ◌<◌, ◌≡◌, ◌==◌, ap, Bool-cases, Option-cases, inl, inr, ◌⊎◌, ◌∙◌, sym, subst,
  ◌||◌, false, not, refl, none, arith,
}
use bdus.Base.Int.{ℤ, pos}
use bdus.Base.Errno.{ok, Result-cases}
use bdus.Device.Config.{DeviceConfig}
use bdus.Device.Validate.{validate_and_adjust_config}
use bdus.Device.Life.{Device, DeviceState, DeviceResources, device_create}
use bdus.Inverter.State.{BlockLayer}
use bdus.Inverter.Lifecycle.{create}
use bdus.Control.State.{Control}
use bdus.Control.Create.{
  CreateInput, Creation, begun, out_remove_idr, out_free_device_wrapper, out_destroy_device,
  numbered, add_device, create_locked, ioctl_create, ioctl_create_device,
}
use bdus.Control.Valid.{IsValid}
use bdus.Control.Attaching.{add_device-IsValid}

-- A device that is created is "unavailable" and carries the configuration that it was given.
pub device_create_lem :
    (config : DeviceConfig) (res : DeviceResources) (blk : BlockLayer) (d : Device)
    → device_create config res blk ≡ ok d
    → (d.config ≡ config) × (d.state ≡ DeviceState.unavailable) × (d.warnings ≡ 0)
unfolding device_create
device_create_lem config res blk d h =
    elim (Result-cases (create config res.inverter_allocated res.reqs_allocated blk)) [
      | inl (inverter, e) ↦ elim (Result-cases res.add_disk_task) [
        | inl (u, f) ↦ elim (Result-cases res.disk) [
          | inl (v, g) ↦ ground arith
          | inr (n, g) ↦ ground arith
        ]
        | inr (n, f) ↦ ground arith
      ]
      | inr (n, e) ↦ ground arith
    ]

-- Nothing is reserved or made that is not in the table.
abbrev pub LeavesNothing : Creation → Type 0
LeavesNothing m = (m.index ≡ none) × (m.wrapper ≡ false) × (m.device ≡ none)

create_locked_lem :
    (c : Control) (k : ℕ) (config : DeviceConfig) (input : CreateInput)
    → LeavesNothing (create_locked c k config input).1
unfolding create_locked out_remove_idr out_free_device_wrapper out_destroy_device
create_locked_lem c k config input = ground arith

create_locked_cases :
    (c : Control) (k : ℕ) (config : DeviceConfig) (input : CreateInput)
    → ((create_locked c k config input).1.control ≡ c)
      ⊎ ((index : ℕ) × (device : Device) × (device_create
              (numbered config c.next_id input.major index)
              input.resources
              input.blk
            ≡ ok device)
          × ((c.fds k).attached ≡ false)
          × ((c.num_devices == c.max_devices) ≡ false)
          × ((create_locked c k config input).0 ≡ pos 0)
          × ((create_locked c k config input).1.control ≡ add_device c k index device))
unfolding create_locked out_remove_idr out_free_device_wrapper out_destroy_device
create_locked_cases c k config input = elim (Result-cases input.index) [
  | inr (e, i) ↦ inl (ground arith)
  | inl (index, i) ↦
      elim (Result-cases
        (device_create (numbered config c.next_id input.major index) input.resources input.blk)) [
          | inr (e, d) ↦ inl (ground arith)
          | inl (device, d) ↦ elim (Result-cases input.transceiver) [
            | inr (e, t) ↦ inl (ground arith)
            | inl (u, t) ↦
                elim (Bool-cases (
                  (c.fds k).attached
                  || (c.num_devices == c.max_devices)
                  || not input.copied_out
                  || not input.wrapper_allocated)) [
                    | inl bad ↦ inl (ground arith)
                    | inr good ↦
                        inr
                          (index, device, d, ground arith, ground arith, ground arith, ground arith)
                  ]
          ]
        ]
]

-- The call leaves all as it was, or it is the part under the mutex, with a configuration that was
-- validated and adjusted.
ioctl_create_cases :
    (page_size : ℕ) (c : Control) (k : ℕ) (input : CreateInput)
    → ((ioctl_create page_size c k input).1 ≡ begun c)
      ⊎ ((raw config : DeviceConfig) × (validate_and_adjust_config page_size raw ≡ ok config)
          × (ioctl_create page_size c k input ≡ create_locked c k config input))
unfolding ioctl_create
ioctl_create_cases page_size c k input = elim (Option-cases input.config) [
  | inl fault ↦ inl (ground arith)
  | inr (raw, given) ↦ elim (Result-cases (validate_and_adjust_config page_size raw)) [
    | inr (e, bad) ↦ inl (ground arith)
    | inl (config, good) ↦ elim (Result-cases input.fd_config_ok) [
      | inr (e, bad) ↦ inl (ground arith)
      | inl (u, fine) ↦ elim (Bool-cases (input.capable && not input.interrupted)) [
        | inr stop ↦ inl (ground arith)
        | inl go ↦ inr (raw, config, good, ground arith)
      ]
    ]
  ]
]

-- A device is created under the next id, which no device has had, with its file description attached
-- to it, or the state does not change; and whatever fails, no index stays reserved, and no wrapper and
-- no device stay that are not in the table. Either way the state is valid again, as long as ids do not
-- run out.
pub ioctl_create_device-IsValid :
    (page_size : ℕ) (c : Control) (k : ℕ) (input : CreateInput)
    → IsValid c
    → c.next_id + 1 < 2 ^ 64
    → IsValid (ioctl_create_device page_size c k input).1
      × LeavesNothing (ioctl_create page_size c k input).1
      × (((ioctl_create_device page_size c k input).1 ≡ c)
          ⊎ ((index : ℕ) × (device : Device) × (device.config.id ≡ c.next_id)
              × (ioctl_create_device page_size c k input ≡ (pos 0, add_device c k index device))))
unfolding ioctl_create_device
ioctl_create_device-IsValid page_size c k input iv more =
    elim (ioctl_create_cases page_size c k input) [
      | inl same ↦
          let kept = ap (λ m. m.control) same in
          (subst IsValid (sym kept) iv, subst LeavesNothing (sym same) (refl, refl, refl), inl kept)
      | inr (raw, config, good, inside) ↦
          let clean =
            subst LeavesNothing (sym (ap (λ (r : ℤ × Creation). r.1) inside))
              (create_locked_lem c k config input) in
          elim (create_locked_cases c k config input) [
            | inl same ↦
                let kept = ap (λ r. r.1.control) inside ∙ same in
                (subst IsValid (sym kept) iv, clean, inl kept)
            | inr (index, device, made, idle, room, success, added) ↦
                let whole = ap (λ r. r.1.control) inside ∙ added in
                let (named, fresh, unwarned) = device_create_lem _ _ _ device made in
                (
                  subst IsValid (sym whole) (
                      add_device-IsValid c k index device iv (ap (λ g. g.id) named)
                        (ground (arith, iv.within, room)) more idle),
                  clean,
                  inr (
                    index,
                    device,
                    ap (λ g. g.id) named,
                    ground (arith, whole, ap (λ (r : ℤ × Creation). r.0) inside, success),
                  ),
                )
          ]
    ]
