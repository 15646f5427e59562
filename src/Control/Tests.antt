-- ===== src/Control/Tests.antt =====
-- The code of kbdus/src/control.c on small inputs.
use bdus.Base.{ℕ, ◌≡◌, ◌⊎◌, refl, [], ◌∷◌, true, false, none, some, arith}
use bdus.Base.Int.{ℤ, pos}
use bdus.Base.Errno.{erestartsys, enodev, ok, err}
use bdus.Device.Life.{Device}
use bdus.Control.State.{DeviceWrapper, Control, find_device, get_device_wrapper_by_id}
use bdus.Control.Files.{release}
use bdus.Control.Attach.{attach_begin, attach_resume}
use bdus.Control.Create.{ioctl_create, ioctl_create_device, add_device}
use bdus.Control.Devices.{trigger_locked, sleep_until_destroyed}
use bdus.Control.Valid.{IsValid}
use bdus.Control.Operations.{release-IsValid}
use bdus.Control.Joining.{attach_resume-IsValid}
use bdus.Control.Creating.{LeavesNothing, ioctl_create_device-IsValid}
use bdus.Control.Races.{
  trigger_locked-attach_resume, attach_resume-attached, attach_begin-attach_resume,
}
use bdus.Control.History.{Call, Run, Run-IsValid}
use bdus.Control.Lifetimes.{sleep_until_destroyed-trigger_locked}
use bdus.Control.Samples.{
  attached_wrapper, attached_state, attached_state-IsValid, released_wrapper, released_state,
  released_state-IsValid, create_input, found_released, other_wrapper, crossed_state, triggered,
  triggers_released,
}

release-IsValid_example :
    (c' : Control) × (release attached_state 5 ≡ some c')
    × IsValid c'
    × ((c'.fds 5).attached ≡ false)
release-IsValid_example = release-IsValid attached_state 5 attached_state-IsValid

attach_resume-IsValid_example :
    (ret : ℤ) × (c' : Control) × (attach_resume released_state 6 0 false (ok tt) ≡ some (ret, c'))
    × IsValid c'
unfolding find_device
attach_resume-IsValid_example =
    attach_resume-IsValid released_state 6 released_wrapper false (ok tt) released_state-IsValid
      refl refl (λ h. refl)

ioctl_create_device-IsValid_example :
    IsValid (ioctl_create_device 4096 attached_state 6 create_input).1
    × LeavesNothing (ioctl_create 4096 attached_state 6 create_input).1
    × (((ioctl_create_device 4096 attached_state 6 create_input).1 ≡ attached_state)
        ⊎ ((index : ℕ) × (device : Device) × (device.config.id ≡ 1)
            × (ioctl_create_device 4096 attached_state 6 create_input
                ≡ (pos 0, add_device attached_state 6 index device))))
ioctl_create_device-IsValid_example =
    ioctl_create_device-IsValid 4096 attached_state 6 create_input attached_state-IsValid
      (omega arith)

trigger_locked-attach_resume_example :
    (c' : Control) × (trigger_locked released_state 0 ≡ ok c')
    × (attach_resume c' 6 0 false (ok tt) ≡ none)
trigger_locked-attach_resume_example =
    trigger_locked-attach_resume released_state 0 6 released_wrapper false (ok tt)
      released_state-IsValid found_released refl refl

attach_resume-attached_example :
    (c' : Control) × (attach_resume crossed_state 6 0 false (ok tt) ≡ some (pos 0, c'))
    × (¬ IsValid c')
unfolding find_device
attach_resume-attached_example =
    attach_resume-attached crossed_state 6 0 1 released_wrapper other_wrapper refl refl refl refl
      (λ h. omega (arith, h))

attach_begin-attach_resume_example :
    (c' : Control) × (w' w'' : DeviceWrapper) × (attach_resume
        (attach_begin attached_state 6 attached_wrapper (ok tt)).1
        6
        0
        true
        (ok tt)
      ≡ some (erestartsys, c'))
    × (find_device 0 c'.devices ≡ some w')
    × (find_device 0 (attach_begin c' 6 w' (ok tt)).1.devices ≡ some w'')
    × (w''.device.warnings ≡ 1)
unfolding find_device
attach_begin-attach_resume_example =
    attach_begin-attach_resume attached_state 6 5 0 attached_wrapper (ok tt) refl refl refl refl

Run-IsValid_example : IsValid triggered
Run-IsValid_example =
    Run-IsValid {page_size = 4096} released_state-IsValid
      (Run.next Run.here (Call.triggers 0 triggers_released))

sleep_until_destroyed-trigger_locked_example :
    (asleep woken : Control) × (sleep_until_destroyed released_state 0 ≡ ok (false, asleep))
    × (asleep.sleepers ≡ 0 ∷ [])
    × (trigger_locked asleep 0 ≡ ok woken)
    × (woken.sleepers ≡ [])
    × (get_device_wrapper_by_id woken 0 ≡ err enodev)
    × (sleep_until_destroyed woken 0 ≡ ok (true, woken))
sleep_until_destroyed-trigger_locked_example =
    sleep_until_destroyed-trigger_locked released_state 0 released_wrapper released_state-IsValid
      found_released refl
