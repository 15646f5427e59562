-- ===== src/Device/Agreement.antt =====
-- The state of a device (kbdus/src/device.c) and the flags of its inverter agree, as long as it is
-- activated when it is inactive, deactivated when it is active, and its disk added once.
use bdus.Base.{◌≡◌, refl, ◌∙◌, Bool, true, false, not, arith}
use bdus.Device.Life.{
  Device, DeviceState, same_device_state, device_terminate, device_deactivate, device_activate,
  add_disk,
}
use bdus.Inverter.State.{Inverter}
use bdus.Inverter.Lifecycle.{deactivate, activate, submit_device_available_notification}
use bdus.Inverter.Valid.{IsValid}
use bdus.Inverter.Operations.Terminate.{terminate-IsValid, terminated-terminate}
use bdus.Inverter.Operations.Deactivate.{deactivate-IsValid}
use bdus.Inverter.Operations.Activate.{activate-IsValid, flags-activate}
use bdus.Inverter.Operations.Finish.{submit_device_available_notification-IsValid}

-- Whether the inverter of a device in the state is deactivated, where that is known.
abbrev pub paused_ok : DeviceState → Bool → Bool
paused_ok DeviceState.unavailable deactivated = not deactivated
paused_ok DeviceState.active deactivated = not deactivated
paused_ok DeviceState.inactive deactivated = deactivated
paused_ok DeviceState.terminated deactivated = true

pub record Agrees (d : Device) : Type 0 where
  pub valid : IsValid d.inverter
  pub ended : d.inverter.flags.terminated ≡ same_device_state d.state DeviceState.terminated
  pub paused : paused_ok d.state d.inverter.flags.deactivated ≡ true

flags-deactivate :
    (inv : Inverter) (flush : Bool)
    → ((deactivate inv flush).flags.deactivated ≡ true)
      × ((deactivate inv flush).flags.terminated ≡ inv.flags.terminated)
unfolding deactivate
flags-deactivate inv flush = (ground arith, ground arith)

flags-submit_device_available_notification :
    (inv : Inverter)
    → ((submit_device_available_notification inv).flags.deactivated ≡ inv.flags.deactivated)
      × ((submit_device_available_notification inv).flags.terminated ≡ inv.flags.terminated)
unfolding submit_device_available_notification
flags-submit_device_available_notification inv = (ground arith, ground arith)

-- The operations, each in the states in which it is meant to be called.
pub data Change (d : Device) : Device → Type 0 where
  terminates : Change d (device_terminate d)
  deactivates : (flush : Bool) → d.state ≡ DeviceState.active → Change d (device_deactivate d flush)
  activates : d.state ≡ DeviceState.inactive → Change d (device_activate d)
  adds_disk : (added : Bool) → Change d (add_disk d added)

pub data Life (d : Device) : Device → Type 0 where
  here : Life d d
  next : {mid end : Device} → Life d mid → Change mid end → Life d end

terminate-Agrees : (d : Device) → Agrees d → Agrees (device_terminate d)
unfolding device_terminate
terminate-Agrees d a = record {
  valid = terminate-IsValid d.inverter a.valid;
  ended = terminated-terminate d.inverter a.valid;
  paused = refl;
}

Change-Agrees : (d d' : Device) → Change d d' → Agrees d → Agrees d' × (d'.warnings ≡ d.warnings)
unfolding device_terminate device_deactivate device_activate add_disk
Change-Agrees d d' terminates a = (terminate-Agrees d a, refl)
Change-Agrees d d' (deactivates flush active) a =
    let (off, same) = flags-deactivate d.inverter flush in
    (
      record {
        valid = deactivate-IsValid d.inverter flush a.valid;
        ended = ground (arith, a.ended, same, active);
        paused = off;
      },
      ground (arith, active),
    )
Change-Agrees d d' (activates inactive) a =
    let running : d.inverter.flags.terminated ≡ false = ground (arith, a.ended, inactive) in
    let (on, same) = flags-activate d.inverter a.valid in
    let (on', same') = flags-submit_device_available_notification (activate d.inverter) in
    (
      record {
        valid =
            submit_device_available_notification-IsValid (activate d.inverter)
              (activate-IsValid d.inverter a.valid running);
        ended = same' ∙ same ∙ running;
        paused = ground (arith, on, on');
      },
      ground (arith, inactive),
    )
Change-Agrees d d' (adds_disk false) a = (terminate-Agrees d a, refl)
Change-Agrees d d' (adds_disk true) a =
    let (on, same) = flags-submit_device_available_notification d.inverter in
    (
      record {
        valid = submit_device_available_notification-IsValid d.inverter a.valid;
        ended = ground (arith, a.ended, same);
        paused = ground (arith, a.paused, on);
      },
      refl,
    )

-- A device whose state agrees with its inverter keeps agreeing through its life, if it is activated only
-- when inactive and deactivated only when active, and no warning fires:
-- the inverter stays valid, it is terminated exactly if the device is, it is deactivated if the device
-- is inactive, and not if the device is active or unavailable.
pub Life-Agrees : {d d' : Device} → Agrees d → Life d d' → Agrees d' × (d'.warnings ≡ d.warnings)
Life-Agrees a here = (a, refl)
Life-Agrees a (next {mid} {end} l c) =
    let (b, same) = Life-Agrees a l in
    let (b', same') = Change-Agrees mid end c b in (b', same' ∙ same)
