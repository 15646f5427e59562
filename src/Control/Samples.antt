-- ===== src/Control/Samples.antt =====
-- Small states of the control device (kbdus/src/control.c).
use bdus.Base.{ℕ, ◌≡◌, refl, ◌==◌, if◌then◌else◌, true, false, [], ◌∷◌, Option, none, some, arith}
use bdus.Base.Int.{pos}
use bdus.Base.Errno.{ok}
use bdus.Device.Config.{DeviceConfig}
use bdus.Device.Life.{Device, DeviceState}
use bdus.Inverter.State.{Inverter, BlockLayer}
use bdus.Control.State.{
  OnDetach, DeviceWrapper, Fd, Control, find_device, get_device_wrapper_by_id, destroy_device,
  remove_device,
}
use bdus.Control.Files.{fresh_fd}
use bdus.Control.Attach.{AttachInput}
use bdus.Control.Create.{CreateInput}
use bdus.Control.Devices.{trigger_locked}
use bdus.Control.Valid.{IsValid}

abbrev config_of : ℕ → DeviceConfig
config_of id = record {
  id = id;
  size = 8192;
  logical_block_size = 512;
  physical_block_size = 512;
  max_read_write_size = 4096;
  max_write_same_size = 0;
  max_write_zeros_size = 0;
  max_discard_erase_size = 0;
  max_outstanding_reqs = 1;
  major = 240;
  minor = 0;
  supports_read = true;
  supports_write = true;
  supports_write_same = false;
  supports_write_zeros = false;
  supports_fua_write = false;
  supports_flush = false;
  supports_discard = false;
  supports_secure_erase = false;
  supports_ioctl = false;
  rotational = false;
  merge_requests = true;
  enable_partition_scanning = false;
  recoverable = true;
  reserved_1 = [];
  reserved_2 = [];
}

abbrev idle_blk : BlockLayer
idle_blk = record {
  pdu = λ r. record { handle_seqnum = 0; handle_index = 0; error = pos 0; error_ioctl = pos 0 };
  started = [];
  completed = [];
}

abbrev empty_inverter : Inverter
empty_inverter = record {
  flags = record {
    deactivated = false;
    deactivated_not_flushed = false;
    terminated = false;
    send_device_available = false;
    supports_read = true;
    supports_write = true;
    supports_flush = false;
    supports_ioctl = false;
  };
  num_reqs = 0;
  item_is_awaiting_get = 0;
  reqs_free = [];
  reqs_awaiting_get = [];
  reqs_all = [];
  blk = idle_blk;
}

abbrev pub device_of : ℕ → DeviceState → Device
device_of id s = record {
  config = config_of id;
  state = s;
  inverter = empty_inverter;
  warnings = 0;
}

abbrev wrapper_of : ℕ → DeviceState → Option ℕ → OnDetach → DeviceWrapper
wrapper_of id s fd awaited = record {
  index = id;
  device = device_of id s;
  fd = fd;
  on_detach = awaited;
}

-- An active device, attached to file description 5.
abbrev pub attached_wrapper : DeviceWrapper
attached_wrapper = wrapper_of 0 DeviceState.active (some 5) OnDetach.nobody

abbrev fd_5 : Fd
fd_5 = record { attached = true; successful = false; device_wrapper = 0 }

abbrev pub attached_state : Control
attached_state = record {
  max_devices = 2;
  next_id = 1;
  sleepers = [];
  num_devices = 1;
  devices = attached_wrapper ∷ [];
  fds = λ k. if k == 5 then fd_5 else fresh_fd;
}

pub attached_state-IsValid : IsValid attached_state
unfolding find_device
attached_state-IsValid = record {
  table = record {
    unique = λ id. ground arith;
    fresh = λ id le. ground arith;
    counted = refl;
    within = omega arith;
    small = omega arith;
  };
  owner = λ k a. (attached_wrapper, ground arith, ground arith);
  owned = λ id k w found held. ground arith;
  signalled_late = λ id w found late. ground arith;
}

-- An inactive device that was released while a thread waits to attach to it.
abbrev pub released_wrapper : DeviceWrapper
released_wrapper = wrapper_of 0 DeviceState.inactive none OnDetach.signalled

abbrev pub released_state : Control
released_state = record attached_state { devices = released_wrapper ∷ []; fds = λ k. fresh_fd }

pub released_state-IsValid : IsValid released_state
unfolding find_device
released_state-IsValid = record {
  table = record {
    unique = λ id. ground arith;
    fresh = λ id le. ground arith;
    counted = refl;
    within = omega arith;
    small = omega arith;
  };
  owner = λ k a. cc;
  owned = λ id k w found held. ground arith;
  signalled_late = λ id w found late. ground arith;
}

abbrev pub attach_input : AttachInput
attach_input = record {
  capable = true;
  id = some 0;
  interrupted = false;
  config_ok = ok tt;
  copied_out = true;
  transceiver = ok tt;
}

abbrev pub create_input : CreateInput
create_input = record {
  capable = true;
  config = some (config_of 0);
  fd_config_ok = ok tt;
  interrupted = false;
  index = ok 1;
  major = 240;
  copied_out = true;
  wrapper_allocated = true;
  resources = record {
    device_allocated = true;
    inverter_allocated = true;
    reqs_allocated = true;
    add_disk_task = ok tt;
    disk = ok tt;
  };
  blk = idle_blk;
  transceiver = ok tt;
}

pub found_released : get_device_wrapper_by_id released_state 0 ≡ ok released_wrapper
unfolding get_device_wrapper_by_id find_device
found_released = refl

-- File description 6 waits for device 0 and is attached to device 1.
abbrev pub other_wrapper : DeviceWrapper
other_wrapper = wrapper_of 1 DeviceState.active (some 6) OnDetach.nobody

abbrev pub crossed_state : Control
crossed_state = record {
  max_devices = 2;
  next_id = 2;
  sleepers = [];
  num_devices = 2;
  devices = released_wrapper ∷ other_wrapper ∷ [];
  fds = λ k.
      if k == 6
      then record { attached = true; successful = false; device_wrapper = 1 }
      else fresh_fd;
}

-- A thread triggers the destruction of the device that is there.
abbrev pub triggered : Control
triggered = record attached_state { num_devices = 0; devices = []; fds = λ k. fresh_fd }

pub triggers_released : trigger_locked released_state 0 ≡ ok triggered
unfolding trigger_locked get_device_wrapper_by_id find_device destroy_device remove_device
triggers_released = refl
