-- ===== src/Libbdus/Samples.antt =====
-- Small drivers, for the code of libbdus/src.
use bdus.Base.{ℕ, ◌+◌, ◌==◌, if◌then◌else◌, [], true, false, none, some}
use bdus.Base.Int.{pos}
use bdus.Device.Config.{DeviceConfig}
use bdus.Device.Samples.{plain}
use bdus.Inverter.State.{ItemType}
use bdus.Transceiver.Copies.{UserItem}
use bdus.Transceiver.Layout.{FdConfig}
use bdus.Libbdus.Driver.{World, Callback, Ops, Attrs}
use bdus.Libbdus.Worker.{Thread}
use bdus.Libbdus.Mappings.{System}

-- The state counts the calls.
abbrev pub succeeds : Callback ℕ
succeeds w = (pos 0, record w { private = w.private + 1 })

-- A driver that writes only.
abbrev pub writer : Ops ℕ
writer = record {
  initialize = some succeeds;
  on_device_available = none;
  terminate = some succeeds;
  read = none;
  write = some (λ buffer offset size. succeeds);
  write_same = none;
  write_zeros = none;
  fua_write = none;
  flush = none;
  discard = none;
  secure_erase = none;
  ioctl = none;
}

abbrev pub ram : Ops ℕ
ram = record writer { read = some (λ buffer offset size. succeeds) }

abbrev pub with_ioctl : Ops ℕ
with_ioctl = record ram { ioctl = some (λ command argument. succeeds) }

abbrev pub four_threads : Attrs
four_threads = record {
  logical_block_size = 512;
  physical_block_size = 0;
  size = 8192;
  max_concurrent_callbacks = 4;
  max_read_write_size = 0;
  max_write_same_size = 0;
  max_write_zeros_size = 0;
  max_discard_erase_size = 0;
  disable_partition_scanning = false;
  recoverable = false;
  dont_daemonize = false;
  log = false;
}

abbrev pub start : World ℕ
start = record { memory = λ a. 0; private = 0 }

abbrev pub thread_of : Ops ℕ → Thread ℕ
thread_of ops = record {
  ops = ops;
  thread_index = 1;
  payload = 4096;
  allow_device_available = false;
}

abbrev pub item_of_type : ItemType → UserItem
item_of_type type = record {
  user_ptr_or_buffer_index = 1;
  handle_seqnum = 7;
  handle_index = 2;
  use_preallocated_buffer = true;
  type = type;
  arg32 = 512;
  arg64 = 0;
}

-- A device whose requests are small, with one thread.
abbrev pub small_requests : DeviceConfig
small_requests = record plain { max_read_write_size = 4096 }

abbrev pub one_thread : FdConfig
one_thread = record { num_preallocated_buffers = 1; reserved = [] }

-- The payload of the third thread cannot be mapped.
abbrev pub two_mappings : System
two_mappings = record {
  page_size = 4096;
  contexts_allocated = true;
  rais_mapped = true;
  payload_mapped = λ i. if i == 2 then false else true;
  run = true;
}
