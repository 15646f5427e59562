-- ===== src/Transceiver/Layout.antt =====
-- The memory that a transceiver (kbdus/src/transceiver.c) shares with the driver in user space: first
-- an array of 64-byte structures, then the preallocated buffers. Addresses are offsets in it, PAGE_SIZE
-- is an argument, and `size_t` has 64 bits.
use Prim.Native.Nat.{min, max}
use bdus.Base.{
  ℕ, ◌+◌, ◌-◌, ◌*◌, ◌/◌, ◌%◌, ◌^◌, leb, if◌then◌else◌, Bool, not, List, Option, none, some,
}
use bdus.Base.Errno.{einval, enomem, Result, ok, err}
use bdus.Device.Config.{DeviceConfig}
use bdus.Device.Validate.{array_is_zero_filled}

-- `struct kbdus_fd_config`
pub record FdConfig : Type 0 where
  pub num_preallocated_buffers : ℕ
  pub reserved : List ℕ

pub record Transceiver : Type 0 where
  pub num_rais : ℕ
  pub num_preallocated_buffers : ℕ
  pub preallocated_buffer_size : ℕ
  pub preallocated_buffers_start : ℕ
  pub shared_memory_size : ℕ

-- `PAGE_ALIGN`, for sizes that do not wrap.
unfoldable pub page_align : ℕ → ℕ → ℕ
page_align page_size n = (n + page_size - 1) / page_size * page_size

unfoldable pub max_request_size : DeviceConfig → ℕ
max_request_size c =
    let data_size = c.max_read_write_size in
    let same_size =
      if c.supports_write_same then max data_size c.logical_block_size else data_size in
    if c.supports_ioctl then max same_size (2 ^ 14) else same_size

-- `none` is the null pointer.
unfoldable pub get_rai : Transceiver → ℕ → Option ℕ
get_rai t rai_index = if leb t.num_rais rai_index then none else some (64 * rai_index)

unfoldable pub get_preallocated_buffer : Transceiver → ℕ → Option ℕ
get_preallocated_buffer t preallocated_buffer_index =
    if leb t.num_preallocated_buffers preallocated_buffer_index
    then none
    else some
        (t.preallocated_buffers_start + t.preallocated_buffer_size * preallocated_buffer_index)

unfoldable pub transceiver_validate_and_adjust_config : DeviceConfig → FdConfig → Result FdConfig
transceiver_validate_and_adjust_config device fd =
    if not (array_is_zero_filled fd.reserved)
    then err einval
    else ok (record fd {
      num_preallocated_buffers = min fd.num_preallocated_buffers device.max_outstanding_reqs;
    })

-- The two flags say whether the two allocations succeed. `num_rais` is a `u32`.
unfoldable pub transceiver_create : ℕ → DeviceConfig → FdConfig → Bool → Bool → Result Transceiver
transceiver_create page_size device fd allocated memory_allocated =
    let size = page_align page_size (max_request_size device) in
    let start = page_align page_size (device.max_outstanding_reqs * 64 % 2 ^ 32) in
    if not allocated
    then err enomem
    else if not memory_allocated
    then err enomem
    else ok (record {
      num_rais = device.max_outstanding_reqs;
      num_preallocated_buffers = fd.num_preallocated_buffers;
      preallocated_buffer_size = size;
      preallocated_buffers_start = start;
      shared_memory_size = (start + fd.num_preallocated_buffers * size) % 2 ^ 64;
    })
