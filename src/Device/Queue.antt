-- ===== src/Device/Queue.antt =====
-- The request queue and the disk that kbdus/src/device.c sets up, as the values that it hands to
-- the block layer (for Linux 4.10 and later), and that these keep every request within a
-- preallocated buffer.
use Prim.Native.Nat.{max}
use bdus.Base.{
  ℕ, ◌*◌, ◌/◌, ◌≤◌, ◌≡◌, refl, sym, if◌then◌else◌, Bool, true, false, not, ◌||◌, Option, none, some,
  count, length, arith,
}
use bdus.Base.Errno.{Result, ok, err}
use bdus.Device.Config.{DeviceConfig}
use bdus.Device.Validate.{is_read_only}
use bdus.Device.Adjusted.{IsAdjusted, IsPageSize}
use bdus.Inverter.State.{Inverter, BlockLayer}
use bdus.Inverter.Lifecycle.{create}
use bdus.Inverter.Operations.Create.{create_lem}
use bdus.Transceiver.Layout.{max_request_size}

pub record QueueFlags : Type 0 where
  pub nonrot : Bool
  pub add_random : Bool
  pub discard : Bool
  pub secure_erase : Bool
  pub write_cache : Bool
  pub fua : Bool

unfoldable pub config_request_queue_flags : DeviceConfig → QueueFlags
config_request_queue_flags c = record {
  nonrot = not c.rotational;
  add_random = false;
  discard = c.supports_discard;
  secure_erase = c.supports_secure_erase;
  write_cache = c.supports_flush;
  fua = c.supports_fua_write;
}

-- Sizes are in sectors; `none` is a limit that is left at its default, 0.
pub record QueueLimits : Type 0 where
  pub logical_block_size : ℕ
  pub physical_block_size : ℕ
  pub max_hw_sectors : ℕ
  pub max_write_same_sectors : Option ℕ
  pub max_write_zeroes_sectors : Option ℕ
  pub max_discard_sectors : Option ℕ
  pub discard_granularity : Option ℕ

unfoldable pub config_request_queue_limits : ℕ → DeviceConfig → QueueLimits
config_request_queue_limits page_size c =
    let discards = c.supports_discard || c.supports_secure_erase in
    record {
      logical_block_size = c.logical_block_size;
      physical_block_size = c.physical_block_size;
      max_hw_sectors = max c.max_read_write_size page_size / 512;
      max_write_same_sectors =
          if c.supports_write_same then some (c.max_write_same_size / 512) else none;
      max_write_zeroes_sectors =
          if c.supports_write_zeros then some (c.max_write_zeros_size / 512) else none;
      max_discard_sectors = if discards then some (c.max_discard_erase_size / 512) else none;
      discard_granularity = if discards then some c.logical_block_size else none;
    }

-- `DISK_MAX_PARTS` of linux/genhd.h
abbrev disk_max_parts : ℕ
disk_max_parts = 256

pub record Disk : Type 0 where
  pub queue_depth : ℕ
  pub should_merge : Bool
  pub minors : ℕ
  pub no_part_scan : Bool
  pub first_minor : ℕ
  pub capacity : ℕ
  pub read_only : Bool
  pub flags : QueueFlags
  pub limits : QueueLimits

-- For Linux 5.15 and later, with what the kernel answers to the two allocations.
unfoldable pub create_disk : ℕ → Result (Unit {0}) → Result (Unit {0}) → DeviceConfig → Result Disk
unfolding config_request_queue_flags config_request_queue_limits
create_disk page_size tag_set disk c = elim tag_set [
  | err e ↦ err e
  | ok there ↦ elim disk [
    | err e ↦ err e
    | ok there' ↦ ok (record {
      queue_depth = c.max_outstanding_reqs;
      should_merge = c.merge_requests;
      minors = if c.enable_partition_scanning then disk_max_parts else 1;
      no_part_scan = not c.enable_partition_scanning;
      first_minor = c.minor;
      capacity = c.size / 512;
      read_only = is_read_only c;
      flags = config_request_queue_flags c;
      limits = config_request_queue_limits page_size c;
    })
  ]
]

sectors_fit : (size : ℕ) → 512 * (size / 512) ≤ size
sectors_fit size = omega arith

-- For an adjusted configuration, a page size of Linux, and reads, writes or FUA writes among the
-- operations and a block layer that is owed nothing: the disk comes about where the kernel makes its
-- parts, the depth of its queue, at least 1, is the number of wrappers that the inverter of the device
-- has free once it is created, no request has more sectors than a preallocated buffer
-- holds, and the blocks of the queue are ordered and lie within a page.
pub create_disk_fits :
    (page_size : ℕ) (c : DeviceConfig) (blk : BlockLayer)
    → IsPageSize page_size
    → IsAdjusted page_size c
    → ((r : ℕ) → count r blk.started ≡ count r blk.completed)
    → (c.supports_read || c.supports_write || c.supports_fua_write) ≡ true
    → (disk : Disk) × (inv : Inverter) × (create_disk page_size (ok tt) (ok tt) c ≡ ok disk)
      × (create c true true blk ≡ ok inv)
      × (disk.queue_depth ≡ length inv.reqs_free)
      × (1 ≤ disk.queue_depth)
      × (512 * disk.limits.max_hw_sectors ≤ max_request_size c)
      × (disk.limits.logical_block_size ≤ disk.limits.physical_block_size)
      × (disk.limits.physical_block_size ≤ page_size)
unfolding create_disk config_request_queue_limits max_request_size
create_disk_fits page_size c blk page a even moves_data =
    let size = sectors_fit (max c.max_read_write_size page_size) in
    let (least, most, multiple) = a.read_write.1 moves_data in
    let (inv, created, valid, all_free) = create_lem c blk a.outstanding.1 even in
    (
      _,
      inv,
      refl,
      created,
      sym all_free,
      a.outstanding.0,
      ground (arith, size, least),
      a.physical.0,
      a.physical.1,
    )
