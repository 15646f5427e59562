-- ===== src/Libbdus/Takeover.antt =====
-- What bdus_rerun() (libbdus/src/bdus.c) does with a driver that does not suit the device.
use bdus.Base.{
  ℕ, zero, suc, ◌+◌, ◌-◌, ◌*◌, ◌^◌, ◌%◌, ◌<◌, ◌≤◌, ◌≡◌, ◌≢◌, refl, true, false, not, ◌&&◌, Option,
  none, arith,
}
use bdus.Base.Errno.{ok}
use bdus.Inverter.State.{ItemType}
use bdus.Device.Config.{DeviceConfig}
use bdus.Transceiver.Layout.{
  FdConfig, Transceiver, page_align, max_request_size, transceiver_create,
}
use bdus.Transceiver.Copies.{UserItem}
use bdus.Libbdus.Driver.{World, Ops, Attrs}
use bdus.Libbdus.Attrs.{is_set, adjust_attrs_rerun}
use bdus.Libbdus.Rerun.{Complaint, validate_ops_rerun, lacking_ops}
use bdus.Libbdus.Worker.{Thread, process_item}
use bdus.Libbdus.Callbacks.{sends, answers_to, process_item_of_missing}
use bdus.Libbdus.Agreement.{round_up-eq}
use bdus.Libbdus.Mappings.{layout_of, max_request_payload_size, payload_offset, round_up}

module _ {S : Type 0} where
  lacking_ops_of_missing :
      (ops : Ops S) (device : DeviceConfig) (type : ItemType) (last : Option Complaint)
      → sends device type ≡ true
      → answers_to ops type ≡ false
      → lacking_ops ops device last ≢ none
  unfolding sends answers_to lacking_ops
  lacking_ops_of_missing ops device type last sent missing = λ none_set. ground arith

  -- If a device sends a type of item whose callback the new driver lacks, and the driver implements
  -- `flush` if it implements `fua_write`, then the check of its operations sets an error and accepts it all
  -- the same, and an item of this type makes a thread call a null pointer.
  pub validate_ops_rerun_of_missing :
      (t : Thread S) (device : DeviceConfig) (i : UserItem) (world : World S)
      (last : Option Complaint)
      → (is_set t.ops.fua_write && not (is_set t.ops.flush)) ≡ false
      → sends device i.type ≡ true
      → answers_to t.ops i.type ≡ false
      → ((validate_ops_rerun t.ops device last).0 ≡ true)
        × ((validate_ops_rerun t.ops device last).1 ≢ none)
        × (process_item t i world ≡ none)
  unfolding validate_ops_rerun
  validate_ops_rerun_of_missing t device i world last fua sent missing = (
    rw fua,
    rw fua (lacking_ops_of_missing t.ops device i.type last sent missing),
    process_item_of_missing t i world missing,
  )

round_up-ge : (p n : ℕ) → 0 < p → n ≤ round_up n p
round_up-ge p n h = grind arith

mul-lt : (n a b : ℕ) → 0 < n → a < b → n * a < n * b
mul-lt n a b h k = grind arith

mul-pred : (n large : ℕ) → 0 < n → large * (n - 1) + large ≡ n * large
mul-pred zero large h = absurd (omega arith)
mul-pred (suc n) large h = let e : suc n - 1 ≡ n = omega arith in rw e (grind arith)

mod-le : (n m : ℕ) → 0 < m → n % m ≤ n
mod-le n m h = grind arith

payloads_outside :
    (n start small large : ℕ)
    → 0 < n
    → small < large
    → start + n * small < start + large * (n - 1) + large
payloads_outside n start small large h k =
    omega (arith, mul-pred n large h, mul-lt n small large h k)

module _ {S : Type 0} where
  ioctl_fits :
      (ops : Ops S) (attrs : Attrs)
      → is_set ops.ioctl ≡ true
      → 2 ^ 14 ≤ max_request_payload_size ops attrs
  unfolding max_request_payload_size
  ioctl_fits ops attrs h = ground arith

  -- If a driver that implements `ioctl` takes over a device whose largest request, rounded to
  -- pages, is smaller than the payload of an ioctl, then, for a positive page size and at least one
  -- thread, the payload of its last thread ends beyond the memory that kbdus shares.
  pub layout_of-outside :
      (page_size : ℕ) (ops : Ops S) (attrs : Attrs) (device : DeviceConfig) (fd : FdConfig)
      → 0 < page_size
      → 0 < fd.num_preallocated_buffers
      → is_set ops.ioctl ≡ true
      → page_align page_size (max_request_size device) < 2 ^ 14
      → let l =
          layout_of page_size ops
            (adjust_attrs_rerun device fd attrs)
            device.max_outstanding_reqs in
        (t : Transceiver) × (transceiver_create page_size device fd true true ≡ ok t)
        × (t.shared_memory_size
            < payload_offset l (fd.num_preallocated_buffers - 1) + l.single_payload_memory_size)
  unfolding layout_of transceiver_create payload_offset
  layout_of-outside page_size ops attrs device fd positive some_thread has_ioctl small =
      let asked = max_request_payload_size ops (adjust_attrs_rerun device fd attrs) in
      let start = page_align page_size (device.max_outstanding_reqs * 64 % 2 ^ 32) in
      let size = page_align page_size (max_request_size device) in
      let large = round_up asked page_size in
      let fits : 2 ^ 14 ≤ asked = ioctl_fits ops (adjust_attrs_rerun device fd attrs) has_ioctl in
      let more : size < large = omega (arith, fits, round_up-ge page_size asked positive) in
      let outside =
        payloads_outside fd.num_preallocated_buffers start size large some_thread more in
      let wrapped = mod-le (start + fd.num_preallocated_buffers * size) (2 ^ 64) (omega arith) in
      let same = round_up-eq page_size (device.max_outstanding_reqs * 64 % 2 ^ 32) positive in
      (_, refl, rw same (omega (arith, wrapped, outside)))
