-- ===== src/Libbdus/Agreement.antt =====
-- The memory as libbdus/src/backend.c maps it and as kbdus/src/transceiver.c lays it out.
use Prim.Native.Nat.{min}
use bdus.Base.{ℕ, ◌+◌, ◌-◌, ◌*◌, ◌^◌, ◌%◌, ◌<◌, ◌≡◌, refl, true, [], some, arith}
use bdus.Base.Errno.{ok}
use bdus.Device.Config.{DeviceConfig}
use bdus.Device.Validate.{adjust_config, array_is_zero_filled}
use bdus.Transceiver.Layout.{
  FdConfig, Transceiver, page_align, max_request_size, get_rai, get_preallocated_buffer,
  transceiver_create, transceiver_validate_and_adjust_config,
}
use bdus.Libbdus.Driver.{Ops, Attrs}
use bdus.Libbdus.Attrs.{run_device_config, fd_config, adjust_attrs_run, default_concurrency}
use bdus.Libbdus.Mappings.{
  Layout, layout_of, max_request_payload_size, payload_offset, rai_offset, round_up,
}

-- The configuration of a new device.
abbrev pub new_config : {S : Type 0} → ℕ → Ops S → Attrs → DeviceConfig
new_config page_size ops attrs =
    adjust_config page_size (run_device_config ops (default_concurrency attrs))

-- The file description of its driver, and the attributes that the driver then sees.
abbrev pub new_fd : {S : Type 0} → ℕ → Ops S → Attrs → FdConfig
new_fd page_size ops attrs = record {
  num_preallocated_buffers =
      min (default_concurrency attrs).max_concurrent_callbacks
        (new_config page_size ops attrs).max_outstanding_reqs;
  reserved = [];
}

abbrev pub new_attrs : {S : Type 0} → ℕ → Ops S → Attrs → Attrs
new_attrs page_size ops attrs =
    adjust_attrs_run (new_config page_size ops attrs) (new_fd page_size ops attrs)
      (default_concurrency attrs)

abbrev pub new_layout : {S : Type 0} → ℕ → Ops S → Attrs → Layout
new_layout page_size ops attrs =
    layout_of page_size ops (new_attrs page_size ops attrs)
      (new_config page_size ops attrs).max_outstanding_reqs

-- Both sides compute the same size of the largest request.
size_agrees :
    {S : Type 0} (page_size : ℕ) (ops : Ops S) (attrs : Attrs)
    → max_request_payload_size ops (new_attrs page_size ops attrs)
      ≡ max_request_size (new_config page_size ops attrs)
unfolding max_request_payload_size max_request_size adjust_attrs_run adjust_config run_device_config
    default_concurrency
size_agrees page_size ops attrs = ground arith

pub round_up-eq : (p n : ℕ) → 0 < p → round_up n p ≡ page_align p n
unfolding page_align
round_up-eq p n h = let e : n + (p - 1) ≡ n + p - 1 = omega arith in rw e

-- For a driver that bdus_run() starts: kbdus adjusts its file description, and lays the memory out
-- as the driver does, so that every thread finds its structure and its payload where kbdus has
-- them.
pub layout_of-transceiver_create :
    {S : Type 0} (page_size : ℕ) (ops : Ops S) (attrs : Attrs) (i : ℕ)
    → 0 < page_size
    → i < (new_attrs page_size ops attrs).max_concurrent_callbacks
    → (t : Transceiver) × (transceiver_validate_and_adjust_config
          (new_config page_size ops attrs)
          (fd_config (default_concurrency attrs))
        ≡ ok (new_fd page_size ops attrs))
      × (transceiver_create page_size
            (new_config page_size ops attrs)
            (new_fd page_size ops attrs)
            true
            true
          ≡ ok t)
      × (get_rai t i ≡ some (rai_offset i))
      × (get_preallocated_buffer t i ≡ some (payload_offset (new_layout page_size ops attrs) i))
      × ((new_layout page_size ops attrs).single_payload_memory_size ≡ t.preallocated_buffer_size)
unfolding transceiver_create get_rai get_preallocated_buffer payload_offset layout_of fd_config
    transceiver_validate_and_adjust_config array_is_zero_filled adjust_attrs_run
layout_of-transceiver_create page_size ops attrs i positive below =
    let requests = (new_config page_size ops attrs).max_outstanding_reqs * 64 % 2 ^ 32 in
    let size = round_up-eq page_size (max_request_size (new_config page_size ops attrs)) positive in
    let start = round_up-eq page_size requests positive in
    let same = size_agrees page_size ops attrs in
    let within : i < (new_config page_size ops attrs).max_outstanding_reqs = ground arith in
    (_, refl, refl, ground arith, ground (arith, size, start, same), ground (arith, size, same))
