-- ===== src/Libbdus/Tests.antt =====
-- The code of libbdus/src on small inputs.
use bdus.Base.{◌+◌, ◌<◌, ◌≡◌, ◌≢◌, refl, true, not, ◌&&◌, [], ◌∷◌, none, some, arith}
use bdus.Base.Int.{pos}
use bdus.Base.Errno.{ok}
use bdus.Device.Samples.{plain}
use bdus.Device.Validate.{adjust_config, supports_nothing, validate_config}
use bdus.Inverter.State.{ItemType}
use bdus.Transceiver.Layout.{
  Transceiver, transceiver_create, get_rai, get_preallocated_buffer, page_align, max_request_size,
  transceiver_validate_and_adjust_config,
}
use bdus.Libbdus.Attrs.{
  run_device_config, default_concurrency, adjust_attrs_run, adjust_attrs_rerun, fd_config,
  validate_ops_run, validate_attrs_run, is_set,
}
use bdus.Libbdus.Rerun.{validate_ops_rerun, lacking_ops}
use bdus.Libbdus.Accept.{validate_run-validate_config}
use bdus.Libbdus.Agreement.{layout_of-transceiver_create, new_config, new_fd, new_layout}
use bdus.Libbdus.Takeover.{validate_ops_rerun_of_missing, layout_of-outside}
use bdus.Libbdus.Callbacks.{work_loop-ne-crashed, sends, answers_to}
use bdus.Transceiver.Calls.{Reply}
use bdus.Libbdus.Driver.{Attrs}
use bdus.Libbdus.Replies.{work_loop-Due, Due}
use bdus.Libbdus.Release.{backend_run_released, all_happen, needed, nothing_held}
use bdus.Libbdus.Joins.{joinings-run_3, joinings, creations}
use bdus.Libbdus.Sessions.{execute_driver_lem, times_called}
use bdus.Libbdus.Session.{execute_driver, initializes, runs_backend, terminates, marks}
use bdus.Libbdus.Threads.{run_3}
use bdus.Libbdus.Worker.{process_item, work_loop, interrupted, item, crashed, error, driver_aborted}
use bdus.Libbdus.Mappings.{layout_of, payload_offset, rai_offset, backend_run}
use bdus.Libbdus.Samples.{
  writer, ram, with_ioctl, four_threads, start, thread_of, item_of_type, small_requests, one_thread,
  two_mappings,
}

layout_of-transceiver_create_example :
    (t : Transceiver) × (transceiver_validate_and_adjust_config
        (new_config 4096 ram four_threads)
        (fd_config (default_concurrency four_threads))
      ≡ ok (new_fd 4096 ram four_threads))
    × (transceiver_create 4096
          (new_config 4096 ram four_threads)
          (new_fd 4096 ram four_threads)
          true
          true
        ≡ ok t)
    × (get_rai t 2 ≡ some (rai_offset 2))
    × (get_preallocated_buffer t 2 ≡ some (payload_offset (new_layout 4096 ram four_threads) 2))
    × ((new_layout 4096 ram four_threads).single_payload_memory_size ≡ t.preallocated_buffer_size)
unfolding adjust_attrs_run adjust_config run_device_config default_concurrency supports_nothing
layout_of-transceiver_create_example =
    layout_of-transceiver_create 4096 ram four_threads 2 (omega arith) (omega arith)

validate_run-validate_config_example :
    (validate_ops_run ram && validate_attrs_run 4096 four_threads)
    ≡ validate_config 4096 (run_device_config ram (default_concurrency four_threads))
validate_run-validate_config_example =
    validate_run-validate_config 4096 ram four_threads (omega arith) (omega arith)

validate_ops_rerun_of_missing_example :
    ((validate_ops_rerun writer plain none).0 ≡ true)
    × ((validate_ops_rerun writer plain none).1 ≢ none)
    × (process_item (thread_of writer) (item_of_type ItemType.read) start ≡ none)
unfolding sends answers_to
validate_ops_rerun_of_missing_example =
    validate_ops_rerun_of_missing (thread_of writer) plain (item_of_type ItemType.read) start none
      refl refl refl

-- The driver of the next example raises no complaint.
accepted : validate_ops_rerun with_ioctl small_requests none ≡ (true, none)
unfolding validate_ops_rerun lacking_ops
accepted = refl

layout_of-outside_example :
    let l =
      layout_of 4096 with_ioctl (adjust_attrs_rerun small_requests one_thread four_threads) 2 in
    (t : Transceiver) × (transceiver_create 4096 small_requests one_thread true true ≡ ok t)
    × (t.shared_memory_size < payload_offset l 0 + l.single_payload_memory_size)
unfolding page_align max_request_size
layout_of-outside_example =
    layout_of-outside 4096 with_ioctl four_threads small_requests one_thread (omega arith)
      (omega arith) refl (omega arith)

work_loop-ne-crashed_example :
    (work_loop 0 (pos 0) (thread_of ram) start (
      item (item_of_type ItemType.read) start
      ∷ interrupted
      ∷ item (item_of_type ItemType.terminate) start
      ∷ [])).0
    ≢ crashed
unfolding sends adjust_config run_device_config
work_loop-ne-crashed_example =
    work_loop-ne-crashed 4096 0 (pos 0) (thread_of ram) four_threads start
      (item (item_of_type ItemType.read) start
        ∷ interrupted
        ∷ item (item_of_type ItemType.terminate) start
        ∷ [])
      (refl, (refl, tt))

work_loop-Due_example :
    (first : Reply) × (first.handle_index ≡ 0)
    × Due first (item (item_of_type ItemType.read) start ∷ interrupted ∷ []) (
        work_loop 0
          (pos 0)
          (thread_of ram)
          start
          (item (item_of_type ItemType.read) start ∷ interrupted ∷ []))
work_loop-Due_example =
    work_loop-Due 0 (pos 0) (thread_of ram) start
      (item (item_of_type ItemType.read) start ∷ interrupted ∷ [])

abbrev small_ram : Attrs
small_ram = record four_threads { max_read_write_size = 4096 }

backend_run_released_example :
    all_happen
      (needed (layout_of two_mappings.page_size ram small_ram 8) 4)
      (backend_run two_mappings ram small_ram 8).1
      nothing_held
    ≡ some nothing_held
backend_run_released_example = backend_run_released two_mappings ram small_ram 8

joinings-run_3_example :
    let run = run_3 3 (λ i. pos 0) (λ i. error (pos 5) driver_aborted) in
    (joinings 1 run.acts ≡ creations 1 run.acts) × (is_set run.result ≡ true)
joinings-run_3_example =
    joinings-run_3 3 1 (λ i. pos 0) (λ i. error (pos 5) driver_aborted) (omega arith)

execute_driver_lem_example :
    let session = execute_driver ram (λ w. (true, w)) (pos 0) start in
    (times_called initializes session.calls ≡ 1)
    × (times_called runs_backend session.calls ≡ 1)
    × (times_called terminates session.calls ≡ 1)
    × (times_called marks session.calls ≡ 1)
    × (not (is_set session.error) ≡ true)
execute_driver_lem_example = execute_driver_lem ram (λ w. (true, w)) (pos 0) start
