-- ===== src/System/Tests.antt =====
-- One read request, from the queue of the inverter to the callback of a driver and back.
use bdus.Base.{ℕ, ◌+◌, ◌^◌, ◌<◌, length, arith, ◌≡◌, refl, false, true, [], ◌∷◌, some, remove}
use bdus.Base.Int.{ℤ, pos}
use bdus.Inverter.State.{ItemType, ItemRef}
use bdus.Inverter.Samples.{queued, queued-IsValid, pending}
use bdus.Inverter.Items.{
  get_round, get_pass, begin_item_get, commit_item_get, commit_get_of_wrapper, item_of,
  begin_item_completion, begin_completion_of_wrapper,
}
use bdus.Inverter.Wrappers.{
  to_being_gotten, to_awaiting_completion, to_being_completed, handle_index_to_wrapper,
}
use bdus.Transceiver.Layout.{Transceiver, get_preallocated_buffer}
use bdus.Transceiver.Copies.{
  Payload, UserItem, copy_req_to_item_and_preallocated_buffer, fill_preallocated_buffer,
  copy_reply_data_from_preallocated_buffer,
}
use bdus.Transceiver.Calls.{
  Shared, UserCopy, Reply, Received, send_reply, finish_reply, copy_reply_data, receive_item,
  deliver_item,
}
use bdus.Libbdus.Worker.{Answer, loop, process_item, process_other_item, reply_to, replies}
use bdus.Libbdus.Requests.{process_request}
use bdus.Libbdus.Samples.{ram, thread_of, start}
use bdus.Libbdus.Driver.{World}
use bdus.System.Serving.{Served}
use bdus.System.Rounds.{loop-Served}
use bdus.System.Interleaved.{loop-Reach}
use bdus.Inverter.History.{Reach, Step}
use bdus.Inverter.Lifecycle.{deactivate}
use bdus.Inverter.Pending
use bdus.Base.Errno.{ok}

abbrev layout : Transceiver
layout = record {
  num_rais = 2;
  num_preallocated_buffers = 1;
  preallocated_buffer_size = 4096;
  preallocated_buffers_start = 4096;
  shared_memory_size = 8192;
}

abbrev a_payload : Payload
a_payload = record {
  position = 0;
  bytes = 512;
  segments = [];
  ioctl_command = 0;
  ioctl_argument = [];
}

abbrev a_copy : UserCopy
a_copy = record { copied = true; left = a_payload }

-- The structure of the thread before and after it receives the request.
abbrev named : UserItem
named = record {
  user_ptr_or_buffer_index = 0;
  handle_seqnum = 0;
  handle_index = 0;
  use_preallocated_buffer = true;
  type = ItemType.invalid;
  arg32 = 0;
  arg64 = 0;
}

abbrev filled : UserItem
filled = record named { handle_index = 1; type = ItemType.read; arg32 = 512 }

abbrev before : Shared
before = record { inverter = queued; memory = λ a. 0; requests = λ r. a_payload }

abbrev after : Shared
after = record before { inverter = pending }

-- The first reply, and the reply to the read.
abbrev opening : Reply
opening = record {
  user_ptr_or_buffer_index = 0;
  handle_seqnum = 0;
  handle_index = 0;
  use_preallocated_buffer = true;
  error = pos 0;
}

abbrev answered : Reply
answered = record opening { handle_index = 1 }

receives :
    receive_item layout 2 false true named before ≡ some (Received.returns (pos 0) filled after)
unfolding receive_item deliver_item begin_item_get get_round get_pass to_being_gotten remove
    commit_item_get commit_get_of_wrapper to_awaiting_completion item_of
    copy_req_to_item_and_preallocated_buffer fill_preallocated_buffer get_preallocated_buffer
receives = refl

runs_callback :
    (loop (thread_of ram) opening start (Answer.item filled start ∷ [])).1 ≡ opening ∷ answered ∷ []
unfolding loop process_item process_other_item process_request reply_to
runs_callback = refl

is_sent : (send_reply layout answered a_copy after).0 ≡ pos 0
unfolding send_reply finish_reply begin_item_completion begin_completion_of_wrapper
    to_being_completed handle_index_to_wrapper item_of copy_reply_data
    copy_reply_data_from_preallocated_buffer get_preallocated_buffer
is_sent = refl

loop-Served_example :
    (e : ℤ) × (world : World ℕ) × (process_item (thread_of ram) filled start
      ≡ some (replies e world))
    × Served queued (send_reply layout answered a_copy after).1.inverter e
loop-Served_example =
    loop-Served (thread_of ram) layout 2 false true named filled before after opening answered []
      start start [] a_copy queued-IsValid receives runs_callback is_sent

-- Another thread detaches from the device before the reply is sent.
abbrev later : Shared
later = record after { inverter = deactivate pending true }

detaches : Reach pending (deactivate pending true)
detaches = Reach.next Reach.here (Step.deactivates true refl)

finds : (begin_item_completion (deactivate pending true) 1 0).0 ≡ ok (some (ItemRef.of_wrapper 0))
unfolding begin_item_completion begin_completion_of_wrapper handle_index_to_wrapper deactivate
finds = refl

none_completed : length (deactivate pending true).blk.completed < 0 + 2 ^ 64
unfolding deactivate
none_completed = omega arith

is_sent_later : (send_reply layout answered a_copy later).0 ≡ pos 0
unfolding send_reply finish_reply begin_item_completion begin_completion_of_wrapper
    to_being_completed handle_index_to_wrapper item_of copy_reply_data
    copy_reply_data_from_preallocated_buffer get_preallocated_buffer deactivate
is_sent_later = refl

loop-Reach_example :
    (req : ℕ) × (e : ℤ) × (world : World ℕ) × (Pending.pending queued
      ≡ req ∷ Pending.pending pending)
    × (process_item (thread_of ram) filled start ≡ some (replies e world))
    × ((send_reply layout answered a_copy later).1.inverter.blk.completed
        ≡ req ∷ (deactivate pending true).blk.completed)
loop-Reach_example =
    loop-Reach (thread_of ram) layout 2 false true named filled before after later opening answered
      [] start start [] a_copy (ItemRef.of_wrapper 0) queued-IsValid receives detaches
      none_completed runs_callback finds is_sent_later
