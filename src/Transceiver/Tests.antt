-- ===== src/Transceiver/Tests.antt =====
-- The code of kbdus/src/transceiver.c on small inputs.
use bdus.Base.{ℕ, ◌+◌, ◌≤◌, ◌≡◌, refl, true, false, [], ◌∷◌, some, arith}
use bdus.Base.Int.{pos}
use bdus.Base.Errno.{ok}
use bdus.Device.Validate.{adjust_config, supports_nothing}
use bdus.Device.Adjusted.{checked, adjust_config-IsAdjusted}
use bdus.Device.Samples.{plain, page, plain-valid}
use bdus.Inverter.State.{ItemType}
use bdus.Inverter.Valid.{IsValid}
use bdus.Inverter.Items.{begin_item_completion, begin_completion_of_wrapper, item_of}
use bdus.Inverter.Wrappers.{to_being_completed, handle_index_to_wrapper}
use bdus.Inverter.Samples.{queued, pending, queued-IsValid, pending-IsValid}
use bdus.Transceiver.Layout.{
  FdConfig, Transceiver, max_request_size, transceiver_create, get_preallocated_buffer,
}
use bdus.Transceiver.Bounds.{buffer, place, size_of, Apart, get_preallocated_buffer_within}
use bdus.Transceiver.Payload.{Memory, segments_to_buffer, buffer_to_segments}
use bdus.Transceiver.RoundTrip.{buffer_to_segments-segments_to_buffer}
use bdus.Transceiver.Copies.{Payload, UserItem, copy_reply_data_from_preallocated_buffer}
use bdus.Transceiver.Calls.{
  Reply, Shared, UserCopy, send_reply, finish_reply, copy_reply_data, receive_item, Received,
}
use bdus.Transceiver.Resend.{send_reply-send_reply}
use bdus.Transceiver.Valid.{send_reply-IsValid}
use bdus.Transceiver.Receive.{receive_item-IsValid, inverter_after}

abbrev zeros : Memory
zeros = λ a. 0

buffer_to_segments-segments_to_buffer_example :
    buffer_to_segments 4096
      (segments_to_buffer 4096 ((1 ∷ 2 ∷ []) ∷ (3 ∷ []) ∷ []) zeros)
      ((0 ∷ 0 ∷ []) ∷ (0 ∷ []) ∷ [])
    ≡ (1 ∷ 2 ∷ []) ∷ (3 ∷ []) ∷ []
buffer_to_segments-segments_to_buffer_example =
    buffer_to_segments-segments_to_buffer 4096 ((1 ∷ 2 ∷ []) ∷ (3 ∷ []) ∷ [])
      ((0 ∷ 0 ∷ []) ∷ (0 ∷ []) ∷ []) zeros refl

abbrev two_buffers : FdConfig
two_buffers = record { num_preallocated_buffers = 2; reserved = [] }

get_preallocated_buffer_within_example :
    (t : Transceiver) × (a b : ℕ) × (transceiver_create 4096
        (adjust_config 4096 plain)
        two_buffers
        true
        true
      ≡ ok t)
    × (place t (buffer 0) ≡ some a)
    × (place t (buffer 1) ≡ some b)
    × Apart t (buffer 0) a (buffer 1) b
    × (a + size_of t (buffer 0) ≤ t.shared_memory_size)
    × (b + size_of t (buffer 1) ≤ t.shared_memory_size)
    × (max_request_size (adjust_config 4096 plain) ≤ size_of t (buffer 0))
    × (max_request_size (adjust_config 4096 plain) ≤ size_of t (buffer 1))
unfolding adjust_config supports_nothing
get_preallocated_buffer_within_example =
    get_preallocated_buffer_within 4096 (adjust_config 4096 plain) two_buffers (buffer 0) (buffer 1)
      page (adjust_config-IsAdjusted 4096 plain page (checked 4096 plain plain-valid)) (omega arith)
      refl refl

abbrev layout : Transceiver
layout = record {
  num_rais = 2;
  num_preallocated_buffers = 2;
  preallocated_buffer_size = 262144;
  preallocated_buffers_start = 4096;
  shared_memory_size = 528384;
}

abbrev a_payload : Payload
a_payload = record {
  position = 8;
  bytes = 3;
  segments = (1 ∷ 2 ∷ []) ∷ (3 ∷ []) ∷ [];
  ioctl_command = 0;
  ioctl_argument = [];
}

abbrev a_reply : Reply
a_reply = record {
  user_ptr_or_buffer_index = 1;
  handle_seqnum = 0;
  handle_index = 1;
  use_preallocated_buffer = true;
  error = pos 0;
}

abbrev a_copy : UserCopy
a_copy = record { copied = true; left = a_payload }

abbrev an_item : UserItem
an_item = record {
  user_ptr_or_buffer_index = 1;
  handle_seqnum = 0;
  handle_index = 0;
  use_preallocated_buffer = true;
  type = ItemType.device_available;
  arg32 = 0;
  arg64 = 0;
}

abbrev pending_shared : Shared
pending_shared = record { inverter = pending; memory = zeros; requests = λ r. a_payload }

abbrev queued_shared : Shared
queued_shared = record { inverter = queued; memory = zeros; requests = λ r. a_payload }

send_reply-IsValid_example : IsValid (send_reply layout a_reply a_copy pending_shared).1.inverter
send_reply-IsValid_example = send_reply-IsValid layout a_reply a_copy pending_shared pending-IsValid

receive_item-IsValid_example :
    (r : Received) × (receive_item layout 5 false true an_item queued_shared ≡ some r)
    × IsValid (inverter_after r)
receive_item-IsValid_example =
    receive_item-IsValid layout 5 false true an_item queued_shared queued-IsValid (λ h. cc)
      (omega arith)

-- A reply to the request that awaits its completion.
sent : (send_reply layout a_reply a_copy pending_shared).0 ≡ pos 0
unfolding send_reply finish_reply begin_item_completion begin_completion_of_wrapper
    to_being_completed handle_index_to_wrapper item_of copy_reply_data
    copy_reply_data_from_preallocated_buffer get_preallocated_buffer
sent = refl

send_reply-send_reply_example :
    send_reply layout a_reply a_copy (send_reply layout a_reply a_copy pending_shared).1
    ≡ (pos 0, (send_reply layout a_reply a_copy pending_shared).1)
send_reply-send_reply_example =
    send_reply-send_reply layout a_reply a_copy a_copy pending_shared pending-IsValid (omega arith)
      sent
