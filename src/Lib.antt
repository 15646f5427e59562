-- ===== src/Lib.antt =====
-- BDUS lets a program in user space implement a block device. Its kernel module kbdus has, per
-- device, an inverter (kbdus/src/inverter.c), which turns the requests that the block layer pushes
-- into items that the threads of the driver pull; the device (kbdus/src/device.c), which owns the
-- inverter and is unavailable, active, inactive or terminated; a transceiver
-- (kbdus/src/transceiver.c) for the file description that is attached, which copies items and
-- replies between the inverter and memory shared with the driver; and above them the control device
-- (kbdus/src/control.c), whose file descriptions create devices, attach to them and detach. In user
-- space libbdus runs the driver: it checks its callbacks and attributes and creates or takes over a
-- device (libbdus/src/bdus.c), maps the shared memory and starts the threads that receive items,
-- call the callbacks and send replies (libbdus/src/backend.c), and may become a daemon
-- (libbdus/src/utilities.c). The tool cmdbdus (cmdbdus/bdus.c) destroys devices and prints versions
-- through libbdus.
--
-- Which file models which part:
--   Base              shared names; lists measured by native numbers, C's int for error numbers, the
--                     error numbers, and Result for functions that return a pointer or an error.
--   Device/Config     struct kbdus_device_config of kbdus/include/kbdus.h.
--   Device/Validate   kbdus_device_validate_config_ and kbdus_device_adjust_config_, with the page size
--                     as a parameter.
--   Device/Life       struct kbdus_device and the functions that create a device and move its state;
--                     Device/Agreement that state and inverter agree, Device/Adjusted and Twice what
--                     configurations satisfy; Device/Queue the limits of the request queue and the disk;
--                     Device/Ioctl and Commands the ioctls of the block device.
--   Inverter/State    the types of inverter.c; Inverter/Wrappers its static functions;
--                     Inverter/Lifecycle creation, termination, deactivation, activation and
--                     destruction; Inverter/Requests what the block layer calls; Inverter/Items what the
--                     transceiver calls.
--   Inverter/Valid    the invariant; Inverter/Transitions how the changes of one wrapper keep it;
--                     Inverter/Operations that each function keeps it; Inverter/History sequences of
--                     calls; Inverter/Queue, Timer and Handles single behaviours; Inverter/Pending, Moves
--                     and Refinement the queue of requests that the lists stand for; Inverter/Ages and
--                     Reuse the sequence numbers of handles along a history.
--   Control/State     the table of devices and the file descriptions; Control/Files open, release,
--                     terminate and mark; Control/Create and Control/Attach the two ioctls that attach;
--                     Control/Devices the ioctls that name a device.
--   Control/Valid     the invariant; Control/Lookup and Preserve the changes of the table;
--                     Control/Operations, Attaching, Joining and Creating the operations;
--                     Control/History sequences of calls; Control/Lifetimes ids and the end of a device; Control/Races what
--                     happens during a wait.
--   Transceiver/Layout the shared memory; Transceiver/Payload the loops over the segments of a request;
--                     Transceiver/Copies the four copies; Transceiver/Calls the ioctls; Dispatch which
--                     of them is meant;
--                     Transceiver/Bounds, RoundTrip, Valid, Receive and Resend their properties.
--   Libbdus/Driver    struct bdus_ops and bdus_attrs; Libbdus/Attrs and Rerun the checks of both and what
--                     becomes of the attributes; Libbdus/Session bdus_run() and bdus_rerun(); Manage the
--                     access to the control device and the functions that manage devices; Processes the
--                     retries and the daemon.
--   Libbdus/Requests  the callbacks of each request; Libbdus/Worker the loop of a thread; Threads the
--                     start and the join of all; Mappings the memory that they share.
--   Libbdus/Accept    that libbdus and kbdus accept the same; Agreement that they lay memory out alike;
--                     Takeover where they do not; Callbacks, Replies, Joins, Release and Sessions what the
--                     threads, the mappings and a run of the driver do.
--   Startup           the loading and unloading of the module (kbdus/src/main.c, with the registrations of
--                     control.c and device.c); Startup/Unwinding what is registered in between.
--   Cmdbdus/Numbers   parse_dev_id; Cmdbdus/Flush the flush with its message; Destroy and Version the two
--                     subcommands and main; Output what they print; Numerals, Arguments and Destroying
--                     their properties.
--   System            the inverter, the transceiver and a thread of libbdus together: System/Gotten and
--                     Delivered a request on its way to the thread, Serving its way back, Rounds one round,
--                     Interleaved a round in which other threads run.
--   The modules Tests and Samples run the code on small inputs.
--
-- How state corresponds. An inverter is a record of the fields of struct kbdus_inverter. The
-- intrusive lists reqs_free and reqs_awaiting_get are lists of positions in reqs_all; a wrapper is
-- unlinked from both by list_del. The completion item_is_awaiting_get is its count, which stays at
-- UINT_MAX once complete_all was called. Each function of inverter.c holds reqs_lock while it
-- works, and is one step, but for two accesses that the source makes without the lock and the model
-- in the same step: the write of a flag in the abort of a flush notification, and the copy of the
-- handle of a submitted request into its private data after the unlock. So
-- that an interleaving of threads is a sequence of steps. A pointer to an item is the position of
-- its wrapper or one of the three static notifications. The block layer is the private data of each
-- request and the lists of requests started and completed. In control.c the global mutex makes each
-- call one step; attaching waits without the mutex and has two steps, and a wait for the end of a
-- device is a check that may put the thread into the queue of sleepers, which the destruction of a
-- device wakes; that a signal takes a thread out of the queue is left out. A pointer to a device wrapper
-- is the id of its device, and following a pointer to a freed one gives none. In libbdus a callback
-- is a function on the memory and the state of the driver, and a null one is none; what kbdus
-- answers to the ioctls of a thread is a list, and the model of a call through a null pointer is
-- none. Memory, threads and files that a function acquires and gives back are events in a list. An
-- error of user space is the positive errno, with a constructor for the message. The tool's texts
-- are constructors, and its argument strings are strings.
--
-- Bounds. Handle indices are u16, sequence numbers and ids u64, the count of devices u32, each with
-- its wrap-around written out; size_t has 64 bits. Every loop but one is a recursion on its number
-- of rounds or, in user space, on the list of the answers that it is given, which may end before
-- the loop does: then it waits. The loop of begin_item_get takes a bound on its rounds, and one
-- round more than the count of the completion is enough.
--
-- What is not modelled: KBDUS_DEBUG builds and Linux versions before 4.12; mmap and the switch over
-- the numbers of the ioctls in control.c; the memory of the driver's process, but for whether a
-- copy succeeds; in user space the log, the texts of messages, the loading of the module, the names
-- of errors, the exported functions that only open, call and close, and the failures of the threads
-- library that abort the tool. The threads of a driver are modelled one by one; a thread and the
-- kernel module are composed for one round, in which the steps of the inverter that other threads
-- take are arbitrary. What the kernel answers (allocations, copies from and to user space, signals,
-- the index that idr_alloc_cyclic picks, capabilities) is an argument.
pub mod Base
pub mod Device
pub mod Inverter
pub mod Control
pub mod Transceiver
pub mod Libbdus
pub mod Cmdbdus
pub mod System
pub mod Startup
