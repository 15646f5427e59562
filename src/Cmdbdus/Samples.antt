-- ===== src/Cmdbdus/Samples.antt =====
-- Answers of a system on which every call succeeds, for the tests of cmdbdus/bdus.c.
use bdus.Base.{true, false, [], none}
use bdus.Base.Errno.{ok}
use bdus.Libbdus.Manage.{Version, Control}
use bdus.Cmdbdus.Flush.{FlushCalls}
use bdus.Cmdbdus.Destroy.{Answers, Options}
use bdus.Cmdbdus.Version.{Installed}

abbrev pub version_0_1_1 : Version
version_0_1_1 = record { major = 0; minor = 1; patch = 1 }

abbrev pub ready : Control
ready = record { is_root = true; opened = ok 3; kbdus_version = ok version_0_1_1 }

abbrev pub flush_calls_ready : FlushCalls
flush_calls_ready = record {
  is_root = true;
  opened = record { interruptions = 0; last = ok 3 };
  kbdus_version = record { interruptions = 0; last = ok version_0_1_1 };
  flushed = λ id. record { interruptions = 0; last = ok tt };
}

-- A signal interrupts the flush once.
abbrev pub flush_calls_signalled : FlushCalls
flush_calls_signalled = record flush_calls_ready {
  flushed = λ id. record { interruptions = 1; last = ok tt };
}

abbrev pub all_succeed : Answers
all_succeed = record {
  libbdus = version_0_1_1;
  path_control = ready;
  path_to_id = λ path. ok 7;
  flush_calls = flush_calls_ready;
  done = true;
  wakeups = [];
  destroy_control = ready;
  triggered = λ id. ok tt;
  waited = λ id. ok tt;
}

abbrev pub signalled : Answers
signalled = record all_succeed { flush_calls = flush_calls_signalled }

abbrev pub flushing : Options
flushing = record { dev_path_or_id = none; quiet = false; flush_dev = true }

abbrev pub installed : Installed
installed = record {
  cmdbdus_header = version_0_1_1;
  libbdus_linked = version_0_1_1;
  version_control = ready;
}
