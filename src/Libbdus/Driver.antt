-- ===== src/Libbdus/Driver.antt =====
-- `struct bdus_ops` and `struct bdus_attrs` of libbdus/include/bdus.h. A callback is a parameter, and
-- `none` is the null pointer. What a callback changes is the memory of the payloads and the state of
-- the driver behind `private_data`.
use bdus.Base.{ℕ, Bool, Option}
use bdus.Base.Int.{ℤ}
use bdus.Transceiver.Payload.{Memory}

-- What the callbacks read and write.
pub record World (S : Type 0) : Type 0 where
  pub memory : Memory
  pub private : S

-- A callback that is given its other arguments returns an error, 0 for success.
abbrev pub Callback : Type 0 → Type 0
Callback S = World S → ℤ × World S

-- The first argument is the buffer, an address; an ioctl may have none. The argument `ctx` is the
-- part of the world that `private_data` points to.
pub record Ops (S : Type 0) : Type 0 where
  pub initialize : Option (Callback S)
  pub on_device_available : Option (Callback S)
  pub terminate : Option (Callback S)
  pub read : Option (ℕ → ℕ → ℕ → Callback S)
  pub write : Option (ℕ → ℕ → ℕ → Callback S)
  pub write_same : Option (ℕ → ℕ → ℕ → Callback S)
  pub write_zeros : Option (ℕ → ℕ → Bool → Callback S)
  pub fua_write : Option (ℕ → ℕ → ℕ → Callback S)
  pub flush : Option (Callback S)
  pub discard : Option (ℕ → ℕ → Callback S)
  pub secure_erase : Option (ℕ → ℕ → Callback S)
  pub ioctl : Option (ℕ → Option ℕ → Callback S)

pub record Attrs : Type 0 where
  pub logical_block_size : ℕ
  pub physical_block_size : ℕ
  pub size : ℕ
  pub max_concurrent_callbacks : ℕ
  pub max_read_write_size : ℕ
  pub max_write_same_size : ℕ
  pub max_write_zeros_size : ℕ
  pub max_discard_erase_size : ℕ
  pub disable_partition_scanning : Bool
  pub recoverable : Bool
  pub dont_daemonize : Bool
  pub log : Bool
