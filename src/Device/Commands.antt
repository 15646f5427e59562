-- ===== src/Device/Commands.antt =====
-- What the ioctl of a device (kbdus/src/device.c) executes fits in a preallocated buffer.
use bdus.Base.{
  ℕ, zero, suc, ◌+◌, ◌^◌, ◌≤◌, ◌≡◌, refl, inl, inr, true, List, Option, none, some, length, arith,
}
use bdus.Base.Errno.{Result-cases, ok}
use bdus.Device.Config.{DeviceConfig}
use bdus.Transceiver.Layout.{max_request_size}
use bdus.Transceiver.Payload.{Memory, read_bytes}
use bdus.Transceiver.Copies.{ioc_size}
use bdus.Device.Ioctl.{
  is_valid_ioctl_command, zeros, IoctlAnswers, ioctl_create_buffer, Execute, ioctl_await,
  ioctl_submit_and_await, device_ioctl,
}

length-zeros : (n : ℕ) → length (zeros n) ≡ n
unfolding zeros
length-zeros zero = refl
length-zeros (suc n) = omega (arith, length-zeros n)

length-read_bytes : (address n : ℕ) (mem : Memory) → length (read_bytes address n mem) ≡ n
unfolding read_bytes
length-read_bytes address zero mem = refl
length-read_bytes address (suc n) mem = omega (arith, length-read_bytes (address + 1) n mem)

-- The argument of a valid command: none, or a buffer of its size.
abbrev pub Fits : ℕ → Option (List ℕ) → ℕ → Type 0
Fits command none most = ioc_size command ≡ 0
Fits command (some bytes) most =
    (length bytes ≡ ioc_size command) × (1 ≤ length bytes) × (length bytes ≤ most)

ioctl_create_buffer-Fits :
    (answers : IoctlAnswers) (command argument : ℕ) (user : Memory) (buffer : Option (List ℕ))
    → is_valid_ioctl_command command ≡ true
    → ioctl_create_buffer answers command argument user ≡ ok buffer
    → Fits command buffer (2 ^ 14)
unfolding is_valid_ioctl_command ioctl_create_buffer
ioctl_create_buffer-Fits answers command argument user none valid made = ground arith
ioctl_create_buffer-Fits answers command argument user (some bytes) valid made =
    ground
      (arith, length-zeros (ioc_size command), length-read_bytes argument (ioc_size command) user)

executed-ioctl_await :
    (answers : IoctlAnswers) (execute : Execute) (command argument : ℕ) (user : Memory)
    (buffer : Option (List ℕ))
    → (ioctl_await answers execute command argument user buffer).executed ≡ some (command, buffer)
unfolding ioctl_await
executed-ioctl_await answers execute command argument user buffer = ground arith

-- What was executed was valid, and its buffer was made.
executed-device_ioctl :
    (answers : IoctlAnswers) (execute : Execute) (command argument : ℕ) (user : Memory)
    (command' : ℕ) (buffer : Option (List ℕ))
    → (device_ioctl answers execute command argument user).executed ≡ some (command', buffer)
    → (is_valid_ioctl_command command ≡ true)
      × (ioctl_create_buffer answers command argument user ≡ ok buffer)
      × (command' ≡ command)
unfolding device_ioctl ioctl_submit_and_await
executed-device_ioctl answers execute command argument user command' buffer done =
    let made = ioctl_create_buffer answers command argument user in
    elim (Result-cases answers.request) [
      | inr (e, failed) ↦ absurd (ground (arith, failed))
      | inl (there, got) ↦ elim (Result-cases made) [
        | inr (e, failed) ↦ absurd (ground (arith, got, failed))
        | inl (b, success) ↦
            let awaited = executed-ioctl_await answers execute command argument user b in
            (
              ground (arith, got, success, awaited),
              ground (arith, got, success, awaited),
              ground (arith, got, success, awaited),
            )
      ]
    ]

Fits-weaken :
    (command : ℕ) (buffer : Option (List ℕ)) (most more : ℕ)
    → most ≤ more
    → Fits command buffer most
    → Fits command buffer more
Fits-weaken command none most more le f = f
Fits-weaken command (some bytes) most more le f = omega (arith, f)

ioctl_fits : (c : DeviceConfig) → c.supports_ioctl ≡ true → 2 ^ 14 ≤ max_request_size c
unfolding max_request_size
ioctl_fits c able = ground arith

-- For a device that supports ioctls, whatever the kernel answers and the driver does: a command
-- that is executed is the one that was given, and its argument is null only where the command has
-- no size, and is else a buffer of the size that the command names, which a preallocated buffer
-- holds.
pub device_ioctl-Fits :
    (c : DeviceConfig) (answers : IoctlAnswers) (execute : Execute) (command argument : ℕ)
    (user : Memory) (command' : ℕ) (buffer : Option (List ℕ))
    → c.supports_ioctl ≡ true
    → (device_ioctl answers execute command argument user).executed ≡ some (command', buffer)
    → (command' ≡ command) × Fits command buffer (max_request_size c)
device_ioctl-Fits c answers execute command argument user command' buffer able done =
    let (valid, made, same) =
      executed-device_ioctl answers execute command argument user command' buffer done in
    (
      same,
      Fits-weaken command buffer (2 ^ 14) (max_request_size c) (ioctl_fits c able)
          (ioctl_create_buffer-Fits answers command argument user buffer valid made),
    )
