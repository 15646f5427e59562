-- ===== src/Device/Ioctl.antt =====
-- The ioctls of a device in kbdus/src/device.c: a command is checked, and submitted as a request
-- with a buffer for its argument. The memory of the caller is a parameter, as is what the kernel
-- answers.
use bdus.Base.{
  ℕ, zero, suc, ◌^◌, ◌==◌, ltb, if◌then◌else◌, Bool, not, ◌&&◌, ◌||◌, List, [], ◌∷◌, Option, none,
  some,
}
use bdus.Base.Int.{ℤ, pos, ◌==ℤ◌}
use bdus.Base.Errno.{efault, enomem, enotty, Result, ok, err}
use bdus.Transceiver.Payload.{Memory, read_bytes, write_bytes}
use bdus.Transceiver.Copies.{ioc_reads, ioc_writes, ioc_size}

-- `_IOC_DIR(command) == _IOC_NONE`; the two bits of a direction leave no other value than the four
-- that are listed.
abbrev pub ioc_none : ℕ → Bool
ioc_none command = not (ioc_reads command) && not (ioc_writes command)

unfoldable pub is_valid_ioctl_command : ℕ → Bool
is_valid_ioctl_command command =
    if ioc_none command
    then ioc_size command == 0
    else ltb 0 (ioc_size command) && ltb (ioc_size command) (2 ^ 14)

-- `kzalloc`
unfoldable pub zeros : ℕ → List ℕ
zeros zero = []
zeros (suc n) = 0 ∷ zeros n

-- What the kernel answers: whether the request is there, the memory of the caller is its own, the
-- buffer is allocated, and the two copies succeed. A copy to the caller that fails may have written
-- a part, which `left` gives.
pub record IoctlAnswers : Type 0 where
  pub request : Result (Unit {0})
  pub accessible : Bool
  pub allocated : Bool
  pub copied_in : Bool
  pub copied_out : Bool
  pub left : Memory

-- `ok none` is the null pointer.
unfoldable pub ioctl_create_buffer : IoctlAnswers → ℕ → ℕ → Memory → Result (Option (List ℕ))
ioctl_create_buffer answers command argument user =
    if ioc_none command
    then ok none
    else if not answers.accessible
    then err efault
    else if not answers.allocated
    then err enomem
    else if ioc_reads command
    then (if not answers.copied_in
        then err efault
        else ok (some (read_bytes argument (ioc_size command) user)))
    else ok (some (zeros (ioc_size command)))

-- The result, the memory of the caller, and the request that was executed, if one was.
pub record IoctlDone : Type 0 where
  pub ret : ℤ
  pub user : Memory
  pub executed : Option (ℕ × Option (List ℕ))

-- `blk_execute_rq`: the error of the request, and what its driver leaves in the buffer.
abbrev pub Execute : Type 0
Execute = ℕ → Option (List ℕ) → ℤ × List ℕ

unfoldable pub ioctl_await : IoctlAnswers → Execute → ℕ → ℕ → Memory → Option (List ℕ) → IoctlDone
ioctl_await answers execute command argument user buffer =
    let (ret, after) = execute command buffer in
    let request = some (command, buffer) in
    if (ret ==ℤ pos 0) && ioc_writes command
    then (if not answers.copied_out
        then record { ret = efault; user = answers.left; executed = request }
        else record { ret = ret; user = write_bytes argument after user; executed = request })
    else record { ret = ret; user = user; executed = request }

unfoldable pub ioctl_submit_and_await : IoctlAnswers → Execute → ℕ → ℕ → Memory → IoctlDone
unfolding ioctl_create_buffer ioctl_await
ioctl_submit_and_await answers execute command argument user = elim answers.request [
  | err e ↦ record { ret = e; user = user; executed = none }
  | ok there ↦ elim (ioctl_create_buffer answers command argument user) [
    | err e ↦ record { ret = e; user = user; executed = none }
    | ok buffer ↦ ioctl_await answers execute command argument user buffer
  ]
]

-- `BLKFLSBUF` and `BLKROSET` of linux/fs.h
abbrev pub blkflsbuf : ℕ
blkflsbuf = 4705

abbrev pub blkroset : ℕ
blkroset = 4701

unfoldable pub device_ioctl : IoctlAnswers → Execute → ℕ → ℕ → Memory → IoctlDone
unfolding is_valid_ioctl_command ioctl_submit_and_await
device_ioctl answers execute command argument user =
    if (command == blkflsbuf) || (command == blkroset)
    then record { ret = enotty; user = user; executed = none }
    else if not (is_valid_ioctl_command command)
    then record { ret = enotty; user = user; executed = none }
    else ioctl_submit_and_await answers execute command argument user
