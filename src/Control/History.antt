-- ===== src/Control/History.antt =====
-- Histories of the control device (kbdus/src/control.c): the calls on its file descriptions, each of
-- which runs under the mutex but for the wait of the attachment, in any order. The premises of a
-- resumption are that its device is still there, that its file description was not attached
-- meanwhile, and that a wait that was not interrupted was signalled.
use bdus.Base.{ℕ, ◌+◌, ◌^◌, ◌<◌, ◌≡◌, Bool, false, some, subst, arith, inl, inr}
use bdus.Base.Int.{ℤ}
use bdus.Base.Errno.{Result, ok}
use bdus.Control.State.{OnDetach, DeviceWrapper, Control, id_of, find_device}
use bdus.Control.Files.{open_fd, release, ioctl_terminate, ioctl_mark_as_successful}
use bdus.Control.Attach.{AttachInput, attach_resume, ioctl_attach_to_device}
use bdus.Control.Create.{CreateInput, ioctl_create_device}
use bdus.Control.Devices.{trigger_locked}
use bdus.Control.Valid.{IsValid}
use bdus.Control.Operations.{
  open_fd-IsValid, release-IsValid, ioctl_terminate-IsValid, ioctl_mark_as_successful-IsValid,
  trigger_locked-IsValid,
}
use bdus.Control.Joining.{ioctl_attach_to_device-IsValid, attach_resume-IsValid}
use bdus.Control.Creating.{ioctl_create_device-IsValid}

pub data Call (page_size : ℕ) (c c' : Control) : Type 0 where
  opens :
      (k : ℕ) (capable allocated : Bool)
      → (c.fds k).attached ≡ false
      → (open_fd c k capable allocated).1 ≡ c'
      → Call page_size c c'
  releases : (k : ℕ) → release c k ≡ some c' → Call page_size c c'
  terminates :
      (k : ℕ) (interrupted : Bool) (ret : ℤ)
      → ioctl_terminate c k interrupted ≡ some (ret, c')
      → Call page_size c c'
  marks : (k : ℕ) → (ioctl_mark_as_successful c k).1 ≡ c' → Call page_size c c'
  creates :
      (k : ℕ) (input : CreateInput)
      → c.next_id + 1 < 2 ^ 64
      → (ioctl_create_device page_size c k input).1 ≡ c'
      → Call page_size c c'
  attaches :
      (k : ℕ) (input : AttachInput)
      → (ioctl_attach_to_device c k input).1 ≡ c'
      → Call page_size c c'
  resumes :
      (k : ℕ) (w : DeviceWrapper) (interrupted : Bool) (t : Result (Unit {0})) (ret : ℤ)
      → find_device (id_of w) c.devices ≡ some w
      → (c.fds k).attached ≡ false
      → (interrupted ≡ false → w.on_detach ≡ OnDetach.signalled)
      → attach_resume c k (id_of w) interrupted t ≡ some (ret, c')
      → Call page_size c c'
  triggers : (id : ℕ) → trigger_locked c id ≡ ok c' → Call page_size c c'

pub data Run (page_size : ℕ) (c : Control) : Control → Type 0 where
  here : Run page_size c c
  next : {mid end : Control} → Run page_size c mid → Call page_size mid end → Run page_size c end

Call-IsValid : (page_size : ℕ) (c c' : Control) → Call page_size c c' → IsValid c → IsValid c'
Call-IsValid page_size c c' (opens k capable allocated idle e) v =
    subst IsValid e (open_fd-IsValid c k capable allocated v idle)
Call-IsValid page_size c c' (releases k e) v =
    let (end, same, v', idle) = release-IsValid c k v in subst IsValid (ground arith) v'
Call-IsValid page_size c c' (terminates k interrupted ret e) v =
    let (ret', end, same, v') = ioctl_terminate-IsValid c k interrupted v in
    subst IsValid (ground arith) v'
Call-IsValid page_size c c' (marks k e) v = subst IsValid e (ioctl_mark_as_successful-IsValid c k v)
Call-IsValid page_size c c' (creates k input more e) v =
    subst IsValid e (ioctl_create_device-IsValid page_size c k input v more).0
Call-IsValid page_size c c' (attaches k input e) v =
    subst IsValid e (ioctl_attach_to_device-IsValid c k input v)
Call-IsValid page_size c c' (resumes k w interrupted t ret found idle woken e) v =
    let (ret', end, same, v') = attach_resume-IsValid c k w interrupted t v found idle woken in
    subst IsValid (ground arith) v'
Call-IsValid page_size c c' (triggers id e) v = elim (trigger_locked-IsValid c id v) [
  | inl (failed, never) ↦ cc
  | inr (end, same, v') ↦ subst IsValid (ground arith) v'
]

-- In whatever order the calls come, within the premises of `Call`, a state that is valid stays so: ids
-- are unique and were given out,
-- the count of devices is right and within the limit, and a file description is attached to a device
-- exactly if that device is attached to it.
pub Run-IsValid : {page_size : ℕ} {c c' : Control} → IsValid c → Run page_size c c' → IsValid c'
Run-IsValid v here = v
Run-IsValid v (next {mid} {end} r s) = Call-IsValid _ mid end s (Run-IsValid v r)
