-- ===== src/Inverter/History.antt =====
-- Histories of an inverter (kbdus/src/inverter.c): any number of threads call its operations, each
-- of which is taken as one step under `reqs_lock`. The premises are the contract of
-- kbdus/include-private/kbdus/inverter.h: a wrapper is committed or aborted by the thread that holds
-- it, a terminated inverter is not activated, and the flush notification is aborted before the
-- inverter is activated again.
use bdus.Base.{ℕ, ◌<◌, ◌≡◌, Bool, true, false, some, Option, get_elem?, subst, ap}
use bdus.Base.Int.{ℤ}
use bdus.Inverter.State.{ReqState, ItemRef, Wrapper, Inverter}
use bdus.Inverter.Wrappers.{Request}
use bdus.Inverter.Lifecycle.{terminate, deactivate, activate, submit_device_available_notification}
use bdus.Inverter.Requests.{submit_request, timeout_request, TimerReturn}
use bdus.Inverter.Items.{
  get_round, commit_item_get, abort_item_get, begin_item_completion, commit_item_completion,
  abort_item_completion,
}
use bdus.Inverter.Valid.{IsValid}
use bdus.Inverter.Operations.Submit.{submit_request-IsValid, timeout_request-IsValid}
use bdus.Inverter.Operations.Get.{get_round-IsValid}
use bdus.Inverter.Operations.Finish.{
  commit_item_get-IsValid, abort_item_get-IsValid, abort_notification-IsValid,
  begin_item_completion-IsValid, commit_item_completion-IsValid, abort_item_completion-IsValid,
  submit_device_available_notification-IsValid,
}
use bdus.Inverter.Operations.Terminate.{terminate-IsValid}
use bdus.Inverter.Operations.Deactivate.{deactivate-IsValid}
use bdus.Inverter.Operations.Activate.{activate-IsValid}

-- The wrapper at the position is held by a thread, in the state.
abbrev pub Holds : Inverter → ℕ → ReqState → Type 0
Holds inv i s = (w : Wrapper) × (get_elem? inv.reqs_all i ≡ some w) × (w.state ≡ s)

pub data Step (inv inv' : Inverter) : Type 0 where
  submits :
      (req : ℕ) (r : Request) (ret : ℤ)
      → submit_request inv req r ≡ some (ret, inv')
      → Step inv inv'
  times_out :
      (req : ℕ) (ret : TimerReturn) → timeout_request inv req ≡ some (ret, inv') → Step inv inv'
  gets :
      (item : Option ItemRef)
      → 0 < inv.item_is_awaiting_get
      → get_round inv ≡ (inv', item)
      → Step inv inv'
  commits_get :
      (i : ℕ)
      → Holds inv i ReqState.being_gotten
      → commit_item_get inv (ItemRef.of_wrapper i) ≡ inv'
      → Step inv inv'
  aborts_get :
      (i : ℕ)
      → Holds inv i ReqState.being_gotten
      → abort_item_get inv (ItemRef.of_wrapper i) ≡ inv'
      → Step inv inv'
  aborts_available : abort_item_get inv ItemRef.req_dev_available ≡ inv' → Step inv inv'
  aborts_flush :
      inv.flags.deactivated ≡ true
      → abort_item_get inv ItemRef.req_flush_terminate ≡ inv'
      → Step inv inv'
  begins_completion :
      (index seqnum : ℕ) → (begin_item_completion inv index seqnum).1 ≡ inv' → Step inv inv'
  commits_completion :
      (i : ℕ) (neg_errno : ℤ)
      → Holds inv i ReqState.being_completed
      → commit_item_completion inv (ItemRef.of_wrapper i) neg_errno ≡ inv'
      → Step inv inv'
  aborts_completion :
      (i : ℕ)
      → Holds inv i ReqState.being_completed
      → abort_item_completion inv (ItemRef.of_wrapper i) ≡ inv'
      → Step inv inv'
  notifies : submit_device_available_notification inv ≡ inv' → Step inv inv'
  terminates : terminate inv ≡ inv' → Step inv inv'
  deactivates : (flush : Bool) → deactivate inv flush ≡ inv' → Step inv inv'
  activates : inv.flags.terminated ≡ false → activate inv ≡ inv' → Step inv inv'

pub data Reach (inv : Inverter) : Inverter → Type 0 where
  here : Reach inv inv
  next : {mid end : Inverter} → Reach inv mid → Step mid end → Reach inv end

Step-IsValid : (inv inv' : Inverter) → Step inv inv' → IsValid inv → IsValid inv'
Step-IsValid inv inv' (submits req r ret e) v = submit_request-IsValid inv req r v e
Step-IsValid inv inv' (times_out req ret e) v = timeout_request-IsValid inv req v e
Step-IsValid inv inv' (gets item pending e) v =
    subst IsValid (ap (λ r. r.0) e) (get_round-IsValid inv v)
Step-IsValid inv inv' (commits_get i (w, at, h) e) v =
    subst IsValid e (commit_item_get-IsValid inv i w v at h)
Step-IsValid inv inv' (aborts_get i (w, at, h) e) v =
    subst IsValid e (abort_item_get-IsValid inv i w v at h)
Step-IsValid inv inv' (aborts_available e) v = subst IsValid e (abort_notification-IsValid inv v).0
Step-IsValid inv inv' (aborts_flush h e) v =
    subst IsValid e ((abort_notification-IsValid inv v).1 h)
Step-IsValid inv inv' (begins_completion index seqnum e) v =
    subst IsValid e (begin_item_completion-IsValid inv index seqnum v)
Step-IsValid inv inv' (commits_completion i neg_errno (w, at, h) e) v =
    subst IsValid e (commit_item_completion-IsValid inv i w v at neg_errno h)
Step-IsValid inv inv' (aborts_completion i (w, at, h) e) v =
    subst IsValid e (abort_item_completion-IsValid inv i w v at h)
Step-IsValid inv inv' (notifies e) v =
    subst IsValid e (submit_device_available_notification-IsValid inv v)
Step-IsValid inv inv' (terminates e) v = subst IsValid e (terminate-IsValid inv v)
Step-IsValid inv inv' (deactivates flush e) v = subst IsValid e (deactivate-IsValid inv flush v)
Step-IsValid inv inv' (activates running e) v = subst IsValid e (activate-IsValid inv v running)

-- Whatever threads call in whatever order, within the premises of `Step`, an inverter that is valid
-- stays so: its lists agree with
-- the states of its wrappers, each request is completed as often as it was started but for those
-- still held, no wake-up is lost, and after termination nothing waits.
pub Reach-IsValid : {inv inv' : Inverter} → IsValid inv → Reach inv inv' → IsValid inv'
Reach-IsValid v here = v
Reach-IsValid v (next {mid} {end} r s) = Step-IsValid mid end s (Reach-IsValid v r)
