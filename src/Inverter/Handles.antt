-- ===== src/Inverter/Handles.antt =====
-- The handles of requests and the errors that requests are completed with (kbdus/src/inverter.c).
use bdus.Base.{
  ℕ, ◌+◌, ◌^◌, ◌%◌, ◌≡◌, refl, ◌==◌, if_intro, Bool, true, false, not, ◌&&◌, ◌||◌, ◌∷◌, none, some,
  get_elem?, set, get_or_of_some, get_elem?-set, get_elem?-lt, arith,
}
use bdus.Base.Int.{ℤ, pos, neg, ltb_ℤ, ◌==ℤ◌}
use bdus.Base.Errno.{eio, enolink, enospc, enosys, etimedout, ok}
use bdus.Inverter.State.{ReqState, BlockLayer, ItemRef, Wrapper, Inverter, wrapper_at, no_wrapper}
use bdus.Inverter.Wrappers.{
  handle_index_to_wrapper, freed_wrapper, to_being_completed, to_free, cancel_due_to_termination,
}
use bdus.Inverter.Items.{
  begin_item_completion, commit_item_completion, block_error, ioctl_error,
  begin_completion_of_wrapper, commit_completion_of_wrapper,
}
use bdus.Inverter.Valid.{IsValid}

pub handle_index_to_wrapper_of :
    (inv : Inverter) (i : ℕ) (w : Wrapper)
    → IsValid inv
    → get_elem? inv.reqs_all i ≡ some w
    → (handle_index_to_wrapper inv w.item.handle_index ≡ some i) × (w.item.handle_index ≡ i + 1)
unfolding handle_index_to_wrapper
handle_index_to_wrapper_of inv i w v at =
    let index : w.item.handle_index ≡ i + 1 = ground (arith, v.wrappers i w at) in
    let inside = get_elem?-lt inv.reqs_all i at in
    let back : (i + 1 + 65535) % 65536 ≡ i = omega (arith, v.small, v.size) in
    (ground (arith, index, inside, back, v.size), index)

-- In a valid inverter, the handle of a request that awaits its completion finds its wrapper, which is then held by the
-- thread that completes it.
pub begin_item_completion_of_handle :
    (inv : Inverter) (i : ℕ) (w : Wrapper)
    → IsValid inv
    → get_elem? inv.reqs_all i ≡ some w
    → w.state ≡ ReqState.awaiting_completion
    → begin_item_completion inv w.item.handle_index w.item.handle_seqnum
      ≡ (ok (some (ItemRef.of_wrapper i)), to_being_completed inv i)
unfolding begin_item_completion begin_completion_of_wrapper
begin_item_completion_of_handle inv i w v at h = ground (
  arith,
  (handle_index_to_wrapper_of inv i w v at).0,
  get_or_of_some inv.reqs_all i no_wrapper at,
)

stale_of_to_free :
    (inv : Inverter) (i : ℕ) (w : Wrapper) (a b : ℤ)
    → IsValid inv
    → get_elem? inv.reqs_all i ≡ some w
    → begin_item_completion (to_free inv i a b) w.item.handle_index w.item.handle_seqnum
      ≡ (ok none, to_free inv i a b)
unfolding begin_item_completion begin_completion_of_wrapper to_free handle_index_to_wrapper
stale_of_to_free inv i w a b v at =
    let (back, index) = handle_index_to_wrapper_of inv i w v at in
    let read = get_or_of_some inv.reqs_all i no_wrapper at in
    let freed : get_elem? (set inv.reqs_all i (freed_wrapper (wrapper_at inv i))) i
        ≡ some (freed_wrapper (wrapper_at inv i)) =
      ground (arith, get_elem?-set inv.reqs_all i i (freed_wrapper (wrapper_at inv i)) at) in
    let now =
      get_or_of_some (set inv.reqs_all i (freed_wrapper (wrapper_at inv i))) i no_wrapper freed in
    let moved : ((w.item.handle_seqnum + 1) % 2 ^ 64 == w.item.handle_seqnum) ≡ false =
      ground arith in
    ground (arith, back, now, read, moved)

-- In a valid inverter, once a completion is committed the handle of the request is stale: completing it a second time
-- finds nothing and changes nothing, even where the sequence number wraps.
pub begin_item_completion-commit_item_completion :
    (inv : Inverter) (i : ℕ) (w : Wrapper) (neg_errno : ℤ)
    → IsValid inv
    → get_elem? inv.reqs_all i ≡ some w
    → begin_item_completion
        (commit_item_completion inv (ItemRef.of_wrapper i) neg_errno)
        w.item.handle_index
        w.item.handle_seqnum
      ≡ (ok none, commit_item_completion inv (ItemRef.of_wrapper i) neg_errno)
unfolding commit_item_completion commit_completion_of_wrapper cancel_due_to_termination
begin_item_completion-commit_item_completion inv i w neg_errno v at =
    if_intro
      (λ inv'.
        begin_item_completion inv' w.item.handle_index w.item.handle_seqnum ≡ (ok none, inv'))
      inv.flags.terminated _ _ (λ _. stale_of_to_free inv i w _ _ v at)
      (λ _. stale_of_to_free inv i w _ _ v at)

-- The errors that the block layer tells apart.
abbrev pub is_block_error : ℤ → Bool
is_block_error e =
    (e ==ℤ pos 0) || (e ==ℤ enolink) || (e ==ℤ enospc) || (e ==ℤ etimedout) || (e ==ℤ eio)

-- The errors that may go to the caller of an ioctl: 0 to 133 negated, and never ENOSYS.
abbrev pub is_ioctl_error : ℤ → Bool
is_ioctl_error e = not (ltb_ℤ e (neg 133)) && not (ltb_ℤ (pos 0) e) && not (e ==ℤ enosys)

block_error_lem : (e : ℤ) → is_block_error (block_error e) ≡ true
unfolding block_error
block_error_lem e = ground arith

ioctl_error_lem : (e : ℤ) → is_ioctl_error (ioctl_error e) ≡ true
unfolding ioctl_error
ioctl_error_lem e = ground arith

-- Whatever error a server reports, the request is completed, the block layer gets one of the errors
-- that it tells apart, and the caller of an ioctl gets an error number of the range that the driver
-- allows.
pub commit_item_completion_errors :
    (inv : Inverter) (i : ℕ) (neg_errno : ℤ)
    → (blk : BlockLayer) × ((commit_item_completion inv (ItemRef.of_wrapper i) neg_errno).blk ≡ blk)
      × (blk.completed ≡ (wrapper_at inv i).item.req ∷ inv.blk.completed)
      × (is_block_error (blk.pdu (wrapper_at inv i).item.req).error ≡ true)
      × (is_ioctl_error (blk.pdu (wrapper_at inv i).item.req).error_ioctl ≡ true)
unfolding commit_item_completion commit_completion_of_wrapper cancel_due_to_termination to_free
commit_item_completion_errors inv i neg_errno = (
  _,
  refl,
  ground arith,
  ground (arith, block_error_lem neg_errno),
  ground (arith, ioctl_error_lem neg_errno),
)
