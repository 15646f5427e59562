-- ===== src/Inverter/Lifecycle.antt =====
-- Creation, termination, deactivation and activation in kbdus/src/inverter.c. Each function holds
-- `reqs_lock` throughout, so it is one step.
use bdus.Base.{
  ℕ, zero, suc, ◌+◌, ◌^◌, ◌%◌, if◌then◌else◌, Bool, true, false, ◌&&◌, ◌||◌, not, List, [], ◌∷◌,
  ◌++◌, set, length, ◌==◌,
}
use bdus.Base.Errno.{enomem, Result, ok, err}
use bdus.Device.Config.{DeviceConfig}
use bdus.Inverter.State.{
  ItemType, ReqState, Wrapper, Inverter, BlockLayer, same_state, complete, wrapper_at, uint_max,
}
use bdus.Inverter.Wrappers.{cancel_due_to_termination, to_awaiting_get}

-- `for (i = first; i < first + rounds; ++i)`
unfoldable pub for_range : ℕ → ℕ → (Inverter → ℕ → Inverter) → Inverter → Inverter
for_range zero i body inv = inv
for_range (suc rounds) i body inv = for_range rounds (i + 1) body (body inv i)

-- An array of wrappers as `kzalloc` returns it: zero is the first enumerator of both enums.
unfoldable pub zeroed_wrappers : ℕ → List Wrapper
zeroed_wrappers zero = []
zeroed_wrappers (suc n) = zeroed ∷ zeroed_wrappers n
  where
    zeroed : Wrapper
    zeroed = record {
      item = record {
        handle_index = 0;
        handle_seqnum = 0;
        type = ItemType.device_available;
        req = 0;
      };
      state = ReqState.free;
    }

-- The body of the loop of `create`.
unfoldable pub init_wrapper : Inverter → ℕ → Inverter
init_wrapper inv i =
    let w = wrapper_at inv i in
    record inv {
      reqs_all = set inv.reqs_all i (record w {
        state = ReqState.free;
        item = record (w.item) { handle_index = (i + 1) % 2 ^ 16; handle_seqnum = 0 };
      });
      reqs_free = inv.reqs_free ++ i ∷ [];
    }

-- The two flags say whether the two allocations succeed.
unfoldable pub create : DeviceConfig → Bool → Bool → BlockLayer → Result Inverter
unfolding for_range
create config inverter_allocated reqs_allocated blk =
    if not inverter_allocated
    then err enomem
    else if not reqs_allocated
    then err enomem
    else ok (for_range config.max_outstanding_reqs 0 init_wrapper fresh)
  where
    fresh : Inverter
    fresh = record {
      flags = record {
        deactivated = false;
        deactivated_not_flushed = false;
        terminated = false;
        send_device_available = false;
        supports_read = config.supports_read;
        supports_write = config.supports_write;
        supports_flush = config.supports_flush;
        supports_ioctl = config.supports_ioctl;
      };
      num_reqs = config.max_outstanding_reqs;
      item_is_awaiting_get = 0;
      reqs_free = [];
      reqs_awaiting_get = [];
      reqs_all = zeroed_wrappers config.max_outstanding_reqs;
      blk = blk;
    }

-- The body of the loop of `terminate`.
unfoldable pub fail_if_awaiting : Inverter → ℕ → Inverter
fail_if_awaiting inv i =
    let s = (wrapper_at inv i).state in
    if same_state s ReqState.awaiting_get || same_state s ReqState.awaiting_completion
    then cancel_due_to_termination inv i
    else inv

unfoldable pub terminate : Inverter → Inverter
unfolding for_range
terminate inv =
    if inv.flags.terminated
    then inv
    else (let failed =
          for_range inv.num_reqs 0 fail_if_awaiting
            (record inv { flags = record (inv.flags) { terminated = true } }) in
        record failed { item_is_awaiting_get = uint_max })

unfoldable pub deactivate : Inverter → Bool → Inverter
deactivate inv flush =
    let flags' = if inv.flags.deactivated then inv.flags else record (inv.flags) {
      deactivated = true;
      deactivated_not_flushed =
          (flush && inv.flags.supports_flush) || inv.flags.deactivated_not_flushed;
    } in
    record inv { flags = flags'; item_is_awaiting_get = uint_max }

-- The switch in the loop of `activate`.
unfoldable pub reawait_in : Inverter → ℕ → ReqState → Inverter
reawait_in inv i ReqState.awaiting_get = record inv {
  item_is_awaiting_get = complete inv.item_is_awaiting_get;
}
reawait_in inv i ReqState.awaiting_completion = to_awaiting_get inv i
reawait_in inv i _ = inv

unfoldable pub reawait : Inverter → ℕ → Inverter
unfolding reawait_in
reawait inv i = reawait_in inv i (wrapper_at inv i).state

unfoldable pub activate : Inverter → Inverter
unfolding for_range
activate inv =
    if inv.flags.deactivated
    then (let requeued = for_range inv.num_reqs 0 reawait (record inv {
      flags = record (inv.flags) { deactivated = false; deactivated_not_flushed = false };
      item_is_awaiting_get = 0;
    }) in
        if requeued.flags.send_device_available
        then record requeued { item_is_awaiting_get = complete requeued.item_is_awaiting_get }
        else requeued)
    else inv

unfoldable pub submit_device_available_notification : Inverter → Inverter
submit_device_available_notification inv =
    if inv.flags.send_device_available then inv else record inv {
      flags = record (inv.flags) { send_device_available = true };
      item_is_awaiting_get = complete inv.item_is_awaiting_get;
    }

unfoldable pub all_free : List Wrapper → Bool
all_free [] = true
all_free (w ∷ ws) = same_state w.state ReqState.free && all_free ws

-- The sanity checks of `destroy` all pass (none of its WARN_ON fires). What follows them frees the
-- memory.
unfoldable pub destroy_checks : Inverter → Bool
unfolding all_free
destroy_checks inv =
    inv.flags.terminated
    && (length inv.reqs_free == inv.num_reqs)
    && (length inv.reqs_awaiting_get == 0)
    && all_free inv.reqs_all
