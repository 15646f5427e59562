-- ===== src/Inverter/Queue.antt =====
-- The queue of requests of kbdus/src/inverter.c: a request leaves it and comes back.
use bdus.Base.{
  ℕ, ◌<◌, ◌≡◌, ◌∙◌, ap, refl, sym, true, false, ◌||◌, List, ◌∷◌, some, get_elem?, set,
  get_or_of_some, get_elem?-set, set-set, set_same, remove_head, remove_absent, count, arith,
}
use bdus.Inverter.State.{
  ReqState, ItemRef, Wrapper, Inverter, same_state, wrapper_at, no_wrapper, uint_max, complete,
  consume, is_notification,
}
use bdus.Inverter.Wrappers.{to_awaiting_get, to_being_gotten}
use bdus.Inverter.Items.{get_round, get_pass, abort_item_get, abort_get_of_wrapper, item_of}
use bdus.Inverter.Valid.{IsValid}
use bdus.Inverter.Operations.Get.{first_awaiting}

is_awaiting_get :
    (s : ReqState) → same_state s ReqState.awaiting_get ≡ true → s ≡ ReqState.awaiting_get
is_awaiting_get s h = ground arith

-- Taking the first request of the queue and putting it back.
to_awaiting_get-to_being_gotten :
    (inv : Inverter) (i : ℕ) (rest : List ℕ) (w : Wrapper)
    → inv.reqs_awaiting_get ≡ i ∷ rest
    → get_elem? inv.reqs_all i ≡ some w
    → w.state ≡ ReqState.awaiting_get
    → count i inv.reqs_free ≡ 0
    → to_awaiting_get (to_being_gotten inv i) i
      ≡ record inv { item_is_awaiting_get = complete inv.item_is_awaiting_get }
unfolding to_awaiting_get to_being_gotten
to_awaiting_get-to_being_gotten inv i rest w e at s unlisted =
    let read = get_or_of_some inv.reqs_all i no_wrapper at in
    let gotten : Wrapper = record (wrapper_at inv i) { state = ReqState.being_gotten } in
    let now =
      get_or_of_some (set inv.reqs_all i gotten) i no_wrapper {v = gotten}
        (ground (arith, get_elem?-set inv.reqs_all i i gotten at)) in
    let again : Wrapper = record gotten { state = ReqState.awaiting_get } in
    let same : again ≡ w =
      ap (λ (x : Wrapper). record x { state = ReqState.awaiting_get }) read
      ∙ ap (λ (x : ReqState). record w { state = x }) (sym s) in
    let whole : set (set inv.reqs_all i gotten) i again ≡ inv.reqs_all =
      set-set inv.reqs_all i gotten again
      ∙ ap (set inv.reqs_all i) same
      ∙ set_same inv.reqs_all i w at in
    let free = remove_absent i inv.reqs_free unlisted in
    let first = remove_head i rest in ground (arith, now, whole, free, first)

abort_request :
    (inv : Inverter) (i : ℕ)
    → is_notification (wrapper_at inv i).item.type ≡ false
    → inv.flags.terminated ≡ false
    → abort_item_get inv (ItemRef.of_wrapper i) ≡ to_awaiting_get inv i
unfolding abort_item_get abort_get_of_wrapper item_of
abort_request inv i request running = ground arith

flags-to_being_gotten : (inv : Inverter) (i : ℕ) → (to_being_gotten inv i).flags ≡ inv.flags
unfolding to_being_gotten
flags-to_being_gotten inv i = refl

type_of_gotten :
    (inv : Inverter) (i : ℕ) (w : Wrapper)
    → get_elem? inv.reqs_all i ≡ some w
    → is_notification w.item.type ≡ false
    → is_notification (wrapper_at (to_being_gotten inv i) i).item.type ≡ false
unfolding to_being_gotten
type_of_gotten inv i w at request =
    let read = get_or_of_some inv.reqs_all i no_wrapper at in
    let gotten : Wrapper = record (wrapper_at inv i) { state = ReqState.being_gotten } in
    let now =
      get_or_of_some (set inv.reqs_all i gotten) i no_wrapper {v = gotten}
        (ground (arith, get_elem?-set inv.reqs_all i i gotten at)) in
    ground (arith, now, read)

-- In a valid inverter that is neither deactivated nor terminated, with a request queued, no
-- notification pending and fewer than UINT_MAX wake-ups, an item that is gotten and aborted leaves the
-- inverter as it was: the request is at the head of the queue again, and there are as many wake-ups
-- as before.
pub abort_item_get-get_round :
    (inv : Inverter) (i : ℕ) (rest : List ℕ)
    → IsValid inv
    → (inv.flags.deactivated || inv.flags.terminated) ≡ false
    → inv.flags.send_device_available ≡ false
    → inv.reqs_awaiting_get ≡ i ∷ rest
    → inv.item_is_awaiting_get < uint_max
    → (inv' : Inverter) × (get_round inv ≡ (inv', some (ItemRef.of_wrapper i)))
      × (abort_item_get inv' (ItemRef.of_wrapper i) ≡ inv)
unfolding get_round get_pass abort_item_get abort_get_of_wrapper item_of
abort_item_get-get_round inv i rest v running silent e less =
    let (w, at, s) = first_awaiting inv i rest v e in
    let state = is_awaiting_get w.state s in
    let drained : Inverter = record inv {
      item_is_awaiting_get = consume inv.item_is_awaiting_get;
    } in
    let back =
      to_awaiting_get-to_being_gotten drained i rest w e at state
        (ground (arith, v.lists.free_list i, at, state)) in
    let taken = to_being_gotten drained i in
    let request : is_notification (wrapper_at taken i).item.type ≡ false =
      type_of_gotten drained i w at (ground (arith, v.wrappers i w at, state)) in
    let refilled : complete (consume inv.item_is_awaiting_get) ≡ inv.item_is_awaiting_get =
      ground (arith, v.wakeups) in
    (
      taken,
      ground (arith, v.wakeups),
      abort_request taken i request (ground (arith, running, flags-to_being_gotten drained i))
          ∙ back
          ∙ ap (λ (n : ℕ). record inv { item_is_awaiting_get = n }) refilled,
    )
