-- ===== src/System/Delivered.antt =====
-- A request that is copied to the thread that got it (kbdus/src/transceiver.c).
use bdus.Base.{ℕ, ◌≡◌, refl, sym, ap, subst, ◌∙◌, Bool, false, Option-cases, inl, inr, some, arith}
use bdus.Base.Int.{pos}
use bdus.Inverter.State.{ItemRef, ItemType, Inverter, wrapper_at, is_notification}
use bdus.Inverter.Valid.{IsValid}
use bdus.Inverter.Items.{begin_item_get, GetResult, commit_item_get, commit_get_of_wrapper, item_of}
use bdus.Inverter.Wrappers.{to_awaiting_completion}
use bdus.Inverter.Operations.Finish.{commit_item_get-IsValid}
use bdus.Transceiver.Layout.{Transceiver}
use bdus.Transceiver.Payload.{Memory}
use bdus.Transceiver.Copies.{
  Payload, UserItem, copy_req_to_item_and_user_buffer, copy_req_to_item_and_preallocated_buffer,
  fill_preallocated_buffer,
}
use bdus.Transceiver.Calls.{Shared, deliver_item, receive_item, Received}
use bdus.System.Gotten.{Gotten, begin_item_get-Gotten}

-- The part of an item that the copies leave alone.
abbrev pub Keeps : UserItem → UserItem → Type 0
Keeps item filled =
    (filled.handle_index ≡ item.handle_index)
    × (filled.handle_seqnum ≡ item.handle_seqnum)
    × (filled.type ≡ item.type)

user_buffer-Keeps :
    (type : ItemType) (p : Payload) (copied : Bool) (item : UserItem)
    → Keeps item (copy_req_to_item_and_user_buffer type p copied item).1
unfolding copy_req_to_item_and_user_buffer
user_buffer-Keeps type p copied item = (ground arith, ground arith, ground arith)

preallocated_buffer-Keeps :
    (t : Transceiver) (type : ItemType) (p : Payload) (item : UserItem) (mem : Memory)
    → Keeps item (copy_req_to_item_and_preallocated_buffer t type p item mem).1
unfolding copy_req_to_item_and_preallocated_buffer fill_preallocated_buffer
preallocated_buffer-Keeps t type p item mem = (ground arith, ground arith, ground arith)

-- What is known of a request that was copied to a thread.
pub record Delivered (inv : Inverter) (filled : UserItem) (after : Inverter) : Type 0 where
  pub i : ℕ
  pub begun : Inverter
  pub gotten : Gotten inv begun i
  pub valid : IsValid after
  pub waits : after ≡ to_awaiting_completion begun i
  pub index : filled.handle_index ≡ (wrapper_at begun i).item.handle_index
  pub seqnum : filled.handle_seqnum ≡ (wrapper_at begun i).item.handle_seqnum
  pub same_type : filled.type ≡ (wrapper_at begun i).item.type

deliver_item-Keeps :
    (t : Transceiver) (copied : Bool) (ref : ItemRef) (item : UserItem) (s : Shared)
    → let source = item_of s.inverter ref in
      let filled = (deliver_item t copied ref item s).1 in
      (filled.handle_index ≡ source.handle_index)
      × (filled.handle_seqnum ≡ source.handle_seqnum)
      × (filled.type ≡ source.type)
unfolding deliver_item
deliver_item-Keeps t copied ref item s =
    let source = item_of s.inverter ref in
    let p = s.requests source.req in
    let named : UserItem = record item {
      handle_seqnum = source.handle_seqnum;
      handle_index = source.handle_index;
      type = source.type;
    } in
    let u = user_buffer-Keeps source.type p copied named in
    let b = preallocated_buffer-Keeps t source.type p named s.memory in
    (ground (arith, u, b), ground (arith, u, b), ground (arith, u, b))

deliver_item-sent :
    (t : Transceiver) (copied : Bool) (ref : ItemRef) (item : UserItem) (s : Shared)
    → (deliver_item t copied ref item s).0 ≡ pos 0
    → (deliver_item t copied ref item s).2.inverter ≡ commit_item_get s.inverter ref
unfolding deliver_item
deliver_item-sent t copied ref item s sent = ground (arith, sent)

commit_item_get-running :
    (inv : Inverter) (i : ℕ)
    → inv.flags.terminated ≡ false
    → is_notification (wrapper_at inv i).item.type ≡ false
    → commit_item_get inv (ItemRef.of_wrapper i) ≡ to_awaiting_completion inv i
unfolding commit_item_get commit_get_of_wrapper item_of
commit_item_get-running inv i running request = ground (arith, running, request)

-- An item that a thread has been given and that is no notification is a request.
deliver_item-Delivered :
    (t : Transceiver) (copied : Bool) (ref : ItemRef) (item : UserItem) (s : Shared)
    (inv : Inverter)
    → ((i : ℕ) → ref ≡ ItemRef.of_wrapper i → Gotten inv s.inverter i)
    → let d = deliver_item t copied ref item s in
      d.0 ≡ pos 0 → is_notification d.1.type ≡ false → Delivered inv d.1 d.2.inverter
unfolding item_of
deliver_item-Delivered t copied (ItemRef.of_wrapper i) item s inv g sent request =
    let gotten = g i refl in
    let (index, seqnum, type) = deliver_item-Keeps t copied (ItemRef.of_wrapper i) item s in
    record {
      i = i;
      begun = s.inverter;
      gotten = gotten;
      valid =
          (let (w, at, h) = gotten.held in
            subst IsValid (sym (deliver_item-sent t copied (ItemRef.of_wrapper i) item s sent))
              (commit_item_get-IsValid s.inverter i w gotten.valid at h));
      waits =
          deliver_item-sent t copied (ItemRef.of_wrapper i) item s sent
          ∙ commit_item_get-running s.inverter i gotten.running
              (ap is_notification (sym type) ∙ request);
      index = index;
      seqnum = seqnum;
      same_type = type;
    }
deliver_item-Delivered t copied ItemRef.req_dev_available item s inv g sent request =
    absurd (ground (arith, deliver_item-Keeps t copied ItemRef.req_dev_available item s, request))
deliver_item-Delivered t copied ItemRef.req_terminate item s inv g sent request =
    absurd (ground (arith, deliver_item-Keeps t copied ItemRef.req_terminate item s, request))
deliver_item-Delivered t copied ItemRef.req_flush_terminate item s inv g sent request =
    absurd (ground (arith, deliver_item-Keeps t copied ItemRef.req_flush_terminate item s, request))

-- In a valid inverter, an item that is received without an error and is no notification is a request.
pub receive_item-Delivered :
    (t : Transceiver) (rounds : ℕ) (signal copied : Bool) (item filled : UserItem) (s s' : Shared)
    → IsValid s.inverter
    → receive_item t rounds signal copied item s ≡ some (Received.returns (pos 0) filled s')
    → is_notification filled.type ≡ false
    → Delivered s.inverter filled s'.inverter
unfolding receive_item
receive_item-Delivered t rounds signal copied item filled s s' v e request =
    elim (Option-cases (begin_item_get rounds signal s.inverter)) [
      | inl never ↦ absurd (ground (arith, never, e))
      | inr ((result, begun), gets) ↦ finish result begun gets
    ]
  where
    finish :
        (result : GetResult) (begun : Inverter)
        → begin_item_get rounds signal s.inverter ≡ some (result, begun)
        → Delivered s.inverter filled s'.inverter
    finish (GetResult.got ref) begun gets =
        let mid : Shared = record s { inverter = begun } in
        let d = deliver_item t copied ref item mid in
        let g : (i : ℕ) → ref ≡ ItemRef.of_wrapper i → Gotten s.inverter begun i = λ i this.
          begin_item_get-Gotten rounds signal s.inverter begun i v
            (gets ∙ ap (λ r. some (GetResult.got r, begun)) this) in
        let ret : d.0 ≡ pos 0 = ground (arith, gets, e) in
        let same : d.1 ≡ filled = ground (arith, gets, e) in
        let after : d.2 ≡ s' = ground (arith, gets, e) in
        subst (λ f. Delivered s.inverter f s'.inverter) same
          (subst (λ (x : Shared). Delivered s.inverter d.1 x.inverter) after
            (deliver_item-Delivered t copied ref item mid s.inverter g ret
              (ap (λ (f : UserItem). is_notification f.type) same ∙ request)))
    finish GetResult.restart begun gets = absurd (ground (arith, gets, e))
    finish GetResult.blocked begun gets = absurd (ground (arith, gets, e))
