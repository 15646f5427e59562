-- ===== src/Libbdus/Callbacks.antt =====
-- Which callbacks the backend of libbdus/src/backend.c needs, and that a driver that bdus_run()
-- starts has them.
use bdus.Base.{
  ℕ, ◌≡◌, ◌≢◌, refl, Bool, Option-cases, inl, inr, true, false, List, [], ◌∷◌, none, arith,
}
use bdus.Base.Int.{ℤ}
use bdus.Inverter.State.{ItemType}
use bdus.Device.Config.{DeviceConfig}
use bdus.Device.Validate.{adjust_config}
use bdus.Transceiver.Copies.{UserItem}
use bdus.Transceiver.Calls.{Reply}
use bdus.Libbdus.Driver.{World, Ops, Attrs}
use bdus.Libbdus.Attrs.{is_set, run_device_config}
use bdus.Libbdus.Requests.{process_flush_request, process_ioctl, process_request}
use bdus.Libbdus.Worker.{
  Thread, Answer, interrupted, failed, item, ends, replies, crashed, process_item,
  flush_and_terminate, process_other_item, loop, work_loop, reply_to, as_int,
}

-- The items that a device of the configuration sends to its driver.
unfoldable pub sends : DeviceConfig → ItemType → Bool
sends c ItemType.device_available = true
sends c ItemType.terminate = true
sends c ItemType.flush_and_terminate = c.supports_flush
sends c ItemType.read = c.supports_read
sends c ItemType.write = c.supports_write
sends c ItemType.write_same = c.supports_write_same
sends c ItemType.write_zeros_no_unmap = c.supports_write_zeros
sends c ItemType.write_zeros_may_unmap = c.supports_write_zeros
sends c ItemType.fua_write = c.supports_fua_write
sends c ItemType.flush = c.supports_flush
sends c ItemType.discard = c.supports_discard
sends c ItemType.secure_erase = c.supports_secure_erase
sends c ItemType.ioctl = c.supports_ioctl
sends c ItemType.invalid = false

module _ {S : Type 0} where
  -- The driver has the callback that an item calls, if it calls one.
  unfoldable pub answers_to : Ops S → ItemType → Bool
  answers_to ops ItemType.flush_and_terminate = is_set ops.flush
  answers_to ops ItemType.read = is_set ops.read
  answers_to ops ItemType.write = is_set ops.write
  answers_to ops ItemType.write_same = is_set ops.write_same
  answers_to ops ItemType.write_zeros_no_unmap = is_set ops.write_zeros
  answers_to ops ItemType.write_zeros_may_unmap = is_set ops.write_zeros
  answers_to ops ItemType.fua_write = is_set ops.fua_write
  answers_to ops ItemType.flush = is_set ops.flush
  answers_to ops ItemType.discard = is_set ops.discard
  answers_to ops ItemType.secure_erase = is_set ops.secure_erase
  answers_to ops ItemType.ioctl = is_set ops.ioctl
  answers_to ops _ = true

  process_request-ne-none :
      (ops : Ops S) (payload : ℕ) (type : ItemType) (arg64 arg32 : ℕ) (e : ℤ) (world : World S)
      → answers_to ops type ≡ true
      → process_request ops payload type arg64 arg32 e world ≢ none
  unfolding process_request process_ioctl answers_to
  process_request-ne-none ops payload ItemType.device_available arg64 arg32 e world h = ground arith
  process_request-ne-none ops payload type arg64 arg32 e world h = ground arith

  pub process_item_of_missing :
      (t : Thread S) (i : UserItem) (world : World S)
      → answers_to t.ops i.type ≡ false
      → process_item t i world ≡ none
  unfolding process_item flush_and_terminate process_other_item process_flush_request
      process_request process_ioctl answers_to
  process_item_of_missing t i world h = ground arith

  process_item-ne-none :
      (t : Thread S) (i : UserItem) (world : World S)
      → answers_to t.ops i.type ≡ true
      → process_item t i world ≢ none
  unfolding process_item flush_and_terminate process_other_item process_flush_request answers_to
  process_item-ne-none t i world h =
      ground (
        arith,
        process_request-ne-none t.ops t.payload i.type i.arg64 i.arg32 (as_int i.arg32) world,
      )

  -- Every item among the answers is one that the device sends.
  abbrev pub AllSent : DeviceConfig → List (Answer S) → Type 0
  AllSent c [] = Unit
  AllSent c (item i world ∷ answers) = (sends c i.type ≡ true) × AllSent c answers
  AllSent c (_ ∷ answers) = AllSent c answers

  loop-ne-crashed :
      (c : DeviceConfig) (t : Thread S) (reply : Reply) (world : World S)
      → ((type : ItemType) → sends c type ≡ true → answers_to t.ops type ≡ true)
      → (answers : List (Answer S)) → AllSent c answers
      → (loop t reply world answers).0 ≢ crashed
  unfolding loop
  loop-ne-crashed c t reply world able [] sent = ground arith
  loop-ne-crashed c t reply world able (interrupted ∷ answers) sent =
      loop-ne-crashed c t reply world able answers sent
  loop-ne-crashed c t reply world able (failed e ∷ answers) sent = ground arith
  loop-ne-crashed c t reply world able (item i current ∷ answers) (sent, later) =
      elim (Option-cases (process_item t i current)) [
        | inl missing ↦ absurd (process_item-ne-none t i current (able i.type sent) missing)
        | inr (ends status after, e) ↦ ground (arith, e)
        | inr (replies error after, e) ↦
            ground (arith, e, loop-ne-crashed c t (reply_to i error) after able answers later)
      ]

  able_of_run :
      (page_size : ℕ) (ops : Ops S) (attrs : Attrs) (type : ItemType)
      → sends (adjust_config page_size (run_device_config ops attrs)) type ≡ true
      → answers_to ops type ≡ true
  unfolding sends adjust_config run_device_config answers_to
  able_of_run page_size ops attrs ItemType.device_available h = refl
  able_of_run page_size ops attrs type h = ground arith

  -- If a thread of a driver gets only items that the device sends which bdus_run() made for that
  -- driver, it calls no null pointer, whatever the items are and the callbacks do.
  pub work_loop-ne-crashed :
      (page_size seqnum : ℕ) (e : ℤ) (t : Thread S) (attrs : Attrs) (world : World S)
      (answers : List (Answer S))
      → AllSent (adjust_config page_size (run_device_config t.ops attrs)) answers
      → (work_loop seqnum e t world answers).0 ≢ crashed
  unfolding work_loop
  work_loop-ne-crashed page_size seqnum e t attrs world answers sent =
      loop-ne-crashed _ t _ world (able_of_run page_size t.ops attrs) answers sent
