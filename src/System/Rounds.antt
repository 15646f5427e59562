-- ===== src/System/Rounds.antt =====
-- One round of a thread of a driver (libbdus/src/backend.c) against the kernel module.
use bdus.Base.{
  ℕ, ◌≡◌, refl, sym, ap, subst, ◌∙◌, Bool, false, List, [], ◌∷◌, Option-cases, inl, inr, ◌⊎◌,
  Option, none, some, arith,
}
use bdus.Base.Int.{ℤ, pos}
use bdus.Inverter.State.{is_notification}
use bdus.Inverter.Valid.{IsValid}
use bdus.Transceiver.Layout.{Transceiver}
use bdus.Transceiver.Copies.{UserItem}
use bdus.Transceiver.Calls.{Shared, UserCopy, Reply, send_reply, receive_item, Received}
use bdus.Libbdus.Driver.{World}
use bdus.Libbdus.Worker.{
  Thread, Status, Answer, Step, process_item, flush_and_terminate, ends, replies, reply_to, loop,
}
use bdus.System.Delivered.{receive_item-Delivered}
use bdus.System.Serving.{Served, reply_completes}

Step-cases :
    {S : Type 0} (step : Step S)
    → ((e : ℤ) × (after : World S) × (step ≡ replies e after))
      ⊎ ((status : Status) × (after : World S) × (step ≡ ends status after))
Step-cases (replies e after) = inl (e, after, refl)
Step-cases (ends status after) = inr (status, after, refl)

abbrev first_of : List Reply → Option Reply
first_of [] = none
first_of (reply ∷ rest) = some reply

module _ {S : Type 0} (thread : Thread S) where
  -- No notification is replied to.
  pub replied_is_request :
      (i : UserItem) (world after : World S) (e : ℤ)
      → process_item thread i world ≡ some (replies e after)
      → is_notification i.type ≡ false
  unfolding process_item flush_and_terminate
  replied_is_request i world after e h = ground (arith, h)

  head_of_loop :
      (reply : Reply) (world : World S) (answers : List (Answer S))
      → first_of (loop thread reply world answers).1 ≡ some reply
  unfolding loop
  head_of_loop reply world [] = refl
  head_of_loop reply world (Answer.interrupted ∷ answers) = refl
  head_of_loop reply world (Answer.failed e ∷ answers) = refl
  head_of_loop reply world (Answer.item i current ∷ answers) =
      elim (Option-cases (process_item thread i current)) [
        | inl h ↦ ground (arith, h)
        | inr (step, h) ↦ elim (Step-cases step) [
          | inl (e, after, k) ↦ ground (arith, h, k)
          | inr (status, after, k) ↦ ground (arith, h, k)
        ]
      ]

  -- The second reply, where the first ioctl gave an item.
  pub second_reply :
      (r0 r1 : Reply) (rest : List Reply) (i : UserItem) (world current : World S)
      (answers : List (Answer S))
      → (loop thread r0 world (Answer.item i current ∷ answers)).1 ≡ r0 ∷ r1 ∷ rest
      → (e : ℤ) × (after : World S) × (process_item thread i current ≡ some (replies e after))
        × (r1 ≡ reply_to i e)
  unfolding loop
  second_reply r0 r1 rest i world current answers h =
      elim (Option-cases (process_item thread i current)) [
        | inl none_there ↦ absurd (ground (arith, h, none_there))
        | inr (step, ran) ↦ elim (Step-cases step) [
          | inl (e, after, k) ↦ (
            e,
            after,
            ran ∙ ap some k,
            ground (arith, h, ran, k, head_of_loop (reply_to i e) after answers),
          )
          | inr (status, after, k) ↦ absurd (ground (arith, h, ran, k))
        ]
      ]

-- In a valid inverter: if a thread receives an item without an error, and its loop answers the item with
-- a reply that is sent without an error, then the item is the request at the head of the queue, a
-- callback of the driver has served it, and by the two ioctls it leaves the queue and is completed
-- exactly once, with what inverter.c passes on of the callback's error to the block layer and to the
-- caller of an ioctl (where ENOSYS too becomes EIO, unlike kbdus.h says).
pub loop-Served :
    {S : Type 0} (thread : Thread S) (t : Transceiver) (rounds : ℕ) (signal copied : Bool)
    (named filled : UserItem) (s s' : Shared) (r0 r1 : Reply) (rest : List Reply)
    (world current : World S) (answers : List (Answer S)) (copy : UserCopy)
    → IsValid s.inverter
    → receive_item t rounds signal copied named s ≡ some (Received.returns (pos 0) filled s')
    → (loop thread r0 world (Answer.item filled current ∷ answers)).1 ≡ r0 ∷ r1 ∷ rest
    → (send_reply t r1 copy s').0 ≡ pos 0
    → (e : ℤ) × (after : World S) × (process_item thread filled current ≡ some (replies e after))
      × Served s.inverter (send_reply t r1 copy s').1.inverter e
loop-Served thread t rounds signal copied named filled s s' r0 r1 rest world current answers copy v
      got said sent =
    let (e, after, ran, this) = second_reply thread r0 r1 rest filled world current answers said in
    let d =
      receive_item-Delivered t rounds signal copied named filled s s' v got
        (replied_is_request thread filled current after e ran) in
    (
      e,
      after,
      ran,
      subst (λ r. Served s.inverter (send_reply t r copy s').1.inverter e) (sym this)
          (reply_completes t copy s.inverter filled s' e d
            (subst (λ r. (send_reply t r copy s').0 ≡ pos 0) this sent)),
    )
