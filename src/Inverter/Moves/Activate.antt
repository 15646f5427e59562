-- ===== src/Inverter/Moves/Activate.antt =====
-- What `kbdus_inverter_activate` of kbdus/src/inverter.c does to the requests in the queue.
use bdus.Base.{
  ℕ, zero, suc, ◌+◌, ◌<◌, ◌≡◌, refl, sym, ap, subst, ◌∙◌, if◌then◌else◌, false, List, [], ◌∷◌, some,
  length, length-set, drop, set, get_elem?, get_elem?_of_lt, get_or_of_some, arith,
}
use bdus.Inverter.State.{ReqState, Wrapper, Inverter, same_state, wrapper_at, no_wrapper, complete}
use bdus.Inverter.Wrappers.{to_awaiting_get}
use bdus.Inverter.Lifecycle.{activate, for_range, reawait, reawait_in}
use bdus.Inverter.Valid.{IsValid}
use bdus.Inverter.Operations.Range.{for_range_inv}
use bdus.Inverter.Pending.{pending, pending-to_awaiting_get}
use bdus.Inverter.Moves.{pending_same}

-- The requests of the wrappers that await completion, each put before the queue in the order of the
-- wrappers.
abbrev pub put_back : List Wrapper → List ℕ → List ℕ
put_back [] q = q
put_back (w ∷ ws) q =
    put_back ws (if same_state w.state ReqState.awaiting_completion then w.item.req ∷ q else q)

drop-get_elem? :
    (ws : List Wrapper) (i : ℕ) (w : Wrapper)
    → get_elem? ws i ≡ some w
    → drop i ws ≡ w ∷ drop (suc i) ws
drop-get_elem? [] i w h = cc
drop-get_elem? (x ∷ ws) zero w h = ground arith
drop-get_elem? (x ∷ ws) (suc i) w h = drop-get_elem? ws i w h

drop-set : (ws : List Wrapper) (i : ℕ) (v : Wrapper) → drop (suc i) (set ws i v) ≡ drop (suc i) ws
drop-set [] i v = refl
drop-set (x ∷ ws) zero v = refl
drop-set (x ∷ ws) (suc i) v = drop-set ws i v

drop-length : (ws : List Wrapper) → drop (length ws) ws ≡ []
drop-length [] = refl
drop-length (w ∷ ws) = drop-length ws

-- Before round `i`, the wrappers from there on put back what is missing of the queue in the end.
record PutsBack (n : ℕ) (whole : List ℕ) (i : ℕ) (s : Inverter) : Type 0 where
  size : length s.reqs_all ≡ n
  rest : put_back (drop i s.reqs_all) (pending s) ≡ whole

module _ (n : ℕ) (whole : List ℕ) (s : Inverter) (i : ℕ) (w : Wrapper)
    (at : get_elem? s.reqs_all i ≡ some w) (p : PutsBack n whole i s) where
  -- A round that leaves the wrappers and the queue, where the wrapper does not await completion.
  skips :
      (s' : Inverter)
      → same_state w.state ReqState.awaiting_completion ≡ false
      → s'.reqs_all ≡ s.reqs_all
      → pending s' ≡ pending s
      → PutsBack n whole (suc i) s'
  skips s' other all queue = record {
    size = rw all p.size;
    rest = ground (arith, all, queue, p.rest, drop-get_elem? s.reqs_all i w at, other);
  }

  to_awaiting_get-size : length (to_awaiting_get s i).reqs_all ≡ length s.reqs_all
  unfolding to_awaiting_get
  to_awaiting_get-size = length-set s.reqs_all i _

  to_awaiting_get-rest : drop (suc i) (to_awaiting_get s i).reqs_all ≡ drop (suc i) s.reqs_all
  unfolding to_awaiting_get
  to_awaiting_get-rest = drop-set s.reqs_all i _

  reawait_in-PutsBack :
      (state : ReqState) → w.state ≡ state → PutsBack n whole (suc i) (reawait_in s i state)
  unfolding reawait_in
  reawait_in-PutsBack ReqState.awaiting_completion e =
      let read = get_or_of_some s.reqs_all i no_wrapper at in
      let queue = pending-to_awaiting_get s i (ground (arith, read, e)) in
      record {
        size = to_awaiting_get-size ∙ p.size;
        rest =
            ground (
              arith,
              to_awaiting_get-rest,
              queue,
              read,
              e,
              p.rest,
              drop-get_elem? s.reqs_all i w at,
            );
      }
  reawait_in-PutsBack ReqState.awaiting_get e =
      skips _ (ground (arith, e)) refl (pending_same s _ refl refl)
  reawait_in-PutsBack ReqState.free e = skips s (ground (arith, e)) refl refl
  reawait_in-PutsBack ReqState.being_gotten e = skips s (ground (arith, e)) refl refl
  reawait_in-PutsBack ReqState.being_completed e = skips s (ground (arith, e)) refl refl

reawait-PutsBack :
    (n : ℕ) (whole : List ℕ) (i : ℕ) (s : Inverter)
    → i < n
    → PutsBack n whole i s
    → PutsBack n whole (i + 1) (reawait s i)
unfolding reawait
reawait-PutsBack n whole i s lt p =
    let (w, at) = get_elem?_of_lt s.reqs_all i (ground (arith, p.size)) in
    let read = get_or_of_some s.reqs_all i no_wrapper at in
    subst (λ j. PutsBack n whole j (reawait_in s i (wrapper_at s i).state)) (omega arith)
      (reawait_in-PutsBack n whole s i w at p (wrapper_at s i).state
        (ap (λ (v : Wrapper). v.state) (sym read)))

-- The loop puts back what the wrappers that await completion hold.
for_range_puts_back :
    (n : ℕ) (s : Inverter)
    → length s.reqs_all ≡ n
    → pending (for_range n 0 reawait s) ≡ put_back s.reqs_all (pending s)
for_range_puts_back n s size =
    let end = for_range n 0 reawait s in
    let p : PutsBack n (put_back s.reqs_all (pending s)) n end =
      for_range_inv (PutsBack n (put_back s.reqs_all (pending s))) reawait n
        (reawait-PutsBack n (put_back s.reqs_all (pending s))) n 0 (omega arith) s
        (record { size = size; rest = refl }) in
    let none_left : drop n end.reqs_all ≡ [] =
      subst (λ m. drop m end.reqs_all ≡ []) p.size (drop-length end.reqs_all) in
    sym (ap (λ ws. put_back ws (pending end)) none_left) ∙ p.rest

pub activates_lem :
    (inv : Inverter)
    → IsValid inv
    → pending (activate inv)
      ≡ (if inv.flags.deactivated then put_back inv.reqs_all (pending inv) else pending inv)
unfolding activate
activates_lem inv v =
    let start : Inverter = record inv {
      flags = record (inv.flags) { deactivated = false; deactivated_not_flushed = false };
      item_is_awaiting_get = 0;
    } in
    let requeued = for_range inv.num_reqs 0 reawait start in
    let notified : Inverter = record requeued {
      item_is_awaiting_get = complete requeued.item_is_awaiting_get;
    } in
    let all : pending requeued ≡ put_back inv.reqs_all (pending inv) =
      for_range_puts_back inv.num_reqs start v.size
      ∙ ap (put_back inv.reqs_all) (pending_same inv start refl refl) in
    ground (arith, all, pending_same requeued notified refl refl)
