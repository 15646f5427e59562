-- ===== src/Inverter/Valid.antt =====
-- The invariant of kbdus/src/inverter.c.
use bdus.Base.{
  ℕ, ◌+◌, ◌≤◌, ◌≡◌, ◌==◌, if◌then◌else◌, Bool, true, not, ◌&&◌, ◌||◌, List, [], ◌∷◌, Option, none,
  some, length, get_elem?, count,
}
use bdus.Inverter.State.{ReqState, Wrapper, Inverter, same_state, is_notification, uint_max}

-- 1 if the wrapper at a position is in the state, else 0.
abbrev pub held : ReqState → Option Wrapper → ℕ
held s none = 0
held s (some w) = if same_state w.state s then 1 else 0

-- A position is on a list once if its wrapper is in the state of that list, and is not on it else.
pub record ListsMatch (inv : Inverter) : Type 0 where
  pub free_list : (j : ℕ) → count j inv.reqs_free ≡ held ReqState.free (get_elem? inv.reqs_all j)
  pub awaiting_list :
      (j : ℕ)
      → count j inv.reqs_awaiting_get ≡ held ReqState.awaiting_get (get_elem? inv.reqs_all j)

-- How many wrappers hold the request.
abbrev pub in_flight : ℕ → List Wrapper → ℕ
in_flight r [] = 0
in_flight r (w ∷ ws) =
    (if not (same_state w.state ReqState.free) && (w.item.req == r) then 1 else 0) + in_flight r ws

-- Each request was completed as often as it was started, but for those that wrappers hold.
abbrev pub Balanced : Inverter → Type 0
Balanced inv =
    (r : ℕ) → count r inv.blk.started ≡ count r inv.blk.completed + in_flight r inv.reqs_all

-- The wrapper's handle names its position, and a request in it is of a type that a request has.
abbrev pub well_formed : ℕ → Wrapper → Bool
well_formed j w =
    (w.item.handle_index == j + 1)
    && (same_state w.state ReqState.free || not (is_notification w.item.type))

abbrev pub Everywhere : (ℕ → Wrapper → Bool) → List Wrapper → Type 0
Everywhere f ws = (j : ℕ) (w : Wrapper) → get_elem? ws j ≡ some w → f j w ≡ true

-- No wrapper waits for a thread once the inverter is terminated.
abbrev pub settled : ℕ → Wrapper → Bool
settled j w =
    not (same_state w.state ReqState.awaiting_get)
    && not (same_state w.state ReqState.awaiting_completion)

abbrev pub bit : Bool → ℕ
bit b = if b then 1 else 0

-- There is a wake-up for each item to get, and there is no end of them once the inverter is
-- deactivated or terminated.
pub record Wakeups (inv : Inverter) : Type 0 where
  pub enough :
      length inv.reqs_awaiting_get + bit inv.flags.send_device_available ≤ inv.item_is_awaiting_get
  pub endless :
      (inv.flags.deactivated || inv.flags.terminated) ≡ true → inv.item_is_awaiting_get ≡ uint_max
  pub bounded : inv.item_is_awaiting_get ≤ uint_max
  pub flush_pending : inv.flags.deactivated_not_flushed ≡ true → inv.flags.deactivated ≡ true

-- The part that does not read the flags or the completion.
pub record Core (inv : Inverter) : Type 0 where
  pub size : length inv.reqs_all ≡ inv.num_reqs
  pub small : inv.num_reqs ≤ 256
  pub lists : ListsMatch inv
  pub wrappers : Everywhere well_formed inv.reqs_all
  pub balanced : Balanced inv

pub record IsValid (inv : Inverter) : Type 0 where
  pub core : Core inv
  pub open core use *
  pub at_rest : inv.flags.terminated ≡ true → Everywhere settled inv.reqs_all
  pub wakeups : Wakeups inv
