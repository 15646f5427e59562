-- ===== src/Control/Lookup.antt =====
-- The table of devices of kbdus/src/control.c: lookup by id after each change.
use bdus.Base.{
  ℕ, ◌+◌, ◌-◌, ◌<◌, ◌≤◌, ◌≡◌, refl, ◌==◌, Bool-cases, inl, inr, if◌then◌else◌, List, [], ◌∷◌, ◌++◌,
  none, some, length, arith,
}
use bdus.Control.State.{DeviceWrapper, id_of, find_device, replace_device, remove_device}

-- How many devices have the id.
abbrev pub copies : ℕ → List DeviceWrapper → ℕ
copies id [] = 0
copies id (w ∷ ws) = (if id_of w == id then 1 else 0) + copies id ws

pub find_device-id :
    (id : ℕ) (ws : List DeviceWrapper) (w : DeviceWrapper)
    → find_device id ws ≡ some w
    → id_of w ≡ id
unfolding find_device
find_device-id id [] w h = cc
find_device-id id (v ∷ ws) w h = ground (arith, find_device-id id ws w)

pub find_device-none :
    (id : ℕ) (ws : List DeviceWrapper) → copies id ws ≡ 0 → find_device id ws ≡ none
unfolding find_device
find_device-none id [] h = refl
find_device-none id (v ∷ ws) h = ground (arith, find_device-none id ws)

pub copies_of_find :
    (id : ℕ) (ws : List DeviceWrapper) (w : DeviceWrapper)
    → find_device id ws ≡ some w
    → 0 < copies id ws
unfolding find_device
copies_of_find id [] w h = cc
copies_of_find id (v ∷ ws) w h = ground (arith, copies_of_find id ws w)

pub find_device-replace_device :
    (v w : DeviceWrapper) (id : ℕ) (ws : List DeviceWrapper)
    → find_device (id_of v) ws ≡ some w
    → find_device id (replace_device v ws) ≡ (if id_of v == id then some v else find_device id ws)
unfolding find_device replace_device
find_device-replace_device v w id [] h = cc
find_device-replace_device v w id (u ∷ ws) h = elim (Bool-cases (id_of u == id_of v)) [
  | inl e ↦ ground arith
  | inr e ↦ ground (arith, find_device-replace_device v w id ws)
]

pub copies-replace_device :
    (v : DeviceWrapper) (id : ℕ) (ws : List DeviceWrapper)
    → copies id (replace_device v ws) ≡ copies id ws
unfolding replace_device
copies-replace_device v id [] = refl
copies-replace_device v id (u ∷ ws) = ground (arith, copies-replace_device v id ws)

pub length-replace_device :
    (v : DeviceWrapper) (ws : List DeviceWrapper) → length (replace_device v ws) ≡ length ws
unfolding replace_device
length-replace_device v [] = refl
length-replace_device v (u ∷ ws) = ground (arith, length-replace_device v ws)

pub copies-remove_device :
    (r id : ℕ) (ws : List DeviceWrapper)
    → copies id (remove_device r ws) ≡ (if r == id then copies id ws - 1 else copies id ws)
unfolding remove_device
copies-remove_device r id [] = ground arith
copies-remove_device r id (u ∷ ws) = ground (arith, copies-remove_device r id ws)

pub length-remove_device :
    (r : ℕ) (ws : List DeviceWrapper)
    → 0 < copies r ws
    → length (remove_device r ws) + 1 ≡ length ws
unfolding remove_device
length-remove_device r [] h = elim h [ ]
length-remove_device r (u ∷ ws) h = ground (arith, length-remove_device r ws)

pub find_device-remove_device :
    (r id : ℕ) (ws : List DeviceWrapper)
    → copies r ws ≤ 1
    → find_device id (remove_device r ws) ≡ (if r == id then none else find_device id ws)
unfolding find_device remove_device
find_device-remove_device r id [] h = ground arith
find_device-remove_device r id (u ∷ ws) h = elim (Bool-cases (id_of u == r)) [
  | inl e ↦ ground (arith, find_device-none id ws)
  | inr e ↦ ground (arith, find_device-remove_device r id ws)
]

pub find_device-append :
    (v : DeviceWrapper) (id : ℕ) (ws : List DeviceWrapper)
    → copies (id_of v) ws ≡ 0
    → find_device id (ws ++ v ∷ []) ≡ (if id_of v == id then some v else find_device id ws)
unfolding find_device
find_device-append v id [] h = ground arith
find_device-append v id (u ∷ ws) h = ground (arith, find_device-append v id ws)

pub copies-append :
    (v : DeviceWrapper) (id : ℕ) (ws : List DeviceWrapper)
    → copies id (ws ++ v ∷ []) ≡ (if id_of v == id then 1 else 0) + copies id ws
copies-append v id [] = refl
copies-append v id (u ∷ ws) = ground (arith, copies-append v id ws)
