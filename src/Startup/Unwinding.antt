-- ===== src/Startup/Unwinding.antt =====
-- Loading the module of kbdus/src/main.c holds all that it registers or nothing, and unloading it holds
-- nothing.
use bdus.Base.{
  ℕ, ◌≡◌, refl, ◌==◌, if◌then◌else◌, Bool, true, List, [], ◌∷◌, ◌++◌, map, Option, none, some, inl,
  inr, Option-cases, ◌∙◌, arith,
}
use bdus.Base.Int.{pos, ltb_ℤ, ◌==ℤ◌}
use bdus.Base.Errno.{Result, ok, err}
use bdus.Startup.{
  Resource, Event, acquires, releases, destroys_device, block_major, control_region, control_cdev,
  control_class, control_node, Registrations, device_init, device_exit, control_init, control_exit,
  kbdus_init, kbdus_exit,
}

abbrev number : Resource → ℕ
number Resource.block_major = 0
number Resource.control_region = 1
number Resource.control_cdev = 2
number Resource.control_class = 3
number Resource.control_node = 4

-- What is registered with the kernel, the latest first, and the ids of the devices that there are.
pub record Held : Type 0 where
  pub resources : List Resource
  pub devices : List ℕ

release : Resource → List Resource → Option (List Resource)
release r [] = none
release r (top ∷ rest) = if number r == number top then some rest else none

-- The device has to be among those that there are.
destroy : ℕ → List ℕ → Option (List ℕ)
destroy id [] = none
destroy id (first ∷ ids) =
    if first == id
    then some ids
    else elim (destroy id ids) [ none ↦ none | some left ↦ some (first ∷ left) ]

-- A resource is released only while it is the latest that is held and there is no device, and a device
-- is destroyed only once, and while the control device is held.
unfoldable pub happens : Event → Held → Option Held
unfolding release destroy
happens (acquires r) held = some (record held { resources = r ∷ held.resources })
happens (releases r) held = elim held.devices [
  | id ∷ ids ↦ none
  | [] ↦ elim (release r held.resources) [
    | none ↦ none
    | some rest ↦ some (record held { resources = rest })
  ]
]
happens (destroys_device id) held = elim held.resources [
  | control_node ∷ rest ↦ elim (destroy id held.devices) [
    | none ↦ none
    | some left ↦ some (record held { devices = left })
  ]
  | _ ↦ none
]

unfoldable pub all_happen : List Event → Held → Option Held
all_happen [] held = some held
all_happen (e ∷ es) held = elim (happens e held) [ none ↦ none | some more ↦ all_happen es more ]

abbrev pub holding : List Resource → List ℕ → Held
holding resources devices = record { resources = resources; devices = devices }

abbrev pub everything : List Resource
everything = control_node ∷ control_class ∷ control_cdev ∷ control_region ∷ block_major ∷ []

-- An error that `PTR_ERR` gives is negative.
abbrev pub is_failure : Result (Unit {0}) → Bool
is_failure (ok made) = true
is_failure (err e) = ltb_ℤ e (pos 0)

kbdus_init_held :
    (r : Registrations)
    → is_failure r.class_created ≡ true
    → is_failure r.node_created ≡ true
    → all_happen (kbdus_init r).1 (holding [] [])
      ≡ some (holding (if (kbdus_init r).0 ==ℤ pos 0 then everything else []) [])
unfolding kbdus_init control_init device_init device_exit all_happen happens
kbdus_init_held r c n = ground (arith, c, n)

destroys_all :
    (ids : List ℕ) (es : List Event)
    → all_happen (map destroys_device ids ++ es) (holding everything ids)
      ≡ all_happen es (holding everything [])
unfolding all_happen happens destroy
destroys_all [] es = refl
destroys_all (id ∷ ids) es = ground (arith, destroys_all ids es)

all_happen-append :
    (es more : List Event) (held : Held) {now : Held}
    → all_happen es held ≡ some now
    → all_happen (es ++ more) held ≡ all_happen more now
unfolding all_happen
all_happen-append [] more held h = ground (arith, h)
all_happen-append (e ∷ es) more held {now} h = elim (Option-cases (happens e held)) [
  | inl never ↦ absurd (ground (arith, never, h))
  | inr (next, can) ↦ ground (arith, can, h, all_happen-append es more next {now = now})
]

control_exit_held :
    (ids : List ℕ)
    → all_happen (control_exit ids) (holding everything ids) ≡ some (holding (block_major ∷ []) [])
unfolding control_exit all_happen happens release
control_exit_held ids = destroys_all ids (
    releases control_node
    ∷ releases control_class
    ∷ releases control_cdev
    ∷ releases control_region
    ∷ [])

device_exit_held : all_happen device_exit (holding (block_major ∷ []) []) ≡ some (holding [] [])
unfolding all_happen happens release device_exit
device_exit_held = refl

kbdus_exit_held :
    (ids : List ℕ) → all_happen (kbdus_exit ids) (holding everything ids) ≡ some (holding [] [])
unfolding kbdus_exit
kbdus_exit_held ids =
    all_happen-append (control_exit ids) device_exit (holding everything ids)
      {now = holding (block_major ∷ []) []} (control_exit_held ids)
    ∙ device_exit_held

-- If the errors of the kernel are negative: loading the module registers all that it needs and returns 0,
-- or releases in reverse order whatever it has registered and returns an error; and a module that was
-- loaded with 0, and has devices since, destroys each of them once when it is unloaded, while all is
-- registered, and then releases all, in reverse order.
pub kbdus_init-kbdus_exit :
    (r : Registrations) (ids : List ℕ)
    → is_failure r.class_created ≡ true
    → is_failure r.node_created ≡ true
    → (loaded : Held) × (all_happen (kbdus_init r).1 (holding [] []) ≡ some loaded)
      × (loaded ≡ holding (if (kbdus_init r).0 ==ℤ pos 0 then everything else []) [])
      × ((kbdus_init r).0 ≡ pos 0
          → all_happen (kbdus_exit ids) (record loaded { devices = ids }) ≡ some (holding [] []))
kbdus_init-kbdus_exit r ids c n = (
  holding (if (kbdus_init r).0 ==ℤ pos 0 then everything else []) [],
  kbdus_init_held r c n,
  refl,
  λ ok'. rw ok' (kbdus_exit_held ids),
)
