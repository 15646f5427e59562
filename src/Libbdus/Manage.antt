-- ===== src/Libbdus/Manage.antt =====
-- The access to /dev/bdus-control and the functions that manage devices, in libbdus/src/bdus.c.
-- What the system and kbdus answer is an argument: an error is the (positive) `errno`.
use bdus.Base.{ℕ, ◌==◌, leb, if◌then◌else◌, Bool, true, false, ◌&&◌, ◌||◌, ◌≡◌, refl, ◌⊎◌, inl, inr}
use bdus.Base.Int.{ℤ, pos, ◌==ℤ◌}
use bdus.Base.Errno.{Result, ok, err}

-- `struct bdus_version` and `struct kbdus_version`
pub record Version : Type 0 where
  pub major : ℕ
  pub minor : ℕ
  pub patch : ℕ

-- What an error message says.
pub data Reason : Type 0 where
  insufficient_privileges not_installed access_denied open_failed : Reason
  version_unknown incompatible_version : Reason
  path_access_denied too_many_links path_does_not_exist not_block_special not_bdus : Reason
  device_gone is_partition no_longer_exists does_not_exist flush_failed ioctl_failed : Reason

-- A function that succeeds, or leaves an `errno` and a message.
pub data Outcome {ℓ} (A : Type ℓ) : Type ℓ where
  success : A → Outcome A
  failure : ℤ → Reason → Outcome A

-- To split on a computed outcome and keep the equation.
pub Outcome-cases {ℓ} :
    {A : Type ℓ} (o : Outcome A)
    → ((a : A) × (o ≡ success a)) ⊎ ((e : ℤ) × (r : Reason) × (o ≡ failure e r))
Outcome-cases (success a) = inl (a, refl)
Outcome-cases (failure e r) = inr (e, r, refl)

abbrev pub >>=-outcome {ℓ κ} : {A : Type ℓ} {B : Type κ} → Outcome A → (A → Outcome B) → Outcome B
>>=-outcome (success a) f = f a
>>=-outcome (failure e r) f = failure e r

unfoldable pub check_privileges : Bool → Outcome (Unit {0})
check_privileges is_root = if is_root then success tt else failure (pos 1) insufficient_privileges

unfoldable pub check_version_compatibility : Version → Result Version → Outcome (Unit {0})
check_version_compatibility libbdus answer = elim answer [
  | err e ↦ failure e version_unknown
  | ok kbdus ↦
      if (kbdus.major == libbdus.major)
        && (kbdus.minor == libbdus.minor)
        && leb libbdus.patch kbdus.patch
      then success tt
      else failure (pos 22) incompatible_version
]

-- ENOENT, then EACCES and EPERM.
unfoldable pub open_error : ℤ → Reason
open_error e =
    if e ==ℤ pos 2
    then not_installed
    else if (e ==ℤ pos 13) || (e ==ℤ pos 1)
    then access_denied
    else open_failed

-- The attempt to load the module, between the first two steps, changes no result of the library.
pub record Control : Type 0 where
  pub is_root : Bool
  pub opened : Result ℕ
  pub kbdus_version : Result Version

unfoldable pub open_control : Version → Bool → Control → Outcome ℕ
unfolding check_privileges check_version_compatibility open_error
open_control libbdus check_version c = >>=-outcome (check_privileges c.is_root) λ _. elim c.opened [
  | err e ↦ failure e (open_error e)
  | ok fd ↦
      if check_version
      then >>=-outcome (check_version_compatibility libbdus c.kbdus_version) (λ _. success fd)
      else success fd
]

-- EACCES, ELOOP, ENOENT and ENOTDIR, ENOTBLK, EINVAL, ENODEV, ECHILD.
unfoldable pub path_error : ℤ → Outcome ℕ
path_error e =
    if e ==ℤ pos 13
    then failure e path_access_denied
    else if e ==ℤ pos 40
    then failure e too_many_links
    else if (e ==ℤ pos 2) || (e ==ℤ pos 20)
    then failure e path_does_not_exist
    else if e ==ℤ pos 15
    then failure e not_block_special
    else if e ==ℤ pos 22
    then failure e not_bdus
    else if e ==ℤ pos 19
    then failure e device_gone
    else if e ==ℤ pos 10
    then failure (pos 22) is_partition
    else failure e ioctl_failed

unfoldable pub get_dev_id_from_path : Version → Control → Result ℕ → Outcome ℕ
unfolding open_control path_error
get_dev_id_from_path libbdus c answer =
    >>=-outcome (open_control libbdus true c)
      λ _. elim answer [ ok id ↦ success id | err e ↦ path_error e ]

unfoldable pub device_error : Reason → ℤ → Reason
device_error other e =
    if e ==ℤ pos 19 then no_longer_exists else if e ==ℤ pos 22 then does_not_exist else other

unfoldable pub flush_dev : Version → Control → Result (Unit {0}) → Outcome (Unit {0})
unfolding open_control device_error
flush_dev libbdus c answer =
    >>=-outcome (open_control libbdus true c)
      λ _. elim answer [ ok done ↦ success tt | err e ↦ failure e (device_error flush_failed e) ]

-- The destruction is triggered, and waited for only once it is.
unfoldable pub destroy_dev :
    Version → Control → Result (Unit {0}) → Result (Unit {0}) → Outcome (Unit {0})
unfolding open_control device_error
destroy_dev libbdus c triggered waited = >>=-outcome (open_control libbdus true c) λ _.
    elim triggered [
      | err e ↦ failure e (device_error ioctl_failed e)
      | ok done ↦ elim waited [ ok done' ↦ success tt | err e ↦ failure e ioctl_failed ]
    ]

unfoldable pub get_kbdus_version : Version → Control → Outcome Version
unfolding open_control
get_kbdus_version libbdus c =
    >>=-outcome (open_control libbdus false c)
      λ _. elim c.kbdus_version [ ok v ↦ success v | err e ↦ failure e version_unknown ]
