-- ===== src/Startup.antt =====
-- How the kernel module is loaded and unloaded: kbdus/src/main.c, with kbdus_control_init and
-- kbdus_control_exit of kbdus/src/control.c and kbdus_device_init of kbdus/src/device.c. What the kernel
-- answers to a registration is an argument.
mod Tests
pub mod Unwinding
use bdus.Base.{ℕ, ltb, if◌then◌else◌, Bool, not, ◌||◌, List, [], ◌∷◌, ◌++◌, map}
use bdus.Base.Int.{ℤ, pos, ltb_ℤ, ◌==ℤ◌}
use bdus.Base.Errno.{einval, Result, ok, err}

-- What is registered with the kernel.
pub data Resource : Type 0 where
  block_major control_region control_cdev control_class control_node : Resource

pub data Event : Type 0 where
  acquires releases : Resource → Event
  destroys_device : ℕ → Event

-- `max_devices` is the module's parameter; the others are what each registration returns.
pub record Registrations : Type 0 where
  pub max_devices : ℕ
  pub blkdev : ℤ
  pub region : ℤ
  pub cdev : ℤ
  pub class_created : Result (Unit {0})
  pub node_created : Result (Unit {0})

abbrev pub hard_max_devices : ℕ
hard_max_devices = 4096

unfoldable pub validate_module_parameters : ℕ → ℤ
validate_module_parameters max_devices =
    if ltb max_devices 1 || ltb hard_max_devices max_devices then einval else pos 0

unfoldable pub device_init : ℤ → ℤ × List Event
device_init major = if ltb_ℤ major (pos 0) then (major, []) else (pos 0, acquires block_major ∷ [])

unfoldable pub device_exit : List Event
device_exit = releases block_major ∷ []

-- The labels of `kbdus_control_init`, each falling through to the next.
abbrev error_unregister_chrdev_region : List Event
error_unregister_chrdev_region = releases control_region ∷ []

abbrev error_cdev_del : List Event
error_cdev_del = releases control_cdev ∷ error_unregister_chrdev_region

abbrev error_class_destroy : List Event
error_class_destroy = releases control_class ∷ error_cdev_del

unfoldable pub control_init : Registrations → ℤ × List Event
unfolding validate_module_parameters
control_init r =
    let region = acquires control_region in
    let cdev = acquires control_cdev in
    let class = acquires control_class in
    let validated = validate_module_parameters r.max_devices in
    if not (validated ==ℤ pos 0)
    then (validated, [])
    else if ltb_ℤ r.region (pos 0)
    then (r.region, [])
    else if ltb_ℤ r.cdev (pos 0)
    then (r.cdev, region ∷ error_unregister_chrdev_region)
    else elim r.class_created [
      | err e ↦ (e, region ∷ cdev ∷ error_cdev_del)
      | ok made ↦ elim r.node_created [
        | err e ↦ (e, region ∷ cdev ∷ class ∷ error_class_destroy)
        | ok made' ↦ (pos 0, region ∷ cdev ∷ class ∷ acquires control_node ∷ [])
      ]
    ]

-- The ids are those of the devices that are left.
unfoldable pub control_exit : List ℕ → List Event
control_exit ids =
    map destroys_device ids
    ++ releases control_node
      ∷ releases control_class
      ∷ releases control_cdev
      ∷ releases control_region
      ∷ []

-- The inverter and the transceiver have nothing to initialize, and cannot fail to.
unfoldable pub kbdus_init : Registrations → ℤ × List Event
unfolding device_init control_init device_exit
kbdus_init r =
    let (ret, registered) = device_init r.blkdev in
    let (ret', events) = control_init r in
    if not (ret ==ℤ pos 0)
    then (ret, registered)
    else if not (ret' ==ℤ pos 0)
    then (ret', registered ++ events ++ device_exit)
    else (pos 0, registered ++ events)

unfoldable pub kbdus_exit : List ℕ → List Event
unfolding control_exit device_exit
kbdus_exit ids = control_exit ids ++ device_exit
