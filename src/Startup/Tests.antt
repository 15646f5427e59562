-- ===== src/Startup/Tests.antt =====
-- Loading and unloading the module of kbdus/src/main.c.
use bdus.Base.{◌≡◌, refl, if◌then◌else◌, [], ◌∷◌, some}
use bdus.Base.Int.{pos, neg, ◌==ℤ◌}
use bdus.Base.Errno.{ok, err, enomem}
use bdus.Startup.{
  Registrations, acquires, releases, block_major, control_region, control_cdev, kbdus_init,
  kbdus_exit,
}
use bdus.Startup.Unwinding.{kbdus_init-kbdus_exit, all_happen, holding, Held, everything}

abbrev all_succeed : Registrations
all_succeed = record {
  max_devices = 4096;
  blkdev = pos 252;
  region = pos 0;
  cdev = pos 0;
  class_created = ok tt;
  node_created = ok tt;
}

kbdus_init-kbdus_exit_example :
    (loaded : Held) × (all_happen (kbdus_init all_succeed).1 (holding [] []) ≡ some loaded)
    × (loaded ≡ holding (if (kbdus_init all_succeed).0 ==ℤ pos 0 then everything else []) [])
    × ((kbdus_init all_succeed).0 ≡ pos 0
        → all_happen (kbdus_exit (0 ∷ 5 ∷ [])) (record loaded { devices = 0 ∷ 5 ∷ [] })
          ≡ some (holding [] []))
kbdus_init-kbdus_exit_example = kbdus_init-kbdus_exit all_succeed (0 ∷ 5 ∷ []) refl refl

-- The class cannot be created.
unwinds : kbdus_init (record all_succeed { class_created = err enomem }) ≡ (
  enomem,
  acquires block_major
      ∷ acquires control_region
      ∷ acquires control_cdev
      ∷ releases control_cdev
      ∷ releases control_region
      ∷ releases block_major
      ∷ [],
)
unfolding kbdus_init
unwinds = refl

refuses_parameter : (kbdus_init (record all_succeed { max_devices = 0 })).0 ≡ neg 22
unfolding kbdus_init
refuses_parameter = refl
