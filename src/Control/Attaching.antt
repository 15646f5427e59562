-- ===== src/Control/Attaching.antt =====
-- Attaching a file description to a device that is there or new (kbdus/src/control.c) keeps the
-- state valid.
use bdus.Base.{
  ℕ, ◌+◌, ◌^◌, ◌<◌, ◌≡◌, ◌==◌, Bool-cases, inl, inr, true, false, [], ◌∷◌, none, some,
  length-append, arith,
}
use bdus.Control.State.{
  OnDetach, DeviceWrapper, Fd, Control, id_of, find_device, set_fd, set_device,
}
use bdus.Device.Life.{Device}
use bdus.Control.Create.{add_device}
use bdus.Control.Lookup.{
  copies_of_find, find_device-replace_device, find_device-append, copies-append,
}
use bdus.Control.Valid.{Table, IsValid}
use bdus.Control.Preserve.{Table-set_fd, Table-set_device}

abbrev pub attached_fd : Fd → DeviceWrapper → Fd
attached_fd f v = record f { attached = true; device_wrapper = id_of v }

pub attach-IsValid :
    (c : Control) (k : ℕ) (v w : DeviceWrapper)
    → IsValid c
    → find_device (id_of v) c.devices ≡ some w
    → w.fd ≡ none
    → (c.fds k).attached ≡ false
    → v.fd ≡ some k
    → v.on_detach ≡ OnDetach.nobody
    → IsValid (set_fd k (attached_fd (c.fds k) v) (set_device v c))
attach-IsValid c k v w iv found alone idle mine quiet =
    let written = λ (id : ℕ). find_device-replace_device v w id c.devices found in
    record {
      table = Table-set_fd (set_device v c) k _ (Table-set_device c v iv.table);
      owner = λ j a. elim (Bool-cases (j == k)) [
        | inl e ↦ (v, ground (arith, written (id_of v)), ground arith)
        | inr e ↦
            let (u, at, f) = iv.owner j (ground arith) in
            (u, ground (arith, written (c.fds j).device_wrapper), f)
      ];
      owned = λ id j u at f. ground (arith, written id, iv.owned id j u);
      signalled_late = λ id u at f. ground (arith, written id, iv.signalled_late id u);
    }

Table-add_device :
    (c : Control) (k index : ℕ) (device : Device)
    → Table c
    → device.config.id ≡ c.next_id
    → c.num_devices < c.max_devices
    → c.next_id + 1 < 2 ^ 64
    → Table (add_device c k index device)
unfolding add_device
Table-add_device c k index device t named room more =
    let v : DeviceWrapper = record {
      index = index;
      device = device;
      fd = some k;
      on_detach = OnDetach.nobody;
    } in
    record {
      unique = λ id. ground (arith, t.unique id, t.fresh id, copies-append v id c.devices);
      fresh = λ id le. ground (arith, t.fresh id, copies-append v id c.devices);
      counted = ground (arith, t, length-append c.devices (v ∷ []));
      within = ground (arith, t);
      small = t.small;
    }

pub add_device-IsValid :
    (c : Control) (k index : ℕ) (device : Device)
    → IsValid c
    → device.config.id ≡ c.next_id
    → c.num_devices < c.max_devices
    → c.next_id + 1 < 2 ^ 64
    → (c.fds k).attached ≡ false
    → IsValid (add_device c k index device)
unfolding add_device
add_device-IsValid c k index device iv named room more idle =
    let v : DeviceWrapper = record {
      index = index;
      device = device;
      fd = some k;
      on_detach = OnDetach.nobody;
    } in
    let written =
      λ (id : ℕ). find_device-append v id c.devices (ground (arith, iv.fresh (id_of v))) in
    record {
      table = Table-add_device c k index device iv.table named room more;
      owner = λ j a. elim (Bool-cases (j == k)) [
        | inl e ↦ (v, ground (arith, written (id_of v)), ground arith)
        | inr e ↦
            let (u, at, f) = iv.owner j (ground arith) in
            (
              u,
              ground (
                arith,
                written (c.fds j).device_wrapper,
                iv.fresh (c.fds j).device_wrapper,
                copies_of_find (c.fds j).device_wrapper c.devices u at,
              ),
              f,
            )
      ];
      owned = λ id j u at f. ground (arith, written id, iv.owned id j u);
      signalled_late = λ id u at f. ground (arith, written id, iv.signalled_late id u);
    }
