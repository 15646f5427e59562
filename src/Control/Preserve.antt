-- ===== src/Control/Preserve.antt =====
-- The changes of state that the operations of kbdus/src/control.c are made of keep it valid.
use bdus.Base.{ℕ, ◌≡◌, ◌==◌, Bool-cases, inl, inr, if◌then◌else◌, false, none, some, arith}
use bdus.Control.State.{
  OnDetach, DeviceWrapper, Fd, Control, id_of, find_device, replace_device, remove_device, set_fd,
  set_device, destroy_device,
}
use bdus.Control.Files.{fresh_fd}
use bdus.Control.Lookup.{
  copies_of_find, find_device-replace_device, copies-replace_device, length-replace_device,
  copies-remove_device, length-remove_device, find_device-remove_device,
}
use bdus.Control.Valid.{Table, IsValid}

pub Table-set_fd : (c : Control) (k : ℕ) (f : Fd) → Table c → Table (set_fd k f c)
Table-set_fd c k f t = record {
  unique = t.unique;
  fresh = t.fresh;
  counted = t.counted;
  within = t.within;
  small = t.small;
}

pub Table-set_device : (c : Control) (v : DeviceWrapper) → Table c → Table (set_device v c)
Table-set_device c v t = record {
  unique = λ id. ground (arith, t.unique id, copies-replace_device v id c.devices);
  fresh = λ id le. ground (arith, t.fresh id le, copies-replace_device v id c.devices);
  counted = ground (arith, t.counted, length-replace_device v c.devices);
  within = t.within;
  small = t.small;
}

pub Table-destroy_device :
    (c : Control) (v w : DeviceWrapper)
    → Table c
    → find_device (id_of v) c.devices ≡ some w
    → Table (destroy_device c v)
unfolding destroy_device
Table-destroy_device c v w t found = record {
  unique = λ id. ground (arith, t.unique id, copies-remove_device (id_of v) id c.devices);
  fresh = λ id le. ground (arith, t.fresh id le, copies-remove_device (id_of v) id c.devices);
  counted = ground (
    arith,
    t,
    length-remove_device (id_of v) c.devices,
    copies_of_find (id_of v) c.devices w found,
  );
  within = ground (
    arith,
    t,
    length-remove_device (id_of v) c.devices,
    copies_of_find (id_of v) c.devices w found,
  );
  small = t.small;
}

-- One of the devices, looked at after a write.
module _ (c : Control) (v w : DeviceWrapper) (iv : IsValid c)
    (found : find_device (id_of v) c.devices ≡ some w) where
  written :
      (id : ℕ)
      → find_device id (replace_device v c.devices)
        ≡ (if id_of v == id then some v else find_device id c.devices)
  written id = find_device-replace_device v w id c.devices found

  gone :
      (id : ℕ)
      → find_device id (remove_device (id_of v) c.devices)
        ≡ (if id_of v == id then none else find_device id c.devices)
  gone id = find_device-remove_device (id_of v) id c.devices (iv.unique (id_of v))

  -- A write that changes nothing about who is attached.
  pub set_device-IsValid :
      v.fd ≡ w.fd → (v.on_detach ≡ OnDetach.signalled → v.fd ≡ none) → IsValid (set_device v c)
  set_device-IsValid same late = record {
    table = Table-set_device c v iv.table;
    owner = λ k a.
        let (u, at, f) = iv.owner k a in
        elim (Bool-cases (id_of v == (c.fds k).device_wrapper)) [
          | inl e ↦ (v, ground (arith, written (c.fds k).device_wrapper), ground arith)
          | inr e ↦ (u, ground (arith, written (c.fds k).device_wrapper), f)
        ];
    owned = λ id k u at f. elim (Bool-cases (id_of v == id)) [
      | inl e ↦ iv.owned id k w (ground arith) (ground (arith, written id))
      | inr e ↦ iv.owned id k u (ground (arith, written id)) f
    ];
    signalled_late = λ id u at f. elim (Bool-cases (id_of v == id)) [
      | inl e ↦ ground (arith, written id)
      | inr e ↦ iv.signalled_late id u (ground (arith, written id)) f
    ];
  }

  -- The device that no one is attached to goes.
  pub destroy_device-IsValid : w.fd ≡ none → IsValid (destroy_device c v)
  unfolding destroy_device
  destroy_device-IsValid alone = record {
    table = Table-destroy_device c v w iv.table found;
    owner = λ j a.
        let (u, at, f) = iv.owner j a in (u, ground (arith, gone (c.fds j).device_wrapper), f);
    owned = λ id j u at f. iv.owned id j u (ground (arith, gone id)) f;
    signalled_late = λ id u at f. iv.signalled_late id u (ground (arith, gone id)) f;
  }

  module _ (k : ℕ) (held : w.fd ≡ some k) where
    -- The file description lets go of the device, which stays.
    pub detach-IsValid : v.fd ≡ none → IsValid (set_fd k fresh_fd (set_device v c))
    detach-IsValid free = record {
      table = Table-set_fd (set_device v c) k fresh_fd (Table-set_device c v iv.table);
      owner = λ j a. elim (Bool-cases (j == k)) [
        | inl e ↦ ground arith
        | inr e ↦
            let (u, at, f) = iv.owner j (ground arith) in
            (u, ground (arith, written (c.fds j).device_wrapper), f)
      ];
      owned = λ id j u at f.
          ground (arith, written id, iv.owned id j u, iv.owned (id_of v) k w found held);
      signalled_late = λ id u at f. ground (arith, written id, iv.signalled_late id u);
    }

    -- The device goes with its file description.
    pub destroy-detach-IsValid : IsValid (set_fd k fresh_fd (destroy_device c v))
    unfolding destroy_device
    destroy-detach-IsValid = record {
      table =
          Table-set_fd (destroy_device c v) k fresh_fd (Table-destroy_device c v w iv.table found);
      owner = λ j a. elim (Bool-cases (j == k)) [
        | inl e ↦ ground arith
        | inr e ↦
            let (u, at, f) = iv.owner j (ground arith) in
            (u, ground (arith, gone (c.fds j).device_wrapper), f)
      ];
      owned = λ id j u at f.
          ground (arith, gone id, iv.owned id j u, iv.owned (id_of v) k w found held);
      signalled_late = λ id u at f. ground (arith, gone id, iv.signalled_late id u);
    }

-- A file description that is not attached is reset.
pub fresh-IsValid :
    (c : Control) (k : ℕ) → IsValid c → (c.fds k).attached ≡ false → IsValid (set_fd k fresh_fd c)
fresh-IsValid c k iv idle = record {
  table = Table-set_fd c k fresh_fd iv.table;
  owner = λ j a. elim (Bool-cases (j == k)) [
    | inl e ↦ ground arith
    | inr e ↦ let (u, at, f) = iv.owner j (ground arith) in (u, ground arith, f)
  ];
  owned = λ id j u at f. ground (arith, iv.owned id j u at f);
  signalled_late = λ id u at f. iv.signalled_late id u at f;
}
