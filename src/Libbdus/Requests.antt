-- ===== src/Libbdus/Requests.antt =====
-- What a worker thread of libbdus/src/backend.c does with the item that it received. Logging is left
-- out. `none` is the call of a null pointer.
use bdus.Base.{ℕ, ◌==◌, zero, suc, ◌+◌, if◌then◌else◌, true, false, not, ◌&&◌, Option, none, some}
use bdus.Base.Int.{ℤ, pos, neg, ◌==ℤ◌}
use bdus.Inverter.State.{ItemType}
use bdus.Transceiver.Payload.{Memory}
use bdus.Transceiver.Copies.{ioc_reads, ioc_writes, ioc_size}
use bdus.Libbdus.Driver.{World, Callback, Ops}

-- `memset` to 0
unfoldable pub clear_bytes : ℕ → ℕ → Memory → Memory
clear_bytes address zero mem = mem
clear_bytes address (suc n) mem =
    clear_bytes (address + 1) n (λ a. if a == address then 0 else mem a)

-- The size of the payload of the reply, or -1, with the error of the reply.
pub record Served (S : Type 0) : Type 0 where
  pub payload_size : ℤ
  pub error : ℤ
  pub world : World S

abbrev nothing : ℤ → ℤ
nothing error = pos 0

module _ {S : Type 0} where
  -- A request is served by its callback. The last argument gives the size of the payload from the
  -- error.
  abbrev pub call :
      {A : Type 0} → Option A → (A → Callback S) → World S → (ℤ → ℤ) → Option (Served S)
  call none use_it world size = none
  call (some f) use_it world size =
      let (error, after) = use_it f world in
      some (record { payload_size = size error; error = error; world = after })

  unfoldable pub process_flush_request : Ops S → World S → Option (ℤ × World S)
  process_flush_request ops world = elim ops.flush [ none ↦ none | some f ↦ some (f world) ]

  unfoldable pub process_ioctl : Ops S → ℕ → ℕ → World S → Option (Served S)
  process_ioctl ops payload arg32 world =
      if not (ioc_reads arg32) && not (ioc_writes arg32)
      then call ops.ioctl (λ f. f arg32 none) world nothing
      else (let memory =
            if ioc_writes arg32 && not (ioc_reads arg32)
            then clear_bytes payload (ioc_size arg32) world.memory
            else world.memory in
          call ops.ioctl (λ f. f arg32 (some payload)) (record world { memory = memory })
            (λ error.
              if (error ==ℤ pos 0) && ioc_writes arg32 then pos (ioc_size arg32) else pos 0))

  -- Where the error is not written, that of before stays.
  unfoldable pub process_request : Ops S → ℕ → ItemType → ℕ → ℕ → ℤ → World S → Option (Served S)
  unfolding process_flush_request process_ioctl
  process_request ops payload type arg64 arg32 error world = elim type [
    | ItemType.read ↦
        call ops.read (λ f. f payload arg64 arg32) world
          (λ e. if e ==ℤ pos 0 then pos arg32 else pos 0)
    | ItemType.write ↦ call ops.write (λ f. f payload arg64 arg32) world nothing
    | ItemType.write_same ↦ call ops.write_same (λ f. f payload arg64 arg32) world nothing
    | ItemType.write_zeros_no_unmap ↦ call ops.write_zeros (λ f. f arg64 arg32 false) world nothing
    | ItemType.write_zeros_may_unmap ↦ call ops.write_zeros (λ f. f arg64 arg32 true) world nothing
    | ItemType.fua_write ↦ call ops.fua_write (λ f. f payload arg64 arg32) world nothing
    | ItemType.flush ↦ call ops.flush (λ f. f) world nothing
    | ItemType.discard ↦ call ops.discard (λ f. f arg64 arg32) world nothing
    | ItemType.secure_erase ↦ call ops.secure_erase (λ f. f arg64 arg32) world nothing
    | ItemType.ioctl ↦ process_ioctl ops payload arg32 world
    | _ ↦ some (record { payload_size = neg 1; error = error; world = world })
  ]
