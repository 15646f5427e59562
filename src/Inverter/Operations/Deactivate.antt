-- ===== src/Inverter/Operations/Deactivate.antt =====
-- `kbdus_inverter_deactivate` (kbdus/src/inverter.c).
use bdus.Base.{Bool, arith}
use bdus.Inverter.State.{ReqState, Inverter, uint_max}
use bdus.Inverter.Lifecycle.{deactivate}
use bdus.Inverter.Valid.{IsValid}
use bdus.Inverter.Sizes.{length-le-size}
use bdus.Inverter.Operations.Get.{flags-IsValid}

pub deactivate-IsValid :
    (inv : Inverter) (flush : Bool) → IsValid inv → IsValid (deactivate inv flush)
unfolding deactivate
deactivate-IsValid inv flush v = flags-IsValid inv _ uint_max v (ground arith) (
    ground (
      arith,
      v.wakeups,
      v.size,
      v.small,
      length-le-size ReqState.awaiting_get inv.reqs_all inv.reqs_awaiting_get v.lists.awaiting_list,
    ))
