-- ===== src/Tests/TransferRuns.antt =====
-- Four bytes from rank 0 to a receive with tag 7 (src/fdmi.c).
use libibtl.Base.{◌+◌, ◌≡◌, ◌≢◌, refl, true, some, [], ◌∷◌, inr}
use libibtl.Engine.{Mr, Query, Param, Engine}
use libibtl.Store.{Ptr}
use libibtl.Engine.Send.{on_send_cq_wc_recv}
use libibtl.Engine.Transfer.Acknowledge.{on_send_cq_wc_recv-oldest}
use libibtl.Engine.Arrival.Sound.{Usable}
use libibtl.Tests.EngineRuns.{
  connection, platform, platform-Accepts, empty_engine, message, param, some_mr,
}

abbrev send : Param
send = record param { request = 78; addr = 100 }

-- the sender's memory holds the addresses themselves
abbrev sender : Engine
sender = record empty_engine { memory = λ a. a }

abbrev arrived : Query
arrived = record message { msg = record (message.msg) { eager_buff = λ i. 100 + i } }

-- the registration of the buffer
abbrev buffer : Mr
buffer = record { pd = 9; addr = 100; length = 4; key = 2 }

-- the request at 5 has waited for its acknowledgement before the one at 6
abbrev two_sends : Engine
two_sends = record empty_engine { send_req_q = 5 ∷ 6 ∷ [] }

two_sends-Usable : Usable two_sends
two_sends-Usable = record { free = tt; waiting = tt; arrived = tt; sending = (refl, (refl, tt)) }

on_send_cq_wc_recv-oldest_example :
    (e' : Engine) × (on_send_cq_wc_recv platform message two_sends ≡ some e')
    × ((e'.requests 5).request_flag ≡ true)
    × ((p : Ptr) → p ≢ 5 → e'.requests p ≡ two_sends.requests p)
    × (e'.send_req_q ≡ 6 ∷ [])
on_send_cq_wc_recv-oldest_example =
    on_send_cq_wc_recv-oldest platform message connection 5 (6 ∷ []) two_sends refl
      (inr (some_mr, refl)) tt two_sends-Usable refl platform-Accepts
