-- ===== src/Tests/ReadingRuns.antt =====
-- A file of five bytes, of which a client reads three (examples/ibio_client.c, ibio_server.c).
use libibtl.Base.{◌+◌, ◌≡◌, refl, some, List, ◌∷◌, [], arith}
use libibtl.Base.Int.{pos}
use libibtl.Datatype.{Memory}
use libibtl.ProcMan.{read_at}
use libibtl.Ibio.{IbvioOpen, Call}
use libibtl.Ibio.Client.{Client, ibtl_read}
use libibtl.Ibio.Server.{Event, ibvio_sread}
use libibtl.Ibio.Reading.{serve_events, make_client_calls}
use libibtl.Ibio.Reading.Copied.{Filled, ibtl_read-Filled}

abbrev client : Client
client = record { host_ids = pos 2 ∷ []; next_host_id = 3 }

abbrev stack : IbvioOpen
stack = record { fd = pos 0; stat = pos 0; count = pos 0; path = []; flags = pos 0; mode = pos 0 }

abbrev file : Memory
file a = a + 65

abbrev blank : Memory
blank a = 0

ibtl_read-Filled_example :
    (calls : List Call) × (events : List Event) × (memory' : Memory) × (ibtl_read client
        (pos 0)
        700
        3
        stack
      ≡ some (calls, pos 0))
    × (ibvio_sread 3 ≡ some events)
    × (make_client_calls calls (serve_events file 5 events 2 blank) blank ≡ some memory')
    × Filled (λ i. file (2 + i)) 700 0 3 blank memory'
unfolding read_at
ibtl_read-Filled_example =
    ibtl_read-Filled client (pos 0) (pos 2) 700 3 5 2 stack file blank blank refl (omega arith)
      (omega arith)
