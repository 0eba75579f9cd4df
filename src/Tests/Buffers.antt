-- ===== src/Tests/Buffers.antt =====
-- Buffers and callbacks, tried out.
use vantiq_sdk_micro.Base.{Bytes, ◌<◌, refl, ◌≡◌, none, some, [], ◌∷◌, codes, arith, c_str}
use vantiq_sdk_micro.Memory.{fresh, length-fresh, at_live, ok}
use vantiq_sdk_micro.Memory.Returns.{Returns}
use vantiq_sdk_micro.Number.{atoi}
use vantiq_sdk_micro.Memory.Safe.{Safe}
use vantiq_sdk_micro.Buf.Safety.{Kept, edits, pushed, concatenated, edits-Safe}
use vantiq_sdk_micro.Buf.{Vmebuf, ensure_size, concat}
use vantiq_sdk_micro.Buf.Growth.{IsBuf, Grown, ensure_size-Grown, ensure_size-shrunk}
use vantiq_sdk_micro.Buf.Contents.{Left, concat-Left}
use vantiq_sdk_micro.Client.{Client}
use vantiq_sdk_micro.Client.Callbacks.{equal_nocase, header_callback}
use vantiq_sdk_micro.Client.Callbacks.Headers.{header_callback_lem, with_count, counted}
use vantiq_sdk_micro.Client.Transfer.{run_transfer, prepare_result}
use vantiq_sdk_micro.Client.Transfer.Exchange.{Exchange, exchange}
use vantiq_sdk_micro.Client.Transfer.Refines.{Refined, run_transfer-Refined}
use vantiq_sdk_micro.Client.Request.Answer.{answer, prepare_result_lem}
use vantiq_sdk_micro.Tests.{server, start_world, client, hi_buf, hi_buf-IsBuf, hi_buf-Holds, echo}

ensure_size-Grown_example :
    Returns (Grown 100 hi_buf start_world) (ensure_size (some hi_buf) 100 start_world)
ensure_size-Grown_example =
    ensure_size-Grown 100 start_world refl hi_buf-IsBuf (omega arith) (omega arith)

concat-Left_example :
    Returns (Left (codes "hi you") start_world) (concat hi_buf (codes " you too") 4 start_world)
concat-Left_example =
    concat-Left (codes " you too") 4 start_world refl hi_buf-Holds (omega arith) (omega arith)

header_callback_lem_example :
    header_callback (codes "x-total-count: 12") 1 17 client start_world
    ≡ with_count
        (counted (codes "x-total-count: 12") 0)
        (codes "x-total-count: 12")
        client
        start_world
header_callback_lem_example =
    header_callback_lem (codes "x-total-count: 12") client start_world (omega arith)

-- A client that still has four of six bytes to send.
abbrev sender : Client
sender = record client { send_state = record { readptr = codes "abcdef"; sizeleft = 4 } }

shown : counted (codes "X-Total-Count: 3") 0 ≡ some 3
unfolding equal_nocase atoi c_str
shown = refl

-- The client behind "hi", with "abcd" to be sent.
abbrev begun : Exchange
begun = record { count = 0; body = codes "hi"; to_send = codes "abcd"; calls = [] }

run_transfer-Refined_example :
    Returns
      (Refined sender start_world (exchange none 9 echo begun))
      (run_transfer echo sender start_world)
run_transfer-Refined_example =
    run_transfer-Refined sender start_world refl none echo begun sender start_world refl
      (record {
        holds = hi_buf-Holds;
        counts = refl;
        sends = refl;
        in_block = omega arith;
        frame = refl;
        world = refl;
      })
      (omega arith, (omega arith, (3, shown), (omega arith, tt)))

prepare_result_lem_example :
    prepare_result server 7 [] client start_world
    ≡ ok (answer server 7 0 0 [] (codes "hi"), client) (at_live start_world 8)
prepare_result_lem_example =
    prepare_result_lem server 7 [] (codes "hi") client start_world refl hi_buf-Holds

-- A block of 1 MB with 2000 bytes in use.
abbrev large_cells : Bytes
large_cells = fresh (λ i. 0) 0 1048576

abbrev large_buf : Vmebuf
large_buf = record { len = 2000; limit = 1048576; cells = some large_cells }

large_buf-IsBuf : IsBuf large_buf
large_buf-IsBuf = record {
  sized = length-fresh (λ i. 0) 0 1048576;
  within = omega arith;
  least = omega arith;
  fits = omega arith;
}

ensure_size-shrunk_example :
    (b : Vmebuf) × (ensure_size (some large_buf) 100 start_world ≡ ok b start_world)
    × (b.limit < b.len)
ensure_size-shrunk_example =
    ensure_size-shrunk large_buf 100 start_world refl large_buf-IsBuf (omega arith) (omega arith)
      (omega arith)

-- An allocator that grants one more request.
edits-Safe_example : Safe (Kept (codes "hi you!") (record start_world { ration = some 1 })) (
    edits
      (concatenated (codes " you too") 4 ∷ pushed b'!' ∷ [])
      hi_buf
      (record start_world { ration = some 1 }))
edits-Safe_example =
    edits-Safe (concatenated (codes " you too") 4 ∷ pushed b'!' ∷ [])
      (record start_world { ration = some 1 }) hi_buf-Holds (omega arith)
      ((omega arith, omega arith), (omega arith, tt))
