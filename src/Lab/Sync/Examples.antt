-- ===== src/Lab/Sync/Examples.antt =====
-- The samples on the wire.
use Prim.Native.Nat.{min}
use local_first_architecture.Base.{◌*◌, ◌^◌, ◌≡◌, refl, none, [], All, arith}
use local_first_architecture.Base.Int64.{int_zero, plus, minus}
use local_first_architecture.Lab.Event.{validate}
use local_first_architecture.Lab.Samples.{received, picked, renamed, at_a}
use local_first_architecture.Lab.Sync.{stream_events, backoff_for}
use local_first_architecture.Lab.Sync.RoundTrip.{decode_frames, IsBatch, stream-decode}
use local_first_architecture.Lab.Sync.Delay.{backoff_for_bounded}

received-valid : validate received ≡ none
unfolding validate
received-valid = refl

picked-valid : validate picked ≡ none
unfolding validate
picked-valid = refl

renamed-valid : validate renamed ≡ none
unfolding validate
renamed-valid = refl

stream-decode_example :
    let sent = stream_events 2 [] at_a in
    (sent.1 ≡ none) × (decode_frames sent.0 ≡ at_a) × All (IsBatch 2) sent.0
stream-decode_example =
    stream-decode 2 at_a (omega arith) (received-valid, (picked-valid, (renamed-valid, tt)))

backoff_for_bounded_example :
    (backoff_for (plus (10 ^ 9)) 7 ≡ plus (min (10 ^ 9 * 2 ^ 7) (30 * 10 ^ 9)))
    × (backoff_for (minus (10 ^ 9)) 7 ≡ int_zero)
backoff_for_bounded_example = backoff_for_bounded (10 ^ 9) 7 (omega arith)
