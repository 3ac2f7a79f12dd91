-- ===== src/LocalFirst/Sync/Examples.antt =====
-- Node "a" with one record, and a peer that sends one of its own and then one that claims to be "a"'s.
use local_first_architecture.Base.{
  ℕ, ◌+◌, String, ◌≡◌, refl, true, false, Option, some, List, [], ◌∷◌, inl, ◌==◌, text_comparable,
}
use local_first_architecture.Base.Int64.{plus}
use local_first_architecture.LocalFirst.Store.{
  Record, Store, is_held, highest_seq, exec, merge, merge_loop, merge_one, cursor,
}
use local_first_architecture.LocalFirst.Store.Consistent.{IsConsistent}
use local_first_architecture.LocalFirst.Sync.{
  Wire, Frame, hello, batch, ack, invalid_record, record_from_pb, is_peer_record, accept_all, drain,
  exchange, exchange_after, sync_once,
}
use local_first_architecture.LocalFirst.Sync.Safety.{
  SameNode, exchange-IsConsistent, sync_once-cursor,
}

abbrev counted : Option (ℕ → Record ℕ → Option ℕ)
counted = some (λ t r. some (t + r.payload))

abbrev own : Store ℕ
own = record {
  node_id = "a";
  records =
      record {
        node_id = "a";
        seq = 1;
        clock = record { wall = plus 1; logical = 0; node_id = "a" };
        typ = "delta";
        payload = 5;
      }
      ∷ [];
  cursors = [];
  next_seq = 1;
}

own-IsConsistent : IsConsistent counted 0 own 5
unfolding is_held highest_seq
own-IsConsistent = record { keyed = (refl, tt); numbered = refl; projected = refl }

abbrev wire : String → ℕ → Wire ℕ
wire node seq = record {
  node_id = node;
  seq = seq;
  hlc_wall = plus 2;
  hlc_logical = 0;
  typ = "delta";
  payload = 3;
}

abbrev forged : List (Frame ℕ)
forged = hello "b" [] ∷ batch (wire "b" 1 ∷ []) ∷ batch (wire "a" 9 ∷ []) ∷ ack [] ∷ []

exchange-IsConsistent_example :
    let x = exchange counted false forged own 5 in IsConsistent counted 0 x.2 x.3 × SameNode own x.2
exchange-IsConsistent_example = exchange-IsConsistent counted 0 false forged own 5 own-IsConsistent

forgery_refused : (exchange counted false forged own 5).0 ≡ inl invalid_record
unfolding exchange exchange_after drain accept_all is_peer_record record_from_pb merge merge_loop
    merge_one is_held exec
forgery_refused = refl

abbrev honest : List (Frame ℕ)
honest = hello "b" [] ∷ batch (wire "b" 1 ∷ []) ∷ ack [] ∷ []

sync_once-cursor_example :
    let x = sync_once counted "b" honest true own 5 in
    (x.0 ≡ true → cursor x.1 "b" ≡ 1)
    × (x.0 ≡ false → x.1.cursors ≡ [])
    × ((other_peer : String)
        → ("b" == other_peer) ≡ false
        → cursor x.1 other_peer ≡ cursor own other_peer)
sync_once-cursor_example = sync_once-cursor counted 0 "b" honest true own 5 own-IsConsistent

acknowledged : cursor (sync_once counted "b" honest true own 5).1 "b" ≡ 1
unfolding sync_once exchange exchange_after drain accept_all is_peer_record record_from_pb merge
    merge_loop merge_one is_held exec cursor
acknowledged = (sync_once-cursor counted 0 "b" honest true own 5 own-IsConsistent).0 refl
