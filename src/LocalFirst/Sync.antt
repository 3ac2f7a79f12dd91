-- ===== src/LocalFirst/Sync.antt =====
-- localfirst-go/sync: convert.go, session.go and client.go. A peer is the frames that it sends, ended by
-- EOF; a frame that is sent arrives. Failures of the stream and of the database are left out, so that
-- an exchange fails by what the peer sends alone.
pub mod Safety
mod Examples
use Prim.Native.Nat.{min}
use local_first_architecture.Base.{
  ℕ, zero, suc, ◌+◌, ◌-◌, ◌*◌, ◌^◌, String, Bool, true, false, not, ◌&&◌, Option, none, some, List,
  [], ◌∷◌, ◌++◌, ◌⊎◌, inl, inr, filter, map, leb, ltb, nat_beq, ◌==◌, text_comparable,
  if◌then◌else◌,
}
use local_first_architecture.Base.Int64.{Int64}
use local_first_architecture.LocalFirst.Store.{Record, Store, merge, set_cursor}
use local_first_architecture.LocalFirst.Store.Query.{VersionVector, seq_of, since, version}

-- syncpb.Record
pub record Wire (P : Type 0) : Type 0 where
  pub node_id : String
  pub seq : ℕ
  pub hlc_wall : Int64
  pub hlc_logical : ℕ
  pub typ : String
  pub payload : P

-- syncpb.Frame; `other` is a frame without a body that is known.
pub data Frame (P : Type 0) : Type 0 where
  hello : String → VersionVector → Frame P
  batch : List (Wire P) → Frame P
  ack : VersionVector → Frame P
  other : Frame P

pub data SyncError : Type 0 where
  no_hello protocol invalid_record not_merged : SyncError

-- batchSize
abbrev pub batch_size : ℕ
batch_size = 100

module _ {P : Type 0} where
  -- RecordToPB(r)
  unfoldable pub record_to_pb : Record P → Wire P
  record_to_pb r = record {
    node_id = r.node_id;
    seq = r.seq;
    hlc_wall = r.clock.wall;
    hlc_logical = r.clock.logical;
    typ = r.typ;
    payload = r.payload;
  }

  -- RecordFromPB(p)
  unfoldable pub record_from_pb : Wire P → Record P
  record_from_pb p = record {
    node_id = p.node_id;
    seq = p.seq;
    clock = record { wall = p.hlc_wall; logical = p.hlc_logical; node_id = p.node_id };
    typ = p.typ;
    payload = p.payload;
  }

  -- ValidatePeerRecord(r, localNodeID), with `true` for nil
  unfoldable pub is_peer_record : Record P → String → Bool
  is_peer_record r local_node_id =
      not (r.node_id == "") && not (r.node_id == local_node_id) && not (nat_beq r.seq 0)

  -- The loop of pushAndAck that sends the batches, with room for `room` more records in `filling`.
  unfoldable pub batches : ℕ → List (Wire P) → List (Record P) → List (Frame P)
  batches room [] [] = []
  batches room (w ∷ ws) [] = batch (w ∷ ws) ∷ []
  batches zero filling (r ∷ rs) = batch filling ∷ batches (batch_size - 1) (record_to_pb r ∷ []) rs
  batches (suc room) filling (r ∷ rs) = batches room (filling ++ (record_to_pb r ∷ [])) rs

  -- pushAndAck: the frames that are sent, and the version that the ack carries
  unfoldable pub push_and_ack : Store P → VersionVector → List (Frame P) × VersionVector
  push_and_ack s peer_vv =
      let vv = version s in
      let bounded = filter (λ r. leb r.seq (seq_of r.node_id vv)) (since s peer_vv) in
      (batches batch_size [] bounded ++ (ack vv ∷ []), vv)

  -- sendHello
  unfoldable pub send_hello : Store P → Frame P
  send_hello s = hello s.node_id (version s)

  -- The records of a batch, or `none` at the first that no peer could have authored.
  unfoldable pub accept_all : String → List (Wire P) → Option (List (Record P))
  accept_all local_node_id [] = some []
  accept_all local_node_id (w ∷ ws) =
      if is_peer_record (record_from_pb w) local_node_id
      then elim (accept_all local_node_id ws) [
        | none ↦ none
        | some rs ↦ some (record_from_pb w ∷ rs)
      ]
      else none

  module _ {T : Type 0} where
    -- drain: the error, if any, with the store and the projection that the batches before it left
    unfoldable pub drain :
        Option (T → Record P → Option T)
        → List (Frame P)
        → Store P
        → T
        → Option SyncError × Store P × T
    drain p [] s t = (none, s, t)
    drain p (hello node vv ∷ frames) s t = (some protocol, s, t)
    drain p (other ∷ frames) s t = (some protocol, s, t)
    drain p (ack vv ∷ frames) s t = (none, s, t)
    drain p (batch ws ∷ frames) s t = elim (accept_all s.node_id ws) [
      | none ↦ (some invalid_record, s, t)
      | some rs ↦
          let (inserted, bad, s', t') = merge s t rs p in
          if bad then (some not_merged, s', t') else drain p frames s' t'
    ]

    -- Exchange, given the frames that the peer sends: the outcome, the frames that are sent, the store
    -- and the projection
    unfoldable pub exchange_after :
        Option (T → Record P → Option T)
        → Bool
        → VersionVector
        → List (Frame P)
        → Store P
        → T
        → (SyncError ⊎ VersionVector) × List (Frame P) × Store P × T
    exchange_after p initiator peer_vv frames s t =
        let sent =
          if initiator then send_hello s ∷ [] else send_hello s ∷ (push_and_ack s peer_vv).0 in
        let (error, s', t') = drain p frames s t in
        elim error [
          | some e ↦ (inl e, sent, s', t')
          | none ↦
              if initiator
              then (inr ((push_and_ack s' peer_vv).1), sent ++ (push_and_ack s' peer_vv).0, s', t')
              else (inr [], sent, s', t')
        ]

    unfoldable pub exchange :
        Option (T → Record P → Option T)
        → Bool
        → List (Frame P)
        → Store P
        → T
        → (SyncError ⊎ VersionVector) × List (Frame P) × Store P × T
    exchange p initiator [] s t = (inl no_hello, if initiator then send_hello s ∷ [] else [], s, t)
    exchange p initiator (hello node vv ∷ frames) s t = exchange_after p initiator vv frames s t
    exchange p initiator (batch ws ∷ frames) s t =
        (inl protocol, if initiator then send_hello s ∷ [] else [], s, t)
    exchange p initiator (ack vv ∷ frames) s t =
        (inl protocol, if initiator then send_hello s ∷ [] else [], s, t)
    exchange p initiator (other ∷ frames) s t =
        (inl protocol, if initiator then send_hello s ∷ [] else [], s, t)

    -- SyncOnce with a peer; `responded` says that the stream ended without the responder's error.
    unfoldable pub sync_once :
        Option (T → Record P → Option T)
        → String
        → List (Frame P)
        → Bool
        → Store P
        → T
        → Bool × Store P × T
    sync_once p peer frames responded s t =
        let (outcome, sent, s', t') = exchange p true frames s t in
        elim outcome [
          | inl e ↦ (false, s', t')
          | inr vv ↦
              if responded
              then (true, set_cursor s' peer (seq_of s'.node_id vv), t')
              else (false, s', t')
        ]
