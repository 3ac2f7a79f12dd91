-- ===== src/LocalFirst/Sync/Safety.antt =====
-- Whatever a peer sends, an exchange keeps the store consistent and the node's own numbering its own.
use mathlib.Core.Path.{subst}
use local_first_architecture.Base.{
  ℕ, ◌+◌, String, ◌≡◌, refl, sym, ap, ◌∙◌, Bool, true, false, Option, some, List, [], ◌∷◌, inl, inr,
  ◌==◌, text_comparable, arith, Bool-cases, Option-cases, Sum-cases, All, same_refl,
}
use local_first_architecture.Base.Table.{lookup_or, lookup-insert}
use local_first_architecture.LocalFirst.Store.{
  Record, Store, is_held, exec, project_with, merge_one, merge_loop, merge, cursor, set_cursor,
}
use local_first_architecture.LocalFirst.Store.Consistent.{IsConsistent, merge-IsConsistent}
use local_first_architecture.LocalFirst.Store.Query.{VersionVector, seq_of, version}
use local_first_architecture.LocalFirst.Store.Query.Replay.{version-highest_seq}
use local_first_architecture.LocalFirst.Sync.{
  Wire, Frame, hello, batch, ack, other, record_from_pb, is_peer_record, push_and_ack, accept_all,
  drain, exchange_after, exchange, sync_once,
}

module _ {P : Type 0} where
  -- The identity, the numbering and the cursors of a store are as they were.
  pub record SameNode (s u : Store P) : Type 0 where
    pub id_kept : u.node_id ≡ s.node_id
    pub number_kept : u.next_seq ≡ s.next_seq
    pub cursors_kept : u.cursors ≡ s.cursors

  SameNode-self : (s : Store P) → SameNode s s
  SameNode-self s = record { id_kept = refl; number_kept = refl; cursors_kept = refl }

  SameNode-trans : {s u v : Store P} → SameNode s u → SameNode u v → SameNode s v
  SameNode-trans h k = record {
    id_kept = k.id_kept ∙ h.id_kept;
    number_kept = k.number_kept ∙ h.number_kept;
    cursors_kept = k.cursors_kept ∙ h.cursors_kept;
  }

  abbrev IsForeign : String → Record P → Type 0
  IsForeign node r = (r.node_id == node) ≡ false

  -- The records that are accepted are other nodes' ones.
  accept_all-IsForeign :
      (node : String) (ws : List (Wire P)) (rs : List (Record P))
      → accept_all node ws ≡ some rs
      → All (IsForeign node) rs
  unfolding accept_all is_peer_record
  accept_all-IsForeign node [] rs h =
      let none_left : [] ≡ rs = cc h in subst (All (IsForeign node)) none_left tt
  accept_all-IsForeign node (w ∷ ws) rs h =
      elim (Bool-cases (is_peer_record (record_from_pb w) node)) [
        | inr bad ↦ absurd (ground (arith, bad, h))
        | inl good ↦ elim (Option-cases (accept_all node ws)) [
          | inl stopped ↦ absurd (ground (arith, good, stopped, h))
          | inr (qs, rest) ↦
              let same : record_from_pb w ∷ qs ≡ rs = ground (arith, good, rest, h) in
              subst (All (IsForeign node)) same
                (ground (arith, good), accept_all-IsForeign node ws qs rest)
        ]
      ]

module _ {P T : Type 0} (p : Option (T → Record P → Option T)) where
  merge_loop-SameNode :
      (rs : List (Record P)) (n : ℕ) (s : Store P) (t : T)
      → All (IsForeign s.node_id) rs
      → SameNode s (merge_loop n s.next_seq s t rs p).2
  unfolding merge_loop merge_one
  merge_loop-SameNode [] n s t h = SameNode-self s
  merge_loop-SameNode (r ∷ rs) n s t h = elim (Bool-cases (is_held r s.records)) [
    | inl old ↦ rw (old, merge_loop) (merge_loop-SameNode rs n s t h.1)
    | inr new ↦ elim (Option-cases (project_with p t r)) [
      | inl bad ↦ rw (new, bad, merge_loop) (SameNode-self s)
      | inr (t', fine) ↦
          rw (new, fine, merge_loop, h.0)
            (SameNode-trans (record { id_kept = refl; number_kept = refl; cursors_kept = refl })
              (merge_loop-SameNode rs (n + 1) (record s { records = exec r s.records }) t' h.1))
    ]
  ]

  drain-Keeps :
      (t0 : T) (frames : List (Frame P)) (s : Store P) (t : T)
      → IsConsistent p t0 s t
      → let d = drain p frames s t in IsConsistent p t0 d.1 d.2 × SameNode s d.1
  unfolding drain merge
  drain-Keeps t0 [] s t c = (c, SameNode-self s)
  drain-Keeps t0 (hello node vv ∷ frames) s t c = (c, SameNode-self s)
  drain-Keeps t0 (other ∷ frames) s t c = (c, SameNode-self s)
  drain-Keeps t0 (ack vv ∷ frames) s t c = (c, SameNode-self s)
  drain-Keeps t0 (batch ws ∷ frames) s t c = elim (Option-cases (accept_all s.node_id ws)) [
    | inl refused ↦ rw (drain, refused) (c, SameNode-self s)
    | inr (rs, taken) ↦
        let m = merge s t rs p in
        let c' = merge-IsConsistent p t0 s t rs c in
        let same : SameNode s m.2 =
          merge_loop-SameNode rs 0 s t (accept_all-IsForeign s.node_id ws rs taken) in
        elim (Bool-cases (m.1)) [
          | inl bad ↦ rw (drain, taken, bad) (c', same)
          | inr good ↦
              let rest = drain-Keeps t0 frames m.2 m.3 c' in
              rw (drain, taken, good) (rest.0, SameNode-trans same rest.1)
        ]
  ]

  exchange_after-Keeps :
      (t0 : T) (initiator : Bool) (vv : VersionVector) (frames : List (Frame P)) (s : Store P)
      (t : T)
      → IsConsistent p t0 s t
      → let x = exchange_after p initiator vv frames s t in
        IsConsistent p t0 x.2 x.3 × SameNode s x.2
  unfolding exchange_after
  exchange_after-Keeps t0 initiator vv frames s t c =
      let kept = drain-Keeps t0 frames s t c in
      let d = drain p frames s t in
      elim (Option-cases (d.0)) [
        | inr (e, failed) ↦ rw (exchange_after, failed) kept
        | inl fine ↦ elim (Bool-cases initiator) [
          | inl first ↦ rw (exchange_after, fine, first) kept
          | inr second ↦ rw (exchange_after, fine, second) kept
        ]
      ]

  -- Whatever frames a peer sends, in whichever role, and also where the exchange fails half-way, the
  -- store stays consistent (one row to a key, and a projection that is the replay of the log), and the
  -- node's own numbering and its cursors stay as they were: no peer can author a record of this node.
  pub exchange-IsConsistent :
      (t0 : T) (initiator : Bool) (frames : List (Frame P)) (s : Store P) (t : T)
      → IsConsistent p t0 s t
      → let x = exchange p initiator frames s t in IsConsistent p t0 x.2 x.3 × SameNode s x.2
  unfolding exchange
  exchange-IsConsistent t0 initiator [] s t c = (c, SameNode-self s)
  exchange-IsConsistent t0 initiator (hello node vv ∷ frames) s t c =
      exchange_after-Keeps t0 initiator vv frames s t c
  exchange-IsConsistent t0 initiator (batch ws ∷ frames) s t c = (c, SameNode-self s)
  exchange-IsConsistent t0 initiator (ack vv ∷ frames) s t c = (c, SameNode-self s)
  exchange-IsConsistent t0 initiator (other ∷ frames) s t c = (c, SameNode-self s)

  -- The version that the initiator acknowledges is that of the store that it ends with.
  exchange-version :
      (frames : List (Frame P)) (s : Store P) (t : T) (vv : VersionVector)
      → let x = exchange p true frames s t in x.0 ≡ inr vv → version x.2 ≡ vv
  unfolding exchange exchange_after push_and_ack
  exchange-version [] s t vv h = absurd (cc h)
  exchange-version (batch ws ∷ frames) s t vv h = absurd (cc h)
  exchange-version (ack v ∷ frames) s t vv h = absurd (cc h)
  exchange-version (other ∷ frames) s t vv h = absurd (cc h)
  exchange-version (hello node v ∷ frames) s t vv h =
      let d = drain p frames s t in
      elim (Option-cases (d.0)) [
        | inr (e, failed) ↦ absurd (ground (arith, failed, h))
        | inl fine ↦
            let same : version d.1 ≡ vv = ground (arith, fine, h) in rw (exchange_after, fine) same
      ]

  -- SyncOnce moves the cursor of its peer on success alone, and then to the number of the node's newest
  -- record; the cursor of every other peer stays, and on failure every cursor does.
  pub sync_once-cursor :
      (t0 : T) (peer : String) (frames : List (Frame P)) (responded : Bool) (s : Store P) (t : T)
      → IsConsistent p t0 s t
      → let x = sync_once p peer frames responded s t in
        (x.0 ≡ true → cursor x.1 peer ≡ s.next_seq)
        × (x.0 ≡ false → x.1.cursors ≡ s.cursors)
        × ((other_peer : String)
            → (peer == other_peer) ≡ false
            → cursor x.1 other_peer ≡ cursor s other_peer)
  unfolding sync_once cursor set_cursor
  sync_once-cursor t0 peer frames responded s t c =
      let x = exchange p true frames s t in
      let (c', same) = exchange-IsConsistent t0 true frames s t c in
      elim (Sum-cases (x.0)) [
        | inl (e, failed) ↦
            rw (sync_once, failed)
              (
                λ h. absurd (cc h),
                λ h. same.cursors_kept,
                λ o d. ap (lookup_or 0 o) same.cursors_kept,
              )
        | inr (vv, fine) ↦ elim (Bool-cases responded) [
          | inr hung ↦
              rw (sync_once, fine, hung)
                (
                  λ h. absurd (cc h),
                  λ h. same.cursors_kept,
                  λ o d. ap (lookup_or 0 o) same.cursors_kept,
                )
          | inl done ↦
              let newest : seq_of x.2.node_id vv ≡ s.next_seq =
                ap (seq_of x.2.node_id) (sym (exchange-version frames s t vv fine))
                ∙ version-highest_seq x.2 x.2.node_id
                ∙ sym c'.numbered
                ∙ same.number_kept in
              rw (sync_once, fine, done)
                (
                  λ h. ground (
                    arith,
                    lookup-insert peer peer (seq_of x.2.node_id vv) x.2.cursors,
                    same_refl peer,
                    newest,
                  ),
                  λ h. absurd (cc h),
                  λ o d. ground (
                    arith,
                    d,
                    lookup-insert peer o (seq_of x.2.node_id vv) x.2.cursors,
                    same.cursors_kept,
                  ),
                )
        ]
      ]
