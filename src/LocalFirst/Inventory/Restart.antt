-- ===== src/LocalFirst/Inventory/Restart.antt =====
-- NewInventory reads from the log the balances that the node had before it stopped.
use local_first_architecture.Base.{
  ◌<◌, String, ◌≡◌, refl, sym, ap, ◌∙◌, some, List, [], ◌∷◌, inl, inr, arith, Sum-cases, All,
}
use local_first_architecture.Base.Int64.{Int64}
use local_first_architecture.Base.Table.{lookup}
use local_first_architecture.LocalFirst.Clock.{Clock, observe}
use local_first_architecture.LocalFirst.Store.{Record, Store}
use local_first_architecture.LocalFirst.Store.Consistent.{IsConsistent, replay}
use local_first_architecture.LocalFirst.Store.Query.Replay.{sort-Permᴰ, since-everything}
use local_first_architecture.LocalFirst.Balances.{Codec, Key, balance, apply, fold_records}
use local_first_architecture.LocalFirst.Balances.Effect.{IsInts}
use local_first_architecture.LocalFirst.Balances.Replay.{fold-perm_balances}
use local_first_architecture.LocalFirst.Inventory.{Live, Inventory, project, new_inventory}

empty-IsInts : IsInts []
unfolding lookup
empty-IsInts k = omega arith

module _ {P : Type 0} (codec : Codec P) (wall : Record P → Int64) where
  -- A replay by Project folds the balances.
  replay-fold :
      (rs : List (Record P)) (l m : Live)
      → replay (some (project codec wall)) l rs ≡ some m
      → fold_records codec l.balances rs ≡ inr m.balances
  unfolding fold_records project
  replay-fold [] l m h = let same : l ≡ m = cc h in ap (λ x. inr x.balances) same
  replay-fold (r ∷ rs) l m h = elim (Sum-cases (apply codec l.balances r)) [
    | inl (e, bad) ↦ absurd (ground (arith, bad))
    | inr (s, fine) ↦
        let next : Live = record { balances = s; clk = observe l.clk (wall r) r.clock } in
        let here : project codec wall l r ≡ some next = rw (project, fine) refl in
        let step : replay (some (project codec wall)) l (r ∷ rs)
            ≡ replay (some (project codec wall)) next rs =
          rw (replay, here) refl in
        rw (fold_records, fine) (replay-fold rs next m (sym step ∙ h))
  ]

  -- A node that starts again on its log reads at every key the balance that it had, whatever the order
  -- in which the records came in: NewInventory replays them in the order of their timestamps. The log
  -- is one that Append and Merge keep, from an empty projection, with numbers from 1 on.
  pub new_inventory-balances :
      (store : Store P) (first live : Live) (clk : Clock) (owned : List String)
      → first.balances ≡ []
      → IsConsistent (some (project codec wall)) first store live
      → All (λ r. 0 < r.seq) store.records
      → (i : Inventory P) × (new_inventory codec store clk owned ≡ inr i)
        × ((k : Key) → balance k i.live.balances ≡ balance k live.balances)
  unfolding new_inventory
  new_inventory-balances store first live clk owned empty c numbered =
      let once : fold_records codec [] store.records ≡ inr live.balances =
        ap (λ s. fold_records codec s store.records) (sym empty)
        ∙ replay-fold store.records first live c.projected in
      let (s, again, same) =
        fold-perm_balances codec (sort-Permᴰ store.records) [] live.balances empty-IsInts once in
      (
        record { store = store; owned = owned; live = record { balances = s; clk = clk } },
        rw (new_inventory, since-everything store numbered, again) refl,
        λ k. sym (same k),
      )
