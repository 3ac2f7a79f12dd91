-- ===== src/LocalFirst/Inventory/Safety.antt =====
-- The business rule of the inventory: a command takes no balance below zero.
use local_first_architecture.Base.{
  String, ◌≡◌, refl, ap, ◌∙◌, Option, none, some, ◌⊎◌, inl, inr, text_comparable,
}
use local_first_architecture.Base.Int64.{Int64, is_negative}
use local_first_architecture.LocalFirst.Store.{Record}
use local_first_architecture.LocalFirst.Balances.{
  Change, Moved, Codec, Key, key_comparable, State, balance, type_received, type_issued, type_moved,
}
use local_first_architecture.LocalFirst.Inventory.{
  Inventory, CommandError, guard, append_event, guarded, receive, issue, move,
}
use local_first_architecture.LocalFirst.Inventory.Accepted.{
  IsAccepted, IsUnmoved, IsFaithful, Fits, IsKept, append_event-cases, guard-positive,
  received-IsKept, issued-IsKept, moved-IsKept,
}

pub data Command : Type 0 where
  receives : String → String → Int64 → Command
  issues : String → String → Int64 → Command
  moves : String → String → String → Int64 → Command

-- No credit of the command takes the balance of the key out of range.
abbrev pub HasRoom : Command → Key → State → Type 0
HasRoom (receives sku location q) k s = Fits (record { sku = sku; location = location }) k q s
HasRoom (issues sku location q) k s = Unit
HasRoom (moves sku from to q) k s = Fits (record { sku = sku; location = to }) k q s

module _ {P : Type 0} (codec : Codec P) where
  abbrev pub run :
      Inventory P → Int64 → (Record P → Int64) → Command → (CommandError ⊎ Record P) × Inventory P
  run i reading wall (receives sku location q) = receive codec i reading wall sku location q
  run i reading wall (issues sku location q) = issue codec i reading wall sku location q
  run i reading wall (moves sku from to q) = move codec i reading wall sku from to q

module _ {P : Type 0} (codec : Codec P) (faithful : IsFaithful codec) where
  -- What holds after a command: a balance is kept, and a refusal changes nothing but the clock.
  Holds : Inventory P → (CommandError ⊎ Record P) × Inventory P → Key → Type 0
  Holds i out k =
      IsKept i.live.balances out.1.live.balances k
      × ((e : CommandError) → out.0 ≡ inl e → IsUnmoved i out.1)

  guarded-Holds :
      (g : Option CommandError) (i : Inventory P) (out : (CommandError ⊎ Record P) × Inventory P)
      (k : Key)
      → (g ≡ none → Holds i out k)
      → Holds i (guarded g i out) k
  unfolding Holds
  guarded-Holds none i out k h = h refl
  guarded-Holds (some e) i out k h = (λ x. x, λ e' eq. (refl, refl))

  append_event-Holds :
      (i : Inventory P) (reading : Int64) (wall : Record P → Int64) (typ : String) (payload : P)
      (k : Key)
      → ((r : Record P) (j : Inventory P)
          → r.typ ≡ typ
          → r.payload ≡ payload
          → IsAccepted codec i r j
          → IsKept i.live.balances j.live.balances k)
      → Holds i (append_event codec i reading wall typ payload) k
  unfolding Holds
  append_event-Holds i reading wall typ payload k kept =
      let out = append_event codec i reading wall typ payload in
      elim (append_event-cases codec i reading wall typ payload) [
        | inl (r, answer, typed, paid, accepted) ↦
            (kept r out.1 typed paid accepted, λ e eq. absurd (cc (answer, eq)))
        | inr (e, answer, unmoved) ↦
            (λ h. ap (λ s. is_negative (balance k s)) unmoved.1 ∙ h, λ e' eq. unmoved)
      ]

  -- On a node, a command takes no balance below zero: a balance that was not negative, at any key, is
  -- not negative after the command, where the stock that a key is credited with fits in an int64. A
  -- command that is refused, for whatever reason, leaves the log and the balances as they were. Events
  -- are taken to decode to themselves.
  pub command-IsKept :
      (i : Inventory P) (reading : Int64) (wall : Record P → Int64) (c : Command) (k : Key)
      → HasRoom c k i.live.balances
      → let out = run codec i reading wall c in
        IsKept i.live.balances out.1.live.balances k
        × ((e : CommandError) → out.0 ≡ inl e → IsUnmoved i out.1)
  unfolding receive issue move Holds
  command-IsKept i reading wall (receives sku location q) k room =
      let e : Change = record { sku = sku; location = location; qty = q } in
      guarded-Holds (guard i q location) i
        (append_event codec i reading wall type_received (codec.encode_change e)) k
        (λ ok.
          append_event-Holds i reading wall type_received (codec.encode_change e) k
            (λ r j typed paid accepted.
              received-IsKept codec faithful i j r e k typed paid accepted
                (guard-positive i q location ok) room))
  command-IsKept i reading wall (issues sku location q) k room =
      let e : Change = record { sku = sku; location = location; qty = q } in
      guarded-Holds (guard i q location) i
        (append_event codec i reading wall type_issued (codec.encode_change e)) k
        (λ ok.
          append_event-Holds i reading wall type_issued (codec.encode_change e) k
            (λ r j typed paid accepted. issued-IsKept codec faithful i j r e k typed paid accepted))
  command-IsKept i reading wall (moves sku from to q) k room =
      let e : Moved = record { sku = sku; from = from; to = to; qty = q } in
      guarded-Holds (guard i q from) i
        (append_event codec i reading wall type_moved (codec.encode_moved e)) k
        (λ ok.
          append_event-Holds i reading wall type_moved (codec.encode_moved e) k
            (λ r j typed paid accepted.
              moved-IsKept codec faithful i j r e k typed paid accepted (guard-positive i q from ok)
                room))
