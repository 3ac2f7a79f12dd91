-- ===== src/Lab/Log/Examples.antt =====
-- A log of three nodes' events on one item, two of them folded into a snapshot.
use local_first_architecture.Base.{
  ℕ, suc, ◌+◌, ◌≤◌, ◌<◌, String, ◌≡◌, not, text_comparable, refl, true, false, some, [], ◌∷◌,
  filter,
}
use local_first_architecture.Base.Table.{lookup, insert}
use local_first_architecture.Lab.Event.{Event, validate}
use local_first_architecture.Lab.Vector.{seq_of}
use local_first_architecture.Lab.Samples.{received, picked, renamed, at_a}
use local_first_architecture.Lab.Log.{
  Log, held, same_id, high_mark, max_seq, append, append_local, next_event, store_local,
  version_vector, compact, compact_skus, compact_nodes, compact_node, intersect, stranded, doomed,
}
use local_first_architecture.Lab.Log.Frontier.{IsKeyed, version_vector-gap_free}
use local_first_architecture.Lab.Log.Append.{append_again, append_local_fresh}
use local_first_architecture.Lab.Log.Compact.{is_covered, IsSnapshots, compact_keeps}
use local_first_architecture.Lab.Log.HighMark.{high_mark-compact}

abbrev stocked : Log String
stocked = record {
  events = at_a;
  watermark = [];
  snapshots = ("S", ("blob", ("a", 1) ∷ ("b", 1) ∷ [])) ∷ [];
  cursors = [];
}

stocked-IsKeyed : IsKeyed stocked.events
unfolding held same_id
stocked-IsKeyed = (refl, (refl, (refl, tt)))

stocked-IsSnapshots : IsSnapshots stocked.snapshots
unfolding lookup
stocked-IsSnapshots = ((refl, tt), ((refl, (refl, tt)), tt))

version_vector-gap_free_example :
    (seq_of "a" [] ≤ seq_of "a" (version_vector stocked))
    × ((s : ℕ)
        → seq_of "a" [] < s
        → s ≤ seq_of "a" (version_vector stocked)
        → held (record { node = "a"; seq = s }) at_a ≡ true)
    × (held (record { node = "a"; seq = suc (seq_of "a" (version_vector stocked)) }) at_a ≡ false)
version_vector-gap_free_example = version_vector-gap_free stocked "a" stocked-IsKeyed

append_again_example : append (append stocked received).1 received ≡ append stocked received
append_again_example = append_again stocked received

abbrev mint : ℕ → Event
mint s = record received { id = record { node = "a"; seq = s } }

minted : (append_local stocked mint).0 ≡ some (mint 2)
unfolding append_local store_local next_event high_mark max_seq validate lookup
minted = refl

append_local_fresh_example :
    ((mint 2).id.node ≡ "a")
    × ((mint 2).id.seq ≡ high_mark "a" stocked + 1)
    × (held (mint 2).id stocked.events ≡ false)
    × (held (mint 2).id (append_local stocked mint).1.events ≡ true)
    × (high_mark "a" (append_local stocked mint).1 ≡ (mint 2).id.seq)
append_local_fresh_example = append_local_fresh stocked "a" mint (mint 2) (λ s. refl) minted

compact_keeps_example :
    filter
      (λ e. not (is_covered stocked.snapshots (("a", 1) ∷ []) e))
      (compact stocked (("a", 1) ∷ [])).events
    ≡ filter (λ e. not (is_covered stocked.snapshots (("a", 1) ∷ []) e)) stocked.events
compact_keeps_example = compact_keeps stocked (("a", 1) ∷ []) stocked-IsSnapshots

high_mark-compact_example : high_mark "a" stocked ≤ high_mark "a" (compact stocked (("a", 1) ∷ []))
high_mark-compact_example = high_mark-compact "a" stocked (("a", 1) ∷ [])

-- Compaction deletes the covered row, and its number stays used.
compacted : (compact stocked (("a", 1) ∷ [])).events ≡ picked ∷ renamed ∷ []
unfolding compact compact_skus compact_nodes compact_node intersect stranded doomed lookup insert
compacted = refl

still_used : high_mark "a" (compact stocked (("a", 1) ∷ [])) ≡ 1
unfolding compact compact_skus compact_nodes compact_node intersect stranded doomed lookup insert
    high_mark max_seq
still_used = refl
