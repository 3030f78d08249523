-- ===== src/Tests/Quorums.antt =====
-- Runs of the thresholds, the aggregator and the broadcast in a committee of four.
use loom.Committee.{NodeId, low_threshold, hight_threshold}
use loom.Committee.Quorum.{members, common-quorum}
use loom.Aggregator.{new_aggregator}
use loom.Aggregator.Counting.{feed, distinct_authors, feed_lem}
use loom.Tests.{four}
use loom.Prelude.{◌/◌, ◌≤◌, ◌≡◌, refl, List, [], ◌∷◌, map, arith, length, All}
use loom.Prelude.Int.{pos}
use loom.Prelude.Eq.{nat_eq, int_eq, string_eq, list_eq}
use loom.Prelude.Distinct.{Distinct, Within, common}

abbrev left : List NodeId
left = pos 0 ∷ pos 1 ∷ pos 2 ∷ []

abbrev right : List NodeId
right = pos 1 ∷ pos 2 ∷ pos 3 ∷ []

Within-left : Within left (members four)
Within-left a h = ground arith

Within-right : Within right (members four)
Within-right a h = ground arith

common-quorum_example : low_threshold four ≤ length (common left right)
common-quorum_example =
    common-quorum four left right 1 refl (refl, (refl, (refl, tt))) (refl, (refl, (refl, tt)))
      Within-left Within-right (omega arith) (omega arith)

-- Node 1 votes twice.
abbrev votes : List NodeId
votes = pos 1 ∷ pos 1 ∷ pos 3 ∷ pos 0 ∷ pos 2 ∷ []

abbrev self : NodeId → NodeId
self v = v

feed_lem_example :
    All
      (λ batch. (length batch ≡ hight_threshold four) × Distinct (map self batch))
      (feed self votes (new_aggregator four)).0
    × (length (feed self votes (new_aggregator four)).0
        ≡ length (distinct_authors self [] votes) / hight_threshold four)
feed_lem_example = feed_lem self four votes
