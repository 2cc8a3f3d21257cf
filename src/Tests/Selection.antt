-- ===== src/Tests/Selection.antt =====
-- The selector: four blocks, of which two are tips.
use inx_coordinator.Base.{ℕ, false, List, [], ◌∷◌}
use inx_coordinator.Selection.Selector.{Selector, reset}
use inx_coordinator.Selection.Picking.{Choices}
use inx_coordinator.Selection.Outcome.{Outcome}
use inx_coordinator.Selection.Arrival.{Follows}
use inx_coordinator.Selection.Describes.{feed, arrivals, feed-reset-Follows}
use inx_coordinator.Tests.Bits.{words}

-- The iteration in the order of the list, and the first draw.
abbrev pub in_order : Choices words.Bits
in_order = record { order = λ k bs. bs; draw = λ k. 0; expired = λ k. false }

abbrev pub fresh : Selector words.Bits
fresh = record {
  limits = record { min_unreferenced = 0; max_heaviest_tips = 2; random_tips = 1 };
  tracked = [];
  tips = [];
}

-- Block 2 has the parent 1, block 3 the parents 1 and 2, block 4 the parent 1; block 2 comes twice.
abbrev blocks : List (ℕ × List ℕ)
blocks = (1, 0 ∷ []) ∷ (2, 1 ∷ []) ∷ (3, 1 ∷ 2 ∷ []) ∷ (2, 1 ∷ []) ∷ (4, 1 ∷ []) ∷ []

feed-reset-Follows_example :
    Follows words (arrivals words [] blocks) (feed words (reset fresh) blocks)
feed-reset-Follows_example = feed-reset-Follows words fresh blocks
