-- ===== src/Rtd.antt =====
-- extensions/exposition/source/RTD: the resource tree. `Segment` reads paths, `Node` is the tree
-- with its matching, `Merge` the merging of branches, `Factory` builds a tree from its syntax.
pub mod Segment
pub mod Node
pub mod Merge
pub mod Factory
pub mod Parse
