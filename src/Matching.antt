-- ===== src/Matching.antt =====
-- The matching of products over shops: backend/app/modules/matching/signature.py and engine.py in
-- the same folder. `Merge` has the pass that merges groups of similar titles, `Signature` the
-- brand and the model code that are read off a name, `Titles` the tokens and the score of titles,
-- `Methods` the choice of a method and the writes.
pub mod Chars
pub mod Merge
pub mod Signature
pub mod Methods
pub mod Titles
