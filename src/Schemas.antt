-- ===== src/Schemas.antt =====
-- app/schemas/*.py: the data that the components exchange. A UUID is a number, a moment a number of
-- milliseconds, a calendar date its ISO text. A score is a float between 0 and 1, given by its bit
-- pattern: on floats that are not negative the order of the patterns is the order of the values.
pub mod Chat
pub mod Events
pub mod Feedback
pub mod Indexing
pub mod Minutes
use be25_fin_thanos_meetbowl.Prelude.{ℕ}

abbrev pub Uuid : Type 0
Uuid = ℕ

abbrev pub Moment : Type 0
Moment = ℕ

abbrev pub Score : Type 0
Score = ℕ
