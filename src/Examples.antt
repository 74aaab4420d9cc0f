-- ===== src/Examples.antt =====
-- The theorems at concrete inputs, and tests of the definitions on inputs that can be followed in
-- the source.
mod ValueCases
mod BytesCases
mod PlannerCases
mod CodecCases
mod RangeCases
mod EntryCases
mod ArrayCases
mod DiscardCases
mod WalCases
mod HeaderCases
mod CacheCases
mod TableCases
mod RestoreCases
mod TombstoneCases
mod CursorCases
mod ManagerCases
mod IntegerCases
