-- ===== src/Examples.antt =====
-- Runs of the modelled code at concrete inputs, and each theorem at an input.
mod FreePages
mod LeafNodes
mod BranchNodes
mod Lookups
mod Duplicates
mod PageGets
mod Trees
mod IdLists
mod IdPairs
mod Transactions
mod Comparisons
mod Cursors
mod Environments
mod EnvFlags
mod Pages
