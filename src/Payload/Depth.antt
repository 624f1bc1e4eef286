-- ===== src/Payload/Depth.antt =====
-- How deep a host-module shape may nest: crates/server/src/ipc.rs, `read_host_module_node`.
use iso.Base.{ℕ, zero, suc, ◌+◌, ◌-◌, ◌≡◌, ok}
use iso.Wire.Bytes.{Bytes}
use iso.Wire.Reader.{Reader, Allocator}
use iso.Wire.Reader.Always.{Always, Always-pure, Always-fail, Always-bind, Always-next}
use iso.Types.{
  HostModuleNode, HostModuleEntries, function, leaf, object, no_entries, entry,
  max_host_module_depth,
}
use iso.Payload.Blocks.{
  read_entries, host_module_node_of, read_host_module_levels, read_host_module_node,
}

-- The node and what is below it take up no more than so many levels.
unfoldable mutual
  pub NestsWithin : ℕ → HostModuleNode → Type 0
  NestsWithin zero node = ⊥
  NestsWithin (suc left) function = Unit {0}
  NestsWithin (suc left) (leaf blob) = Unit {0}
  NestsWithin (suc left) (object entries) = EntriesWithin left entries

  pub EntriesWithin : ℕ → HostModuleEntries → Type 0
  EntriesWithin left no_entries = Unit {0}
  EntriesWithin left (entry key node rest) = NestsWithin left node × EntriesWithin left rest

entries_within :
    (left count : ℕ) (child : Reader HostModuleNode)
    → Always child (NestsWithin left)
    → Always (read_entries count child) (EntriesWithin left)
unfolding read_entries EntriesWithin
entries_within left zero child c = Always-pure (EntriesWithin left) no_entries tt
entries_within left (suc count) child c = Always-next _ _ _ (λ key.
    Always-bind (NestsWithin left) _ _ _ c (λ node w.
      Always-bind (EntriesWithin left) _ _ _ (entries_within left count child c)
        (λ more v. Always-pure (EntriesWithin left) (entry key node more) (w, v))))

module _ ⦃alloc : Allocator⦄ where
  node_within :
      (left tag : ℕ) (child : Reader HostModuleNode)
      → Always child (NestsWithin left)
      → Always (host_module_node_of child tag) (NestsWithin (suc left))
  unfolding host_module_node_of NestsWithin
  node_within left zero child c = Always-pure (NestsWithin (suc left)) function tt
  node_within left (suc zero) child c =
      Always-next _ _ _ (λ blob. Always-pure (NestsWithin (suc left)) (leaf blob) tt)
  node_within left (suc (suc zero)) child c = Always-next _ _ _ (λ count.
      Always-bind (EntriesWithin left) _ _ _ (entries_within left count child c)
        (λ es w. Always-pure (NestsWithin (suc left)) (object es) w))
  node_within left (suc (suc (suc k))) child c = Always-fail _ _

  levels_within : (left : ℕ) → Always (read_host_module_levels left) (NestsWithin left)
  unfolding read_host_module_levels
  levels_within zero = Always-fail _ _
  levels_within (suc left) =
      Always-next _ _ _
        (λ tag. node_within left tag (read_host_module_levels left) (levels_within left))

  -- Whatever bytes the host sends, a shape that is read at some depth takes up no more levels than the
  -- depth cap leaves there, its own included.
  pub read_host_module_node-NestsWithin :
      (depth : ℕ) (bs rest : Bytes) (node : HostModuleNode)
      → read_host_module_node depth bs ≡ ok (node, rest)
      → NestsWithin (max_host_module_depth + 1 - depth) node
  unfolding read_host_module_node
  read_host_module_node-NestsWithin depth bs rest node h =
      (levels_within (max_host_module_depth + 1 - depth)).returns bs rest node h
