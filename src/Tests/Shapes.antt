-- ===== src/Tests/Shapes.antt =====
-- A shape of two levels, read where just two are left.
use iso.Base.{◌≡◌, refl, true, [], ◌∷◌, ok}
use iso.Wire.Bytes.{Bytes, is_utf8, utf8_loop, utf8_lead}
use iso.Wire.Reader.{
  Allocator, pure, ◌>>=◌, read_u8, read_u32, read_bytes, utf8_of, read_string, check_count,
  read_count,
}
use iso.Types.{HostModuleNode, function, object, no_entries, entry}
use iso.Payload.Blocks.{
  read_entries, host_module_node_of, read_host_module_levels, read_host_module_node,
}
use iso.Payload.Depth.{NestsWithin, read_host_module_node-NestsWithin}

abbrev unlimited : Allocator
unlimited = record { try_reserve = λ n. true }

-- { a: function }
abbrev two_levels : HostModuleNode
two_levels = object (entry (97 ∷ []) function no_entries)

abbrev its_bytes : Bytes
its_bytes = 2 ∷ 0 ∷ 0 ∷ 0 ∷ 1 ∷ 0 ∷ 0 ∷ 0 ∷ 1 ∷ 97 ∷ 0 ∷ []

two_levels-read : read_host_module_node ⦃alloc = unlimited⦄ 63 its_bytes ≡ ok (two_levels, [])
unfolding read_host_module_node read_host_module_levels host_module_node_of read_entries read_count
    check_count read_u8 read_u32 read_string read_bytes utf8_of is_utf8 utf8_loop utf8_lead pure
    ◌>>=◌
two_levels-read = refl

read_host_module_node-NestsWithin_example : NestsWithin 2 two_levels
read_host_module_node-NestsWithin_example =
    read_host_module_node-NestsWithin ⦃alloc = unlimited⦄ 63 its_bytes [] two_levels two_levels-read
