-- ===== src/Tests/Descriptors.antt =====
-- A descriptor of Bitcoin Core's documentation, with its checksum.
use chantools.Prelude.{ℕ, List, ◌++◌, ◌∷◌, ok, none, false, true, ◌≡◌, refl, length}
use chantools.Prelude.Text.{Text, codes}
use chantools.Descriptor.{
  descriptor_sum_create, descriptor_sum_check, checksum_charset, find_text, starts_with, bump,
  expand, expand_loop, index_of, flush, close_group, polymod, polymod_from, polymod_step, mix,
  checksum_chars,
}
use chantools.Descriptor.Xor.{xor, xor_bits}
use chantools.Descriptor.Check.{descriptor_sum_check_refuses}
use chantools.Descriptor.Created.{AreSymbols, descriptor_sum_create-AreSymbols}

created : descriptor_sum_create (codes "raw(deadbeef)") ≡ ok (codes "raw(deadbeef)#89f8spxm")
unfolding descriptor_sum_create expand expand_loop index_of bump flush close_group polymod
    polymod_from polymod_step mix checksum_chars xor xor_bits
created = refl

missing : find_text (codes "89f8spxm") checksum_charset ≡ none
unfolding find_text starts_with bump
missing = refl

descriptor_sum_check_refuses_example :
    descriptor_sum_check (codes "raw(deadbeef)" ++ b'#' ∷ codes "89f8spxm") true ≡ ok false
descriptor_sum_check_refuses_example =
    descriptor_sum_check_refuses (codes "raw(deadbeef)") (codes "89f8spxm") true refl missing

descriptor_sum_create-AreSymbols_example :
    (cs : Text) × (vs : List ℕ) × (descriptor_sum_create (codes "raw(deadbeef)")
      ≡ ok (codes "raw(deadbeef)" ++ b'#' ∷ cs))
    × (length cs ≡ 8)
    × AreSymbols cs vs
    × (polymod (expand (codes "raw(deadbeef)") ++ vs) ≡ 1)
descriptor_sum_create-AreSymbols_example = descriptor_sum_create-AreSymbols (codes "raw(deadbeef)")
