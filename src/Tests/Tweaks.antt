-- ===== src/Tests/Tweaks.antt =====
-- The search for a tweaked key at concrete inputs.
use chantools.Prelude.{
  ℕ, List, [], ◌∷◌, ◌++◌, length, ◌==◌, some, ok, ◌≡◌, refl, inl, inr, if◌then◌else◌, arith,
}
use chantools.Prelude.Text.{text_eq}
use chantools.TweakedKey.{
  SecpLib, mutate_with_sign, mutate_with_tweak, pub_key_matches_addr, test_pattern,
}
use chantools.TweakedKey.Search.{IsMutation, Matches, test_pattern_finds}
use chantools.Tests.{keys, addresses}

-- A tweak puts a 1 before the key, and a key of length 1 is odd: a 7 is put before it.
abbrev steps : SecpLib keys
steps = record {
  pub_key = λ key. key;
  serialize_compressed = λ key. ((if length key == 1 then 3 else 2), key);
  negate = λ key. 7 ∷ key;
  tap_tweak_hash = λ x. 1 ∷ [];
  add_scalar = λ key tweak. tweak ++ key;
  hash160 = λ key. key;
  taproot_key = λ key. key;
}

abbrev twice : List ℕ
twice = 1 ∷ 7 ∷ 1 ∷ []

two_tweaks : IsMutation keys steps 2 [] twice
unfolding mutate_with_sign mutate_with_tweak
two_tweaks = inr (inr (inr (inr refl)))

address_kept : Matches keys steps addresses twice twice
unfolding pub_key_matches_addr text_eq
address_kept = refl

test_pattern_finds_example :
    (found : List ℕ) × (test_pattern keys steps addresses 3 [] twice 1 ≡ some (ok found))
    × IsMutation keys steps 2 [] found
    × Matches keys steps addresses twice found
test_pattern_finds_example =
    test_pattern_finds keys steps addresses twice (inl refl) 3 1 [] twice (omega arith)
      (omega arith) two_tweaks address_kept
