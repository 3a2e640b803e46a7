-- ===== src/Tests/Keys.antt =====
-- The paths, derivations and key ring at concrete inputs.
use chantools.Prelude.{
  ℕ, ◌+◌, ◌<◌, List, [], ◌∷◌, ◌++◌, some, ok, panic, ◌≡◌, ◌≢◌, refl, arith, map, true,
}
use chantools.Prelude.Text.{codes, text_eq, text_eq_refl}
use chantools.Prelude.Text.Decimal.{decimal}
use chantools.HdKeychain.Path.{
  hardened_key, parse_path, all_derivation_paths, identity_path, hardened_key_start,
  lnd_derivation_path, wallet_bip49_derivation_path, wallet_default_derivation_path,
  wallet_bip86_derivation_path,
}
use chantools.HdKeychain.Path.RoundTrip.{print_path, parse_path-print}
use chantools.HdKeychain.Path.Printed.{
  account_indices, all_derivation_paths_lem, parse_path-mark_lost, parse_path-identity_path,
}
use chantools.HdKeychain.Derive
use chantools.HdKeychain.Derive.{derive_children}
use chantools.HdKeychain.Derive.Depth.{wallet_derive, derive_children-eq-wallet_derive}
use chantools.HdKeychain.Derive.Safety.{derive_children-ne-panic}
use chantools.HdKeychain.Ring.{check_descriptor, derive_key, node_pub_key, pub_key_at, scan}
use chantools.HdKeychain.Ring.Check.{check_descriptor_sound, check_descriptor_complete}
use chantools.HdKeychain.Ring.Identity.{node_pub_key-identity_path}
use chantools.Tests.{keys, keys-DepthLaws, ring}

parse_path-print_example : parse_path (print_path (2147484697 ∷ 5 ∷ [])) ≡ ok (2147484697 ∷ 5 ∷ [])
parse_path-print_example = parse_path-print 2147484697 (5 ∷ []) (omega arith, (omega arith, tt))

all_derivation_paths_lem_example :
    all_derivation_paths 1 3
    ≡ ok (
      wallet_bip49_derivation_path
          ∷ wallet_default_derivation_path
          ∷ wallet_bip86_derivation_path
          ∷ lnd_derivation_path 1 3
          ∷ [],
      map (λ purpose. map (λ n. hardened_key_start + n) (purpose ∷ 0 ∷ 0 ∷ [])) (49 ∷ 84 ∷ 86 ∷ [])
          ++ account_indices 1 3 ∷ [],
    )
all_derivation_paths_lem_example = all_derivation_paths_lem 1 3 (omega arith) (omega arith)

parse_path-mark_lost_example :
    parse_path (codes "m/" ++ decimal 2147483653 ++ codes "'") ≡ ok (5 ∷ [])
parse_path-mark_lost_example = parse_path-mark_lost 2147483653 (omega arith) (omega arith)

derive_children-eq-wallet_derive_example :
    derive_children keys [] (2147483732 ∷ 2147483648 ∷ 2147483655 ∷ 1 ∷ [])
    ≡ wallet_derive keys [] 2147483732 2147483648 2147483655 (1 ∷ [])
derive_children-eq-wallet_derive_example =
    derive_children-eq-wallet_derive keys keys-DepthLaws [] 2147483732 2147483648 2147483655
      (1 ∷ []) refl (omega arith)

derive_children-ne-panic_example : derive_children keys [] (1 ∷ 2 ∷ []) ≢ panic
derive_children-ne-panic_example = derive_children-ne-panic keys keys-DepthLaws [] (1 ∷ 2 ∷ [])

-- The key of family 6 at an index.
abbrev node_key : ℕ → List ℕ
node_key i = i ∷ 0 ∷ 2147483654 ∷ 2147483648 ∷ 2147484665 ∷ []

derive_at :
    (i : ℕ)
    → derive_key keys ring (record { family = 6; index = i })
      ≡ ok (record { locator = record { family = 6; index = i }; pub_key = some (node_key i) })
unfolding derive_key pub_key_at derive_children Derive.derive_loop Derive.next_id Derive.settle
    Derive.key_id hardened_key
derive_at i = refl

check_descriptor_complete_example :
    check_descriptor keys ring
      (record { locator = record { family = 6; index = 0 }; pub_key = some (node_key 2) })
    ≡ ok tt
check_descriptor_complete_example =
    check_descriptor_complete keys keys-DepthLaws ring refl (record { family = 6; index = 0 })
      (node_key 2) node_key 2 (λ i h. derive_at i) (omega arith) (text_eq_refl (node_key 2))

passes :
    check_descriptor keys ring
      (record { locator = record { family = 6; index = 0 }; pub_key = some (node_key 1) })
    ≡ ok tt
unfolding check_descriptor scan pub_key_at derive_children Derive.derive_loop Derive.next_id
    Derive.settle text_eq Derive.key_id hardened_key
passes = refl

check_descriptor_sound_example :
    (j : ℕ) × (j < 3)
    × ((pk : List ℕ) × (derive_key keys ring (record { family = 6; index = j })
          ≡ ok (record { locator = record { family = 6; index = j }; pub_key = some pk }))
        × (text_eq pk (node_key 1) ≡ true))
check_descriptor_sound_example =
    check_descriptor_sound keys keys-DepthLaws ring refl (record { family = 6; index = 0 })
      (node_key 1) passes

identity :
    Derive.derive_key keys [] (identity_path 0 6) ≡ ok (node_key 0, node_key 0, some (node_key 0))
unfolding Derive.derive_key derive_children Derive.derive_loop Derive.next_id Derive.settle
    Derive.wif_of Derive.key_id
identity = rw (parse_path-identity_path 0 6 (omega arith) (omega arith))

node_pub_key-identity_path_example : node_pub_key keys ring ≡ ok (some (node_key 0))
node_pub_key-identity_path_example =
    node_pub_key-identity_path keys ring refl (omega arith) (omega arith) identity
