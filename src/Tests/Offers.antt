-- ===== src/Tests/Offers.antt =====
-- The offer at concrete inputs: the key files of two nodes, the shares and the fees.
use chantools.Prelude.{
  ℕ, ◌+◌, ◌^◌, ◌<◌, ◌≤◌, List, [], ◌∷◌, ◌++◌, some, ok, ◌≡◌, inr, refl, sym, subst, ◌∙◌, arith,
}
use chantools.Prelude.Int.{ℤ, pos}
use chantools.Prelude.Text.{Text, codes, text_eq, trim_space}
use chantools.Prelude.Text.Decimal.{parse_uint}
use chantools.Offer.Files.{NodeInfo, Channel, KeyFile, is_nil}
use chantools.Offer.Select.{select_keys, is_ours, accept, pick_keys, pick}
use chantools.Offer.Agree.{
  mirror, Filled, first_view, FromSlot, select_keys-mirror, select_keys_sound,
}
use chantools.Prelude.Int64.{to_int64, sub64}
use chantools.Offer.Ask.{ask, answer}
use chantools.Offer.Ask.Shares.{Small, Shares, ask-Shares, ask_overflow}
use chantools.Offer.Fees.{Split, make_outputs, distribute, drop_dust, output_for}
use chantools.Offer.Fees.Conservation.{IsPaid, value, distribute-IsPaid, distribute_conserves}
use chantools.Offer.Keys.{
  ScriptLib, match_script, Scripts, Keyed, match_keys, match_channel, try_ours, try_theirs,
}
use chantools.Offer.Keys.Found.{AllFound, match_keys_sound}
use chantools.Offer.Keys.Complete.{ScriptLaws, match_keys_complete}
use chantools.HdKeychain.Address.{taproot, parse_address}
use chantools.Tests.{keys, kinds}

abbrev node : Text → List Text → NodeInfo
node pub_key multisig_keys = record {
  pub_key = pub_key;
  contact = [];
  payout_addr = 7 ∷ pub_key;
  multisig_keys = multisig_keys;
}

-- The file of the first node and that of the second, each with keys in its own slot.
abbrev file1 : KeyFile
file1 = record { node1 = node (1 ∷ []) ((11 ∷ []) ∷ []); node2 = node (2 ∷ []) []; channels = [] }

abbrev file2 : KeyFile
file2 = record { node1 = node (1 ∷ []) []; node2 = node (2 ∷ []) ((22 ∷ []) ∷ []); channels = [] }

filled : Filled file1 file2
unfolding is_nil
filled = record {
  same1 = refl;
  same2 = refl;
  distinct = λ p. cc;
  own1 = refl;
  own2 = refl;
  not2 = refl;
  not1 = refl;
}

selected : select_keys (1 ∷ []) file1 file2 ≡ ok (first_view file1 file2)
unfolding select_keys is_ours accept pick_keys pick is_nil text_eq
selected = refl

select_keys-mirror_example :
    (first_view file1 file2 ≡ first_view file1 file2)
    × (select_keys (2 ∷ []) file1 file2 ≡ ok (mirror (first_view file1 file2)))
select_keys-mirror_example = select_keys-mirror file1 file2 filled selected

select_keys_sound_example : FromSlot (1 ∷ []) file1 file2 (first_view file1 file2)
select_keys_sound_example = select_keys_sound (1 ∷ []) file1 file2 selected

some_injective : {A : Type 0} {a b : A} → some a ≡ some b → a ≡ b
some_injective h = cc

parsed1 : parse_uint 64 (trim_space (codes "2000")) ≡ some 2000
unfolding parse_uint trim_space
parsed1 = refl

parsed2 : parse_uint 64 (trim_space (codes "400")) ≡ some 400
unfolding parse_uint trim_space
parsed2 = refl

small1 : Small (codes "2000")
small1 n h = subst (λ k. k < 2 ^ 63) (some_injective (sym parsed1 ∙ h)) (omega arith)

small2 : Small (codes "400")
small2 n h = subst (λ k. k < 2 ^ 63) (some_injective (sym parsed2 ∙ h)) (omega arith)

asked : ask (pos 1000) (codes "2000" ∷ codes "400" ∷ []) ≡ ok (pos 400, pos 600, [])
unfolding ask answer to_int64 sub64
asked = rw (parsed1, parsed2)

ask-Shares_example : Shares 1000 (pos 400, pos 600, [])
ask-Shares_example =
    ask-Shares 1000 (codes "2000" ∷ codes "400" ∷ []) (omega arith) (small1, (small2, tt)) asked

huge : parse_uint 64 (trim_space (codes "18446744073709550616")) ≡ some 18446744073709550616
unfolding parse_uint trim_space
huge = refl

ask_overflow_example :
    (ours : ℤ) × (theirs : ℕ) × (ask (pos 1000) (codes "18446744073709550616" ∷ [])
      ≡ ok (ours, pos theirs, []))
    × (1000 < theirs)
ask_overflow_example =
    ask_overflow 1000 18446744073709550616 (codes "18446744073709550616") [] huge (omega arith)
      (omega arith) (omega arith)

abbrev paid : Split
paid = record { our_sum = 900; their_sum = 4900; our_output = some 900; their_output = some 4900 }

distributed : distribute (make_outputs 330 1000 5000) 201 ≡ ok paid
unfolding distribute make_outputs drop_dust output_for
distributed = refl

distribute-IsPaid_example : IsPaid paid
distribute-IsPaid_example = distribute-IsPaid 330 1000 5000 201 distributed

distribute_conserves_example :
    (fee : ℕ) × (value (some 900) + value (some 4900) + fee
      ≡ drop_dust 330 1000 + drop_dust 330 5000)
    × (fee ≤ 201)
    × (201 ≤ fee + 1)
distribute_conserves_example = distribute_conserves 330 1000 5000 201 distributed

-- The script of a pair of keys is the two keys, and an address is its script.
abbrev scripts : Text → List ℕ → List ℕ → Scripts
scripts address a b = record {
  is_match = text_eq address (a ++ b);
  witness_script = some (a ++ b);
  pk_script = a ++ b;
}

abbrev channel : Channel
channel = record {
  channel_id = 1 ∷ [];
  chan_point = 2 ∷ [];
  address = 12 ∷ 22 ∷ [];
  capacity = pos 1000;
  musig2_nonce_randomness = [];
  musig2_nonces = [];
}

abbrev keyed_channel : Keyed keys
keyed_channel = record {
  channel = channel;
  our_key_index = 1;
  our_key = 12 ∷ [];
  their_key = 22 ∷ [];
  witness_script = some (12 ∷ 22 ∷ []);
  pk_script = 12 ∷ 22 ∷ [];
}

matched :
    match_keys keys
      (λ t a b. ok (scripts t a b))
      (channel ∷ [])
      ((11 ∷ []) ∷ (12 ∷ []) ∷ [])
      ((21 ∷ []) ∷ (22 ∷ []) ∷ [])
    ≡ ok (keyed_channel ∷ [])
unfolding match_keys match_channel try_ours try_theirs text_eq
matched = refl

match_keys_sound_example :
    AllFound keys
      (λ t a b. ok (scripts t a b))
      ((11 ∷ []) ∷ (12 ∷ []) ∷ [])
      ((21 ∷ []) ∷ (22 ∷ []) ∷ [])
      (channel ∷ [])
      (keyed_channel ∷ [])
match_keys_sound_example =
    match_keys_sound keys (λ t a b. ok (scripts t a b)) (channel ∷ []) ((11 ∷ []) ∷ (12 ∷ []) ∷ [])
      ((21 ∷ []) ∷ (22 ∷ []) ∷ []) matched

-- The taproot script of two keys is the keys behind a 9, as in their address.
abbrev funding_scripts : ScriptLib keys
funding_scripts = record {
  gen_multi_sig_script = λ a b. some (a ++ b);
  witness_script_hash_of = λ w. some w;
  gen_taproot_funding_script = λ a b. some (0 ∷ 9 ∷ a ++ b);
  pub_key_from_hex = λ t. some t;
}

funding_scripts-ScriptLaws : ScriptLaws keys funding_scripts
funding_scripts-ScriptLaws = record {
  multi_sig = λ a b. (a ++ b, a ++ b, refl, refl);
  taproot_funding = λ a b. (0 ∷ 9 ∷ a ++ b, refl);
}

abbrev taproot_channel : Channel
taproot_channel = record channel { address = 9 ∷ 12 ∷ 22 ∷ [] }

parsed_address : parse_address keys kinds (9 ∷ 12 ∷ 22 ∷ []) ≡ ok (taproot, 9 ∷ 12 ∷ 22 ∷ [])
unfolding parse_address
parsed_address = refl

match_keys_complete_example :
    (ks : List (Keyed keys)) × (match_keys keys
        (match_script keys kinds funding_scripts)
        (taproot_channel ∷ [])
        ((11 ∷ []) ∷ (12 ∷ []) ∷ [])
        ((21 ∷ []) ∷ (22 ∷ []) ∷ [])
      ≡ ok ks)
match_keys_complete_example =
    match_keys_complete keys kinds funding_scripts funding_scripts-ScriptLaws (taproot_channel ∷ [])
      ((11 ∷ []) ∷ (12 ∷ []) ∷ []) ((21 ∷ []) ∷ (22 ∷ []) ∷ [])
      (
        (
          1,
          1,
          12 ∷ [],
          22 ∷ [],
          refl,
          refl,
          record {
            addr = (taproot, 9 ∷ 12 ∷ 22 ∷ []);
            script = 0 ∷ 9 ∷ 12 ∷ 22 ∷ [];
            parsed = parsed_address;
            paid = refl;
            made = inr (refl, refl);
          },
        ),
        tt,
      )
