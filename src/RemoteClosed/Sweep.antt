-- ===== src/RemoteClosed/Sweep.antt =====
-- `sweepRemoteClosed` of cmd/chantools/sweepremoteclosed.go: the inputs, what is signed for each, and the
-- output. The weights, the fee and the witnesses are lnd's.
use chantools.Prelude.{
  ℕ, ◌+◌, ◌-◌, ◌%◌, ◌^◌, List, [], ◌∷◌, ◌++◌, Bool, true, false, not, ◌||◌, Option, none, some,
  Result, ok, ◌>>=◌, ◌>>◌, fail_if, ltb, if◌then◌else◌, or_panic,
}
use chantools.Prelude.Int.{ℤ, pos}
use chantools.Prelude.Int64.{to_int64, sub64}
use chantools.Prelude.Text.{Text}
use chantools.HdKeychain.Derive.{KeyLib}
use chantools.HdKeychain.Ring.{KeyDescriptor}
use chantools.HdKeychain.Address.{
  AddressKind, witness_pub_key_hash, witness_script_hash, taproot, other_kind, AddressLib,
}
use chantools.Explorer.{VoutData}
use chantools.Offer.Files.{is_nil}
use chantools.RemoteClosed.{
  RemoteLib, RemoteError, bad_hash, bad_address, below_dust, no_control_block, not_signed,
  remote_try, TargetAddr,
}

-- `sweepDustLimit`
abbrev pub sweep_dust_limit : ℕ
sweep_dust_limit = 600

-- `wire.MaxTxInSequenceNum`
abbrev pub max_tx_in_sequence_num : ℕ
max_tx_in_sequence_num = 2 ^ 32 - 1

-- An input of the transaction, with the output that it spends.
pub record TxIn : Type 0 where
  pub hash : Text
  pub index : ℕ
  pub sequence : ℕ
  pub prev_script : List ℕ
  pub prev_value : ℤ

-- `input.SignDescriptor`, as far as it is filled here.
pub record SignDesc (K : KeyLib) : Type 0 where
  pub key_desc : KeyDescriptor K
  pub witness_script : Text
  pub single_tweak : List ℕ
  pub output_script : List ℕ
  pub script_spend : Bool
  pub control_block : Text
  pub tap_tweak : Text

-- Which of lnd's functions makes the witness of an input.
pub data Spend : Type 0 where
  taproot_commit_spend_success commit_spend_to_remote_confirmed : Spend
  commit_spend_no_delay : Bool → Spend

-- The `switch` of the signing loop, with the script that the descriptor then has.
unfoldable pub spend_of : {K : KeyLib} → SignDesc K → Spend
spend_of desc =
    if desc.script_spend
    then taproot_commit_spend_success
    else if not (is_nil desc.witness_script)
    then commit_spend_to_remote_confirmed
    else commit_spend_no_delay (is_nil desc.single_tweak)

unfoldable pub script_to_sign : {K : KeyLib} → SignDesc K → List ℕ
script_to_sign desc =
    if desc.script_spend
    then desc.witness_script
    else if not (is_nil desc.witness_script)
    then desc.witness_script
    else desc.output_script

-- The transaction and the descriptors as they grow; a descriptor may be a nil pointer.
pub record RemoteState (K : KeyLib) : Type 0 where
  pub tx_in : List TxIn
  pub sign_descs : List (Option (SignDesc K))
  pub total_output_value : ℕ

module _ (K : KeyLib) (L : AddressLib K) (R : RemoteLib K L) where
  -- `GetWitnessAddrScript` of lnd/hdkeychain.go
  unfoldable pub get_witness_addr_script : L.Address → Result RemoteError (List ℕ)
  get_witness_addr_script addr =
      fail_if (not (L.is_for_net addr)) bad_address
      >> remote_try (L.pay_to_addr_script addr) bad_address

  -- The sequence number of an input and its descriptor, by the type of the address.
  unfoldable pub sign_desc :
      AddressKind → TargetAddr K L R → List ℕ → Result RemoteError (ℕ × Option (SignDesc K))
  sign_desc witness_pub_key_hash target pk_script = ok (
    max_tx_in_sequence_num,
    some (record {
      key_desc = target.key_desc;
      witness_script = target.script;
      single_tweak = target.tweak;
      output_script = pk_script;
      script_spend = false;
      control_block = [];
      tap_tweak = [];
    }),
  )
  sign_desc witness_script_hash target pk_script = ok (
    1,
    some (record {
      key_desc = target.key_desc;
      witness_script = target.script;
      single_tweak = [];
      output_script = pk_script;
      script_spend = false;
      control_block = [];
      tap_tweak = [];
    }),
  )
  sign_desc taproot target pk_script = do
    tree ← or_panic target.script_tree
    control_block ← remote_try (R.control_block tree) no_control_block
    ok (
      1,
      some (record {
        key_desc = target.key_desc;
        witness_script = R.settle_script tree;
        single_tweak = [];
        output_script = pk_script;
        script_spend = true;
        control_block = control_block;
        tap_tweak = R.tapscript_root tree;
      }),
    )
  sign_desc other_kind target pk_script = ok (max_tx_in_sequence_num, none)

  -- The loop over the outputs of a target.
  unfoldable pub add_vouts :
      TargetAddr K L R
      → List (Text × ℕ × VoutData)
      → RemoteState K
      → Result RemoteError (RemoteState K)
  add_vouts target [] s = ok s
  add_vouts target ((txid, idx, v) ∷ vs) s = do
    tx_hash ← remote_try (R.new_hash_from_str txid) bad_hash
    pk_script ← get_witness_addr_script target.addr
    (sequence, desc) ← sign_desc (L.kind target.addr) target pk_script
    add_vouts target vs (record {
      tx_in =
          s.tx_in
          ++ record {
            hash = tx_hash;
            index = idx % 2 ^ 32;
            sequence = sequence;
            prev_script = pk_script;
            prev_value = to_int64 v.value;
          }
            ∷ [];
      sign_descs = s.sign_descs ++ desc ∷ [];
      total_output_value = (s.total_output_value + v.value) % 2 ^ 64;
    })

  -- The loop over the targets.
  unfoldable pub add_targets :
      List (TargetAddr K L R) → RemoteState K → Result RemoteError (RemoteState K)
  add_targets [] s = ok s
  add_targets (target ∷ targets) s = add_vouts target target.vouts s >>= add_targets targets

  -- The signing loop, for a way to make a witness for an input of the transaction.
  unfoldable pub sign_all :
      (Spend → SignDesc K → ℕ → Option Text)
      → ℕ
      → List (Option (SignDesc K))
      → Result RemoteError (List Text)
  sign_all witness_for idx [] = ok []
  sign_all witness_for idx (desc ∷ descs) = do
    d ← or_panic desc
    witness ←
        remote_try (witness_for (spend_of d) (record d { witness_script = script_to_sign d }) idx)
          not_signed
    rest ← sign_all witness_for (idx + 1) descs
    ok (witness ∷ rest)

  -- The inputs, their witnesses and the value of the output.
  unfoldable pub sweep_remote_closed :
      (List TxIn → ℕ)
      → (List TxIn → ℤ → Spend → SignDesc K → ℕ → Option Text)
      → List (TargetAddr K L R)
      → Result RemoteError (List TxIn × List Text × ℤ)
  sweep_remote_closed fee_for witness_for targets = do
    s ← add_targets targets (record { tx_in = []; sign_descs = []; total_output_value = 0 })
    fail_if (is_nil targets || ltb s.total_output_value sweep_dust_limit) below_dust
    let value = sub64 (to_int64 s.total_output_value) (pos (fee_for s.tx_in)) in
        (sign_all (witness_for s.tx_in value) 0 s.sign_descs >>= λ witnesses.
        ok (s.tx_in, witnesses, value))
