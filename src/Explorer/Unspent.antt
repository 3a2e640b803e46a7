-- ===== src/Explorer/Unspent.antt =====
-- The outputs that `Unspent` of btc/explorer_api.go returns.
use chantools.Prelude.{
  ℕ, ◌+◌, ◌-◌, ◌%◌, ◌^◌, List, [], ◌∷◌, true, false, ok, ◌≡◌, subst, All, All-append, Bool-cases,
  inl, inr, >>=-eq-ok, ok-injective, ◌==◌,
}
use chantools.Prelude.Text.{Text, text_eq}
use chantools.Explorer.{
  Api, TxData, VoutData, Outspend, paying_outputs, outputs_of, still_unspent, unspent,
}

module _ (api : Api) (addr : Text) where
  -- An output that pays the address.
  Pays : Text × ℕ × VoutData → Type 0
  Pays o = text_eq o.2.script_pubkey_addr addr ≡ true

  -- One that the explorer says is not spent, too.
  pub record IsUnspent (o : Text × ℕ × VoutData) : Type 0 where
    pub pays : text_eq o.2.script_pubkey_addr addr ≡ true
    pub outspend : Outspend
    pub fetched : api.fetch_outspend o.0 o.1 ≡ ok outspend
    pub not_spent : outspend.spent ≡ false

  paying_outputs-Pays :
      (txid : Text) (idx : ℕ) (vs : List VoutData) → All Pays (paying_outputs api addr txid idx vs)
  unfolding paying_outputs Pays
  paying_outputs-Pays txid idx [] = tt
  paying_outputs-Pays txid idx (v ∷ vs) = elim (Bool-cases (text_eq v.script_pubkey_addr addr)) [
    | inl same ↦ rw same (same, paying_outputs-Pays txid (idx + 1) vs)
    | inr other ↦ rw other (paying_outputs-Pays txid (idx + 1) vs)
  ]

  outputs_of-Pays : (txs : List TxData) → All Pays (outputs_of api addr txs)
  unfolding outputs_of
  outputs_of-Pays [] = tt
  outputs_of-Pays (tx ∷ txs) =
      All-append Pays (paying_outputs api addr tx.txid 0 tx.vout) (outputs_of api addr txs)
        (paying_outputs-Pays tx.txid 0 tx.vout) (outputs_of-Pays txs)

  still_unspent-IsUnspent :
      (os : List (Text × ℕ × VoutData)) {outs : List (Text × ℕ × VoutData)}
      → All Pays os
      → still_unspent api os ≡ ok outs
      → All IsUnspent outs
  unfolding still_unspent Pays
  still_unspent-IsUnspent [] pays h = subst (All IsUnspent) (ok-injective h) tt
  still_unspent-IsUnspent ((txid, idx, v) ∷ os) (p, pays) h =
      let (s, e, r) = >>=-eq-ok (api.fetch_outspend txid idx) _ h in
      let (rest, e2, r2) = >>=-eq-ok (still_unspent api os) _ r in
      let others = still_unspent-IsUnspent os pays e2 in
      elim (Bool-cases s.spent) [
        | inl gone ↦ subst (All IsUnspent) (ok-injective (rw gone at r2)) others
        | inr left ↦
            subst (All IsUnspent) (ok-injective (rw left at r2))
              (record { pays = p; outspend = s; fetched = e; not_spent = left }, others)
      ]

  -- Each output that `Unspent` returns pays the address, and the explorer's answer for it, under its
  -- transaction and index, is that it is not spent.
  pub unspent-IsUnspent :
      {outs : List (Text × ℕ × VoutData)} → unspent api addr ≡ ok outs → All IsUnspent outs
  unfolding unspent
  unspent-IsUnspent {outs} h =
      let (stats, e, r) = >>=-eq-ok (api.fetch_address addr) _ h in
      elim (Bool-cases (
        ((stats.chain_stats.funded_txo_sum + 2 ^ 64 - stats.chain_stats.spent_txo_sum) % 2 ^ 64
            + (stats.mempool_stats.funded_txo_sum + 2 ^ 64 - stats.mempool_stats.spent_txo_sum)
              % 2 ^ 64)
          % 2 ^ 64
        == 0)) [
          | inl nothing ↦ subst (All IsUnspent) (ok-injective (rw nothing at r)) tt
          | inr funds ↦
              let (txs, e2, r2) = >>=-eq-ok (api.fetch_address_txs addr) _ (rw funds at r) in
              still_unspent-IsUnspent (outputs_of api addr txs) (outputs_of-Pays txs) r2
        ]
