-- ===== src/Operations/Block.antt =====
-- currency/operation_processor.go: a whole block, from its first operation to `Close`.
use mitum_currency.Prelude.{
  Bool, false, Option, some, List, [], ◌∷◌, ◌++◌, Result, ok, ◌≡◌, refl, ap, ◌∙◌, arith, inl, inr,
  Bool-cases, All, ltb, length,
}
use mitum_currency.Prelude.Int.{ℤ, pos, ◌+ℤ◌, int_laws}
use mitum_currency.Prelude.Bytes.{Bytes, bytes_eq_instance}
use mitum_currency.Prelude.Map.{Map}
use mitum_currency.Prelude.Sums.{sum_at}
use mitum_currency.Mitum.{Mitum}
use mitum_currency.CurrencyId.{CurrencyId}
use mitum_currency.Big.{Big}
use mitum_currency.State.{StateApi, State}
use mitum_currency.Pool.{CurrencyPool}
use mitum_currency.FeeOperation.{fee_amounts}
use mitum_currency.FeeOperation.Deltas as FeeDeltas
use mitum_currency.FeeOperation.Deltas.{HasReceiver, paid_states, fee_amounts-total}
use mitum_currency.Emission.Deltas.{delta, delta-append, ReadsFresh, ReadsPlainAccounts}
use mitum_currency.Currencies.Minting.{ReadsPlainDesigns}
use mitum_currency.Operations.{
  OperationProcessor, Operation, Prepared, Setting, new_processor, process_all, close,
}
use mitum_currency.Operations.Collecting.{collected}
use mitum_currency.Operations.Conservation.{
  HasValidFeeers, ArePrepared, minted_total, process_all-conserves,
}

-- Every collected fee has a receiver.
abbrev pub HaveReceivers :
    {m : Mitum} {api : StateApi m} → CurrencyPool api → Map CurrencyId Big → Type 0
HaveReceivers cp fees = All (λ am. HasReceiver cp am.cid) (fee_amounts fees)

length-zero : (fees : Map CurrencyId Big) → ltb 0 (length fees) ≡ false → fees ≡ []
length-zero [] h = refl
length-zero (x ∷ fees) h = ground arith

module _ {m : Mitum} {api : StateApi m} (get_state : Bytes → Result (State api × Bool))
    (fresh : ReadsFresh get_state) where
  -- If `Close` succeeds, over a database that hands out only balances that have collected nothing
  -- and with a receiver for every collected fee, the states that it hands to the pool add to the
  -- balances of each currency exactly the fees collected in it.
  pub close-pays :
      (cid : CurrencyId) (cp : CurrencyPool api) (opr : OperationProcessor)
      {sts : List (Option (State api))}
      → HaveReceivers cp opr.fee
      → close (some cp) get_state opr ≡ ok sts
      → delta cid (paid_states sts) ≡ collected cid opr.fee
  unfolding close
  close-pays cid cp opr {sts} h e = elim (Bool-cases (ltb 0 (length opr.fee))) [
    | inl some_fee ↦
        FeeDeltas.process-delta get_state fresh cid cp (fee_amounts opr.fee) h
          (rw (some_fee, close) at e)
        ∙ fee_amounts-total cid opr.fee
    | inr no_fee ↦
        let none_left : [] ≡ sts = let f = rw (no_fee, close) at e in cc in
        rw (← none_left, length-zero opr.fee no_fee) (unfold delta paid_states sum_at in refl)
  ]

settle_block : (d p c g : ℤ) → d +ℤ c ≡ pos 0 +ℤ g → p ≡ c → d +ℤ p ≡ g
settle_block d p c g h k = rw k (h ∙ drop g)
  where
    drop : (g : ℤ) → pos 0 +ℤ g ≡ g
    drop g = omega int_laws

module _ {m : Mitum} {api : StateApi m} (s : Setting api)
    (get_state : Bytes → Result (State api × Bool)) (fresh : ReadsFresh get_state)
    (plain_accounts : ReadsPlainAccounts get_state) (plain_designs : ReadsPlainDesigns get_state)
    (valid_feeers : HasValidFeeers s.cp) where
  -- If the known operations of a block are prepared and all processed by a fresh processor and its
  -- `Close` pays the fees out, over a database that hands out only balances that have collected
  -- nothing and none under the key of an account or of a currency design, with valid feeers in the
  -- pool and a receiver for every collected fee, then all emitted states together add to the
  -- balances of each currency exactly what the registrations of the block mint.
  pub block-conserves :
      (cid : CurrencyId) (cp : CurrencyPool api) (ops : List (Operation m))
      (ps : List (Prepared api)) {opr : OperationProcessor} {sts : List (State api)}
      {paid : List (Option (State api))}
      → ArePrepared s get_state ops ps
      → process_all new_processor ps ≡ ok (opr, sts)
      → HaveReceivers cp opr.fee
      → close (some cp) get_state opr ≡ ok paid
      → delta cid (sts ++ paid_states paid) ≡ minted_total cid ops
  block-conserves cid cp ops ps {opr} {sts} {paid} h e r c =
      delta-append cid sts (paid_states paid)
      ∙ settle_block (delta cid sts) (delta cid (paid_states paid)) (collected cid opr.fee)
          (minted_total cid ops)
          (process_all-conserves s get_state fresh plain_accounts plain_designs valid_feeers cid
              new_processor ops ps h e
            ∙ ap (λ x. x +ℤ minted_total cid ops) (unfold sum_at in refl))
          (close-pays get_state fresh cid cp opr r c)
