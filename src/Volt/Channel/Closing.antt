-- ===== src/Volt/Channel/Closing.antt =====
-- Closing a channel of chain/src/volt/channel.ts: `cooperativeClose` and `forceClose`.
use Prim.Native.String.{String}
use deckxcoin.Prelude.{ℕ, ◌-◌, none, some, List, [], ◌∷◌, ◌++◌, ltb, any, if◌then◌else◌}
use deckxcoin.Tx.{TxOutput, Transaction}
use deckxcoin.Tx.Build.{transfer_tx, sign_input, cosign_input}
use deckxcoin.Volt.Channel.{Side, ChannelState, is_pending, VoltChannel}
use deckxcoin.Volt.Channel.Commitment.{
  Keys, Left, returned, threw, funding_prev_out, pays, unless_dust, build_commitment,
}

-- The side `a` has opened the channel, and pays the fee.
unfoldable pub closing_outputs : VoltChannel → ℕ → List TxOutput
closing_outputs c fee =
    unless_dust (c.balance_a - fee) (pays (c.balance_a - fee) c.a.key.address none)
    ++ unless_dust c.balance_b (pays c.balance_b c.b.key.address none)

-- `close_memo` is the text `volt:<id>:close`.
unfoldable pub cooperative_close : Keys → String → ℕ → VoltChannel → Left Transaction
unfolding closing_outputs transfer_tx
cooperative_close k close_memo fee c =
    let unsigned = transfer_tx (record {
      inputs = record { txid = c.funding.txid; vout = c.funding.vout; sequence = none } ∷ [];
      outputs = closing_outputs c fee;
      lock_time = none;
      memo = some close_memo;
    }) in
    let half = sign_input k.oracle k.sign unsigned 0 c.a.key (funding_prev_out c) in
    let tx = cosign_input k.oracle k.sign half 0 c.b.key (funding_prev_out c) in
    if any (λ h. is_pending h.status) c.htlcs
    then threw c
    else if ltb c.balance_a fee
    then threw c
    else returned tx (record c { state = ChannelState.closing })

unfoldable pub force_close : Keys → Side → VoltChannel → Left Transaction
force_close k by c = elim (build_commitment k by c c.commitment_number) [
  | none ↦ threw c
  | some tx ↦ returned tx (record c { state = ChannelState.closing })
]
