-- ===== src/Volt/Channel/Balance/Steps.antt =====
-- The channels that the methods of chain/src/volt/channel.ts make from one that was opened with no
-- negative balance.
use Prim.Native.String.{String}
use deckxcoin.Prelude.{ℕ, ◌≡◌, Option, arith}
use deckxcoin.Prelude.Int.{ℤ, pos, negsuc}
use deckxcoin.Tx.{Hex}
use deckxcoin.Volt.Channel.{
  Side, ChannelState, ChannelParty, FundingOutpoint, SpliceRecord, VoltChannel, opened,
  open_channel, pending_sum,
}
use deckxcoin.Volt.Channel.Commitment.{Keys, Left, returned, threw, commit, revoke_and_advance}
use deckxcoin.Volt.Channel.Payments.{
  pay, add_htlc, settle_htlc, fail_htlc, SpliceOptions, spliced, splice,
}
use deckxcoin.Volt.Channel.Closing.{cooperative_close, force_close}
use deckxcoin.Volt.Channel.Balance.{
  IsBalanced, Leaves, leaves, commit-IsBalanced, revoke_and_advance-IsBalanced, pay-IsBalanced,
  add_htlc-IsBalanced, settle_htlc-IsBalanced, fail_htlc-IsBalanced, splice-IsBalanced,
}

-- The channel that a method leaves.
abbrev pub left {ℓ} : {A : Type ℓ} → Left A → VoltChannel
left (returned a c) = c
left (threw c) = c

-- The owner of a channel sets its state from outside; each method counts whether it returns or throws.
pub data Reachable (k : Keys) : VoltChannel → Type 0 where
  fresh :
      (id : String) (a b : ChannelParty) (funding : FundingOutpoint) (balance_a balance_b : ℤ)
      (csv : Option ℕ) (c : VoltChannel)
      → open_channel id a b funding balance_a balance_b csv ≡ opened c
      → Reachable k c
  state_set :
      (state : ChannelState) (c : VoltChannel)
      → Reachable k c
      → Reachable k (record c { state = state })
  committed : (c : VoltChannel) → Reachable k c → Reachable k (left (commit k c))
  revoked : (c : VoltChannel) → Reachable k c → Reachable k (left (revoke_and_advance k c))
  paid :
      (from : Side) (amount : ℤ) (c : VoltChannel)
      → Reachable k c
      → Reachable k (left (pay k from amount c))
  offered :
      (offerer : Side) (amount : ℤ) (hash : Hex) (expiry : ℕ) (c : VoltChannel)
      → Reachable k c
      → Reachable k (left (add_htlc k offerer amount hash expiry c))
  settled :
      (id : ℕ) (preimage : Hex) (c : VoltChannel)
      → Reachable k c
      → Reachable k (left (settle_htlc k id preimage c))
  failed : (id : ℕ) (c : VoltChannel) → Reachable k c → Reachable k (left (fail_htlc k id c))
  resized_by :
      (opts : SpliceOptions) (c next : VoltChannel) (note : SpliceRecord)
      → Reachable k c
      → splice opts c ≡ spliced note next
      → Reachable k next
  closed :
      (memo : String) (fee : ℕ) (c : VoltChannel)
      → Reachable k c
      → Reachable k (left (cooperative_close k memo fee c))
  forced : (by : Side) (c : VoltChannel) → Reachable k c → Reachable k (left (force_close k by c))

left-IsBalanced {ℓ} : {A : Type ℓ} (l : Left A) → Leaves IsBalanced l → IsBalanced (left l)
left-IsBalanced (returned a c) b = b
left-IsBalanced (threw c) b = b

open_channel-IsBalanced :
    (id : String) (a b : ChannelParty) (funding : FundingOutpoint) (balance_a balance_b : ℤ)
    (csv : Option ℕ) (c : VoltChannel)
    → open_channel id a b funding balance_a balance_b csv ≡ opened c
    → IsBalanced c
unfolding open_channel pending_sum
open_channel-IsBalanced id a b funding (pos x) (pos y) csv c e = ground arith
open_channel-IsBalanced id a b funding (pos x) (negsuc n) csv c e = ground arith
open_channel-IsBalanced id a b funding (negsuc n) (pos y) csv c e = ground arith
open_channel-IsBalanced id a b funding (negsuc m) (negsuc n) csv c e = ground arith

module _ (k : Keys) where
  cooperative_close-IsBalanced :
      (memo : String) (fee : ℕ) (c : VoltChannel)
      → IsBalanced c
      → Leaves IsBalanced (cooperative_close k memo fee c)
  unfolding cooperative_close
  cooperative_close-IsBalanced memo fee c b =
      leaves (cooperative_close k memo fee c) (λ a d e. ground arith) (λ d e. ground arith)

  force_close-IsBalanced :
      (by : Side) (c : VoltChannel) → IsBalanced c → Leaves IsBalanced (force_close k by c)
  unfolding force_close
  force_close-IsBalanced by c b =
      leaves (force_close k by c) (λ a d e. ground arith) (λ d e. ground arith)

  -- However a channel is used that was opened with no negative balance, and wherever a method throws, the
  -- two balances sum to the capacity, which is the value of the funding output, and each side holds at
  -- least what it has in flight.
  pub Reachable-IsBalanced : (c : VoltChannel) → Reachable k c → IsBalanced c
  Reachable-IsBalanced c (fresh id a b funding x y csv _ e) =
      open_channel-IsBalanced id a b funding x y csv c e
  Reachable-IsBalanced _ (state_set s c r) = Reachable-IsBalanced c r
  Reachable-IsBalanced _ (committed c r) =
      left-IsBalanced (commit k c) (commit-IsBalanced k c (Reachable-IsBalanced c r))
  Reachable-IsBalanced _ (revoked c r) =
      left-IsBalanced (revoke_and_advance k c)
        (revoke_and_advance-IsBalanced k c (Reachable-IsBalanced c r))
  Reachable-IsBalanced _ (paid from n c r) =
      left-IsBalanced (pay k from n c) (pay-IsBalanced k from n c (Reachable-IsBalanced c r))
  Reachable-IsBalanced _ (offered s n h x c r) =
      left-IsBalanced (add_htlc k s n h x c)
        (add_htlc-IsBalanced k s n h x c (Reachable-IsBalanced c r))
  Reachable-IsBalanced _ (settled id p c r) =
      left-IsBalanced (settle_htlc k id p c)
        (settle_htlc-IsBalanced k id p c (Reachable-IsBalanced c r))
  Reachable-IsBalanced _ (failed id c r) =
      left-IsBalanced (fail_htlc k id c) (fail_htlc-IsBalanced k id c (Reachable-IsBalanced c r))
  Reachable-IsBalanced d (resized_by opts c _ note r e) =
      splice-IsBalanced opts c d note (Reachable-IsBalanced c r) e
  Reachable-IsBalanced _ (closed m fee c r) =
      left-IsBalanced (cooperative_close k m fee c)
        (cooperative_close-IsBalanced m fee c (Reachable-IsBalanced c r))
  Reachable-IsBalanced _ (forced by c r) =
      left-IsBalanced (force_close k by c) (force_close-IsBalanced by c (Reachable-IsBalanced c r))
