-- ===== src/Volt/Channel.antt =====
-- `VoltChannel` of chain/src/volt/channel.ts: its state, and the amounts that it reads off it.
pub mod Commitment
pub mod Payments
pub mod Closing
pub mod Balance
pub mod Broadcast
pub mod Sweeps
use Prim.Native.String.{String}
use deckxcoin.Prelude.{
  ℕ, zero, ◌+◌, ◌-◌, Bool, true, false, ◌&&◌, Option, none, some, List, [], ◌∷◌, ◌==◌,
  if◌then◌else◌,
}
use deckxcoin.Prelude.Int.{ℤ, pos, negsuc}
use deckxcoin.Prelude.JsMap.{JsMap}
use deckxcoin.Tx.{Hex, OutputScript, Transaction}
use deckxcoin.Tx.Build.{KeyPair}
use deckxcoin.Volt.Secrets.{SecretChain}

abbrev pub default_csv_delay : ℕ
default_csv_delay = 144

abbrev pub dust_limit : ℕ
dust_limit = 546

pub data ChannelState : Type 0 where
  opening open_now closing closed : ChannelState

abbrev pub is_open : ChannelState → Bool
is_open ChannelState.open_now = true
is_open _ = false

pub data HtlcStatus : Type 0 where
  pending settled failed : HtlcStatus

abbrev pub is_pending : HtlcStatus → Bool
is_pending HtlcStatus.pending = true
is_pending _ = false

pub data Side : Type 0 where
  side_a side_b : Side

abbrev pub same_side : Side → Side → Bool
same_side side_a side_a = true
same_side side_b side_b = true
same_side _ _ = false

abbrev pub other_side : Side → Side
other_side side_a = side_b
other_side side_b = side_a

pub record Htlc : Type 0 where
  pub id : ℕ
  pub offerer : Side
  pub amount : ℕ
  pub payment_hash : Hex
  pub expiry : ℕ
  pub status : HtlcStatus
  pub preimage : Option Hex

pub record ChannelParty : Type 0 where
  pub name : String
  pub key : KeyPair
  pub revocation_base : KeyPair
  pub secrets : SecretChain

pub record FundingOutpoint : Type 0 where
  pub txid : Hex
  pub vout : ℕ
  pub value : ℕ
  pub address : String
  pub script : OutputScript

pub record SpliceRecord : Type 0 where
  pub at_number : ℕ
  pub side : Side
  pub splice_in : ℕ
  pub splice_out : ℕ
  pub capacity_before : ℕ
  pub capacity_after : ℕ
  pub previous_funding : FundingOutpoint

pub record CommitmentBundle : Type 0 where
  pub for_a : Transaction
  pub for_b : Transaction
  pub number : ℕ

-- The newest splice and the newest HTLC are the last of their lists. The balances are those of a channel
-- that was opened with none below zero: no operation on it takes more from a side than it holds.
pub record VoltChannel : Type 0 where
  pub id : String
  pub a : ChannelParty
  pub b : ChannelParty
  pub csv_delay : ℕ
  pub capacity : ℕ
  pub funding : FundingOutpoint
  pub splices : List SpliceRecord
  pub balance_a : ℕ
  pub balance_b : ℕ
  pub state : ChannelState
  pub commitment_number : ℕ
  pub htlcs : List Htlc
  pub next_htlc_id : ℕ
  pub revoked_by_a : JsMap ℕ Hex
  pub revoked_by_b : JsMap ℕ Hex
  pub history : JsMap ℕ CommitmentBundle

-- Whether two balances sum to a value.
abbrev pub sum_to : ℤ → ℤ → ℕ → Bool
sum_to (pos x) (pos y) value = x + y == value
sum_to (pos x) (negsuc n) value = x == value + n + 1
sum_to (negsuc n) (pos y) value = y == value + n + 1
sum_to (negsuc m) (negsuc n) value = false

-- What the constructor makes of its balances. `overdrawn`: it accepts them although one is below zero;
-- such a channel is no `VoltChannel` here. `throws`: they do not sum to the funding value.
pub data Opening : Type 0 where
  opened : VoltChannel → Opening
  overdrawn throws : Opening

new_channel :
    String → ChannelParty → ChannelParty → FundingOutpoint → ℕ → ℕ → Option ℕ → VoltChannel
new_channel id a b funding balance_a balance_b csv_delay = record {
  id = id;
  a = a;
  b = b;
  csv_delay = elim csv_delay [ none ↦ default_csv_delay | some delay ↦ delay ];
  capacity = funding.value;
  funding = funding;
  splices = [];
  balance_a = balance_a;
  balance_b = balance_b;
  state = ChannelState.opening;
  commitment_number = 0;
  htlcs = [];
  next_htlc_id = 0;
  revoked_by_a = [];
  revoked_by_b = [];
  history = [];
}

abbrev open_with :
    String → ChannelParty → ChannelParty → FundingOutpoint → ℤ → ℤ → Option ℕ → Opening
unfolding new_channel
open_with id a b funding (pos x) (pos y) csv_delay =
    opened (new_channel id a b funding x y csv_delay)
open_with id a b funding (pos x) (negsuc n) csv_delay = overdrawn
open_with id a b funding (negsuc n) (pos y) csv_delay = overdrawn
open_with id a b funding (negsuc m) (negsuc n) csv_delay = overdrawn

-- The constructor tests the sum alone.
unfoldable pub open_channel :
    String → ChannelParty → ChannelParty → FundingOutpoint → ℤ → ℤ → Option ℕ → Opening
unfolding new_channel
open_channel id a b funding balance_a balance_b csv_delay =
    if sum_to balance_a balance_b funding.value
    then open_with id a b funding balance_a balance_b csv_delay
    else throws

abbrev pub party : Side → VoltChannel → ChannelParty
party side_a c = c.a
party side_b c = c.b

abbrev pub balance : Side → VoltChannel → ℕ
balance side_a c = c.balance_a
balance side_b c = c.balance_b

-- The part of the sum in `pendingOut` that one HTLC is.
abbrev pub counted : Side → Htlc → ℕ
counted side h = if same_side h.offerer side && is_pending h.status then h.amount else 0

unfoldable pub pending_sum : Side → List Htlc → ℕ
pending_sum side [] = 0
pending_sum side (h ∷ hs) = counted side h + pending_sum side hs

unfoldable pub pending_out : Side → VoltChannel → ℕ
unfolding pending_sum
pending_out side c = pending_sum side c.htlcs

-- A difference below zero, which no operation on a channel without a negative balance reaches, is zero
-- here.
unfoldable pub spendable : Side → VoltChannel → ℕ
unfolding pending_out
spendable side c = balance side c - pending_out side c
