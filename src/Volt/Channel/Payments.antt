-- ===== src/Volt/Channel/Payments.antt =====
-- Payments and splices of chain/src/volt/channel.ts: `pay`, `addHtlc`, `settleHtlc`, `failHtlc`, `splice`.
use deckxcoin.Prelude.{
  ℕ, ◌+◌, ◌-◌, Bool, false, ◌&&◌, ◌||◌, not, Option, none, some, List, [], ◌∷◌, ◌++◌, ltb, leb,
  ◌==◌, if◌then◌else◌, any,
}
use deckxcoin.Prelude.Eq.{◌===◌, string_eq}
use deckxcoin.Prelude.Int.{ℤ, pos, negsuc}
use deckxcoin.Tx.{Hex}
use deckxcoin.Volt.Channel.{
  Side, side_a, side_b, Htlc, HtlcStatus, is_pending, is_open, FundingOutpoint, SpliceRecord,
  VoltChannel, balance, spendable,
}
use deckxcoin.Volt.Channel.Commitment.{Keys, Left, threw, give, revoke_and_advance}

-- `amount` goes from the one side to the other.
abbrev pub moved : Side → ℕ → VoltChannel → VoltChannel
moved side_a amount c = record c {
  balance_a = c.balance_a - amount;
  balance_b = c.balance_b + amount;
}
moved side_b amount c = record c {
  balance_b = c.balance_b - amount;
  balance_a = c.balance_a + amount;
}

-- The value that a method returns, once the commitments are rebuilt.
abbrev pub advance {ℓ} : {A : Type ℓ} → Keys → A → VoltChannel → Left A
advance k a c = give a (revoke_and_advance k c)

-- The channel is not open, or the amount is not positive, or it is more than the side can spend.
abbrev pub unpayable : Side → ℕ → VoltChannel → Bool
unpayable side amount c = not (is_open c.state) || amount == 0 || ltb (spendable side c) amount

unfoldable pub pay_amount : Keys → Side → ℕ → VoltChannel → Left (Unit {0})
pay_amount k from amount c =
    if unpayable from amount c then threw c else advance k tt (moved from amount c)

unfoldable pub pay : Keys → Side → ℤ → VoltChannel → Left (Unit {0})
unfolding pay_amount
pay k from (negsuc n) c = threw c
pay k from (pos amount) c = pay_amount k from amount c

abbrev pub new_htlc : VoltChannel → Side → ℕ → Hex → ℕ → Htlc
new_htlc c offerer amount payment_hash expiry = record {
  id = c.next_htlc_id;
  offerer = offerer;
  amount = amount;
  payment_hash = payment_hash;
  expiry = expiry;
  status = HtlcStatus.pending;
  preimage = none;
}

unfoldable pub add_amount : Keys → Side → ℕ → Hex → ℕ → VoltChannel → Left Htlc
add_amount k offerer amount payment_hash expiry c =
    if unpayable offerer amount c
    then threw c
    else let h = new_htlc c offerer amount payment_hash expiry in
      advance k h (record c { htlcs = c.htlcs ++ h ∷ []; next_htlc_id = c.next_htlc_id + 1 })

unfoldable pub add_htlc : Keys → Side → ℤ → Hex → ℕ → VoltChannel → Left Htlc
unfolding add_amount
add_htlc k offerer (negsuc n) payment_hash expiry c = threw c
add_htlc k offerer (pos amount) payment_hash expiry c =
    add_amount k offerer amount payment_hash expiry c

-- `htlcs.find((x) => x.id === id)`
unfoldable pub find_htlc : ℕ → List Htlc → Option Htlc
find_htlc id [] = none
find_htlc id (h ∷ hs) = let rest = find_htlc id hs in if h.id == id then some h else rest

-- The object that `find` returns, mutated where it stands.
unfoldable pub put_htlc : ℕ → Htlc → List Htlc → List Htlc
put_htlc id new [] = []
put_htlc id new (h ∷ hs) =
    let rest = put_htlc id new hs in if h.id == id then new ∷ hs else h ∷ rest

abbrev pub opens : Keys → Hex → Hex → Bool
opens k preimage hash = elim (k.oracle.from_hex preimage) [
  | none ↦ false
  | some bytes ↦ k.oracle.sha256_hex bytes === hash
]

-- The two methods once the HTLC is looked up.
unfoldable pub settle_found : Keys → ℕ → Hex → VoltChannel → Option Htlc → Left Htlc
unfolding put_htlc
settle_found k id preimage c none = threw c
settle_found k id preimage c (some h) =
    let done = record h { status = HtlcStatus.settled; preimage = some preimage } in
    if not (is_pending h.status) || not (opens k preimage h.payment_hash)
    then threw c
    else advance k done (record (moved h.offerer h.amount c) { htlcs = put_htlc id done c.htlcs })

unfoldable pub settle_htlc : Keys → ℕ → Hex → VoltChannel → Left Htlc
unfolding find_htlc settle_found
settle_htlc k id preimage c = settle_found k id preimage c (find_htlc id c.htlcs)

unfoldable pub fail_found : Keys → ℕ → VoltChannel → Option Htlc → Left Htlc
unfolding put_htlc
fail_found k id c none = threw c
fail_found k id c (some h) =
    let done = record h { status = HtlcStatus.failed } in
    if not (is_pending h.status)
    then threw c
    else advance k done (record c { htlcs = put_htlc id done c.htlcs })

unfoldable pub fail_htlc : Keys → ℕ → VoltChannel → Left Htlc
unfolding find_htlc fail_found
fail_htlc k id c = fail_found k id c (find_htlc id c.htlcs)

pub record SpliceOptions : Type 0 where
  pub side : Side
  pub splice_in : Option ℤ
  pub splice_out : Option ℤ
  pub funding : FundingOutpoint

-- The texts of `splice`.
pub data SpliceError : Type 0 where
  not_open negative_amount nothing_moves htlcs_in_flight exceeds_balance : SpliceError
  empties_channel wrong_funding_value wrong_address : SpliceError

pub data Spliced : Type 0 where
  spliced : SpliceRecord → VoltChannel → Spliced
  refused : SpliceError → Spliced

-- An absent amount is zero; `none` is one below zero.
abbrev pub splice_amount : Option ℤ → Option ℕ
splice_amount none = some 0
splice_amount (some (pos n)) = some n
splice_amount (some (negsuc n)) = none

abbrev pub resized : Side → ℕ → ℕ → VoltChannel → VoltChannel
resized side_a added taken c = record c { balance_a = c.balance_a + added - taken }
resized side_b added taken c = record c { balance_b = c.balance_b + added - taken }

-- The two amounts are at least zero.
unfoldable pub splice_by : Side → ℕ → ℕ → FundingOutpoint → VoltChannel → Spliced
splice_by side added taken funding c =
    let new_capacity = c.capacity + added - taken in
    let note : SpliceRecord = record {
      at_number = c.commitment_number;
      side = side;
      splice_in = added;
      splice_out = taken;
      capacity_before = c.capacity;
      capacity_after = new_capacity;
      previous_funding = c.funding;
    } in
    if added == 0 && taken == 0
    then refused nothing_moves
    else if any (λ h. is_pending h.status) c.htlcs
    then refused htlcs_in_flight
    else if ltb (balance side c) taken
    then refused exceeds_balance
    else if leb (c.capacity + added) taken
    then refused empties_channel
    else if not (funding.value == new_capacity)
    then refused wrong_funding_value
    else if not (funding.address === c.funding.address)
    then refused wrong_address
    else spliced note (record (resized side added taken c) {
      capacity = new_capacity;
      funding = funding;
      splices = c.splices ++ note ∷ [];
      commitment_number = c.commitment_number + 1;
    })

unfoldable pub splice : SpliceOptions → VoltChannel → Spliced
unfolding splice_by
splice opts c =
    if not (is_open c.state) then refused not_open else elim (splice_amount opts.splice_in) [
      | none ↦ refused negative_amount
      | some added ↦ elim (splice_amount opts.splice_out) [
        | none ↦ refused negative_amount
        | some taken ↦ splice_by opts.side added taken opts.funding c
      ]
    ]
