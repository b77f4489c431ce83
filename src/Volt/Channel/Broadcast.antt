-- ===== src/Volt/Channel/Broadcast.antt =====
-- The commitments of chain/src/volt/channel.ts as transactions of the chain.
use Prim.Native.String.{String}
use deckxcoin.Prelude.{
  ℕ, ◌+◌, ◌%◌, ◌≤◌, ◌≡◌, refl, ap, ◌∙◌, subst, false, Option, none, some, List, [], ◌∷◌, ◌++◌,
  arith, ltb, ◌==◌, if◌then◌else◌, Option-cases, inl, inr,
}
use deckxcoin.Tx.{Hex, TxKind, TxInput, TxOutput, Transaction, OutputScript, revocable, is_coinbase}
use deckxcoin.Tx.Build.{transfer_tx, sign_input, cosign_input}
use deckxcoin.Tx.Check.Amounts.{outputs_value}
use deckxcoin.State.{Utxo, WorldState, get_utxo}
use deckxcoin.Chain.Apply.{apply_tx, resolve}
use deckxcoin.Chain.Attempt.{got, TxContext, Receipt}
use deckxcoin.Chain.Apply.Conserves.{apply_spend-IsApplied}
use deckxcoin.Chain.Apply.Locks.{Pairwise, Aged, apply_tx-Aged}
use deckxcoin.Volt.Channel.{
  Side, side_a, side_b, other_side, Htlc, is_pending, VoltChannel, party, counted, pending_sum,
  pending_out, spendable, dust_limit,
}
use deckxcoin.Volt.Channel.Commitment.{
  Keys, pays, unless_dust, htlc_output, htlc_outputs, commitment_outputs, commitment_tx,
  commitment_point, sign_both, build_commitment, obscured,
}
use deckxcoin.Volt.Channel.Balance.{IsBalanced}

-- What is burnt to the fee of a value.
abbrev pub burnt : ℕ → ℕ
burnt value = if ltb value dust_limit then value else 0

abbrev pub burnt_htlcs : List Htlc → ℕ
burnt_htlcs [] = 0
burnt_htlcs (h ∷ hs) = (if is_pending h.status then burnt h.amount else 0) + burnt_htlcs hs

outputs_value-append :
    (xs ys : List TxOutput) → outputs_value (xs ++ ys) ≡ outputs_value xs + outputs_value ys
outputs_value-append [] ys = omega arith
outputs_value-append (x ∷ xs) ys = omega (arith, outputs_value-append xs ys)

outputs_value-unless_dust :
    (value : ℕ) (address : String) (script : Option OutputScript)
    → outputs_value (unless_dust value (pays value address script)) + burnt value ≡ value
outputs_value-unless_dust value address script = ground arith

abbrev htlc_part : VoltChannel → Htlc → List TxOutput
htlc_part c h = if is_pending h.status then unless_dust h.amount (htlc_output c h) else []

outputs_value-htlc_part :
    (c : VoltChannel) (h : Htlc)
    → outputs_value (htlc_part c h) + (if is_pending h.status then burnt h.amount else 0)
      ≡ counted side_a h + counted side_b h
outputs_value-htlc_part c h = ground arith

outputs_value-htlcs :
    (c : VoltChannel) (hs : List Htlc)
    → outputs_value (htlc_outputs c hs) + burnt_htlcs hs
      ≡ pending_sum side_a hs + pending_sum side_b hs
unfolding htlc_outputs pending_sum
outputs_value-htlcs c [] = refl
outputs_value-htlcs c (h ∷ hs) = omega (
  arith,
  outputs_value-append (htlc_part c h) (htlc_outputs c hs),
  outputs_value-htlc_part c h,
  outputs_value-htlcs c hs,
)

commitment_outputs-append :
    (c : VoltChannel) (holder : Side) (key : Hex)
    → commitment_outputs holder c key
      ≡ unless_dust (spendable holder c) (
          pays (spendable holder c) (party holder c).key.address (some (revocable c.csv_delay key)))
        ++ unless_dust
            (spendable (other_side holder) c)
            (pays (spendable (other_side holder) c) (party (other_side holder) c).key.address none)
        ++ htlc_outputs c c.htlcs
unfolding commitment_outputs
commitment_outputs-append c holder key = refl

commitment_outputs-parts :
    (c : VoltChannel) (holder : Side) (key : Hex)
    → outputs_value (commitment_outputs holder c key)
        + (burnt (spendable holder c)
            + burnt (spendable (other_side holder) c)
            + burnt_htlcs c.htlcs)
      ≡ spendable holder c
        + spendable (other_side holder) c
        + (pending_sum side_a c.htlcs + pending_sum side_b c.htlcs)
commitment_outputs-parts c holder key =
    let own =
      unless_dust (spendable holder c) (
        pays (spendable holder c) (party holder c).key.address
          (some (revocable c.csv_delay key))) in
    let their =
      unless_dust (spendable (other_side holder) c)
        (pays (spendable (other_side holder) c) (party (other_side holder) c).key.address none) in
    omega (
      arith,
      ap outputs_value (commitment_outputs-append c holder key),
      outputs_value-append (own ++ their) (htlc_outputs c c.htlcs),
      outputs_value-append own their,
      outputs_value-unless_dust (spendable holder c) (party holder c).key.address
          (some (revocable c.csv_delay key)),
      outputs_value-unless_dust (spendable (other_side holder) c)
          (party (other_side holder) c).key.address none,
      outputs_value-htlcs c c.htlcs,
    )

spendable-sum :
    (c : VoltChannel) (holder : Side)
    → IsBalanced c
    → spendable holder c
        + spendable (other_side holder) c
        + (pending_sum side_a c.htlcs + pending_sum side_b c.htlcs)
      ≡ c.capacity
unfolding spendable pending_out
spendable-sum c side_a b = omega arith
spendable-sum c side_b b = omega arith

-- In a channel whose money adds up, the outputs of either commitment, with the dust that it leaves to
-- the fee, are the capacity of the channel.
pub commitment_outputs-capacity :
    (c : VoltChannel) (holder : Side) (revocation_key : Hex)
    → IsBalanced c
    → outputs_value (commitment_outputs holder c revocation_key)
        + (burnt (spendable holder c)
            + burnt (spendable (other_side holder) c)
            + burnt_htlcs c.htlcs)
      ≡ c.capacity
commitment_outputs-capacity c holder key b =
    commitment_outputs-parts c holder key ∙ spendable-sum c holder b

abbrev FundedBy : VoltChannel → ℕ → Transaction → Type 0
FundedBy c n tx =
    (input : TxInput) × (tx.inputs ≡ input ∷ [])
    × (tx.kind ≡ TxKind.transfer)
    × (input.txid ≡ c.funding.txid)
    × (input.vout ≡ c.funding.vout)
    × (input.sequence ≡ obscured n)

commitment_tx-FundedBy :
    (k : Keys) (c : VoltChannel) (n : ℕ) (outputs : List TxOutput)
    → FundedBy c n (commitment_tx k c n outputs)
unfolding commitment_tx transfer_tx sign_both sign_input cosign_input
commitment_tx-FundedBy k c n outputs = (_, refl, refl, refl, refl, refl)

build_commitment-FundedBy :
    (k : Keys) (holder : Side) (c : VoltChannel) (n : ℕ) (tx : Transaction)
    → build_commitment k holder c n ≡ some tx
    → FundedBy c n tx
unfolding build_commitment
build_commitment-FundedBy k holder c n tx e =
    elim (Option-cases (commitment_point k (party holder c) n)) [
      | inl gone ↦ absurd (ground arith)
      | inr (point, ep) ↦
          elim (Option-cases
            (k.revocation_pubkey (party (other_side holder) c).revocation_base.point point)) [
              | inl gone ↦ absurd (ground arith)
              | inr (key, ek) ↦
                  let made : commitment_tx k c n (commitment_outputs holder c key) ≡ tx =
                    ground arith in
                  subst (FundedBy c n) made
                    (commitment_tx-FundedBy k c n (commitment_outputs holder c key))
            ]
    ]

resolve-one :
    (height : ℕ) (s : WorldState) (input : TxInput) (u : Utxo)
    → get_utxo input.txid input.vout s ≡ some u
    → (us : List Utxo) → resolve height s (input ∷ []) ≡ got us
    → Pairwise (Aged height) (input ∷ []) us
    → Aged height input u
unfolding resolve
resolve-one height s input u found [] r old = absurd old
resolve-one height s input u found (v ∷ us) r old =
    let same : v ≡ u = ground arith in subst (Aged height input) same old.0

-- The chain refuses commitment number `n` until the funding output is `n mod 65536` blocks old, because
-- the number stands where the chain reads a relative lock.
pub commitment-waits :
    (k : Keys) (holder : Side) (c : VoltChannel) (n : ℕ) (tx : Transaction) (ctx : TxContext)
    (s t : WorldState) (r : Receipt) (u : Utxo)
    → build_commitment k holder c n ≡ some tx
    → get_utxo c.funding.txid c.funding.vout s ≡ some u
    → apply_tx k.oracle tx ctx s ≡ got (r, t)
    → u.height + n % 65_536 ≤ ctx.height
unfolding apply_tx
commitment-waits k holder c n tx ctx s t r u e found applied =
    let (input, inputs, kind, id, vout, sequence) = build_commitment-FundedBy k holder c n tx e in
    let found' : get_utxo input.txid input.vout s ≡ some u = rw id (rw vout found) in
    let plain : is_coinbase tx.kind ≡ false = rw kind refl in
    let a = apply_spend-IsApplied k.oracle tx ctx s r t (rw plain at applied) in
    let old = (apply_tx-Aged k.oracle tx ctx s r t a.us plain applied a.resolved).0 in
    let aged =
      resolve-one ctx.height s input u found' a.us
        (subst (λ is. resolve ctx.height s is ≡ got a.us) inputs a.resolved)
        (subst (λ is. Pairwise (Aged ctx.height) is a.us) inputs old) in
    let relative : (input.sequence == 0xffffffff) ≡ false = ground arith in
    omega (arith, aged.0 relative)
