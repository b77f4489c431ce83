-- ===== src/Volt/Channel/Commitment.antt =====
-- Commitments of chain/src/volt/channel.ts: `buildCommitment`, `commit`, `revokeAndAdvance`.
use Prim.Native.String.{String}
use deckxcoin.Prelude.{
  ℕ, ◌+◌, ◌%◌, Option, none, some, List, [], ◌∷◌, ◌++◌, ltb, ◌==◌, if◌then◌else◌, length,
}
use deckxcoin.Prelude.Eq.{nat_eq}
use deckxcoin.Prelude.JsMap
use deckxcoin.Prelude.JsMap.{JsMap}
use deckxcoin.Prelude.Int.{pos}
use deckxcoin.Tx.{Hex, OutputScript, TxOutput, Transaction, PrevOut, revocable, htlc}
use deckxcoin.Tx.Oracle.{Oracle, Bytes}
use deckxcoin.Tx.Build.{Sign, transfer_tx, sign_input, cosign_input}
use deckxcoin.Volt.Secrets.{secret}
use deckxcoin.Volt.Channel.{
  Side, side_a, side_b, other_side, Htlc, is_pending, ChannelParty, CommitmentBundle, VoltChannel,
  party, spendable, dust_limit,
}

-- The functions of the curve and of the digests that a channel calls.
pub record Keys : Type 0 where
  pub oracle : Oracle
  pub sign : Sign
  -- taggedHash('Volt/chain', ·)
  pub chain_hash : Bytes → Bytes
  pub to_hex : Bytes → Hex
  -- revocationPubkey, which throws unless both texts are 33-byte points
  pub revocation_pubkey : Hex → Hex → Option Hex
  -- the `memo` text of a channel and a number
  pub memo : String → ℕ → String

-- secrets.point(n), which throws out of range
unfoldable pub commitment_point : Keys → ChannelParty → ℕ → Option Hex
commitment_point k p n = elim (secret k.chain_hash p.secrets n) [
  | none ↦ none
  | some s ↦ k.oracle.point_hex s
]

abbrev pub funding_prev_out : VoltChannel → PrevOut
funding_prev_out c = record {
  value = c.funding.value;
  address = c.funding.address;
  script = some c.funding.script;
}

abbrev pub pays : ℕ → String → Option OutputScript → TxOutput
pays value address script = record { value = some (pos value); address = address; script = script }

-- An output, unless it is dust.
abbrev pub unless_dust : ℕ → TxOutput → List TxOutput
unless_dust value out = if ltb value dust_limit then [] else out ∷ []

abbrev pub htlc_output : VoltChannel → Htlc → TxOutput
htlc_output c h =
    pays h.amount (party (other_side h.offerer) c).key.address
      (some (htlc h.payment_hash h.expiry (party h.offerer c).key.public_key))

unfoldable pub htlc_outputs : VoltChannel → List Htlc → List TxOutput
htlc_outputs c [] = []
htlc_outputs c (h ∷ hs) =
    (if is_pending h.status then unless_dust h.amount (htlc_output c h) else [])
    ++ htlc_outputs c hs

-- The outputs in their fixed order: the holder's, the other's, and one for each payment in flight.
unfoldable pub commitment_outputs : Side → VoltChannel → Hex → List TxOutput
unfolding htlc_outputs
commitment_outputs holder c revocation_key =
    unless_dust (spendable holder c) (
      pays (spendable holder c) (party holder c).key.address
        (some (revocable c.csv_delay revocation_key)))
    ++ unless_dust (spendable (other_side holder) c)
        (pays (spendable (other_side holder) c) (party (other_side holder) c).key.address none)
    ++ htlc_outputs c c.htlcs

-- 0x00800000 | (commitmentNumber & 0x0000ffff), a sum since the two share no bit.
abbrev pub obscured : ℕ → ℕ
obscured n = 0x00800000 + n % 65_536

unfoldable pub sign_both : Keys → VoltChannel → Transaction → Transaction
sign_both k c tx =
    cosign_input k.oracle k.sign (sign_input k.oracle k.sign tx 0 c.a.key (funding_prev_out c)) 0
      c.b.key (funding_prev_out c)

unfoldable pub commitment_tx : Keys → VoltChannel → ℕ → List TxOutput → Transaction
unfolding transfer_tx sign_both
commitment_tx k c n outputs = sign_both k c (
    transfer_tx (record {
      inputs =
          record { txid = c.funding.txid; vout = c.funding.vout; sequence = some (obscured n) }
          ∷ [];
      outputs = outputs;
      lock_time = none;
      memo = some (k.memo c.id n);
    }))

-- `none`: a secret or a key is out of range, or every output is dust, and the method throws.
unfoldable pub build_commitment : Keys → Side → VoltChannel → ℕ → Option Transaction
unfolding commitment_point commitment_tx commitment_outputs
build_commitment k holder c n = elim (commitment_point k (party holder c) n) [
  | none ↦ none
  | some point ↦
      elim (k.revocation_pubkey (party (other_side holder) c).revocation_base.point point) [
        | none ↦ none
        | some revocation_key ↦
            let outputs = commitment_outputs holder c revocation_key in
            if length outputs == 0 then none else some (commitment_tx k c n outputs)
      ]
]

-- What a method leaves: its result and the channel, or the channel as it is where it throws.
pub data Left {ℓ} (A : Type ℓ) : Type ℓ where
  returned : A → VoltChannel → Left A
  threw : VoltChannel → Left A

unfoldable pub commit : Keys → VoltChannel → Left CommitmentBundle
unfolding build_commitment
commit k c = elim (build_commitment k side_a c c.commitment_number) [
  | none ↦ threw c
  | some for_a ↦ elim (build_commitment k side_b c c.commitment_number) [
    | none ↦ threw c
    | some for_b ↦
        let bundle : CommitmentBundle = record {
          for_a = for_a;
          for_b = for_b;
          number = c.commitment_number;
        } in
        returned bundle (record c { history = JsMap.put c.commitment_number bundle c.history })
  ]
]

unfoldable pub secret_hex : Keys → ChannelParty → ℕ → Option Hex
secret_hex k p n = elim (secret k.chain_hash p.secrets n) [
  | none ↦ none
  | some s ↦ some (k.to_hex s)
]

-- The same ending, with another result.
abbrev pub give {ℓ κ} : {A : Type ℓ} {B : Type κ} → B → Left A → Left B
give b (returned a c) = returned b c
give b (threw c) = threw c

-- Both sides' secrets are handed over before the next pair is built, so a throw of `commit` keeps them.
unfoldable pub hand_over : Keys → VoltChannel → Option Hex → Option Hex → Left (ℕ × Hex × Hex)
unfolding commit
hand_over k c (some from_a) (some from_b) =
    let revoked = c.commitment_number in
    give (revoked, from_a, from_b)
      (commit k (record c {
        revoked_by_a = JsMap.put revoked from_a c.revoked_by_a;
        revoked_by_b = JsMap.put revoked from_b c.revoked_by_b;
        commitment_number = revoked + 1;
      }))
hand_over k c _ _ = threw c

unfoldable pub revoke_and_advance : Keys → VoltChannel → Left (ℕ × Hex × Hex)
unfolding secret_hex hand_over
revoke_and_advance k c =
    hand_over k c (secret_hex k c.a c.commitment_number) (secret_hex k c.b c.commitment_number)
