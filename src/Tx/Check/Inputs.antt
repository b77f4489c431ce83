-- ===== src/Tx/Check/Inputs.antt =====
-- What an input of chain/src/tx.ts has shown, script by script, when `checkTx` lets it through.
use deckxcoin.Prelude.{
  ℕ, zero, suc, ◌+◌, List, [], ◌∷◌, get_elem?, false, ◌%◌, ◌≤◌, ◌≡◌, ◌⊎◌, inl, inr, refl, ap, ◌∙◌,
  true, Option, none, some, arith, length, ◌==◌, Bool-cases, Option-cases,
}
use deckxcoin.Prelude.Eq.{◌===◌, string_eq}
use deckxcoin.Tx.{
  Hex, TxInput, Cosign, OutputScript, p2pkh, multisig2, htlc, ptlc, revocable, Transaction, PrevOut,
  is_coinbase,
}
use deckxcoin.Tx.Oracle.{Oracle, Bytes}
use deckxcoin.Tx.Check.{
  valid, or_throw, owner_key, same_keys, script_of, check_cosign, opens_hash, opens_point,
  check_script, check_key, check_input, check_inputs, check_tx, check_common,
}
use deckxcoin.Tx.Check.Amounts.{>>=-valid, check_spend-IsSpend}

or_throw-valid {ℓ} : {A : Type ℓ} (x : Option A) (a : A) → or_throw x ≡ valid a → x ≡ some a
or_throw-valid none a h = cc
or_throw-valid (some b) a h = cc

module _ (o : Oracle) (tx : Transaction) (input : TxInput) (prev : PrevOut) where
  -- The text opens the hash, as the hexadecimal text of a preimage.
  pub record OpensHash (hash : Hex) : Type 0 where
    pub preimage : Hex
    pub shown : input.preimage ≡ some preimage
    pub bytes : Bytes
    pub read : o.from_hex preimage ≡ some bytes
    pub opens : (o.sha256_hex bytes === hash) ≡ true

  pub record OpensPoint (point : Hex) : Type 0 where
    pub scalar : Hex
    pub shown : input.scalar ≡ some scalar
    pub bytes : Bytes
    pub read : o.from_hex scalar ≡ some bytes
    pub reached : Hex
    pub derived : o.point_hex bytes ≡ some reached
    pub opens : (reached === point) ≡ true

  pub record Cosigned (digest : Bytes) (key_a key_b : Hex) : Type 0 where
    pub cosign : Cosign
    pub shown : input.cosign ≡ some cosign
    pub both : same_keys input.pubkey cosign.pubkey key_a key_b ≡ true
    pub key : Bytes
    pub read : o.from_hex cosign.pubkey ≡ some key
    pub signed : o.verify cosign.signature digest key ≡ true

  -- The refund branch of the two kinds of timed lock.
  abbrev pub Refunds : Hex → ℕ → Type 0
  Refunds refund_key timeout = ((input.pubkey === refund_key) ≡ true) × (timeout ≤ tx.lock_time)

  -- The condition that a script puts on an input, branch by branch.
  abbrev pub Meets : Bytes → Bytes → OutputScript → Type 0
  Meets pubkey digest p2pkh = owner_key o pubkey prev ≡ true
  Meets pubkey digest (multisig2 key_a key_b) = Cosigned digest key_a key_b
  Meets pubkey digest (htlc hash timeout refund_key) =
      (OpensHash hash × (owner_key o pubkey prev ≡ true)) ⊎ Refunds refund_key timeout
  Meets pubkey digest (ptlc point timeout refund_key) =
      (OpensPoint point × (owner_key o pubkey prev ≡ true)) ⊎ Refunds refund_key timeout
  Meets pubkey digest (revocable delay revocation_key) =
      ((input.pubkey === revocation_key) ≡ true)
      ⊎ ((owner_key o pubkey prev ≡ true) × (delay ≤ input.sequence % 65_536))

  check_cosign-Cosigned :
      (digest : Bytes) (key_a key_b : Hex) (c : Option Cosign)
      → input.cosign ≡ c
      → check_cosign o digest input key_a key_b c ≡ valid tt
      → Cosigned digest key_a key_b
  unfolding check_cosign
  check_cosign-Cosigned digest key_a key_b none e h = cc
  check_cosign-Cosigned digest key_a key_b (some c) e h =
      let both : same_keys input.pubkey c.pubkey key_a key_b ≡ true = ground arith in
      let (key, read, rest) = >>=-valid (or_throw (o.from_hex c.pubkey)) _ tt (rw both at h) in
      record {
        cosign = c;
        shown = e;
        both = both;
        key = key;
        read = or_throw-valid _ key read;
        signed = ground arith;
      }

  opens_hash-OpensHash :
      (hash : Hex) (p : Option Hex)
      → input.preimage ≡ p
      → opens_hash o p hash ≡ valid true
      → OpensHash hash
  unfolding opens_hash
  opens_hash-OpensHash hash none e h = cc
  opens_hash-OpensHash hash (some p) e h = elim (Option-cases (o.from_hex p)) [
    | inl unread ↦ absurd (ground arith)
    | inr (bytes, read) ↦ record {
      preimage = p;
      shown = e;
      bytes = bytes;
      read = read;
      opens = ground arith;
    }
  ]

  opens_point-OpensPoint :
      (point : Hex) (p : Option Hex)
      → input.scalar ≡ p
      → opens_point o p point ≡ true
      → OpensPoint point
  unfolding opens_point
  opens_point-OpensPoint point none e h = cc
  opens_point-OpensPoint point (some p) e h = elim (Option-cases (o.from_hex p)) [
    | inl unread ↦ absurd (ground arith)
    | inr (bytes, read) ↦ elim (Option-cases (o.point_hex bytes)) [
      | inl out ↦ absurd (ground arith)
      | inr (reached, derived) ↦ record {
        scalar = p;
        shown = e;
        bytes = bytes;
        read = read;
        reached = reached;
        derived = derived;
        opens = ground arith;
      }
    ]
  ]

  check_script-Meets :
      (pubkey digest : Bytes) (script : OutputScript)
      → check_script o tx input prev pubkey digest script ≡ valid tt
      → Meets pubkey digest script
  unfolding check_script
  check_script-Meets pubkey digest p2pkh h = ground arith
  check_script-Meets pubkey digest (multisig2 key_a key_b) h =
      check_cosign-Cosigned digest key_a key_b input.cosign refl h
  check_script-Meets pubkey digest (htlc hash timeout refund_key) h =
      let (claimed, opened, rest) = >>=-valid (opens_hash o input.preimage hash) _ tt h in
      elim (Bool-cases claimed) [
        | inl claims ↦
            inl (
              opens_hash-OpensHash hash input.preimage refl (opened ∙ ap valid claims),
              ground arith,
            )
        | inr refund ↦ inr (ground arith)
      ]
  check_script-Meets pubkey digest (ptlc point timeout refund_key) h =
      elim (Bool-cases (opens_point o input.scalar point)) [
        | inl claimed ↦ inl (opens_point-OpensPoint point input.scalar refl claimed, ground arith)
        | inr refund ↦ inr (ground arith)
      ]
  check_script-Meets pubkey digest (revocable delay key) h = ground arith

  -- An input that a key unlocks: its key, and what the script wanted besides the signature.
  pub record KeySpend (i : ℕ) : Type 0 where
    pub pubkey : Bytes
    pub read : o.from_hex input.pubkey ≡ some pubkey
    pub size : length pubkey ≡ 32
    pub meets : Meets pubkey (o.sighash tx i prev.value prev.address) (script_of prev.script)
    pub signed : o.verify input.signature (o.sighash tx i prev.value prev.address) pubkey ≡ true

  pub check_key-KeySpend : (i : ℕ) → check_key o tx i input prev ≡ valid tt → KeySpend i
  unfolding check_key
  check_key-KeySpend i h =
      let (pubkey, read, rest) = >>=-valid (or_throw (o.from_hex input.pubkey)) _ tt h in
      let size : (length pubkey == 32) ≡ true = ground arith in
      let digest = o.sighash tx i prev.value prev.address in
      let (one, met, last) =
        >>=-valid (check_script o tx input prev pubkey digest (script_of prev.script)) _ tt
          (rw size at rest) in
      record {
        pubkey = pubkey;
        read = or_throw-valid _ pubkey read;
        size = ground arith;
        meets = check_script-Meets pubkey digest (script_of prev.script) met;
        signed = ground arith;
      }

module _ (o : Oracle) (tx : Transaction) where
  -- Each input has passed its own check.
  check_inputs-each :
      (i j : ℕ) (inputs : List TxInput) (prevs : List PrevOut) (sum total : ℕ) (input : TxInput)
      (prev : PrevOut)
      → check_inputs o tx i inputs prevs sum ≡ valid total
      → get_elem? inputs j ≡ some input
      → get_elem? prevs j ≡ some prev
      → check_input o tx (i + j) input prev ≡ valid tt
  unfolding check_inputs
  check_inputs-each i j [] prevs sum total input prev h a b = cc
  check_inputs-each i j (x ∷ inputs) [] sum total input prev h a b = cc
  check_inputs-each i zero (x ∷ inputs) (p ∷ prevs) sum total input prev h a b =
      let (one, first, rest) = >>=-valid (check_input o tx i x p) _ total h in
      let same : i + 0 ≡ i = omega arith in
      let own : x ≡ input = ground arith in
      let spent : p ≡ prev = ground arith in rw same (rw (← own) (rw (← spent) first))
  check_inputs-each i (suc j) (x ∷ inputs) (p ∷ prevs) sum total input prev h a b =
      let (one, first, rest) = >>=-valid (check_input o tx i x p) _ total h in
      let same : i + suc j ≡ i + 1 + j = omega arith in
      rw same (
        check_inputs-each (i + 1) j inputs prevs (sum + p.value) total input prev rest
          (ground arith) (ground arith))

  -- Where `checkTx` lets a transaction through that is no coinbase, each input whose output no contract
  -- locks has a key of 32 bytes whose signature on the digest of that input verifies, and meets the
  -- script of the output: the owner's key; or both keys of a pair, each of which has signed; or the
  -- owner's key with a preimage or a scalar that opens the lock, or the refund key from the timeout on;
  -- or the revocation key, or the owner's key with a sequence of the delay at least.
  pub check_tx-KeySpend :
      (prevs : List PrevOut) (fee j : ℕ) (input : TxInput) (prev : PrevOut)
      → is_coinbase tx.kind ≡ false
      → check_tx o tx prevs ≡ valid fee
      → get_elem? tx.inputs j ≡ some input
      → get_elem? prevs j ≡ some prev
      → o.is_contract_address prev.address ≡ false
      → KeySpend o tx input prev j
  unfolding check_tx check_input
  check_tx-KeySpend prevs fee j input prev k h a b key =
      let (total, common, spend) = >>=-valid (check_common o tx) _ fee (rw k at h) in
      let v = check_spend-IsSpend o tx prevs total fee spend in
      let each = check_inputs-each 0 j tx.inputs prevs 0 _ input prev v.inputs_valid a b in
      let same : 0 + j ≡ j = omega arith in
      check_key-KeySpend o tx input prev j (rw key at (rw same at each))
