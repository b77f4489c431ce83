-- ===== src/Chain/Blockchain/Added.antt =====
-- What `addBlock` of chain/src/chain.ts has checked of a block that it adds.
use deckxcoin.Prelude.{
  ℕ, ◌+◌, ◌<◌, ◌≡◌, refl, true, false, none, some, List, [], ◌∷◌, arith, length, ltb, Bool-cases,
  Option-cases, inl, inr,
}
use deckxcoin.Prelude.Eq.{◌===◌, ===→eq, string_eq}
use deckxcoin.Block.Target.{block_work}
use deckxcoin.Block.Header.{Block, BlockHeader, Hashes, passes, check_header, block_gas_limit}
use deckxcoin.Tx.{Hex, Transaction}
use deckxcoin.Tx.Oracle.{Oracle}
use deckxcoin.State.{WorldState}
use deckxcoin.Chain.Apply.{apply_tx}
use deckxcoin.Chain.Attempt.{got, TxContext, Receipt, ends, at_got, at_refuse, at_throw}
use deckxcoin.Chain.Blockchain.{
  next_bits_for, median_time_past, Blockchain, BlockError, added, Totals, Replayed, replayed, stops,
  breaks, apply_all, connect_block, refused, crash, apply_block_coinbase, check_context, check_tip,
  add_block,
}

abbrev pub context : ℕ → ℕ → TxContext
context height time = record { height = height; time = time; available_fees = 0 }

abbrev pub count : Totals → Receipt → Totals
count totals receipt = record {
  fees = totals.fees + receipt.fee;
  gas = totals.gas + receipt.gas_used;
}

module _ (o : Oracle) (height time : ℕ) where
  -- The first round of the loop.
  pub apply_all-cons :
      (tx : Transaction) (rest : List Transaction) (totals after : Totals) (s t : WorldState)
      → apply_all o height time (tx ∷ rest) totals s ≡ replayed after t
      → (receipt : Receipt) × (m : WorldState) × (apply_tx o tx (context height time) s
          ≡ got (receipt, m))
        × (ltb block_gas_limit (totals.gas + receipt.gas_used) ≡ false)
        × (apply_all o height time rest (count totals receipt) m ≡ replayed after t)
  unfolding apply_all
  apply_all-cons tx rest totals after s t h = elim (ends (apply_tx o tx (context height time) s)) [
    | at_got (receipt, m) e ↦
        elim (Bool-cases (ltb block_gas_limit (totals.gas + receipt.gas_used))) [
          | inl over ↦ absurd (ground arith)
          | inr within ↦ (receipt, m, e, within, ground arith)
        ]
    | at_refuse e fee gas bad ↦ absurd (ground arith)
    | at_throw bad ↦ absurd (ground arith)
  ]

-- The three ways the replay ends.
data Replays (r : Replayed) : Type 0 where
  at_replayed : (totals : Totals) (s : WorldState) → r ≡ replayed totals s → Replays r
  at_stops : (why : BlockError) → r ≡ stops why → Replays r
  at_breaks : r ≡ breaks → Replays r

replays : (r : Replayed) → Replays r
replays (replayed totals s) = at_replayed totals s refl
replays (stops why) = at_stops why refl
replays breaks = at_breaks refl

-- What a header has passed against the tip: its height is the next one, its parent is the tip, its
-- difficulty is the one due, and its time is past the median of the last blocks.
pub record FitsTip (h : Hashes) (tip : Block) (older : List Block) (next : BlockHeader)
    : Type 0 where
  pub height : next.height ≡ length (tip ∷ older)
  pub parent : next.prev_hash ≡ h.block_hash tip.header
  pub due : next_bits_for next.height (tip ∷ older) ≡ some next.bits
  pub median : ℕ
  pub window : median_time_past (tip ∷ older) ≡ some median
  pub later : median < next.time

-- What an added block went through, in the order of the checks.
pub record IsAdded (o : Oracle) (h : Hashes) (state_root : WorldState → Hex) (chain : Blockchain)
    (block : Block) (now : ℕ) (next : Blockchain) : Type 0 where
  pub coinbase : Transaction
  pub rest : List Transaction
  pub transactions : block.transactions ≡ coinbase ∷ rest
  pub header : check_header h block now ≡ passes
  pub tip : Block
  pub older : List Block
  pub tipped : chain.blocks ≡ tip ∷ older
  pub placed : FitsTip h tip older block.header
  pub totals : Totals
  pub draft : WorldState
  pub replay :
      apply_all o block.header.height block.header.time rest
        (record { fees = 0; gas = 0 })
        chain.state
      ≡ replayed totals draft
  pub receipt : Receipt
  pub paid :
      apply_tx o coinbase
        (record {
          height = block.header.height;
          time = block.header.time;
          available_fees = totals.fees;
        })
        draft
      ≡ got (receipt, next.state)
  pub blocks : next.blocks ≡ block ∷ chain.blocks
  pub root : state_root next.state ≡ block.header.state_root
  pub work : next.work ≡ chain.work + block_work block.header.bits

module _ (o : Oracle) (h : Hashes) (state_root : WorldState → Hex) (chain : Blockchain)
    (block : Block) where
  -- The last step of an added block.
  coinbase-step :
      (coinbase : Transaction) (totals : Totals) (draft : WorldState) (next : Blockchain)
      → apply_block_coinbase o state_root chain block coinbase totals draft ≡ added next
      → (receipt : Receipt) × (apply_tx o coinbase
            (record {
              height = block.header.height;
              time = block.header.time;
              available_fees = totals.fees;
            })
            draft
          ≡ got (receipt, next.state))
        × (next.blocks ≡ block ∷ chain.blocks)
        × (state_root next.state ≡ block.header.state_root)
        × (next.work ≡ chain.work + block_work block.header.bits)
  unfolding apply_block_coinbase
  coinbase-step coinbase totals draft next e =
      elim (ends (
        apply_tx o coinbase
          (record {
            height = block.header.height;
            time = block.header.time;
            available_fees = totals.fees;
          })
          draft)) [
            | at_got (receipt, s) eq ↦
                elim (Bool-cases (state_root s === block.header.state_root)) [
                  | inl same ↦
                      let n : record {
                        blocks = block ∷ chain.blocks;
                        state = s;
                        work = chain.work + block_work block.header.bits;
                      }
                          ≡ next =
                        ground arith in
                      (
                        receipt,
                        rw (← n) eq,
                        rw (← n) refl,
                        rw (← n) (===→eq (state_root s) block.header.state_root same),
                        rw (← n) refl,
                      )
                  | inr differ ↦ absurd (ground arith)
                ]
            | at_refuse why fee gas bad ↦ absurd (ground arith)
            | at_throw bad ↦ absurd (ground arith)
          ]

  check_tip-none :
      (blocks : List Block)
      → check_tip h blocks block.header ≡ none
      → (tip : Block) × (older : List Block) × (blocks ≡ tip ∷ older)
        × FitsTip h tip older block.header
  unfolding check_tip
  check_tip-none [] e = cc
  check_tip-none (tip ∷ older) e =
      elim (Option-cases (next_bits_for block.header.height (tip ∷ older))) [
        | inl none_due ↦ absurd (ground arith)
        | inr (bits, due) ↦ elim (Option-cases (median_time_past (tip ∷ older))) [
          | inl no_median ↦ absurd (ground arith)
          | inr (median, window) ↦
              let parent : (block.header.prev_hash === h.block_hash tip.header) ≡ true =
                ground arith in
              let same : block.header.bits ≡ bits = ground arith in
              (
                tip,
                older,
                refl,
                record {
                  height = ground arith;
                  parent = ===→eq block.header.prev_hash (h.block_hash tip.header) parent;
                  due = rw same due;
                  median = median;
                  window = window;
                  later = ground arith;
                },
              )
        ]
      ]

  check_context-none :
      (now : ℕ)
      → check_context h chain block now ≡ none
      → (check_header h block now ≡ passes)
        × (tip : Block) × (older : List Block) × (chain.blocks ≡ tip ∷ older)
        × FitsTip h tip older block.header
  unfolding check_context
  check_context-none now e = ground (arith, check_tip-none chain.blocks)

  connect_block-added :
      (txs : List Transaction) (next : Blockchain)
      → connect_block o state_root chain block txs ≡ added next
      → (coinbase : Transaction) × (rest : List Transaction) × (totals : Totals)
        × (draft : WorldState) × (txs ≡ coinbase ∷ rest)
        × (apply_all o block.header.height block.header.time rest
              (record { fees = 0; gas = 0 })
              chain.state
            ≡ replayed totals draft)
        × (apply_block_coinbase o state_root chain block coinbase totals draft ≡ added next)
  unfolding connect_block
  connect_block-added [] next e = cc
  connect_block-added (coinbase ∷ rest) next e =
      elim (replays (
        apply_all o block.header.height block.header.time rest (record { fees = 0; gas = 0 })
          chain.state)) [
            | at_replayed totals draft done ↦
                (coinbase, rest, totals, draft, refl, done, ground arith)
            | at_stops why bad ↦ absurd (ground arith)
            | at_breaks bad ↦ absurd (ground arith)
          ]

  -- A block that `addBlock` adds has a header that passes, and names the tip as its parent, with the
  -- height after the tip's, the difficulty due and a time past the median; its transactions apply one
  -- after the other, and a coinbase, applied last, leaves the state that the header commits to. The chain
  -- is then that block on the chain of before, with the work of both.
  pub add_block-IsAdded :
      (now : ℕ) (next : Blockchain)
      → add_block o h state_root chain block now ≡ added next
      → IsAdded o h state_root chain block now next
  unfolding add_block
  add_block-IsAdded now next e = elim (Option-cases (check_context h chain block now)) [
    | inr (refused why, bad) ↦ absurd (ground arith)
    | inr (crash, bad) ↦ absurd (ground arith)
    | inl through ↦
        let (passed, tip, older, tipped, placed) = check_context-none now through in
        let (coinbase, rest, totals, draft, txs, replay, last) =
          connect_block-added block.transactions next (ground arith) in
        let (receipt, paid, blocks, root, work) = coinbase-step coinbase totals draft next last in
        record {
          coinbase = coinbase;
          rest = rest;
          transactions = txs;
          header = passed;
          tip = tip;
          older = older;
          tipped = tipped;
          placed = placed;
          totals = totals;
          draft = draft;
          replay = replay;
          receipt = receipt;
          paid = paid;
          blocks = blocks;
          root = root;
          work = work;
        }
  ]
