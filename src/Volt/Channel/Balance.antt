-- ===== src/Volt/Channel/Balance.antt =====
-- The money in a channel of chain/src/volt/channel.ts, through every operation on it.
pub mod Steps
use deckxcoin.Prelude.{
  ℕ, ◌+◌, ◌-◌, ◌≤◌, ◌≡◌, refl, Bool, true, false, ◌||◌, not, Option, none, some, List, [], ◌∷◌,
  ◌++◌, arith, ◌==◌, if◌then◌else◌, Bool-cases, Option-cases, inl, inr, any,
}
use deckxcoin.Prelude.Eq.{string_eq}
use deckxcoin.Prelude.Int.{ℤ, pos, negsuc}
use deckxcoin.Tx.{Hex}
use deckxcoin.Volt.Channel.{
  Side, side_a, side_b, same_side, Htlc, HtlcStatus, is_pending, FundingOutpoint, SpliceRecord,
  VoltChannel, balance, counted, pending_sum, pending_out, spendable,
}
use deckxcoin.Volt.Channel.Commitment.{
  Keys, Left, returned, threw, give, commit, hand_over, revoke_and_advance,
}
use deckxcoin.Volt.Channel.Payments.{
  moved, advance, unpayable, pay, pay_amount, add_htlc, add_amount, new_htlc, find_htlc, put_htlc,
  settle_found, settle_htlc, opens, fail_found, fail_htlc, SpliceOptions, spliced, splice,
  splice_by, splice_amount,
}

-- The two balances are what the funding output holds, and each side has what it has promised.
abbrev pub IsBalanced : VoltChannel → Type 0
IsBalanced c =
    (c.balance_a + c.balance_b ≡ c.capacity)
    × (c.capacity ≡ c.funding.value)
    × (pending_sum side_a c.htlcs ≤ c.balance_a)
    × (pending_sum side_b c.htlcs ≤ c.balance_b)

-- The predicate on the channel that a method leaves, whether it returns or throws.
abbrev pub Leaves {ℓ κ} : {A : Type ℓ} → (VoltChannel → Type κ) → Left A → Type κ
Leaves P (returned a c) = P c
Leaves P (threw c) = P c

pub leaves {ℓ κ} :
    {A : Type ℓ} {P : VoltChannel → Type κ} (l : Left A)
    → ((a : A) (d : VoltChannel) → l ≡ returned a d → P d)
    → ((d : VoltChannel) → l ≡ threw d → P d)
    → Leaves P l
leaves (returned a d) f g = f a d refl
leaves (threw d) f g = g d refl

Leaves-give {ℓ κ} :
    {A : Type ℓ} {B : Type κ} (b : B) (l : Left A)
    → Leaves IsBalanced l
    → Leaves IsBalanced (give b l)
Leaves-give b (returned a d) p = p
Leaves-give b (threw d) p = p

-- A guard that throws, before anything is changed.
unless {ℓ} :
    {A : Type ℓ} (bad : Bool) (c : VoltChannel) (l : Left A)
    → IsBalanced c
    → (bad ≡ false → Leaves IsBalanced l)
    → Leaves IsBalanced (if bad then threw c else l)
unless true c l b f = b
unless false c l b f = f refl

pending_sum-new :
    (side : Side) (hs : List Htlc) (h : Htlc)
    → pending_sum side (hs ++ h ∷ []) ≡ pending_sum side hs + counted side h
unfolding pending_sum
pending_sum-new side [] h = omega arith
pending_sum-new side (g ∷ hs) h = omega (arith, pending_sum-new side hs h)

-- A resolved payment counts no more.
pending_sum-put :
    (side : Side) (id : ℕ) (hs : List Htlc) (h new : Htlc)
    → find_htlc id hs ≡ some h
    → is_pending new.status ≡ false
    → pending_sum side (put_htlc id new hs) + counted side h ≡ pending_sum side hs
unfolding pending_sum find_htlc put_htlc
pending_sum-put side id [] h new e p = cc
pending_sum-put side id (g ∷ hs) h new e p = elim (Bool-cases (g.id == id)) [
  | inl here ↦ ground arith
  | inr later ↦ ground (arith, pending_sum-put side id hs h new)
]

module _ (k : Keys) where
  pub commit-IsBalanced : (c : VoltChannel) → IsBalanced c → Leaves IsBalanced (commit k c)
  unfolding commit
  commit-IsBalanced c b = leaves (commit k c) (λ a d e. ground arith) (λ d e. ground arith)

  hand_over-IsBalanced :
      (c : VoltChannel) (from_a from_b : Option Hex)
      → IsBalanced c
      → Leaves IsBalanced (hand_over k c from_a from_b)
  unfolding hand_over
  hand_over-IsBalanced c (some from_a) (some from_b) b =
      Leaves-give _ (commit k _) (commit-IsBalanced _ b)
  hand_over-IsBalanced c none from_b b = b
  hand_over-IsBalanced c (some from_a) none b = b

  pub revoke_and_advance-IsBalanced :
      (c : VoltChannel) → IsBalanced c → Leaves IsBalanced (revoke_and_advance k c)
  unfolding revoke_and_advance
  revoke_and_advance-IsBalanced c b = hand_over-IsBalanced c _ _ b

  advance-IsBalanced {ℓ} :
      {A : Type ℓ} (a : A) (c : VoltChannel) → IsBalanced c → Leaves IsBalanced (advance k a c)
  advance-IsBalanced a c b =
      Leaves-give a (revoke_and_advance k c) (revoke_and_advance-IsBalanced c b)

  -- What leaves a side is at most what it holds beyond its promises.
  moved-IsBalanced :
      (from : Side) (n : ℕ) (c : VoltChannel)
      → n + pending_sum from c.htlcs ≤ balance from c
      → IsBalanced c
      → IsBalanced (moved from n c)
  moved-IsBalanced side_a n c p b = ground arith
  moved-IsBalanced side_b n c p b = ground arith

  payable-within :
      (side : Side) (n : ℕ) (c : VoltChannel)
      → unpayable side n c ≡ false
      → n + pending_sum side c.htlcs ≤ balance side c
  unfolding spendable pending_out
  payable-within side n c h =
      let positive : (n == 0) ≡ false = ground arith in
      let within : n ≤ balance side c - pending_sum side c.htlcs = ground arith in ground arith

  pub pay-IsBalanced :
      (from : Side) (amount : ℤ) (c : VoltChannel)
      → IsBalanced c
      → Leaves IsBalanced (pay k from amount c)
  unfolding pay pay_amount
  pay-IsBalanced from (negsuc n) c b = b
  pay-IsBalanced from (pos n) c b =
      unless (unpayable from n c) c (advance k tt (moved from n c)) b λ fine.
        advance-IsBalanced tt (moved from n c)
          (moved-IsBalanced from n c (payable-within from n c fine) b)

  promised-IsBalanced :
      (offerer : Side) (n : ℕ) (hash : Hex) (expiry : ℕ) (c : VoltChannel)
      → n + pending_sum offerer c.htlcs ≤ balance offerer c
      → IsBalanced c
      → IsBalanced (record c { htlcs = c.htlcs ++ new_htlc c offerer n hash expiry ∷ [] })
  promised-IsBalanced side_a n hash expiry c p b =
      let h = new_htlc c side_a n hash expiry in
      ground (arith, pending_sum-new side_a c.htlcs h, pending_sum-new side_b c.htlcs h)
  promised-IsBalanced side_b n hash expiry c p b =
      let h = new_htlc c side_b n hash expiry in
      ground (arith, pending_sum-new side_a c.htlcs h, pending_sum-new side_b c.htlcs h)

  pub add_htlc-IsBalanced :
      (offerer : Side) (amount : ℤ) (hash : Hex) (expiry : ℕ) (c : VoltChannel)
      → IsBalanced c
      → Leaves IsBalanced (add_htlc k offerer amount hash expiry c)
  unfolding add_htlc add_amount
  add_htlc-IsBalanced offerer (negsuc n) hash expiry c b = b
  add_htlc-IsBalanced offerer (pos n) hash expiry c b =
      let h = new_htlc c offerer n hash expiry in
      let next : VoltChannel = record c {
        htlcs = c.htlcs ++ h ∷ [];
        next_htlc_id = c.next_htlc_id + 1;
      } in
      unless (unpayable offerer n c) c (advance k h next) b λ fine.
        advance-IsBalanced h next
          (promised-IsBalanced offerer n hash expiry c (payable-within offerer n c fine) b)

  find_htlc-id : (id : ℕ) (hs : List Htlc) (h : Htlc) → find_htlc id hs ≡ some h → h.id ≡ id
  unfolding find_htlc
  find_htlc-id id [] h e = cc
  find_htlc-id id (g ∷ hs) h e = ground (arith, find_htlc-id id hs h)

  abbrev share : Side → Side → ℕ → ℕ
  share side payer n = if same_side payer side then n else 0

  -- A payment in flight that is settled, and one that fails.
  resolved-IsBalanced :
      (payer : Side) (n : ℕ) (c : VoltChannel) (hs : List Htlc)
      → pending_sum side_a hs + share side_a payer n ≡ pending_sum side_a c.htlcs
      → pending_sum side_b hs + share side_b payer n ≡ pending_sum side_b c.htlcs
      → IsBalanced c
      → IsBalanced (record (moved payer n c) { htlcs = hs }) × IsBalanced (record c { htlcs = hs })
  resolved-IsBalanced side_a n c hs a z b = (ground arith, ground arith)
  resolved-IsBalanced side_b n c hs a z b = (ground arith, ground arith)

  counted-share :
      (side : Side) (h : Htlc)
      → is_pending h.status ≡ true
      → counted side h ≡ share side h.offerer h.amount
  counted-share side h p = ground arith

  found-IsBalanced :
      (id : ℕ) (h done : Htlc) (c : VoltChannel)
      → find_htlc id c.htlcs ≡ some h
      → is_pending h.status ≡ true
      → is_pending done.status ≡ false
      → IsBalanced c
      → IsBalanced (record (moved h.offerer h.amount c) { htlcs = put_htlc id done c.htlcs })
        × IsBalanced (record c { htlcs = put_htlc id done c.htlcs })
  found-IsBalanced id h done c e p q b =
      resolved-IsBalanced h.offerer h.amount c (put_htlc id done c.htlcs)
        (omega (arith, pending_sum-put side_a id c.htlcs h done e q, counted-share side_a h p))
        (omega (arith, pending_sum-put side_b id c.htlcs h done e q, counted-share side_b h p)) b

  settle_found-IsBalanced :
      (id : ℕ) (preimage : Hex) (c : VoltChannel) (o : Option Htlc)
      → find_htlc id c.htlcs ≡ o
      → IsBalanced c
      → Leaves IsBalanced (settle_found k id preimage c o)
  unfolding settle_found
  settle_found-IsBalanced id preimage c none e b = b
  settle_found-IsBalanced id preimage c (some h) e b =
      let done = record h { status = HtlcStatus.settled; preimage = some preimage } in
      let next = record (moved h.offerer h.amount c) { htlcs = put_htlc id done c.htlcs } in
      unless (not (is_pending h.status) || not (opens k preimage h.payment_hash)) c
        (advance k done next) b
        λ fine.
          advance-IsBalanced done next (found-IsBalanced id h done c e (ground arith) refl b).0

  pub settle_htlc-IsBalanced :
      (id : ℕ) (preimage : Hex) (c : VoltChannel)
      → IsBalanced c
      → Leaves IsBalanced (settle_htlc k id preimage c)
  unfolding settle_htlc
  settle_htlc-IsBalanced id preimage c b =
      settle_found-IsBalanced id preimage c (find_htlc id c.htlcs) refl b

  fail_found-IsBalanced :
      (id : ℕ) (c : VoltChannel) (o : Option Htlc)
      → find_htlc id c.htlcs ≡ o
      → IsBalanced c
      → Leaves IsBalanced (fail_found k id c o)
  unfolding fail_found
  fail_found-IsBalanced id c none e b = b
  fail_found-IsBalanced id c (some h) e b =
      let done = record h { status = HtlcStatus.failed } in
      let next = record c { htlcs = put_htlc id done c.htlcs } in
      unless (not (is_pending h.status)) c (advance k done next) b λ fine.
        advance-IsBalanced done next (found-IsBalanced id h done c e (ground arith) refl b).1

  pub fail_htlc-IsBalanced :
      (id : ℕ) (c : VoltChannel) → IsBalanced c → Leaves IsBalanced (fail_htlc k id c)
  unfolding fail_htlc
  fail_htlc-IsBalanced id c b = fail_found-IsBalanced id c (find_htlc id c.htlcs) refl b

no_pending :
    (side : Side) (hs : List Htlc)
    → any (λ (h : Htlc). is_pending h.status) hs ≡ false
    → pending_sum side hs ≡ 0
unfolding pending_sum
no_pending side [] e = refl
no_pending side (h ∷ hs) e = ground (arith, no_pending side hs)

splice_by-IsBalanced :
    (side : Side) (added taken : ℕ) (funding : FundingOutpoint) (c next : VoltChannel)
    (note : SpliceRecord)
    → IsBalanced c
    → splice_by side added taken funding c ≡ spliced note next
    → IsBalanced next
unfolding splice_by
splice_by-IsBalanced side_a added taken funding c next note b e =
    ground (arith, no_pending side_a c.htlcs, no_pending side_b c.htlcs)
splice_by-IsBalanced side_b added taken funding c next note b e =
    ground (arith, no_pending side_a c.htlcs, no_pending side_b c.htlcs)

splice_parts :
    (opts : SpliceOptions) (c next : VoltChannel) (note : SpliceRecord)
    → splice opts c ≡ spliced note next
    → (added : ℕ) × (taken : ℕ) × (splice_by opts.side added taken opts.funding c
        ≡ spliced note next)
unfolding splice
splice_parts opts c next note e = elim (Option-cases (splice_amount opts.splice_in)) [
  | inl bad ↦ absurd (ground arith)
  | inr (added, ea) ↦ elim (Option-cases (splice_amount opts.splice_out)) [
    | inl bad ↦ absurd (ground arith)
    | inr (taken, et) ↦ (added, taken, ground arith)
  ]
]

pub splice-IsBalanced :
    (opts : SpliceOptions) (c next : VoltChannel) (note : SpliceRecord)
    → IsBalanced c
    → splice opts c ≡ spliced note next
    → IsBalanced next
splice-IsBalanced opts c next note b e =
    let (added, taken, e') = splice_parts opts c next note e in
    splice_by-IsBalanced opts.side added taken opts.funding c next note b e'
