-- ===== src/Vm/Words/Power.antt =====
-- `modPow` of chain/src/vm.ts is the power modulo 2^256.
use native.Mathlib.Nat.{
  add-mul-mod_self_left, div-add-mod, pow-suc, pow-zero, mul_comm, mod-mod, mul-one,
}
use deckxcoin.Prelude.{
  ℕ, zero, suc, ◌+◌, ◌*◌, ◌/◌, ◌%◌, ◌^◌, ◌≤◌, ◌≡◌, refl, sym, ap, ◌∙◌, arith, ◌==◌, Bool-cases, inl,
  inr,
}
use deckxcoin.Vm.Words.{word_mod, wrap, mod_pow_loop, mod_pow}

mod-mul_left : (a b m : ℕ) → a % m * b % m ≡ a * b % m
mod-mul_left a b m =
    let e : a * b ≡ a % m * b + m * (a / m * b) =
      omega (arith, ap (λ (t : ℕ). t * b) (div-add-mod a m)) in
    sym (rw e (add-mul-mod_self_left (a % m * b) m (a / m * b)))

mod-mul_right : (a b m : ℕ) → a * (b % m) % m ≡ a * b % m
mod-mul_right a b m = rw (mul_comm a (b % m), mul_comm a b) (mod-mul_left b a m)

mod-mul_both : (a b c d m : ℕ) → a % m ≡ b % m → c % m ≡ d % m → a * c % m ≡ b * d % m
mod-mul_both a b c d m h k =
    sym (mod-mul_left a c m)
    ∙ ap (λ (t : ℕ). t * c % m) h
    ∙ mod-mul_left b c m
    ∙ sym (mod-mul_right b c m)
    ∙ ap (λ (t : ℕ). b * t % m) k
    ∙ mod-mul_right b d m

mod-pow : (a n m : ℕ) → (a % m) ^ n % m ≡ a ^ n % m
mod-pow a zero m = rw (pow-zero, pow-zero a)
mod-pow a (suc n) m = rw (pow-suc, pow-suc a) (mod-mul_both _ _ _ _ m (mod-pow a n m) (mod-mod a m))

pow-square : (b n : ℕ) → b ^ (n + n) ≡ (b * b) ^ n
pow-square b zero = rw (pow-zero (b * b), pow-zero b)
pow-square b (suc n) =
    let e : suc n + suc n ≡ suc (suc (n + n)) = omega arith in
    rw (e, pow-suc, pow-suc b (n + n), pow-suc (b * b) n, pow-square b n) (omega arith)

-- The exponent by its lowest binary digit.
pow-even : (b e : ℕ) → e % 2 ≡ 0 → b ^ e ≡ (b * b) ^ (e / 2)
pow-even b e h =
    let f : e ≡ e / 2 + e / 2 = omega arith in ap (λ (t : ℕ). b ^ t) f ∙ pow-square b (e / 2)

pow-odd : (b e : ℕ) → e % 2 ≡ 1 → b ^ e ≡ (b * b) ^ (e / 2) * b
pow-odd b e h =
    let f : e ≡ suc (e / 2 + e / 2) = omega arith in
    ap (λ (t : ℕ). b ^ t) f
    ∙ pow-suc b (e / 2 + e / 2)
    ∙ ap (λ (t : ℕ). t * b) (pow-square b (e / 2))

-- A round keeps `result * b ^ e`, modulo 2^256; `r` is the result after the round, by which `c`
-- was multiplied in.
round_keeps :
    (r result b e c : ℕ)
    → r % word_mod ≡ result * c % word_mod
    → b ^ e ≡ (b * b) ^ (e / 2) * c
    → r * wrap (b * b) ^ (e / 2) % word_mod ≡ result * b ^ e % word_mod
round_keeps r result b e c h p =
    mod-mul_both r (result * c) (wrap (b * b) ^ (e / 2)) ((b * b) ^ (e / 2)) word_mod h
      (mod-pow (b * b) (e / 2) word_mod)
    ∙ ap (λ (t : ℕ). t % word_mod)
        (let f : result * c * (b * b) ^ (e / 2) ≡ result * ((b * b) ^ (e / 2) * c) =
            regroup result c _ in
          f)
    ∙ ap (λ (t : ℕ). result * t % word_mod) (sym p)
  where
    regroup : (a b c : ℕ) → a * b * c ≡ a * (c * b)
    regroup a b c = omega arith

loop_lem :
    (fuel b e result : ℕ)
    → e ≤ fuel
    → result % word_mod ≡ result
    → mod_pow_loop fuel b e result ≡ result * b ^ e % word_mod
unfolding mod_pow_loop
loop_lem zero b zero result h k = rw (pow-zero, mul-one) (sym k)
loop_lem zero b (suc e) result h k = absurd (omega arith)
loop_lem (suc fuel) b e result h k = elim (Bool-cases (e == 0)) [
  | inl over ↦ rw over (let f : e ≡ 0 = ground arith in rw f (rw (pow-zero, mul-one) (sym k)))
  | inr more ↦ elim (Bool-cases (e % 2 == 1)) [
    | inl odd ↦
        rw (more, odd)
          (loop_lem fuel (wrap (b * b)) (e / 2) (wrap (result * b)) (ground arith) (mod-mod _ _)
            ∙ round_keeps (wrap (result * b)) result b e b (mod-mod _ _)
                (pow-odd b e (ground arith)))
    | inr even ↦
        rw (more, even)
          (loop_lem fuel (wrap (b * b)) (e / 2) result (ground arith) k
            ∙ round_keeps result result b e 1 (omega arith)
                (pow-even b e (ground arith) ∙ omega arith))
  ]
]

-- Square and multiply, every product wrapped, gives the power modulo 2^256.
pub mod_pow-eq-pow : (base exp : ℕ) → mod_pow base exp ≡ base ^ exp % word_mod
unfolding mod_pow
mod_pow-eq-pow base exp =
    loop_lem exp (wrap base) exp 1 (omega arith) refl
    ∙ (let f : 1 * wrap base ^ exp ≡ wrap base ^ exp = omega arith in
        ap (λ (t : ℕ). t % word_mod) f)
    ∙ mod-pow base exp word_mod
