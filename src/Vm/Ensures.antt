-- ===== src/Vm/Ensures.antt =====
-- What every action of a run promises, with one rule for each way to build an action.
pub mod Handlers
pub mod Progress
use deckxcoin.Prelude.{
  ℕ, zero, suc, ◌+◌, ◌-◌, ◌≤◌, ◌<◌, ◌≡◌, refl, Bool, true, false, List, [], ◌∷◌, arith, length, All,
  Bool-cases, ltb, leb, if◌then◌else◌, inl, inr,
}
use deckxcoin.Vm.{VmResult, VmError, Storage, VmLog}
use deckxcoin.Vm.Words.{word_mod, wrap}
use deckxcoin.Vm.Exec.{
  Env, Machine, Step, going, ended, Exec, ◌>>=◌, done, fault, charge, pop, pop_stack, push,
  pop_words, gets, modify, finish, max_stack,
}

abbrev pub IsWord : ℕ → Type 0
IsWord v = v < word_mod

-- The gas is within the limit, and the stack holds at most 1024 words of 256 bits.
pub record IsSound (env : Env) (s : Machine) : Type 0 where
  pub within : s.gas_used ≤ env.ctx.gas_limit
  pub depth : length s.stack ≤ max_stack
  pub words : All IsWord s.stack

-- No more gas than the limit is used, words are returned, and a run that is not ok gives the
-- storage back as it was and keeps no log.
pub record IsFair (env : Env) (r : VmResult) : Type 0 where
  pub within : r.gas_used ≤ env.ctx.gas_limit
  pub returned : All IsWord r.return_value
  pub rollback : r.ok ≡ false → (r.storage ≡ env.storage_in) × (r.logs ≡ []) × (r.return_value ≡ [])

-- After a step from `s` that costs at least `k`.
abbrev pub After : {A : Type 0} → Env → ℕ → (A → Type 0) → Machine → Step A → Type 0
After env k Q s (going a s') = Q a × IsSound env s' × (s.gas_used + k ≤ s'.gas_used)
After env k Q s (ended r) = IsFair env r

pub record Ensures {A : Type 0} (env : Env) (k : ℕ) (Q : A → Type 0) (m : Exec A) : Type 0 where
  pub at : (s : Machine) → IsSound env s → After env k Q s (m env s)

abbrev pub Any : {A : Type 0} → A → Type 0
Any a = Unit

module _ {A : Type 0} (env : Env) (Q : A → Type 0) (k : ℕ) (s t : Machine) where
  After-weaken : (r : Step A) → s.gas_used + k ≤ t.gas_used → After env 0 Q t r → After env k Q s r
  After-weaken (going a s') h (q, v, c) = (q, v, omega arith)
  After-weaken (ended r) h f = f

  After-later : (r : Step A) → s.gas_used + 0 ≤ t.gas_used → After env k Q t r → After env k Q s r
  After-later (going a s') h (q, v, c) = (q, v, omega arith)
  After-later (ended r) h f = f

module _ {A B : Type 0} (env : Env) (k : ℕ) (Q : A → Type 0) (R : B → Type 0) (f : A → Exec B)
    (s : Machine) where
  bind_first :
      (r : Step A)
      → After env k Q s r
      → ((a : A) → Q a → Ensures env 0 R (f a))
      → After env k R s (elim r [ going a s' ↦ f a env s' | ended e ↦ ended e ])
  bind_first (going a s') (q, v, c) rest =
      After-weaken env R k s s' (f a env s') c ((rest a q).at s' v)
  bind_first (ended e) h rest = h

  bind_later :
      (r : Step A)
      → After env 0 Q s r
      → ((a : A) → Q a → Ensures env k R (f a))
      → After env k R s (elim r [ going a s' ↦ f a env s' | ended e ↦ ended e ])
  bind_later (going a s') (q, v, c) rest =
      After-later env R k s s' (f a env s') c ((rest a q).at s' v)
  bind_later (ended e) h rest = h

module _ {env : Env} where
  -- The cost is charged by the first action.
  pub Ensures-bind :
      {A B : Type 0} {k : ℕ} {Q : A → Type 0} {R : B → Type 0} (m : Exec A) (f : A → Exec B)
      → Ensures env k Q m
      → ((a : A) → Q a → Ensures env 0 R (f a))
      → Ensures env k R (m >>= f)
  unfolding ◌>>=◌
  Ensures-bind {k = k} {Q = Q} {R = R} m f h rest = record {
    at = λ s v. bind_first env k Q R f s (m env s) (h.at s v) rest;
  }

  -- The cost is charged by the rest.
  pub Ensures-bind_later :
      {A B : Type 0} {k : ℕ} {Q : A → Type 0} {R : B → Type 0} (m : Exec A) (f : A → Exec B)
      → Ensures env 0 Q m
      → ((a : A) → Q a → Ensures env k R (f a))
      → Ensures env k R (m >>= f)
  unfolding ◌>>=◌
  Ensures-bind_later {k = k} {Q = Q} {R = R} m f h rest = record {
    at = λ s v. bind_later env k Q R f s (m env s) (h.at s v) rest;
  }

  pub Ensures-if :
      {A : Type 0} {k : ℕ} {Q : A → Type 0} (b : Bool) (m n : Exec A)
      → Ensures env k Q m
      → Ensures env k Q n
      → Ensures env k Q (if b then m else n)
  Ensures-if true m n hm hn = hm
  Ensures-if false m n hm hn = hn

  pub Ensures-fault :
      {A : Type 0} {k : ℕ} {Q : A → Type 0} (e : VmError) → Ensures env k Q (fault {A = A} e)
  unfolding fault
  Ensures-fault e = record {
    at = λ s v. record { within = omega arith; returned = tt; rollback = λ _. (refl, refl, refl) };
  }

  pub Ensures-gets : {A : Type 0} (f : Env → Machine → A) → Ensures env 0 (Any {A = A}) (gets f)
  unfolding gets
  Ensures-gets f = record { at = λ s v. (tt, v, omega arith) }

  pub Ensures-charge : (amount : ℕ) → Ensures env amount (Any {A = Unit {0}}) (charge amount)
  unfolding charge
  Ensures-charge amount = record {
    at = λ s v. elim (Bool-cases (ltb env.ctx.gas_limit (s.gas_used + amount))) [
      | inl short ↦
          rw short
            (record { within = omega arith; returned = tt; rollback = λ _. (refl, refl, refl) })
      | inr enough ↦
          rw enough
            (tt, record { within = ground arith; depth = v.depth; words = v.words }, omega arith)
    ];
  }

  pub Ensures-charge_some : (amount : ℕ) → Ensures env 0 (Any {A = Unit {0}}) (charge amount)
  Ensures-charge_some amount = record {
    at = λ s v. let h = (Ensures-charge amount).at s v in charged s (charge amount env s) h;
  }
    where
      charged : (s : Machine) (r : Step (Unit {0})) → After env amount Any s r → After env 0 Any s r
      charged s (going a s') (q, v, c) = (q, v, omega arith)
      charged s (ended r) h = h

  popped :
      (s : Machine) (stack : List ℕ)
      → IsSound env s
      → length stack ≤ max_stack
      → All IsWord stack
      → After env 0 IsWord s (pop_stack stack env s)
  unfolding pop_stack
  popped s [] v d w = record {
    within = omega arith;
    returned = tt;
    rollback = λ _. (refl, refl, refl);
  }
  popped s (x ∷ rest) v d w =
      (w.0, record { within = v.within; depth = omega arith; words = w.1 }, omega arith)

  pub Ensures-pop : Ensures env 0 IsWord pop
  unfolding pop
  Ensures-pop = record { at = λ s v. popped s s.stack v v.depth v.words }

  pub Ensures-push : (v : ℕ) → Ensures env 0 (Any {A = Unit {0}}) (push v)
  unfolding push fault
  Ensures-push x = record {
    at = λ s v. elim (Bool-cases (leb max_stack (length s.stack))) [
      | inl full ↦
          rw full
            (record { within = omega arith; returned = tt; rollback = λ _. (refl, refl, refl) })
      | inr room ↦ rw room (
        tt,
        record {
          within = v.within;
          depth = ground arith;
          words = ((let f : wrap x < word_mod = omega arith in f), v.words);
        },
        omega arith,
      )
    ];
  }

  pub Ensures-pop_words :
      (count : ℕ) (out : List ℕ) → All IsWord out → Ensures env 0 (All IsWord) (pop_words count out)
  unfolding pop_words
  Ensures-pop_words zero out h = record { at = λ s v. (h, v, omega arith) }
  Ensures-pop_words (suc count) out h =
      Ensures-bind pop (λ v. pop_words count (v ∷ out)) Ensures-pop
        λ v w. Ensures-pop_words count (v ∷ out) (w, h)

  -- A change that leaves the gas and the stack alone.
  pub Ensures-modify :
      (f : Machine → Machine)
      → ((s : Machine) → (f s).stack ≡ s.stack)
      → ((s : Machine) → (f s).gas_used ≡ s.gas_used)
      → Ensures env 0 (Any {A = Unit {0}}) (modify f)
  unfolding modify
  Ensures-modify f same_stack same_gas = record {
    at = λ s v. (
      tt,
      record {
        within = omega (arith, same_gas s, v.within);
        depth = rw same_stack v.depth;
        words = rw same_stack v.words;
      },
      omega (arith, same_gas s),
    );
  }

  pub Ensures-finish :
      {A : Type 0} {k : ℕ} {Q : A → Type 0} (f : Env → Machine → VmResult)
      → ((s : Machine) → IsSound env s → IsFair env (f env s))
      → Ensures env k Q (finish {A = A} f)
  unfolding finish
  Ensures-finish f h = record { at = λ s v. h s v }

  pub done-IsFair :
      (s : Machine) (out : List ℕ) (logs : List VmLog) (storage : Storage)
      → IsSound env s
      → All IsWord out
      → IsFair env (done s.gas_used s.refund out logs storage)
  unfolding done
  done-IsFair s out logs storage v h = record {
    within = omega (arith, v.within);
    returned = h;
    rollback = λ e. cc;
  }

  -- The rules for `do`, by what the first action is.
  pub Ensures-pop_bind :
      {B : Type 0} {k : ℕ} {R : B → Type 0} (f : ℕ → Exec B)
      → ((a : ℕ) → IsWord a → Ensures env k R (f a))
      → Ensures env k R (pop >>= f)
  Ensures-pop_bind f h = Ensures-bind_later pop f Ensures-pop h

  pub Ensures-bind_anything :
      {A B : Type 0} {k : ℕ} {R : B → Type 0} (m : Exec A) (f : A → Exec B)
      → Ensures env 0 Any m
      → ((a : A) → Ensures env k R (f a))
      → Ensures env k R (m >>= f)
  Ensures-bind_anything m f h rest = Ensures-bind_later m f h (λ a _. rest a)

pub ruleset ensures_rules = (
  Ensures-pop_bind, Ensures-bind_anything, Ensures-if, Ensures-fault, Ensures-gets,
  Ensures-charge_some, Ensures-push,
)
