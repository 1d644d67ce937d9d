-- ===== src/Store/Work/Delay.antt =====
-- The wait between two attempts at a reference.
use native.Mathlib.Omega.{pow_step}
use jungle_wager_engine.Base.{
  ℕ, suc, ◌+◌, ◌*◌, ◌^◌, ◌<◌, ◌≡◌, refl, ap, ◌∙◌, arith, ltb, if◌then◌else◌, Bool-cases, inl, inr,
}
use jungle_wager_engine.Store.Apply.{second}
use jungle_wager_engine.Store.Work.{reference_delay}

pow_suc : (n : ℕ) → 2 ^ (n + 1) ≡ 2 * 2 ^ n
pow_suc n = ap (λ k. 2 ^ k) {x = n + 1} {y = suc n} (omega arith) ∙ pow_step 2 n

min_suc : (n : ℕ) → n < 12 → (if ltb (n + 1) 12 then n + 1 else 12) ≡ n + 1
min_suc n h = ground arith

-- The wait starts at a second, and each attempt doubles it until it is an hour.
pub reference_delay-doubles :
    (n : ℕ)
    → (reference_delay 0 ≡ second)
      × (reference_delay (n + 1) ≡ (
          if ltb (3600 * second) (2 * reference_delay n)
          then 3600 * second
          else 2 * reference_delay n))
unfolding reference_delay
reference_delay-doubles n = elim (Bool-cases (ltb n 12)) [
  | inl early ↦ (refl, ground (arith, pow_suc n))
  | inr late ↦ ground (arith)
]
