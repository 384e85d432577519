-- ===== src/Receiver/Drive/Advance.antt =====
-- How far `consec_recv` moves.
use rust_tftp.BitSets.{BitSets}
use rust_tftp.Common.{
  ℕ, zero, suc, ◌+◌, ◌≤◌, ◌<◌, ◌≡◌, refl, sym, ap, ◌∙◌, arith, true, false, ◌⊎◌, inl, inr,
  Bool-cases,
}
use rust_tftp.Common.Outcome.{ok}
use rust_tftp.Receiver.Drive.{advance_consec}

le→eq⊎lt : (a b : ℕ) → a ≤ b → (a ≡ b) ⊎ (a < b)
le→eq⊎lt a b h = ground arith

module _ (bits : BitSets) (received : bits.BitSet) where
  -- The blocks from past `from` to `to` are received, and the next one is not.
  pub record Reaches (from to : ℕ) : Type 0 where
    pub not_back : from ≤ to
    pub has : (j : ℕ) → from < j → j ≤ to → bits.contains received j ≡ true
    pub stops : bits.contains received (to + 1) ≡ false

  stays : (c : ℕ) → bits.contains received (c + 1) ≡ false → Reaches c c
  stays c stop = record {
    not_back = omega arith;
    has = λ j past inside. absurd (omega arith);
    stops = stop;
  }

  step_back : (c r : ℕ) → bits.contains received (c + 1) ≡ true → Reaches (c + 1) r → Reaches c r
  step_back c r here reaches = record {
    not_back = omega (arith, reaches.not_back);
    has = λ j past inside. elim (le→eq⊎lt (c + 1) j (omega arith)) [
      | inl e ↦ ap (bits.contains received) (sym e) ∙ here
      | inr further ↦ reaches.has j further inside
    ];
    stops = reaches.stops;
  }

  -- The loop ends within one round more than there are numbers up to the limit of the set.
  pub advance_consec_lem :
      {E : Type 0} (fuel c : ℕ)
      → bits.limit received ≤ c + fuel
      → (r : ℕ) × (advance_consec {E = E} bits (suc fuel) received c ≡ ok r) × Reaches c r
  unfolding advance_consec
  advance_consec_lem zero c enough = elim (Bool-cases (bits.contains received (c + 1))) [
    | inl more ↦ absurd (omega (arith, bits.contains-limit received (c + 1) more))
    | inr stop ↦ rw stop (c, refl, stays c stop)
  ]
  advance_consec_lem (suc fuel) c enough = elim (Bool-cases (bits.contains received (c + 1))) [
    | inl more ↦
        let (r, e, reaches) = advance_consec_lem fuel (c + 1) (omega arith) in
        rw more (r, e, step_back c r more reaches)
    | inr stop ↦ rw stop (c, refl, stays c stop)
  ]
