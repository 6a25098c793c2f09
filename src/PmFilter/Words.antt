-- ===== src/PmFilter/Words.antt =====
-- The lanes of a 64-bit word, read after a write.
use wormholefilters.Base.{ℕ, zero, suc, ◌^◌, ◌<◌, ◌≡◌, ◌≢◌, refl, arith, u16}
use wormholefilters.PmFilter.{set_lane}
use wormholefilters.Swar.{lane}

pub lane-set_lane_self : (w j t : ℕ) → j < 4 → lane (set_lane w j t) j ≡ u16 t
lane-set_lane_self w zero t h = omega arith
lane-set_lane_self w (suc zero) t h = omega arith
lane-set_lane_self w (suc (suc zero)) t h = omega arith
lane-set_lane_self w (suc (suc (suc zero))) t h = omega arith
lane-set_lane_self w (suc (suc (suc (suc j)))) t h = absurd (omega arith)

pub set_lane-lt : (w j t : ℕ) → j < 4 → w < 2 ^ 64 → set_lane w j t < 2 ^ 64
set_lane-lt w zero t h b = omega arith
set_lane-lt w (suc zero) t h b = omega arith
set_lane-lt w (suc (suc zero)) t h b = omega arith
set_lane-lt w (suc (suc (suc zero))) t h b = omega arith
set_lane-lt w (suc (suc (suc (suc j)))) t h b = absurd (omega arith)

-- The lanes other than the one that is written.
pub lane-set_lane_ne : (w j k t : ℕ) → j < 4 → k < 4 → j ≢ k → lane (set_lane w j t) k ≡ lane w k
lane-set_lane_ne w zero zero t p q ne = absurd (ne refl)
lane-set_lane_ne w zero (suc zero) t p q ne = omega arith
lane-set_lane_ne w zero (suc (suc zero)) t p q ne = omega arith
lane-set_lane_ne w zero (suc (suc (suc zero))) t p q ne = omega arith
lane-set_lane_ne w zero (suc (suc (suc (suc k)))) t p q ne = absurd (omega arith)
lane-set_lane_ne w (suc zero) zero t p q ne = omega arith
lane-set_lane_ne w (suc zero) (suc zero) t p q ne = absurd (ne refl)
lane-set_lane_ne w (suc zero) (suc (suc zero)) t p q ne = omega arith
lane-set_lane_ne w (suc zero) (suc (suc (suc zero))) t p q ne = omega arith
lane-set_lane_ne w (suc zero) (suc (suc (suc (suc k)))) t p q ne = absurd (omega arith)
lane-set_lane_ne w (suc (suc zero)) zero t p q ne = omega arith
lane-set_lane_ne w (suc (suc zero)) (suc zero) t p q ne = omega arith
lane-set_lane_ne w (suc (suc zero)) (suc (suc zero)) t p q ne = absurd (ne refl)
lane-set_lane_ne w (suc (suc zero)) (suc (suc (suc zero))) t p q ne = omega arith
lane-set_lane_ne w (suc (suc zero)) (suc (suc (suc (suc k)))) t p q ne = absurd (omega arith)
lane-set_lane_ne w (suc (suc (suc zero))) zero t p q ne = omega arith
lane-set_lane_ne w (suc (suc (suc zero))) (suc zero) t p q ne = omega arith
lane-set_lane_ne w (suc (suc (suc zero))) (suc (suc zero)) t p q ne = omega arith
lane-set_lane_ne w (suc (suc (suc zero))) (suc (suc (suc zero))) t p q ne = absurd (ne refl)
lane-set_lane_ne w (suc (suc (suc zero))) (suc (suc (suc (suc k)))) t p q ne = absurd (omega arith)
lane-set_lane_ne w (suc (suc (suc (suc j)))) k t p q ne = absurd (omega arith)
