-- ===== src/Risk/PostFill/Reduce.antt =====
-- What a reduce-only order may do to a position.
use hta.Common.{◌≡◌, true, arith}
use hta.Decimal.{Decimal, nought, magnitude}
use hta.Decimal.Order.{◌≼◌, ≼_refl, magnitude_nonneg, magnitude-nought, ≺_of_ne, ≻_of_ne}
use hta.Risk.Types.{OrderIntent}
use hta.Risk.PostFill.{reduced_size, post_fill_size}

-- The size n is no larger than the size c and on the same side of 0.
pub record IsShrunk (c n : Decimal) : Type 0 where
  pub smaller : magnitude n ≼ magnitude c
  pub long : nought ≼ c → nought ≼ n
  pub short : c ≼ nought → n ≼ nought

reduced_size-IsShrunk : (c n : Decimal) → IsShrunk c (reduced_size c n)
unfolding reduced_size
reduced_size-IsShrunk c n = record {
  smaller = ground (arith, magnitude_nonneg c, magnitude-nought, ≼_refl (magnitude c));
  long = λ h. ground (arith, ≼_refl nought, ≺_of_ne c);
  short = λ h. ground (arith, ≼_refl nought, ≻_of_ne c);
}

-- Whatever its side and size, a reduce-only order leaves a position that has not grown and has not
-- changed sides.
pub post_fill_size-IsShrunk :
    (i : OrderIntent) (c : Decimal) → i.reduce_only ≡ true → IsShrunk c (post_fill_size i c)
unfolding post_fill_size
post_fill_size-IsShrunk i c h = rw h (reduced_size-IsShrunk c _)
