-- ===== src/Base/Int.antt =====
-- Go's `int` where it may be negative, and its decimal print. `negsuc n` is -(n + 1).
mod Decimal
pub use Decimal.{
  ℤ, pos, negsuc, pos_part, neg_part, not_positive, decimal-injective, itoa-All, itoa-injective,
}
unfoldable pub use Decimal.{decimal, itoa}
