-- ===== src/Review.antt =====
-- runtime/geo/review-reference.ts: the handle of an opportunity review.
pub mod Reference
