-- ===== src/Calendar.antt =====
-- The Gregorian calendar as the JavaScript `Date` object computes it.
pub mod Years
pub mod Months
pub mod Dates
pub mod Order
