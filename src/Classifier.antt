-- ===== src/Classifier.antt =====
-- The coupon classifier, backend/src/coupon-classifier.
pub mod DateParser
pub mod Validity
pub mod Reminder
pub mod Sender
pub mod RuleFilter
pub mod Extractors
pub mod Pipeline
pub mod Handler
mod Tests
mod MailTests
