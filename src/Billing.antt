-- ===== src/Billing.antt =====
-- Billing: apps/core_api/src/core_api/modules/billing/billing_service.py.
pub mod Product
pub mod Resource
pub mod Access
pub mod Account
pub mod Effects
pub mod Events
pub mod Notice
pub mod Webhook
pub mod Delivery
pub mod Checkout
pub mod Price
pub mod Purchase
pub mod Quota
pub mod Grace
pub mod Usage
pub mod Ordering
mod Tests
mod DeliveryTests
