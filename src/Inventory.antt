-- ===== src/Inventory.antt =====
-- The inventory's own data (modules/inventory/src): tags and saved views.
pub mod TagRules
pub mod TagRequest
pub mod TagPlan
pub mod TagStore
pub mod TagMaps
pub mod TagProgress
pub mod TagEffects
pub mod TagApply
pub mod TagTyping
pub mod TagCatalog
pub mod TagCounts
mod TagCatalogTests
mod TagTests
pub mod ViewRules
pub mod ViewRequests
pub mod ViewStore
pub mod ViewNames
pub mod ViewLaws
pub mod ViewPrivacy
mod ViewTests
