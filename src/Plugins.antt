-- ===== src/Plugins.antt =====
-- internal/plugins: the plugin engine: dependencies, the resources that plugins need, the routes they
-- serve, and their installation.
pub mod Dependencies
pub mod Grammar
pub mod Lifecycle
pub mod Marketplaces
pub mod Needs
pub mod Package
pub mod Router
pub mod Validate
