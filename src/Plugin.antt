-- ===== src/Plugin.antt =====
-- runtime/plugin.rs: actions, the plugin and its builder.
mod Defs
pub mod Builder
unfoldable pub use Defs.*
