-- ===== src/Models.antt =====
-- models.py: the enumerations, the responsibility route and the pathway definition, with their
-- dictionary forms.
mod Enums
pub mod Definition
unfoldable pub use Enums.*
