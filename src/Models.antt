-- ===== src/Models.antt =====
-- polyserve/models.py: the plain data that the pipeline passes around. Pydantic only declares and
-- copies fields here, so a model class is a record and `model_copy(update=…)` a record update.
mod Hardware
mod Settings
mod Trial
pub mod Samples
pub use Hardware.*
unfoldable pub use Settings.*
unfoldable pub use Trial.*
