-- ===== src/Models.antt =====
-- packages/core/src/belief_ledger_core/models.py: the immutable domain records. Identifiers,
-- digests and names that are only compared are numbers; a timestamp is the number of microseconds
-- since the first representable instant; a float is the number of its bit pattern, which the model
-- never computes with by itself (Engine/Floats has the operations).
mod Enums
mod Records
unfoldable pub use Enums.*
pub use Records.*
