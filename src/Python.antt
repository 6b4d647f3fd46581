-- ===== src/Python.antt =====
-- The parts of Python that the program computes with: values, dictionaries, exceptions, and calls
-- of foreign objects.
mod Objects
mod Dicts
mod Effects
mod Host
mod Results
mod Settling
mod Observing
mod Publishing
mod Reading
unfoldable pub use Objects.*
unfoldable pub use Dicts.*
unfoldable pub use Effects.*
unfoldable pub use Host.*
unfoldable pub use Results.*
unfoldable pub use Observing.*
unfoldable pub use Publishing.*
unfoldable pub use Reading.*
unfoldable pub use Settling.*
