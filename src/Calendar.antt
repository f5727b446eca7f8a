-- ===== src/Calendar.antt =====
-- The part of Go's `time.Time` that internal/host/scheduler, internal/replication and internal/scrubpolicy use:
-- wall-clock fields of the proleptic Gregorian calendar. What package `time` makes of the times of a location is
-- the argument `Clock`; `fixed_clock` is a location with a fixed offset, where the fields stand for the time and
-- times are ordered as the fields are.
mod Defs
mod Steps
unfoldable pub use Defs.*
pub use Steps.*
