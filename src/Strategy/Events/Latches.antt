-- ===== src/Strategy/Events/Latches.antt =====
-- What the order events do to the latches and to the schedule of convergences.
use qapp.Strategy.Types.{Strategy}
