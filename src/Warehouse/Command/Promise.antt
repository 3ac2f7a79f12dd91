-- ===== src/Warehouse/Command/Promise.antt =====
-- Reservations: no more is promised than is available.

use local_first_architecture.Base.{text_comparable}
use local_first_architecture.Base.Table.{Table}
use local_first_architecture.Warehouse.World.{World}
use local_first_architecture.Warehouse.Event.{key_comparable, Event}
use local_first_architecture.Warehouse.State.{State}
