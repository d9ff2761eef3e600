-- ===== src/Demo/Instance.antt =====
-- The class `demo_buffer_manager` as an implementation of the virtual class `buffer_manager`, with
-- one function for the answers of the system. It leaves `fix` and `advise` to the defaults.
use dasim.Manager.Interface.{BufferManager, default_advise}
use dasim.Demo.PageIo.{Os}
use dasim.Demo.State.{DemoBufferManager}
use dasim.Demo.Paging.{unfix, mark_dirty}
use dasim.Demo.Regions.{allocate, free, anchor, unanchor, get_anchored_region}
use dasim.Demo.Persist.{can_persist, persist}

abbrev pub demo_manager : Os → BufferManager
demo_manager os = record {
  State = DemoBufferManager;
  allocate = allocate os;
  free = free os;
  unfix = unfix os;
  mark_dirty = mark_dirty;
  anchor = anchor;
  unanchor = unanchor;
  get_anchored_region = get_anchored_region os;
  can_persist = can_persist;
  persist = persist os;
  advise = default_advise;
}
