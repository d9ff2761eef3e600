-- ===== src/Library/Api.antt =====
-- The functions of damemory/include/damemory/damemory.h as a program sees them, and the library of
-- damemory/src/damemory.cc as their implementation.
use dasim.Base.{ℕ, Option}
use dasim.Types.{Properties}
use dasim.Calls.{CallParams, CallResult}
use dasim.Library.{
  Handle, Status, Platform, Library, alloc, anchor, unanchor, map, unmap, persist, get_size,
}

-- `State` is what the calls may change besides the memory of the regions.
pub record Damemory : Type 1 where
  pub State : Type 0
  pub get_size : State → ℕ → Option (ℕ × State)
  pub alloc : State → ℕ → ℕ → Properties → Option (Handle × State)
  pub anchor : State → ℕ → Option (Status × State)
  pub unanchor : State → ℕ → Option (Status × State)
  pub map : State → ℕ → Option (Handle × State)
  pub unmap : State → Handle → Option (Status × State)
  pub persist : State → Handle → ℕ → ℕ → Option (Status × State)

abbrev pub damemory :
    {S : Type 0} → (S → CallParams → Option (CallResult × S)) → Platform → Damemory
damemory {S = S} answer p = record {
  State = Library S;
  get_size = get_size answer p;
  alloc = alloc answer p;
  anchor = anchor answer p;
  unanchor = unanchor answer p;
  map = map answer p;
  unmap = unmap answer p;
  persist = persist answer p;
}
