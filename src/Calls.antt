-- ===== src/Calls.antt =====
-- The messages between a client and the manager: damanager/include/damanager/call_types.h.
use dasim.Base.{ℕ}
use dasim.Types.{Properties}

-- `call_params`: the tag of the union with the member that it selects. `unknown` is any other tag.
pub data CallParams : Type 0 where
  alloc : ℕ → ℕ → ℕ → Properties → CallParams
  anchor : ℕ → CallParams
  unanchor : ℕ → CallParams
  get_size : ℕ → CallParams
  map : ℕ → ℕ → ℕ → CallParams
  unmap : ℕ → CallParams
  persist : ℕ → ℕ → ℕ → CallParams
  advise : ℕ → Properties → CallParams
  unknown : CallParams

-- The member of the union in `call_result` that is written, if any is. The segment ids of `alloc`
-- and `map` lie at one place.
pub data Payload : Type 0 where
  unset : Payload
  segid : ℕ → Payload
  size : ℕ → Payload

pub record CallResult : Type 0 where
  pub error : ℕ
  pub payload : Payload
