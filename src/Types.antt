-- ===== src/Types.antt =====
-- damemory/include/damemory/types.h, and the result structures of
-- damanager/include/damanager/buffer_manager.h.
use dasim.Base.{ℕ, Bool}

-- PAGE_SIZE, a huge page
abbrev pub page_size : ℕ
page_size = 0x200000

-- The values of errno that the program returns, as Linux numbers them; 0 is success.
abbrev pub enoent : ℕ
enoent = 2

abbrev pub enomem : ℕ
enomem = 12

abbrev pub eexist : ℕ
eexist = 17

abbrev pub einval : ℕ
einval = 22

-- ENOTSUP and EOPNOTSUPP are one number.
abbrev pub enotsup : ℕ
enotsup = 95

pub data AccessPattern : Type 0 where
  sequential random : AccessPattern

pub data Bandwidth : Type 0 where
  verylow low medium high : Bandwidth

pub data Granularity : Type 0 where
  small big : Granularity

pub data AvgLatency : Type 0 where
  verylow low medium high : AvgLatency

pub data TailLatency : Type 0 where
  verylow low medium high : TailLatency

pub data Persistency : Type 0 where
  nonpersistent persistent : Persistency

pub record Properties : Type 0 where
  pub access_pattern : AccessPattern
  pub bandwidth : Bandwidth
  pub granularity : Granularity
  pub avg_latency : AvgLatency
  pub tail_latency : TailLatency
  pub persistency : Persistency

pub record AnchoredRegion : Type 0 where
  pub addr : ℕ
  pub size : ℕ

pub record UnfixResult : Type 0 where
  pub from : ℕ
  pub size : ℕ
  pub mapping_changed : Bool
  pub writeprotect : Bool

pub record MarkDirtyResult : Type 0 where
  pub from : ℕ
  pub size : ℕ
  pub writeunprotect : Bool
