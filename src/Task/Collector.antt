-- ===== src/Task/Collector.antt =====
-- nacl/src/task/gc.rs: the collector of the deque, and the handle of each processor to it.
use na_cl.Common.{Bool, Option, none, some}

-- What the code uses of the crate `crossbeam-epoch`: a collector registers a handle, and a handle
-- is pinned, which it counts.
pub record EpochApi : Type 1 where
  pub Collector : Type 0
  pub LocalHandle : Type 0
  pub Guard : Type 0
  pub new_collector : Collector
  pub register : Collector → Collector × LocalHandle
  pub pin_handle : LocalHandle → LocalHandle × Guard
  pub handle_is_pinned : LocalHandle → Bool

module _ (api : EpochApi) where
  open api use {Collector, LocalHandle, Guard}

  -- The static `COLLECTOR`, made on its first use: what is used, and the static after it.
  unfoldable pub default_collector : Option Collector → Collector × Option Collector
  default_collector none = (api.new_collector, some api.new_collector)
  default_collector (some c) = (c, some c)

  -- `with_handle`, with the handle of the current processor: the result and the handle after it.
  abbrev pub with_handle :
      {R : Type 0} → (LocalHandle → LocalHandle × R) → LocalHandle → LocalHandle × R
  with_handle f handle = f handle

  unfoldable pub pin : LocalHandle → LocalHandle × Guard
  pin handle = with_handle api.pin_handle handle

  unfoldable pub is_pinned : LocalHandle → LocalHandle × Bool
  is_pinned handle = with_handle (λ h. (h, api.handle_is_pinned h)) handle
