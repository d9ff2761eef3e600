-- ===== src/Manager/Interface.antt =====
-- The virtual class `buffer_manager`, as its client sees it, and the defaults of
-- damanager/src/buffer_manager.cc.
use dasim.Base.{ℕ, Bool, Option}
use dasim.Types.{Properties, AnchoredRegion, UnfixResult, MarkDirtyResult, enotsup}

-- The operations over an abstract state. Output arguments come before the new state in the result;
-- `none` is a call that does not return.
pub record BufferManager : Type 1 where
  pub State : Type 0
  pub allocate : State → ℕ → ℕ → Properties → ℕ → Option (ℕ × ℕ × State)
  pub free : State → ℕ → Option State
  pub unfix : State → ℕ → ℕ → Bool → Option (UnfixResult × State)
  pub mark_dirty : State → ℕ → ℕ → Option (MarkDirtyResult × State)
  pub anchor : State → ℕ → ℕ × State
  pub unanchor : State → ℕ → ℕ × State
  pub get_anchored_region : State → ℕ → AnchoredRegion → ℕ × AnchoredRegion × State
  pub can_persist : State → ℕ → ℕ → ℕ → ℕ
  pub persist : State → ℕ → ℕ → ℕ → Option State
  pub advise : State → ℕ → Properties → ℕ × State

module _ {S : Type 0} where
  -- `fix` does nothing.
  unfoldable pub default_fix : S → ℕ → ℕ → ℕ → S
  default_fix s id off size = s

  unfoldable pub default_anchor : S → ℕ → ℕ × S
  default_anchor s id = (enotsup, s)

  unfoldable pub default_unanchor : S → ℕ → ℕ × S
  default_unanchor s id = (enotsup, s)

  unfoldable pub default_get_anchored_region : S → ℕ → AnchoredRegion → ℕ × AnchoredRegion × S
  default_get_anchored_region s id out = (enotsup, out, s)

  unfoldable pub default_can_persist : S → ℕ → ℕ → ℕ → ℕ
  default_can_persist s id off size = enotsup

  unfoldable pub default_persist : S → ℕ → ℕ → ℕ → S
  default_persist s id off size = s

  unfoldable pub default_advise : S → ℕ → Properties → ℕ × S
  default_advise s id properties = (enotsup, s)
