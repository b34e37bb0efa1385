-- ===== src/Outside/Frame.antt =====
-- The calls of a reconcile leave its own machine alone.
use cluster_api_provider_elf.Base.{◌≡◌, refl, ok}
use cluster_api_provider_elf.Action.Always.{Always, Gives, Any}
use cluster_api_provider_elf.Memory.{Memory}
use cluster_api_provider_elf.Context.{MachineContext}
use cluster_api_provider_elf.Outside.{Call, Site, VmService, ask, read_ctx, on_memory, time_now}

-- The machine of the reconcile is as given.
abbrev pub HasCtx : {S C T : Type 0} → MachineContext S → Site S C T → Type 0
HasCtx ctx s = s.ctx ≡ ctx

module _ {S C T A : Type 0} (ctx : MachineContext S) where
  pub Always-ask : (m : Call C T A) → Always {S = Site S C T} (HasCtx ctx) (Gives m) (ask m)
  unfolding ask
  Always-ask m = record { at = λ s i. ((s.shared, refl), i) }

  pub Always-read_ctx :
      (f : MachineContext S → A)
      → Always {S = Site S C T} (HasCtx ctx) (λ r. r ≡ ok (f ctx)) (read_ctx f)
  unfolding read_ctx
  Always-read_ctx f = record { at = λ s i. (rw i refl, i) }

  pub Always-on_memory :
      (f : Memory C → A × Memory C) → Always {S = Site S C T} (HasCtx ctx) Any (on_memory f)
  unfolding on_memory
  Always-on_memory f = record { at = λ s i. (tt, i) }

module _ {S C T : Type 0} (v : VmService S C T) (ctx : MachineContext S) where
  pub Always-time_now : Always {S = Site S C T} (HasCtx ctx) Any (time_now v)
  unfolding time_now
  Always-time_now = record { at = λ s i. (tt, i) }
