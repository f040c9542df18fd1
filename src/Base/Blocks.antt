-- ===== src/Base/Blocks.antt =====
-- `BlocksToSkip` and `BlocksToWait` of `base/base.go`.
use bridge_common.Prelude.{ℕ, ◌<◌, ◌≡◌, ◌↔◌, ◌⊎◌, arith}
use bridge_common.Base.{blocks_to_skip, blocks_to_wait}
use bridge_common.Base.Networks.{Build, main, test, network}

-- Fewer blocks are waited for than are skipped exactly on the chains PLT and BCSPALETTE.
pub blocks_to_wait-lt-blocks_to_skip :
    (b : Build) (id : ℕ)
    → (blocks_to_wait (network b) id < blocks_to_skip (network b) id)
      ↔ ((id ≡ (network b).plt) ⊎ (id ≡ (network b).bcs_palette))
unfolding blocks_to_wait blocks_to_skip
blocks_to_wait-lt-blocks_to_skip main id = (λ h. ground arith, λ h. ground arith)
blocks_to_wait-lt-blocks_to_skip test id = (λ h. ground arith, λ h. ground arith)
