-- ===== src/Ports/Critical.antt =====
-- Critical sections of the ports, one inside another: `sertos_port_enter_critical` and
-- `sertos_port_exit_critical` of port/arm/*/port_cpu.c and port/riscv/port_cpu.c.
use Prim.Native.Nat.{max}
use sertos.Base.{ℕ, ◌+◌, ◌^◌, ◌<◌, ◌≡◌, refl, ◌∙◌, ap, arith}

-- Critical sections that follow each other: one with those inside it, and those after it.
pub data Sections : Type 0 where
  done : Sections
  section : (inside after : Sections) → Sections

-- How many are open at once.
unfoldable pub depth : Sections → ℕ
depth done = 0
depth (section inside after) = max (depth inside + 1) (depth after)

-- A port's operations on its state: what enter returns is handed to exit.
pub record Masking (S : Type 0) : Type 0 where
  pub enter : S → S × ℕ
  pub exit : S → ℕ → S
  pub nesting : S → ℕ

-- The states that can be met between sections, and what the operations owe to them.
pub record MaskingLaws {S : Type 0} (p : Masking S) (Valid : S → Type 0) : Type 0 where
  pub enter_valid : (s : S) → Valid s → p.nesting s + 1 < 2 ^ 32 → Valid ((p.enter s).0)
  pub enter_nesting :
      (s : S) → Valid s → p.nesting s + 1 < 2 ^ 32 → p.nesting ((p.enter s).0) ≡ p.nesting s + 1
  pub exit_lem :
      (s : S) → Valid s → p.nesting s + 1 < 2 ^ 32 → p.exit ((p.enter s).0) ((p.enter s).1) ≡ s

module _ {S : Type 0} (p : Masking S) where
  unfoldable pub run_sections : Sections → S → S
  run_sections done s = s
  run_sections (section inside after) s =
      let (entered, status) = p.enter s in
      run_sections after (p.exit (run_sections inside entered) status)

  module _ {Valid : S → Type 0} (laws : MaskingLaws p Valid) where
    -- Sections that are not too deep leave the state as it was.
    pub run_sections-same :
        (sections : Sections) (s : S)
        → Valid s
        → p.nesting s + depth sections < 2 ^ 32
        → run_sections sections s ≡ s
    unfolding run_sections depth
    run_sections-same done s v h = refl
    run_sections-same (section inside after) s v h =
        let room : p.nesting s + 1 < 2 ^ 32 = omega (arith, h) in
        let inner =
          run_sections-same inside ((p.enter s).0) (laws.enter_valid s v room)
            (omega (arith, h, laws.enter_nesting s v room)) in
        ap (λ t. run_sections after (p.exit t ((p.enter s).1))) inner
        ∙ ap (run_sections after) (laws.exit_lem s v room)
        ∙ run_sections-same after s v (omega (arith, h))
