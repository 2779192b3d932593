-- ===== src/Pprof/Sampler.antt =====
-- The configuration and the sampler of src/pprof.rs. `geometric`, which draws from a random source
-- through floating-point logarithms, is a parameter.
use clmalloc.Base.{
  ℕ, ◌*◌, ◌%◌, ◌^◌, Bool, true, false, ◌||◌, Option, none, some, ltb, leb, ◌==◌, if◌then◌else◌,
}
use clmalloc.Base.Words64.{sub64}

abbrev pub default_sample_interval : ℕ
default_sample_interval = 512 * 1024

pub record PprofConfig : Type 0 where
  pub sample_interval : ℕ

-- `PROF_ACTIVE` and `SAMPLE_INTERVAL`.
pub record Settings : Type 0 where
  pub active : Bool
  pub interval : ℕ

abbrev pub initial_settings : Settings
initial_settings = record { active = false; interval = default_sample_interval }

-- `none` is the failed assertion that the interval is positive.
unfoldable pub set_pprof_config : Option PprofConfig → Settings → Option Settings
set_pprof_config (some c) s =
    if ltb 0 c.sample_interval
    then some (record { active = true; interval = c.sample_interval })
    else none
set_pprof_config none s = some (record s { active = false })

unfoldable pub pprof_config : Settings → Option PprofConfig
pprof_config s = if s.active then some (record { sample_interval = s.interval }) else none

abbrev pub should_sample : Settings → Bool
should_sample s = s.active

-- `countdown` is an i64 as a bit pattern; it is at most 0 when it is 0 or its top bit is set.
abbrev pub at_most_zero : ℕ → Bool
at_most_zero c = c == 0 || leb (2 ^ 63) c

pub record Sampler (Rng : Type 0) : Type 0 where
  pub countdown : ℕ
  pub rng : Rng
  pub interval : ℕ

module _ {Rng : Type 0} (geometric : Rng → ℕ → ℕ × Rng) where
  unfoldable pub new_sampler : (ℕ → Rng) → ℕ → Settings → Sampler Rng
  new_sampler seed_from_u64 seed s =
      let (countdown, rng) = geometric (seed_from_u64 seed) s.interval in
      record { countdown = countdown; rng = rng; interval = s.interval }

  unfoldable pub reset : Sampler Rng → Sampler Rng
  reset s =
      let (countdown, rng) = geometric s.rng s.interval in
      record s { countdown = countdown; rng = rng }

  unfoldable pub check : Sampler Rng → ℕ → Bool × Sampler Rng
  check s size =
      let s' = record s { countdown = sub64 s.countdown (size % 2 ^ 64) } in
      let again = reset s' in if at_most_zero s'.countdown then (true, again) else (false, s')
