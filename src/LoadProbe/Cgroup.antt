-- ===== src/LoadProbe/Cgroup.antt =====
-- pkg/loadprobe/cgroup_linux.go. Files are given by their contents, `none` where reading fails, and
-- cpu.stat by its lines; a time is a number of nanoseconds, `none` for the zero time.
pub mod Kernel
use media_processor.Prelude.{
  ℕ, ◌+◌, ◌-◌, ◌*◌, ◌/◌, Bool, true, false, ◌&&◌, ◌||◌, List, [], ◌∷◌, ◌++◌, Option, none, some,
  ltb, leb, ◌==◌, if◌then◌else◌,
}
use media_processor.Prelude.Int.{pos}
use media_processor.Text.{codes, same_codes, has_prefix_codes, is_space}
use media_processor.Text.Decimal.{parse_uint}
use media_processor.LoadProbe.{SampleFloats}

-- A word in front of the words that follow, unless it is empty.
unfoldable pub add_word : List ℕ → List (List ℕ) → List (List ℕ)
add_word [] ws = ws
add_word (c ∷ w) ws = (c ∷ w) ∷ ws

-- strings.Fields, behind the part `w` of a word.
unfoldable pub fields : List ℕ → List ℕ → List (List ℕ)
unfolding add_word
fields w [] = add_word w []
fields w (c ∷ s) =
    let word_ends = add_word w (fields [] s) in
    let word_goes_on = fields (w ++ c ∷ []) s in if is_space c then word_ends else word_goes_on

-- What `readCPUMax` finds: a quota and a period, `ErrCgroupUnconstrained`, or another error.
pub data CpuMax : Type 0 where
  constrained : ℕ → ℕ → CpuMax
  unconstrained bad_cpu_max : CpuMax

-- The parsed quota and period, `none` where parsing fails.
unfoldable pub check_period : Option ℕ → Option ℕ → CpuMax
check_period none p = bad_cpu_max
check_period (some q) none = bad_cpu_max
check_period (some q) (some p) = if p == 0 then bad_cpu_max else constrained q p

unfoldable pub cpu_max_of : List (List ℕ) → CpuMax
unfolding same_codes check_period
cpu_max_of [] = bad_cpu_max
cpu_max_of (q ∷ []) = bad_cpu_max
cpu_max_of (q ∷ p ∷ []) =
    if same_codes q (codes "max") then unconstrained else check_period (parse_uint q) (parse_uint p)
cpu_max_of (q ∷ p ∷ r ∷ ws) = bad_cpu_max

-- `readCPUMax`.
unfoldable pub read_cpu_max : Option (List ℕ) → CpuMax
unfolding fields cpu_max_of
read_cpu_max none = bad_cpu_max
read_cpu_max (some text) = cpu_max_of (fields [] text)

abbrev is_nil : List ℕ → Bool
is_nil [] = true
is_nil (c ∷ s) = false

-- strings.TrimSpace, by its two ends.
unfoldable pub trim_start : List ℕ → List ℕ
trim_start [] = []
trim_start (c ∷ s) = if is_space c then trim_start s else c ∷ s

unfoldable pub trim_end : List ℕ → List ℕ
trim_end [] = []
trim_end (c ∷ s) = let rest = trim_end s in if is_space c && is_nil rest then [] else c ∷ rest

-- strings.CutPrefix.
unfoldable pub cut_prefix : List ℕ → List ℕ → Option (List ℕ)
cut_prefix s [] = some s
cut_prefix [] (d ∷ t) = none
cut_prefix (c ∷ s) (d ∷ t) = let rest = cut_prefix s t in if c == d then rest else none

-- `readUsageUsec`; `none` is an error.
unfoldable pub read_usage_usec : List (List ℕ) → Option ℕ
unfolding cut_prefix trim_start trim_end
read_usage_usec [] = none
read_usage_usec (line ∷ lines) = elim (cut_prefix line (codes "usage_usec ")) [
  | none ↦ read_usage_usec lines
  | some rest ↦ parse_uint (trim_end (trim_start rest))
]

-- `CgroupProbe`.
pub record CgroupProbe : Type 0 where
  pub quota_us : ℕ
  pub period_us : ℕ
  pub last_usg : ℕ
  pub last_time : Option ℕ
  pub closed : Bool

-- `newCgroupProbe`, of cpu.max and of whether cpu.stat is there; `none` is an error.
unfoldable pub new_cgroup_probe : Option (List ℕ) → Bool → Option CgroupProbe
unfolding read_cpu_max
new_cgroup_probe text has_stat = elim (read_cpu_max text) [
  | unconstrained ↦ none
  | bad_cpu_max ↦ none
  | constrained q p ↦
      if has_stat
      then some
          (record { quota_us = q; period_us = p; last_usg = 0; last_time = none; closed = false })
      else none
]

-- `Close`.
unfoldable pub close : CgroupProbe → CgroupProbe
close p = record p { closed = true }

module _ (fs : SampleFloats) where
  open fs use {Float, lt, mul, div, of_int}

  -- The utilization of a positive time.
  unfoldable pub utilization : CgroupProbe → ℕ → ℕ → Float
  utilization p delta_us wall_us =
      let u =
        div (mul (of_int (pos delta_us)) (of_int (pos p.period_us)))
          (mul (of_int (pos p.quota_us)) (of_int (pos wall_us))) in
      if lt (of_int (pos 1)) u then of_int (pos 1) else u

  -- `Sample`, of whether the context has ended, the usage that is read and the time; `none` is an
  -- error. The clock does not run backwards: an earlier time counts as no time.
  unfoldable pub sample : Bool → Option ℕ → ℕ → CgroupProbe → Option Float × CgroupProbe
  unfolding utilization
  sample ctx_ended usage now p = if ctx_ended || p.closed then (none, p) else elim usage [
    | none ↦ (none, p)
    | some u ↦
        let p' : CgroupProbe = record p { last_usg = u; last_time = some now } in
        elim p.last_time [
          | none ↦ (some (of_int (pos 0)), p')
          | some t ↦
              let wall_us = (now - t) / 1000 in
              if wall_us == 0 || p.quota_us == 0
              then (some (of_int (pos 0)), p')
              else (some (utilization p (u - p.last_usg) wall_us), p')
        ]
  ]
