-- ===== src/Collect/Percent.antt =====
-- internal/collect/collect.go: the rounding of percentages, and the load of the processor between two
-- readings of its counters.
use observant_agent.Base.{◌||◌, Option, none, some, if◌then◌else◌}
use observant_agent.Base.Decimal.{ℤ}
use observant_agent.Collect.Metrics.{Times, Cpu}
use observant_agent.Docker.Sample.{Arith}

module _ (ar : Arith) where
  open ar use {floats, mul, div, add, sub, less, less_eq, round}
  open floats use {Float, is_nan, is_inf, of_uint64}

  unfoldable pub clamp_percent : Float → Float
  clamp_percent v =
      if (is_nan v || is_inf v) || less v (of_uint64 0)
      then of_uint64 0
      else if less (of_uint64 100) v
      then of_uint64 100
      else div (round (mul v (of_uint64 100))) (of_uint64 100)

  unfoldable pub round2 : Float → Float
  round2 v =
      if is_nan v || is_inf v
      then of_uint64 0
      else div (round (mul v (of_uint64 100))) (of_uint64 100)

  unfoldable pub cpu_busy : Times Float → Float
  cpu_busy t =
      add (add (add (add (add (add t.user t.system) t.nice) t.iowait) t.irq) t.softirq) t.steal

  unfoldable pub cpu_total : Times Float → Float
  unfolding cpu_busy
  cpu_total t = add (cpu_busy t) t.idle

  abbrev pub zero_times : Times Float
  zero_times = record {
    user = of_uint64 0;
    system = of_uint64 0;
    idle = of_uint64 0;
    nice = of_uint64 0;
    iowait = of_uint64 0;
    irq = of_uint64 0;
    softirq = of_uint64 0;
    steal = of_uint64 0;
  }

  abbrev pub or_zero_times : Option (Times Float) → Times Float
  or_zero_times none = zero_times
  or_zero_times (some t) = t

  -- The sample from two readings of the counters.
  unfoldable pub cpu_between : ℤ → Times Float → Times Float → Cpu Float
  unfolding clamp_percent cpu_busy cpu_total
  cpu_between cores prev now =
      let busy = sub (cpu_busy now) (cpu_busy prev) in
      let total = sub (cpu_total now) (cpu_total prev) in
      let pct =
        λ (a : Float) (b : Float). clamp_percent (mul (div (sub a b) total) (of_uint64 100)) in
      let still : Cpu Float = record {
        cores = cores;
        usage_percent = of_uint64 0;
        user_percent = of_uint64 0;
        system_percent = of_uint64 0;
        iowait_percent = of_uint64 0;
        steal_percent = of_uint64 0;
        idle_percent = of_uint64 0;
        times = now;
      } in
      if less_eq total (of_uint64 0) then still else record still {
        usage_percent = clamp_percent (mul (div busy total) (of_uint64 100));
        user_percent = pct (add now.user now.nice) (add prev.user prev.nice);
        system_percent =
            pct (add (add now.system now.irq) now.softirq)
              (add (add prev.system prev.irq) prev.softirq);
        iowait_percent = pct now.iowait prev.iowait;
        steal_percent = pct now.steal prev.steal;
        idle_percent = pct now.idle prev.idle;
      }
