-- ===== src/Agent/Print.antt =====
-- cmd/observant-agent/main.go: the lines that `selfCheck` prints about a snapshot.
use observant_agent.Base.{
  ℕ, ◌*◌, ◌%◌, ◌^◌, Bool, true, false, List, [], ◌∷◌, ◌++◌, map, Option, none, some, ltb,
  if◌then◌else◌, is_empty, length,
}
use observant_agent.Agent.Human.{human}
use observant_agent.Base.Clock.{to_int64}
use observant_agent.Base.Decimal.{ℤ, format_int, format_uint}
use observant_agent.Base.Text.{Bytes, codes}
use observant_agent.Base.Trim.{trim_space}
use observant_agent.Collect.Metrics.{Cpu, Load, Mem, Host, Snapshot}
use observant_agent.Docker.Sample.{Arith}

-- What package fmt, strconv and time print: `%.nf`, `%-ns`, a duration in nanoseconds, an instant in
-- seconds as RFC 3339, and `strconv.Quote`.
pub record Printer (F : Type 0) : Type 0 where
  pub fixed : ℕ → F → Bytes
  pub pad_right : ℕ → Bytes → Bytes
  pub duration_text : ℤ → Bytes
  pub date_text : ℤ → Bytes
  pub quote : Bytes → Bytes

-- One line, from its parts.
abbrev pub line : List Bytes → Bytes
line [] = []
line (part ∷ parts) = part ++ line parts

abbrev pub indent : Bytes
indent = codes "           "

abbrev pub or_none : Bytes → Bytes
or_none s = if is_empty s then codes "(not set)" else s

abbrev pub token_state : Bytes → Bytes
token_state s =
    if is_empty s
    then codes "(not set)"
    else line (codes "set, " ∷ format_uint (length (trim_space s)) ∷ codes " chars" ∷ [])

module _ (ar : Arith) (printer : Printer ar.floats.Float) where
  open ar use {floats}
  open floats use {Float}
  open printer use {fixed, pad_right, duration_text, date_text}

  abbrev percent : ℕ → Float → Bytes
  percent digits v = fixed digits v ++ codes "%"

  abbrev size : ℕ → Bytes
  size b = human ar fixed b

  -- Each reports whether the section failed, and its lines.
  unfoldable pub print_cpu : Option (Cpu Float) → Bool × List Bytes
  print_cpu none = (true, codes "CPU        FAILED" ∷ [])
  print_cpu (some v) = (
    false,
    line (
          codes "CPU        "
          ∷ format_int v.cores
          ∷ codes " cores, "
          ∷ percent 2 v.usage_percent
          ∷ codes " busy (user "
          ∷ percent 2 v.user_percent
          ∷ codes ", sys "
          ∷ percent 2 v.system_percent
          ∷ codes ", iowait "
          ∷ percent 2 v.iowait_percent
          ∷ codes ", steal "
          ∷ percent 2 v.steal_percent
          ∷ codes ")"
          ∷ [])
        ∷ [],
  )

  unfoldable pub print_load : Option (Load Float) → Bool × List Bytes
  print_load none = (true, codes "load       FAILED" ∷ [])
  print_load (some v) = (
    false,
    line (
          codes "load       "
          ∷ fixed 2 v.load1
          ∷ codes " "
          ∷ fixed 2 v.load5
          ∷ codes " "
          ∷ fixed 2 v.load15
          ∷ [])
        ∷ [],
  )

  unfoldable pub print_mem : Option (Mem Float) → Bool × List Bytes
  print_mem none = (true, codes "memory     FAILED" ∷ [])
  print_mem (some v) = (
    false,
    line (
          codes "memory     "
          ∷ size v.used
          ∷ codes " used of "
          ∷ size v.total
          ∷ codes " ("
          ∷ percent 1 v.used_percent
          ∷ codes "), available "
          ∷ size v.available
          ∷ [])
        ∷ (if ltb 0 v.swap_total
            then line (
                codes "swap       "
                ∷ size v.swap_used
                ∷ codes " used of "
                ∷ size v.swap_total
                ∷ codes " ("
                ∷ percent 1 v.swap_used_percent
                ∷ codes ")"
                ∷ [])
            else codes "swap       none")
        ∷ [],
  )

  -- `time.Duration(v.Uptime) * time.Second` wraps as an int64 does.
  unfoldable pub print_host : Option Host → Bool × List Bytes
  print_host none = (true, codes "host       FAILED" ∷ [])
  print_host (some v) = (
    false,
    line (
          codes "host       "
          ∷ v.platform
          ∷ codes " "
          ∷ v.platform_version
          ∷ codes ", kernel "
          ∷ v.kernel
          ∷ codes ", arch "
          ∷ v.arch
          ∷ [])
        ∷ line (
            codes "uptime     "
            ∷ duration_text (to_int64 (v.uptime * 1_000_000_000 % 2 ^ 64))
            ∷ codes " (booted "
            ∷ date_text (to_int64 v.boot_time)
            ∷ codes ")"
            ∷ [])
        ∷ [],
  )

  unfoldable pub print_lists : Snapshot Float → List Bytes
  print_lists s =
      (line (codes "disks      " ∷ format_uint (length s.disks) ∷ codes " mounts" ∷ [])
        ∷ map
            (λ d. line (
              indent
              ∷ pad_right 24 d.mount
              ∷ codes " "
              ∷ pad_right 10 d.fstype
              ∷ codes " "
              ∷ size d.used
              ∷ codes " used of "
              ∷ size d.total
              ∷ codes " ("
              ∷ percent 1 d.used_percent
              ∷ codes ")"
              ∷ []))
            s.disks)
      ++ ((line (codes "disk i/o   " ∷ format_uint (length s.disk_io) ∷ codes " devices" ∷ [])
            ∷ map
                (λ d. line (
                  indent
                  ∷ pad_right 24 d.device
                  ∷ codes " read "
                  ∷ size d.read_bytes
                  ∷ codes ", write "
                  ∷ size d.write_bytes
                  ∷ []))
                s.disk_io)
          ++ (line (codes "network    " ∷ format_uint (length s.nets) ∷ codes " interfaces" ∷ [])
              ∷ map
                  (λ n. line (
                    indent
                    ∷ pad_right 24 n.interface
                    ∷ codes " rx "
                    ∷ size n.rx_bytes
                    ∷ codes ", tx "
                    ∷ size n.tx_bytes
                    ∷ []))
                  s.nets))
