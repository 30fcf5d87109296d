-- ===== src/Agent/Containers.antt =====
-- cmd/observant-agent/main.go: the lines that `selfCheck` prints about the containers.
use observant_agent.Base.{ℕ, ◌-◌, List, [], ◌∷◌, ◌++◌, map, if◌then◌else◌, is_empty, length, select}
use observant_agent.Agent.Human.{human}
use observant_agent.Base.Decimal.{format_int, format_uint}
use observant_agent.Base.Text.{Bytes, codes}
use observant_agent.Docker.Sample.{Arith, Stats}
use observant_agent.Agent.Print.{Printer, line, indent}

module _ (ar : Arith) (printer : Printer ar.floats.Float) where
  open ar use {floats}
  open floats use {Float}
  open printer use {fixed, pad_right}

  -- A container that runs, or one that has stopped.
  unfoldable pub print_container : Stats Float → Bytes
  print_container s =
      if s.container.running
      then line (
          indent
          ∷ pad_right 24 s.container.name
          ∷ codes " cpu "
          ∷ fixed 2 s.cpu_percent
          ∷ codes "%, mem "
          ∷ human ar fixed s.mem_used
          ∷ codes ", "
          ∷ (if s.has_restart_count
              then line (format_int s.restart_count ∷ codes " restarts, " ∷ [])
              else [])
          ∷ codes "image "
          ∷ s.container.image
          ∷ [])
      else line (
          indent
          ∷ pad_right 24 s.container.name
          ∷ codes " stopped, "
          ∷ format_int s.restart_count
          ∷ codes " restarts, image "
          ∷ s.container.image
          ∷ [])

  abbrev pub live_count : List (Stats Float) → ℕ
  live_count ss = length (select (λ s. s.container.running) ss)

  -- The containers, from the samples and the text of the joined errors.
  unfoldable pub print_containers : List (Stats Float) → List Bytes → Bytes → List Bytes
  unfolding print_container
  print_containers ss errs joined =
      (if is_empty errs then [] else line (indent ∷ codes "partial read: " ∷ joined ∷ []) ∷ [])
      ++ (line (
            indent
            ∷ format_uint (live_count ss)
            ∷ codes " running, "
            ∷ format_uint (length ss - live_count ss)
            ∷ codes " recently stopped"
            ∷ [])
          ∷ map print_container ss)
