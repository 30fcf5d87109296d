-- ===== src/Docker/Encode.antt =====
-- internal/docker/docker.go: `Encode`.

use observant_agent.Base.{Bool, true, false, List, [], ◌∷◌, ◌++◌, if◌then◌else◌}
use observant_agent.Base.Clock.{Time}
use observant_agent.Base.Decimal.{ℤ, pos}
use observant_agent.Base.Text.{codes}
use observant_agent.Docker.Collect.{short_id}
use observant_agent.Docker.Sample.{Stats}
use observant_agent.Lineproto.Encoder.{Encoder, point}
use observant_agent.Lineproto.Point.{Floats, Tag, Field, str, unsigned, signed, real}

abbrev pub bool_int : Bool → ℤ
bool_int true = pos 1
bool_int false = pos 0

module _ (fl : Floats) where
  open fl use {Float}

  -- The fields of a good memory reading.
  abbrev pub memory_fields : Stats Float → Bool → List (Field Float)
  memory_fields s ok =
      if ok
      then unsigned fl "mem_used_bytes" s.mem_used
        ∷ unsigned fl "mem_limit_bytes" s.mem_limit
        ∷ real fl "mem_percent" s.mem_percent
        ∷ []
      else []

  abbrev pub cpu_fields : Stats Float → List (Field Float)
  cpu_fields s =
      real fl "cpu_percent" s.cpu_percent ∷ unsigned fl "cpu_total_nanos" s.cpu_total_nanos ∷ []

  abbrev pub traffic_fields : Stats Float → List (Field Float)
  traffic_fields s =
      unsigned fl "rx_bytes" s.net_rx_bytes
      ∷ unsigned fl "tx_bytes" s.net_tx_bytes
      ∷ unsigned fl "read_bytes" s.blk_read_byte
      ∷ unsigned fl "write_bytes" s.blk_write_byt
      ∷ unsigned fl "pids" s.pids
      ∷ []

  abbrev pub identity_fields : Stats Float → List (Field Float)
  identity_fields s =
      str fl "container_id" (short_id s.container.id)
      ∷ str fl "image" s.container.image
      ∷ signed fl "running" (bool_int s.container.running)
      ∷ []

  -- The restart count where it is known, and what only a running container has.
  unfoldable pub fields_of : Stats Float → List (Field Float)
  fields_of s =
      identity_fields s
      ++ ((if s.has_restart_count then signed fl "restart_count" s.restart_count ∷ [] else [])
          ++ (if s.container.running
              then cpu_fields s ++ (memory_fields s s.mem_used_ok ++ traffic_fields s)
              else []))

  abbrev pub tags_of : Stats Float → List Tag
  tags_of s = record { key = codes "container"; value = s.container.name } ∷ []

  unfoldable pub encode_sample : Encoder → Time → Stats Float → Encoder
  unfolding fields_of
  encode_sample e ts s = point fl e (codes "obs_docker") (tags_of s) (fields_of s) ts

  -- `Encode`: the loop over the samples.
  unfoldable pub encode : Encoder → List (Stats Float) → Time → Encoder
  unfolding encode_sample
  encode e [] ts = e
  encode e (s ∷ ss) ts = encode (encode_sample e ts s) ss ts
