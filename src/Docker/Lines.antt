-- ===== src/Docker/Lines.antt =====
-- The lines that `Encode` writes.
use mathlib.Core.List.{append_assoc, append-nil}
use observant_agent.Base.{
  ℕ, zero, suc, ap, sym, take, ltb, ◌≤◌, ◌+◌, ◌%◌, ◌^◌, ◌<◌, Bool, true, false, List, [], ◌∷◌, ◌++◌,
  map, inl, inr, Bool-cases, ◌≡◌, refl, ◌∙◌, arith, if◌then◌else◌, length, length-append, All,
  All-append, subst,
}
use observant_agent.Base.Clock.{Time}
use observant_agent.Base.Decimal.{pos}
use observant_agent.Base.Text.{Bytes, codes}
use observant_agent.Docker.Collect.{short_id}
use observant_agent.Docker.Encode.{
  fields_of, encode_sample, encode, memory_fields, cpu_fields, traffic_fields, identity_fields,
  tags_of,
}
use observant_agent.Docker.Sample.{Stats}
use observant_agent.Lineproto.Encoder.{Encoder, count_valid}
use observant_agent.Lineproto.Point.{Floats, Tag, field_valid, signed}
use observant_agent.Lineproto.Schema.{
  Entry, text, whole, tag, gauge, count, documented, entry_of, written-documented,
}
use observant_agent.Lineproto.Reader.{Line, ReadsAs}
use observant_agent.Lineproto.Reading.{NoBreaks}
use observant_agent.Lineproto.Render.{drops, point-points, point-base}
use observant_agent.Lineproto.RoundTrip.{
  FormatsNumbers, TagUnbroken, FieldUnbroken, written, ReadsAs-point,
}

take-whole : {A : Type 0} (n : ℕ) (xs : List A) → length xs ≤ n → take n xs ≡ xs
take-whole zero [] h = refl
take-whole (suc n) [] h = refl
take-whole zero (x ∷ xs) h = absurd (omega arith)
take-whole (suc n) (x ∷ xs) h = ap (λ ys. x ∷ ys) (take-whole n xs (omega arith))

short_id-take : (id : Bytes) → short_id id ≡ take 12 id
unfolding short_id
short_id-take id = elim (Bool-cases (ltb 12 (length id))) [
  | inl long ↦ rw long refl
  | inr whole ↦ rw whole (sym (take-whole 12 id (ground arith)))
]

module _ (fl : Floats) where
  open fl use {Float}

  sample-drops : (s : Stats Float) → drops fl (codes "obs_docker") (fields_of fl s) ≡ false
  unfolding fields_of count_valid field_valid
  sample-drops s = ground arith

  restart-Unbroken :
      (s : Stats Float) (b : Bool)
      → All FieldUnbroken (if b then signed fl "restart_count" s.restart_count ∷ [] else [])
  restart-Unbroken s true = ground arith
  restart-Unbroken s false = tt

  memory-Unbroken : (s : Stats Float) (b : Bool) → All FieldUnbroken (memory_fields fl s b)
  memory-Unbroken s true = ground arith
  memory-Unbroken s false = tt

  running-Unbroken :
      (s : Stats Float) (b : Bool)
      → All FieldUnbroken (
          if b
          then cpu_fields fl s ++ (memory_fields fl s s.mem_used_ok ++ traffic_fields fl s)
          else [])
  running-Unbroken s true = All-append FieldUnbroken (cpu_fields fl s) _ (ground arith) (
      All-append FieldUnbroken _ (traffic_fields fl s) (memory-Unbroken s s.mem_used_ok)
        (ground arith))
  running-Unbroken s false = tt

  fields_of-Unbroken : (s : Stats Float) → All FieldUnbroken (fields_of fl s)
  unfolding fields_of
  fields_of-Unbroken s = All-append FieldUnbroken (identity_fields fl s) _ (ground arith) (
      All-append FieldUnbroken _ _ (restart-Unbroken s s.has_restart_count)
        (running-Unbroken s s.container.running))

  -- The fields of the table of METRICS.md: of every container, with a known restart count, and of one
  -- that runs, of which the memory is left out where the reading is bad.
  abbrev pub memory_entries : Stats Float → List Entry
  memory_entries s =
      count fl "mem_used_bytes" s.mem_used
      ∷ count fl "mem_limit_bytes" s.mem_limit
      ∷ gauge fl "mem_percent" s.mem_percent
      ∷ []

  abbrev pub running_entries : Stats Float → List Entry
  running_entries s =
      gauge fl "cpu_percent" s.cpu_percent
      ∷ count fl "cpu_total_nanos" s.cpu_total_nanos
      ∷ ((if s.mem_used_ok then memory_entries s else [])
          ++ (count fl "rx_bytes" s.net_rx_bytes
              ∷ count fl "tx_bytes" s.net_tx_bytes
              ∷ count fl "read_bytes" s.blk_read_byte
              ∷ count fl "write_bytes" s.blk_write_byt
              ∷ count fl "pids" s.pids
              ∷ []))

  abbrev pub container_entries : Stats Float → List Entry
  container_entries s =
      text "container_id" (take 12 s.container.id)
      ∷ text "image" s.container.image
      ∷ whole "running" (if s.container.running then pos 1 else pos 0)
      ∷ ((if s.has_restart_count then whole "restart_count" s.restart_count ∷ [] else [])
          ++ (if s.container.running then running_entries s else []))

  -- The lines of the samples, from METRICS.md: the only tag of a container is its name.
  abbrev pub sample_lines : List Tag → Stats Float → Time → List Line
  sample_lines base s ts =
      documented base "obs_docker" (tag "container" s.container.name ∷ []) (container_entries s) ts

  abbrev pub lines_of : List Tag → List (Stats Float) → Time → List Line
  lines_of base [] ts = []
  lines_of base (s ∷ ss) ts = sample_lines base s ts ++ lines_of base ss ts

  fields_of-container_entries :
      (s : Stats Float) → map (entry_of fl) (fields_of fl s) ≡ container_entries s
  unfolding fields_of field_valid
  fields_of-container_entries s = elim (Bool-cases s.has_restart_count) [
    | inl k ↦ elim (Bool-cases s.container.running) [
      | inl r ↦ elim (Bool-cases s.mem_used_ok) [
        | inl m ↦ rw (k, r, m, short_id-take s.container.id) refl
        | inr m ↦ rw (k, r, m, short_id-take s.container.id) refl
      ]
      | inr r ↦ rw (k, r, short_id-take s.container.id) refl
    ]
    | inr k ↦ elim (Bool-cases s.container.running) [
      | inl r ↦ elim (Bool-cases s.mem_used_ok) [
        | inl m ↦ rw (k, r, m, short_id-take s.container.id) refl
        | inr m ↦ rw (k, r, m, short_id-take s.container.id) refl
      ]
      | inr r ↦ rw (k, r, short_id-take s.container.id) refl
    ]
  ]

  written-sample_lines :
      (base : List Tag) (s : Stats Float) (ts : Time)
      → written fl base (codes "obs_docker") (tags_of fl s) (fields_of fl s) ts
        ≡ sample_lines base s ts
  written-sample_lines base s ts =
      written-documented fl base "obs_docker" (tags_of fl s) (fields_of fl s) (container_entries s)
        ts refl (fields_of-container_entries s)

  written_one :
      (base : List Tag) (s : Stats Float) (ts : Time) → length (sample_lines base s ts) ≡ 1
  written_one base s ts = refl

  encode_sample-points :
      (e : Encoder) (ts : Time) (s : Stats Float)
      → ((encode_sample fl e ts s).points ≡ (e.points + 1) % 2 ^ 64)
        × ((encode_sample fl e ts s).base ≡ e.base)
  unfolding encode_sample
  encode_sample-points e ts s = (
    point-points fl e (codes "obs_docker") (tags_of fl s) (fields_of fl s) ts
        ∙ rw (sample-drops s) refl,
    point-base fl e (codes "obs_docker") (tags_of fl s) (fields_of fl s) ts,
  )

  -- `Encode` adds one line for each sample, and the batch stays one that the reader accepts: behind
  -- the lines that were there it reads for each sample the line that METRICS.md describes, with the
  -- container as its tag, the fields of its table, and the timestamp. A field of a stopped container
  -- that is not read is left out, and so are the memory of a bad reading and a restart count that is
  -- not known. Conditions: FormatFloat prints a finite float without delimiters, the reader accepts
  -- what the buffer holds, the counter is below 2^64, and no container name and no base tag holds a
  -- line break; an image or an ID may.
  pub encode-lines :
      (e : Encoder) (ss : List (Stats Float)) (ts : Time) (lines : List Line)
      → FormatsNumbers fl
      → ReadsAs e.buf lines
      → e.points < 2 ^ 64
      → All TagUnbroken e.base
      → All (λ s. NoBreaks s.container.name) ss
      → let after = encode fl e ss ts in
        ReadsAs after.buf (lines ++ lines_of e.base ss ts)
        × (after.points ≡ (e.points + length ss) % 2 ^ 64)
        × (length (lines_of e.base ss ts) ≡ length ss)
  unfolding encode encode_sample
  encode-lines e [] ts lines laws r p b names = (rw append-nil r, omega arith, refl)
  encode-lines e (s ∷ ss) ts lines laws r p b names =
      let e1 : Encoder = encode_sample fl e ts s in
      let (one, same) = encode_sample-points e ts s in
      let line : List Line = sample_lines e.base s ts in
      let first : ReadsAs e1.buf (lines ++ line) =
        subst (λ l. ReadsAs e1.buf (lines ++ l)) (written-sample_lines e.base s ts)
          (ReadsAs-point fl laws e lines (codes "obs_docker") (tags_of fl s) (fields_of fl s) ts r
            (ground arith) b (record { key_unbroken = ground arith; value_unbroken = names.0 }, tt)
            (fields_of-Unbroken s)) in
      let (reads, counted, long) =
        encode-lines e1 ss ts (lines ++ line) laws first (omega arith) (rw same b) names.1 in
      let last : ReadsAs (encode fl e1 ss ts).buf (lines ++ (line ++ lines_of e.base ss ts)) =
        rw⁻¹ (append_assoc lines line (lines_of e.base ss ts)) (
          subst (λ base. ReadsAs (encode fl e1 ss ts).buf ((lines ++ line) ++ lines_of base ss ts))
            same reads) in
      let rest : length (lines_of e.base ss ts) ≡ length ss =
        subst (λ base. length (lines_of base ss ts) ≡ length ss) same long in
      (
        last,
        omega (arith, one, counted),
        length-append line _ ∙ omega (arith, written_one e.base s ts, rest),
      )

  -- The base tags stay.
  pub encode-base_tags :
      (e : Encoder) (ss : List (Stats Float)) (ts : Time) → (encode fl e ss ts).base ≡ e.base
  unfolding encode
  encode-base_tags e [] ts = refl
  encode-base_tags e (s ∷ ss) ts =
      encode-base_tags (encode_sample fl e ts s) ss ts ∙ (encode_sample-points e ts s).1
