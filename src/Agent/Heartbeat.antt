-- ===== src/Agent/Heartbeat.antt =====
-- What the ingest endpoint reads in a batch of the agent.
use mathlib.Core.List.{append_assoc}
use observant_agent.Base.{
  ◌+◌, ◌%◌, ◌^◌, false, List, [], ◌∷◌, ◌++◌, map, if◌then◌else◌, Option, none, some, ◌≡◌, refl, sym,
  subst, ◌∙◌, arith, All,
}
use observant_agent.Base.Clock.{Time, is_zero, unix_nano}
use observant_agent.Base.Decimal.{ℤ, format_int}
use observant_agent.Base.Text.{Bytes, codes}
use observant_agent.Agent.Batch.{
  Turn, Build, agent_fields, encode_agent, collect_docker, collect_batch,
}
use observant_agent.Agent.State.{Agent}
use observant_agent.Collect.Cycle
use observant_agent.Collect.Metrics.{Snapshot}
use observant_agent.Collect.Documented.{snapshot_lines}
use observant_agent.Collect.Items.{items}
use observant_agent.Collect.Lines.{encode-reads, encode-base}
use observant_agent.Collect.Snapshot
use observant_agent.Docker.Collect
use observant_agent.Docker.Collect.{Engine}
use observant_agent.Docker.Encode
use observant_agent.Docker.Lines.{lines_of, encode-lines}
use observant_agent.Docker.Restart.{Client}
use observant_agent.Docker.Sample.{Arith, Stats}
use observant_agent.Lineproto.Encoder.{Encoder, reset, count_valid}
use observant_agent.Lineproto.Point.{Tag, field_valid}
use observant_agent.Lineproto.Reader.{bare, quoted, Line, ReadsAs, run}
use observant_agent.Lineproto.Reading.{NoBreaks, flatten}
use observant_agent.Lineproto.Render.{merge_tags, drops, point-points, point-base}
use observant_agent.Lineproto.RoundTrip.{FormatsNumbers, TagUnbroken, line_of, ReadsAs-point}

module _ (ar : Arith) (build : Build) where
  open ar use {floats}
  open floats use {Float}

  -- The samples that the container collector returns in a cycle.
  abbrev pub samples_of : Engine → Option Client → List (Stats Float)
  samples_of engine none = []
  samples_of engine (some c) = (Collect.collect ar engine c).1

  agent-drops : (up : ℤ) → drops floats (codes "obs_agent") (agent_fields ar build up) ≡ false
  unfolding count_valid field_valid
  agent-drops up = refl

  pub collect_docker-enc :
      (engine : Engine) (ts : Time) (e : Encoder) (client : Option Client)
      → (collect_docker ar build engine ts e client).1
        ≡ Encode.encode floats e (samples_of engine client) ts
  unfolding collect_docker Encode.encode
  collect_docker-enc engine ts e none = refl
  collect_docker-enc engine ts e (some c) = refl

  encode_agent-points :
      (e : Encoder) (ts : Time) (up : ℤ)
      → (encode_agent ar build e ts up).points ≡ (e.points + 1) % 2 ^ 64
  unfolding encode_agent
  encode_agent-points e ts up =
      let counted = point-points floats e (codes "obs_agent") [] (agent_fields ar build up) ts in
      rw (agent-drops up) at counted

  pub encode_agent-base :
      (e : Encoder) (ts : Time) (up : ℤ) → (encode_agent ar build e ts up).base ≡ e.base
  unfolding encode_agent
  encode_agent-base e ts up =
      point-base floats e (codes "obs_agent") [] (agent_fields ar build up) ts

  -- The heartbeat that METRICS.md describes: no tag beyond the base tags, and three fields.
  abbrev pub heartbeat : List Tag → Time → Bytes → Line
  heartbeat base ts up = record {
    measurement = codes "obs_agent";
    tags = map (λ (t : Tag). (t.key, t.value)) (merge_tags base []);
    fields =
        (codes "version", quoted (flatten build.version))
        ∷ (codes "start_time", bare (format_int build.start_time ++ codes "i"))
        ∷ (codes "up", bare up)
        ∷ [];
    time = if is_zero ts then none else some (format_int (unix_nano ts));
  }

  -- An integer as it stands in a line.
  abbrev pub integer : ℤ → Bytes
  integer n = format_int n ++ codes "i"

  line_of-heartbeat :
      (base : List Tag) (ts : Time) (up : ℤ)
      → line_of floats base (codes "obs_agent") [] (agent_fields ar build up) ts
        ≡ heartbeat base ts (integer up)
  unfolding field_valid
  line_of-heartbeat base ts up = refl

  encode_agent-reads :
      (e : Encoder) (ts : Time) (up : ℤ) (lines : List Line)
      → FormatsNumbers floats
      → ReadsAs e.buf lines
      → All TagUnbroken e.base
      → ReadsAs (encode_agent ar build e ts up).buf (lines ++ heartbeat e.base ts (integer up) ∷ [])
  unfolding encode_agent field_valid
  encode_agent-reads e ts up lines laws r b =
      let reads =
        ReadsAs-point floats laws e lines (codes "obs_agent") [] (agent_fields ar build up) ts r
          (ground arith) b tt (ground arith) in
      rw (agent-drops up) at reads

  -- The lines of a batch: the host's sections, one heartbeat, and the container samples.
  abbrev pub lines_of_batch : Turn Float → Bytes → Agent Float → List Line
  lines_of_batch turn up a =
      let snap = (Cycle.collect ar turn.probes a.sys).0 in
      snapshot_lines floats a.enc.base snap
      ++ (heartbeat a.enc.base snap.time up
          ∷ lines_of floats a.enc.base (samples_of turn.engine a.docker) snap.time)

  -- The three parts of a batch, one behind the other.
  parts-reads :
      (e : Encoder) (snap : Snapshot Float) (ss : List (Stats Float)) (up : ℤ)
      → FormatsNumbers floats
      → ReadsAs e.buf []
      → All TagUnbroken e.base
      → All (λ i. All TagUnbroken i.tags) (items floats snap)
      → All (λ s. NoBreaks s.container.name) ss
      → ReadsAs
          (Encode.encode floats
            (encode_agent ar build (Snapshot.encode floats e snap) snap.time up)
            ss
            snap.time).buf
          (snapshot_lines floats e.base snap
            ++ (heartbeat e.base snap.time (integer up) ∷ lines_of floats e.base ss snap.time))
  parts-reads e snap ss up laws r b tagged named =
      let ts = snap.time in
      let e1 = Snapshot.encode floats e snap in
      let e2 = encode_agent ar build e1 ts up in
      let host = snapshot_lines floats e.base snap in
      let same : e1.base ≡ e.base = encode-base floats e snap in
      let still : e2.base ≡ e.base = encode_agent-base e1 ts up ∙ same in
      let first : ReadsAs e1.buf host = encode-reads floats e snap [] laws r b tagged in
      let beat : ReadsAs e2.buf (host ++ heartbeat e1.base ts (integer up) ∷ []) =
        encode_agent-reads e1 ts up host laws first (subst (λ l. All TagUnbroken l) (sym same) b) in
      let second : ReadsAs e2.buf (host ++ heartbeat e.base ts (integer up) ∷ []) =
        subst (λ l. ReadsAs e2.buf (host ++ heartbeat l ts (integer up) ∷ [])) same beat in
      let third =
        encode-lines floats e2 ss ts (host ++ heartbeat e.base ts (integer up) ∷ []) laws second
          (omega (arith, encode_agent-points e1 ts up))
          (subst (λ l. All TagUnbroken l) (sym still) b) named in
      let last =
        subst
          (λ l.
            ReadsAs (Encode.encode floats e2 ss ts).buf
              ((host ++ heartbeat e.base ts (integer up) ∷ []) ++ lines_of floats l ss ts))
          still third.0 in
      rw (append_assoc host (heartbeat e.base ts (integer up) ∷ []) (lines_of floats e.base ss ts))
        at last

  -- The reader accepts the batch of every cycle and reads in it the lines that METRICS.md describes:
  -- those of the host's sections, then one heartbeat whose fields are the version, the start time and
  -- `up`, then a line for each container sample, all with the agent's base tags and the time of the
  -- snapshot. Conditions: FormatFloat
  -- prints a finite float without delimiters, and no base tag, no tag of the host's sections and no
  -- name of a container sample holds a line break.
  pub collect_batch-reads :
      (turn : Turn Float) (up : ℤ) (a : Agent Float)
      → FormatsNumbers floats
      → All TagUnbroken a.enc.base
      → All (λ i. All TagUnbroken i.tags) (items floats (Cycle.collect ar turn.probes a.sys).0)
      → All (λ s. NoBreaks s.container.name) (samples_of turn.engine a.docker)
      → ReadsAs (collect_batch ar build turn up a).0.enc.buf (lines_of_batch turn (integer up) a)
  unfolding collect_batch reset run
  collect_batch-reads turn up a laws b tagged named =
      let snap = (Cycle.collect ar turn.probes a.sys).0 in
      let e = encode_agent ar build (Snapshot.encode floats (reset a.enc) snap) snap.time up in
      subst (λ (enc : Encoder). ReadsAs enc.buf (lines_of_batch turn (integer up) a))
        (sym (collect_docker-enc turn.engine snap.time e a.docker))
        (parts-reads (reset a.enc) snap (samples_of turn.engine a.docker) up laws refl b tagged
          named)
