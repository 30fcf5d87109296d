-- ===== src/Docker/Detect.antt =====
-- internal/docker/docker.go: `candidateSockets`, `Detect`, `probe` and `majorVersion`.
use observant_agent.Base.{
  Bool, false, ◌&&◌, ◌||◌, List, [], ◌∷◌, ◌++◌, Option, none, some, ltb, ◌==◌, if◌then◌else◌,
  is_empty, any, length, drop,
}
use observant_agent.Base.Decimal.{ℤ, pos, negsuc}
use observant_agent.Base.Text.{Bytes, codes, bytes_eq, has_prefix, to_lower}
use observant_agent.Docker.Collect.{Answer, got, failed}
use observant_agent.Docker.Restart.{Client, new_client}

-- `versionResponse`; a component is its name.
pub record Version : Type 0 where
  pub version : Bytes
  pub components : List Bytes

-- `os.Getenv`, whether `os.Stat` finds a socket at a path, `GET /version` on a socket,
-- `strconv.Atoi`, and `filepath.Join`.
pub record Machine : Type 0 where
  pub getenv : Bytes → Bytes
  pub is_socket : Bytes → Bool
  pub version_at : Bytes → Answer Version
  pub atoi : Bytes → Option ℤ
  pub join_path : List Bytes → Bytes

-- `strings.Contains(s, part)`.
unfoldable pub contains : Bytes → Bytes → Bool
contains [] part = has_prefix [] part
contains (c ∷ s) part = has_prefix (c ∷ s) part || contains s part

-- The text in front of the first dot.
abbrev pub before_dot : Bytes → Bytes
before_dot [] = []
before_dot (c ∷ s) = if c == b'.' then [] else c ∷ before_dot s

-- The last component that is a podman names the runtime, otherwise it is docker.
unfoldable pub runtime_name : List Bytes → Bytes
unfolding contains
runtime_name components =
    if any (λ name. contains (to_lower name) (codes "podman")) components
    then codes "podman"
    else codes "docker"

-- `0 < n && n < 25`.
abbrev pub is_slow : ℤ → Bool
is_slow (pos n) = ltb 0 n && ltb n 25
is_slow (negsuc n) = false

module _ (machine : Machine) where
  open machine use {getenv, is_socket, version_at, atoi, join_path}

  unfoldable pub candidate_sockets : List Bytes
  candidate_sockets =
      let h = getenv (codes "DOCKER_HOST") in
      let x = getenv (codes "XDG_RUNTIME_DIR") in
      (if has_prefix h (codes "unix://") then drop (length (codes "unix://")) h ∷ [] else [])
      ++ ((codes "/var/run/docker.sock"
            ∷ codes "/run/docker.sock"
            ∷ codes "/run/podman/podman.sock"
            ∷ codes "/var/run/podman/podman.sock"
            ∷ [])
          ++ (if is_empty x
              then []
              else join_path (x ∷ codes "podman" ∷ codes "podman.sock" ∷ [])
                ∷ join_path (x ∷ codes "docker.sock" ∷ [])
                ∷ []))

  -- 0 where the text in front of the dot is no number.
  unfoldable pub major_version : Bytes → ℤ
  major_version s = elim (atoi (before_dot s)) [ some n ↦ n | none ↦ pos 0 ]

  -- `probe`: the client with the runtime and the size of its batches, or the error.
  unfoldable pub probed : Client → Answer Version → Answer Client
  unfolding runtime_name major_version
  probed c (failed msg) = failed msg
  probed c (got v) =
      let name = runtime_name v.components in
      got (record c {
        runtime = name ++ (b' ' ∷ v.version);
        batch =
            if bytes_eq name (codes "docker") && is_slow (major_version v.version)
            then 1
            else c.batch;
      })

  unfoldable pub probe : Client → Answer Client
  unfolding probed
  probe c = probed c (version_at c.socket)

  abbrev pub or_next : Answer Client → Option Client → Option Client
  or_next (got c) next = some c
  or_next (failed msg) next = next

  -- The loop over the paths; `none` is `ErrNoSocket`.
  unfoldable pub try_paths : List Bytes → Option Client
  unfolding probe
  try_paths [] = none
  try_paths (p ∷ ps) =
      let rest = try_paths ps in if is_socket p then or_next (probe (new_client p)) rest else rest

  unfoldable pub detect : Bytes → Option Client
  unfolding candidate_sockets try_paths
  detect socket = try_paths (if is_empty socket then candidate_sockets else socket ∷ [])
