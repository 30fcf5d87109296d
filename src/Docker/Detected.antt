-- ===== src/Docker/Detected.antt =====
-- Which socket `Detect` opens.
use observant_agent.Base.{
  Bool, true, false, ◌&&◌, List, [], ◌∷◌, ◌++◌, Option, none, some, ◌≡◌, refl, sym, ap, ◌∙◌, inl,
  inr, Bool-cases, is_empty, All, if◌then◌else◌,
}
use observant_agent.Base.Text.{Bytes, codes, bytes_eq}
use observant_agent.Docker.Collect.{Answer, got, failed}
use observant_agent.Docker.Detect.{
  Version, Machine, candidate_sockets, runtime_name, is_slow, major_version, probed, probe, or_next,
  try_paths, detect,
}
use observant_agent.Docker.Restart.{Client, new_client}

module _ (machine : Machine) where
  open machine use {is_socket, version_at}

  abbrev pub answers : Answer Version → Bool
  answers (got v) = true
  answers (failed msg) = false

  -- There is a socket at the path, and it answers.
  abbrev pub is_usable : Bytes → Bool
  is_usable p = is_socket p && answers (version_at p)

  -- The client is the new one of its socket, with the runtime that answered, and with one request at
  -- a time for a docker before 25.
  pub record Sized (c : Client) (v : Version) : Type 0 where
    pub named : c.runtime ≡ runtime_name v.components ++ (b' ' ∷ v.version)
    pub sized : c.batch ≡ (
        if bytes_eq (runtime_name v.components) (codes "docker")
          && is_slow (major_version machine v.version)
        then 1
        else (new_client c.socket).batch)

  -- The first path that is usable has been opened, or no path is usable.
  abbrev pub Chosen : List Bytes → Option Client → Type 0
  Chosen paths none = All (λ p. is_usable p ≡ false) paths
  Chosen paths (some c) =
      (before : List Bytes) × (after : List Bytes) × (v : Version) × (paths
        ≡ before ++ (c.socket ∷ after))
      × All (λ p. is_usable p ≡ false) before
      × (is_socket c.socket ≡ true)
      × (version_at c.socket ≡ got v)
      × Sized c v

  -- What a probe of a new client comes to.
  abbrev pub Probed : Bytes → Answer Version → Answer Client → Type 0
  Probed p a (failed msg) = answers a ≡ false
  Probed p a (got c) = (v : Version) × (c.socket ≡ p) × (a ≡ got v) × Sized c v

  probed-Probed : (p : Bytes) (a : Answer Version) → Probed p a (probed machine (new_client p) a)
  unfolding probed new_client
  probed-Probed p (failed msg) = refl
  probed-Probed p (got v) = (v, refl, refl, record { named = refl; sized = refl })

  Chosen-later :
      (p : Bytes) (ps : List Bytes) (r : Option Client)
      → is_usable p ≡ false
      → Chosen ps r
      → Chosen (p ∷ ps) r
  Chosen-later p ps none u h = (u, h)
  Chosen-later p ps (some c) u (before, after, v, split, unusable, open_there, answer, sized) =
      (p ∷ before, after, v, ap (λ l. p ∷ l) split, (u, unusable), open_there, answer, sized)

  Chosen-here :
      (p : Bytes) (ps : List Bytes) (a : Answer Version) (r : Answer Client) (next : Option Client)
      → version_at p ≡ a
      → is_socket p ≡ true
      → Probed p a r
      → Chosen ps next
      → Chosen (p ∷ ps) (or_next machine r next)
  Chosen-here p ps a (failed msg) next e s h k = Chosen-later p ps next (rw (s, e) h) k
  Chosen-here p ps a (got c) next e s (v, same, answer, sized) k =
      ([], ps, v, ap (λ q. q ∷ ps) (sym same), tt, rw same s, rw same (e ∙ answer), sized)

  try_paths-Chosen : (paths : List Bytes) → Chosen paths (try_paths machine paths)
  unfolding try_paths probe new_client
  try_paths-Chosen [] = tt
  try_paths-Chosen (p ∷ ps) = elim (Bool-cases (is_socket p)) [
    | inl socket ↦ rw socket (
        Chosen-here p ps (version_at p) (probed machine (new_client p) (version_at p))
          (try_paths machine ps) refl socket (probed-Probed p (version_at p)) (try_paths-Chosen ps))
    | inr missing ↦
        rw missing
          (Chosen-later p ps (try_paths machine ps) (rw missing refl) (try_paths-Chosen ps))
  ]

  -- `Detect` opens the first path with a socket that answers, of the given path alone or of the
  -- candidates, and finds none exactly where there is none. The client carries the name and the
  -- version that answered, and makes one request at a time for a docker of major version 1 to 24.
  pub detect-Chosen :
      (socket : Bytes)
      → Chosen
          (if is_empty socket then candidate_sockets machine else socket ∷ [])
          (detect machine socket)
  unfolding detect
  detect-Chosen socket = try_paths-Chosen _
