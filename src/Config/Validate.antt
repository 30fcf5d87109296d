-- ===== src/Config/Validate.antt =====
-- internal/config/config.go: `Validate`.
use mathlib.Core.List.{append-nil}
use observant_agent.Base.{
  true, false, not, ◌&&◌, ◌||◌, List, [], ◌∷◌, ◌++◌, if◌then◌else◌, is_empty, ◌≡◌, ◌≢◌, refl, ◌↔◌,
  arith, inl, inr, Bool-cases,
}
use observant_agent.Base.Results.{Result, ok, err}
use observant_agent.Base.Text.{Bytes, codes, bytes_eq}
use observant_agent.Config.Settings.{Config, System, Url}

append_one-ne-nil : (es : List Bytes) (e : Bytes) → es ++ (e ∷ []) ≢ []
append_one-ne-nil [] e h = cc
append_one-ne-nil (x ∷ es) e h = cc

module _ (sys : System) where
  open sys use {parse_url, quote}

  -- The switch over the parsed URL.
  unfoldable pub url_errors : Bytes → Result Bytes Url → List Bytes
  url_errors url (err msg) = (codes "bad ingest URL " ++ (quote url ++ (codes ": " ++ msg))) ∷ []
  url_errors url (ok u) =
      if not (bytes_eq u.scheme (codes "http")) && not (bytes_eq u.scheme (codes "https"))
      then (codes "ingest URL " ++ (quote url ++ codes " needs the http or https scheme")) ∷ []
      else if is_empty u.host
      then (codes "ingest URL " ++ (quote url ++ codes " has no host")) ∷ []
      else []

  -- The errors that are joined; there is no error where the list is empty.
  unfoldable pub validate : Config → List Bytes
  unfolding url_errors
  validate c =
      (if is_empty c.url
        then codes "no ingest URL: set -url or OBSERVANT_URL" ∷ []
        else url_errors c.url (parse_url c.url))
      ++ (if is_empty c.token then codes "no token: set -token or OBSERVANT_TOKEN" ∷ [] else [])

  -- An absolute http or https URL with a host.
  abbrev pub IsWebUrl : Result Bytes Url → Type 0
  IsWebUrl (err msg) = ⊥
  IsWebUrl (ok u) =
      ((bytes_eq u.scheme (codes "http") || bytes_eq u.scheme (codes "https")) ≡ true)
      × (is_empty u.host ≡ false)

  url_errors_iff : (url : Bytes) (r : Result Bytes Url) → (url_errors url r ≡ []) ↔ IsWebUrl r
  unfolding url_errors
  url_errors_iff url (err msg) = ((λ e. cc), λ none. absurd none)
  url_errors_iff url (ok u) = ground arith

  -- `Validate` reports no error exactly where there is a token and an http or https URL with a host.
  pub validate_iff :
      (c : Config)
      → (validate c ≡ [])
        ↔ ((is_empty c.url ≡ false) × IsWebUrl (parse_url c.url) × (is_empty c.token ≡ false))
  unfolding validate
  validate_iff c =
      let (to, from) = url_errors_iff c.url (parse_url c.url) in
      elim (Bool-cases (is_empty c.url)) [
        | inl missing ↦ rw missing ((λ e. cc), λ (h, web, t). cc)
        | inr given ↦ elim (Bool-cases (is_empty c.token)) [
          | inl missing ↦
              rw (given, missing) ((λ e. absurd (append_one-ne-nil _ _ e)), λ (h, web, t). cc)
          | inr there ↦
              rw (given, there, append-nil) ((λ e. (refl, to e, refl)), λ (h, web, t). from web)
        ]
      ]
