-- ===== src/Docker/Replies.antt =====
-- Which replies of the container engine count as an answer.
use observant_agent.Base.{
  ◌*◌, ◌^◌, ◌++◌, Option, none, some, ◌≡◌, refl, ◌↔◌, ap, ◌==◌, ==_iff, inl, inr, Bool-cases, take,
}
use observant_agent.Base.Text.{Bytes, codes}
use observant_agent.Docker.Collect.{Answer, got}
use observant_agent.Docker.Http.{Reply, reply, no_reply, Http, read_reply, get_json}

-- The engine replied to the path with status 200 and a body whose first 8 MiB decode to `a`.
pub record Replied {A : Type 0} (http : Http) (decode : Bytes → Answer A) (path : Bytes) (a : A)
    : Type 0 where
  pub body : Bytes
  pub well_formed : http.bad_request (codes "http://unix" ++ path) ≡ none
  pub replied : http.do_get (codes "http://unix" ++ path) ≡ reply 200 body
  pub decoded : decode (take (8 * 2 ^ 20) body) ≡ got a

module _ {A : Type 0} (http : Http) (decode : Bytes → Answer A) (path : Bytes) where
  read_reply-got :
      (a : A) (r : Reply)
      → read_reply decode path r ≡ got a
      → (body : Bytes) × (r ≡ reply 200 body) × (decode (take (8 * 2 ^ 20) body) ≡ got a)
  unfolding read_reply
  read_reply-got a (no_reply msg) h = cc
  read_reply-got a (reply status body) h = elim (Bool-cases (status == 200)) [
    | inl fine ↦ (body, ap (λ n. reply n body) ((==_iff status 200).0 fine), rw fine at h)
    | inr other ↦ let no = rw other at h in cc
  ]

  get_json-Replied :
      (a : A) (bad : Option Bytes)
      → http.bad_request (codes "http://unix" ++ path) ≡ bad
      → get_json http decode path ≡ got a
      → Replied http decode path a
  unfolding get_json
  get_json-Replied a (some msg) e h = let no = rw (e, get_json) at h in cc
  get_json-Replied a none e h =
      let (body, replied, decoded) = read_reply-got a _ (rw (e, get_json) at h) in
      record { body = body; well_formed = e; replied = replied; decoded = decoded }

  -- `getJSON` gives an answer exactly where the request is well-formed, the engine replies with status
  -- 200, and what the first 8 MiB of the body decode to is the answer.
  pub get_json_iff : (a : A) → (get_json http decode path ≡ got a) ↔ Replied http decode path a
  unfolding get_json read_reply
  get_json_iff a = (
    get_json-Replied a (http.bad_request (codes "http://unix" ++ path)) refl,
    λ r. rw (r.well_formed, r.replied, get_json) r.decoded,
  )
