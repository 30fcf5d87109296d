-- ===== src/Docker/Http.antt =====
-- internal/docker/docker.go: `getJSON`, and the engine that it reaches.
use observant_agent.Base.{ℕ, ◌*◌, ◌^◌, List, ◌++◌, Option, none, some, ◌==◌, if◌then◌else◌, take}
use observant_agent.Base.Clock.{Time}
use observant_agent.Base.Decimal.{format_uint}
use observant_agent.Base.Text.{Bytes, codes}
use observant_agent.Base.Trim.{trim_space}
use observant_agent.Docker.Collect.{Answer, failed, ContainerJson, InspectJson, Engine}
use observant_agent.Docker.Restart.{Container}
use observant_agent.Docker.Sample.{StatsJson}

-- `c.http.Do`: the status and what can be read of the body, or an error's text.
pub data Reply : Type 0 where
  reply : ℕ → Bytes → Reply
  no_reply : Bytes → Reply

-- The HTTP client on a socket: the error of `NewRequestWithContext` for a URL, and the reply to it.
pub record Http : Type 0 where
  pub bad_request : Bytes → Option Bytes
  pub do_get : Bytes → Reply

-- `decode` is the JSON decoder for the type that is asked for.
unfoldable pub read_reply : {A : Type 0} → (Bytes → Answer A) → Bytes → Reply → Answer A
read_reply decode path (no_reply msg) = failed msg
read_reply decode path (reply status body) =
    if status == 200
    then decode (take (8 * 2 ^ 20) body)
    else failed (
        path
        ++ (codes ": http " ++ (format_uint status ++ (codes ": " ++ trim_space (take 512 body)))))

unfoldable pub get_json : {A : Type 0} → Http → (Bytes → Answer A) → Bytes → Answer A
unfolding read_reply
get_json http decode path =
    let url = codes "http://unix" ++ path in
    elim (http.bad_request url) [
      | some msg ↦ failed msg
      | none ↦ read_reply decode path (http.do_get url)
    ]

-- The JSON decoder for the three answers that `Collect` asks for.
pub record Decoder : Type 0 where
  pub containers : Bytes → Answer (List ContainerJson)
  pub stats : Bytes → Answer StatsJson
  pub inspect : Bytes → Answer InspectJson

-- The engine behind the socket, by the paths of `Containers`, `stats`, `restartCount` and `stopped`.
unfoldable pub engine_of :
    Http
    → Decoder
    → (Bytes → Time)
    → (Bytes → Option Time)
    → (List Container → List Container)
    → Engine
unfolding get_json
engine_of http decoder now parse_time recent_first = record {
  listing = get_json http decoder.containers (codes "/containers/json?all=true");
  stats_of = λ id.
      get_json http decoder.stats
        (codes "/containers/" ++ (id ++ codes "/stats?stream=0&one-shot=1"));
  inspect_of = λ id. get_json http decoder.inspect (codes "/containers/" ++ (id ++ codes "/json"));
  now = now;
  parse_time = parse_time;
  recent_first = recent_first;
}
