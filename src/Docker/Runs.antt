-- ===== src/Docker/Runs.antt =====
-- Runs of the concurrent tasks and of the calls of the engine, and the theorems at concrete inputs.
use observant_agent.Base.{ℕ, true, false, List, [], ◌∷◌, map, none, ◌≡◌, refl, ◌↔◌, arith}
use observant_agent.Base.Text.{codes, bytes_eq}
use observant_agent.Docker.Collect.{got, container_of, run_tasks}
use observant_agent.Docker.Http.{Http, reply, get_json}
use observant_agent.Docker.Interleave.{interleaved}
use observant_agent.Docker.Local.{SameAt}
use observant_agent.Docker.Replies.{Replied, get_json_iff}
use observant_agent.Docker.Tasks.{Task, done, waiting, interleave}
use observant_agent.Docker.Tests.{whole_arith, engine, client, listed}

abbrev tasks : List Task
tasks =
    (container_of (listed (codes "web") (codes "running")), true)
    ∷ (container_of (listed (codes "db") (codes "running")), false)
    ∷ []

-- The second task starts first, and ends last.
abbrev order : List ℕ
order = 1 ∷ 0 ∷ 0 ∷ 1 ∷ 0 ∷ 1 ∷ []

interleaved_example :
    let (d, ss) = interleave whole_arith engine 13 order client tasks (map (λ t. waiting) tasks) in
    let (e, rs) = run_tasks whole_arith engine client 13 tasks in
    (ss ≡ map done rs) × SameAt (codes "web") e d
unfolding container_of bytes_eq
interleaved_example =
    interleaved whole_arith engine 13 client tasks order (codes "web") ((refl, tt), (tt, tt))
      (omega arith)

-- Every request is answered with "7", and a text decodes to itself.
abbrev http : Http
http = record { bad_request = λ url. none; do_get = λ url. reply 200 (codes "7") }

get_json_accepts :
    (get_json http got (codes "/version") ≡ got (codes "7"))
    ↔ Replied http got (codes "/version") (codes "7")
get_json_accepts = get_json_iff http got (codes "/version") (codes "7")

get_json_runs : get_json http got (codes "/version") ≡ got (codes "7")
get_json_runs =
    get_json_accepts.1
      (record { body = codes "7"; well_formed = refl; replied = refl; decoded = refl })
