-- ===== src/P2p/Datagrams/Tests.antt =====
-- Tests of the serving of datagrams at concrete inputs.
use candi_plugin.Base.{◌+◌, ◌≤◌, ◌≡◌, refl, [], ◌∷◌, none, arith, All, length, take}
use candi_plugin.Go.Text.{codes}
use candi_plugin.Go.Outcome.{ok}
use candi_plugin.P2p.Types.{default_option, ServerOption, apply_options, acquire}
use candi_plugin.P2p.Chunks.{Conn}
use candi_plugin.P2p.Server.{
  Server, new_p2p_udp, mount_modules, slice, read_from_udp, udp_goroutine,
}
use candi_plugin.P2p.Server.Calm.{count, is_acquire, is_release, is_close}
use candi_plugin.P2p.Datagrams.{
  Job, listening, State, begin, read_datagram, receive, spawn, Reach, here, next, Run, Step,
}
use candi_plugin.P2p.Datagrams.Slices.{serve_udp-shared}
use candi_plugin.P2p.Datagrams.Overwritten.{serve_udp-overwritten}

abbrev line : Conn
line = record { write = λ log. (3, none); close_write = λ log. none }

abbrev small : ServerOption
small o = record o { buffer_size = 5; max_concurrent_client = 2 }

abbrev server : Server
unfolding default_option
server = record { option = small default_option; handlers = []; semaphore = 2 }

built : new_p2p_udp none none [] (small ∷ []) ≡ ok server
unfolding new_p2p_udp apply_options default_option mount_modules server
built = refl

abbrev first_read : State
first_read = read_datagram (codes "a:1") (begin server)

abbrev first_job : Job
unfolding read_from_udp server
first_job = record { size = 3; datagram = codes "a:1"; reads = 1 }

abbrev first_spawned : State
first_spawned = record first_read {
  phase = listening;
  taken = 1;
  jobs = first_job ∷ [];
  log = acquire ∷ [];
}

abbrev second_read : State
second_read = read_datagram (codes "b:22-and-more") first_spawned

abbrev second_job : Job
second_job = record { size = 5; datagram = codes "b:22-and-more"; reads = 2 }

abbrev busy : State
busy = record second_read {
  phase = listening;
  taken = 2;
  jobs = second_job ∷ first_job ∷ [];
  log = acquire ∷ acquire ∷ [];
}

busy_reached : Reach server line (begin server) busy
unfolding server read_from_udp
busy_reached =
    next
      (next
        (next (next here (receive (codes "a:1") refl refl)) (spawn first_job refl (omega arith)))
        (receive (codes "b:22-and-more") refl refl))
      (spawn second_job refl (omega arith))

serve_udp-shared_example :
    (length busy.jobs ≤ server.option.max_concurrent_client)
    × (count is_acquire busy.log ≡ count is_release busy.log + length busy.jobs)
    × (count is_close busy.log ≡ 0)
    × (length busy.buffer ≡ server.option.buffer_size)
    × All
        (λ job.
          job.reads ≡ busy.reads
          → slice job.size busy.buffer ≡ take server.option.buffer_size job.datagram)
        busy.jobs
    × ((u : State) × Run server line busy u
        × (u.jobs ≡ [])
        × (u.taken ≡ 0)
        × (count is_acquire u.log ≡ count is_release u.log))
serve_udp-shared_example = serve_udp-shared [] (small ∷ []) server line busy built busy_reached

first_reached : Reach server line (begin server) first_spawned
unfolding server read_from_udp
first_reached =
    next (next here (receive (codes "a:1") refl refl)) (spawn first_job refl (omega arith))

serve_udp-overwritten_example :
    (u : State) × Reach server line second_read u
    × Step server line first_spawned second_read
    × (u.jobs ≡ [])
    × (u.log ≡ (udp_goroutine server line (codes "b:2") (acquire ∷ [])).1)
unfolding server first_job
serve_udp-overwritten_example =
    serve_udp-overwritten [] (small ∷ []) server line first_spawned first_job [] []
      (codes "b:22-and-more") built first_reached refl refl refl (omega arith)
