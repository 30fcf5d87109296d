-- ===== src/Collect/Sections.antt =====
-- The sections of a snapshot, each as if it were read alone.
use observant_agent.Base.{false, ◌≡◌, refl, sym, ap, ◌∙◌}
use observant_agent.Base.Results.{Result, ok, err}
use observant_agent.Base.Text.{Bytes, codes, bytes_eq}
use observant_agent.Collect.Cycle.{value_of, items_of, collect}
use observant_agent.Collect.Deadline.{Problem, deadline}
use observant_agent.Collect.Disks.{collect_disks}
use observant_agent.Collect.Inflight.{in_flight}
use observant_agent.Collect.Isolation.{
  deadline-same, deadline-other, collect_cpu-other, four_sections-other,
}
use observant_agent.Collect.Probes.{VirtualMemory, Probes}
use observant_agent.Collect.Readers.{
  Collector, collect_cpu, collect_load, mem_from, collect_mem, collect_disk_io, collect_net,
  collect_host,
}
use observant_agent.Docker.Sample.{Arith}

module _ (ar : Arith) (probes : Probes ar.floats.Float) where
  open ar use {floats}
  open floats use {Float}

  load-same :
      (c d : Collector Float)
      → in_flight (codes "load") c.inflight ≡ in_flight (codes "load") d.inflight
      → (collect_load ar probes c).0 ≡ (collect_load ar probes d).0
  unfolding collect_load
  load-same c d h =
      deadline-same c.inflight d.inflight (codes "load") (codes "5s") probes.load_avg h

  mem_from-same :
      (c d : Collector Float) (r : Result Problem (VirtualMemory Float))
      → in_flight (codes "mem.swap") c.inflight ≡ in_flight (codes "mem.swap") d.inflight
      → (mem_from ar probes c r).0 ≡ (mem_from ar probes d r).0
  unfolding mem_from
  mem_from-same c d (err p) h = refl
  mem_from-same c d (ok v) h =
      rw (deadline-same c.inflight d.inflight (codes "mem.swap") (codes "5s") probes.swap_memory h)
        refl

  mem-same :
      (c d : Collector Float)
      → in_flight (codes "mem") c.inflight ≡ in_flight (codes "mem") d.inflight
      → in_flight (codes "mem.swap") c.inflight ≡ in_flight (codes "mem.swap") d.inflight
      → (collect_mem ar probes c).0 ≡ (collect_mem ar probes d).0
  unfolding collect_mem bytes_eq
  mem-same c d h k =
      let (r, f) = deadline c.inflight (codes "mem") (codes "5s") probes.virtual_memory in
      let (s, g) = deadline d.inflight (codes "mem") (codes "5s") probes.virtual_memory in
      let swap_c =
        deadline-other c.inflight (codes "mem") (codes "mem.swap") (codes "5s")
          probes.virtual_memory refl in
      let swap_d =
        deadline-other d.inflight (codes "mem") (codes "mem.swap") (codes "5s")
          probes.virtual_memory refl in
      mem_from-same (record c { inflight = f }) (record d { inflight = g }) r
        (swap_c ∙ k ∙ sym swap_d)
      ∙ ap (λ x. (mem_from ar probes (record d { inflight = g }) x).0)
          (deadline-same c.inflight d.inflight (codes "mem") (codes "5s") probes.virtual_memory h)

  disk_io-same :
      (c d : Collector Float)
      → in_flight (codes "diskio") c.inflight ≡ in_flight (codes "diskio") d.inflight
      → (collect_disk_io ar probes c).0 ≡ (collect_disk_io ar probes d).0
  unfolding collect_disk_io
  disk_io-same c d h =
      rw (deadline-same c.inflight d.inflight (codes "diskio") (codes "5s") probes.io_counters h)
        refl

  net-same :
      (c d : Collector Float)
      → in_flight (codes "net") c.inflight ≡ in_flight (codes "net") d.inflight
      → (collect_net ar probes c).0 ≡ (collect_net ar probes d).0
  unfolding collect_net
  net-same c d h =
      rw (deadline-same c.inflight d.inflight (codes "net") (codes "5s") probes.net_counters h) refl

  host-same :
      (c d : Collector Float)
      → in_flight (codes "host") c.inflight ≡ in_flight (codes "host") d.inflight
      → (collect_host ar probes c).0 ≡ (collect_host ar probes d).0
  unfolding collect_host
  host-same c d h =
      deadline-same c.inflight d.inflight (codes "host") (codes "5s") probes.host_info h

  two_first :
      (other : Bytes) (c : Collector Float)
      → bytes_eq (codes "cpu") other ≡ false
      → bytes_eq (codes "cpu.counts") other ≡ false
      → bytes_eq (codes "load") other ≡ false
      → let c1 = (collect_cpu ar probes c).1 in
        in_flight other (collect_load ar probes c1).1.inflight ≡ in_flight other c.inflight
  unfolding collect_load
  two_first other c h k l =
      let c1 = (collect_cpu ar probes c).1 in
      deadline-other c1.inflight (codes "load") other (codes "5s") probes.load_avg l
      ∙ collect_cpu-other ar probes other c h k

  -- Two more calls leave the flag of a third.
  two_sections-other :
      (c : Collector Float) (other : Bytes)
      → bytes_eq (codes "diskio") other ≡ false
      → bytes_eq (codes "net") other ≡ false
      → let c1 = (collect_disk_io ar probes c).1 in
        in_flight other (collect_net ar probes c1).1.inflight ≡ in_flight other c.inflight
  unfolding collect_disk_io collect_net
  two_sections-other c other h k =
      let c1 = (collect_disk_io ar probes c).1 in
      deadline-other c1.inflight (codes "net") other (codes "5s") probes.net_counters k
      ∙ deadline-other c.inflight (codes "diskio") other (codes "5s") probes.io_counters h

  -- In a snapshot of `Collect` the processor, the load, the memory, the block devices, the
  -- interfaces and the host are what their readers return when each starts from the collector as the
  -- cycle found it: whatever the other calls do, a call that fails or does not answer in time costs
  -- its own section only.
  pub collect-sections :
      (c : Collector Float)
      → let s = (collect ar probes c).0 in
        (s.cpu ≡ value_of (collect_cpu ar probes c).0)
        × (s.load ≡ value_of (collect_load ar probes c).0)
        × (s.mem ≡ value_of (collect_mem ar probes c).0)
        × (s.disk_io ≡ items_of (collect_disk_io ar probes c).0)
        × (s.nets ≡ items_of (collect_net ar probes c).0)
        × (s.host ≡ value_of (collect_host ar probes c).0)
  unfolding collect bytes_eq
  collect-sections c =
      let c1 = (collect_cpu ar probes c).1 in
      let c2 = (collect_load ar probes c1).1 in
      let c3 = (collect_mem ar probes c2).1 in
      let c4 = (collect_disks ar probes c3).1 in
      let c5 = (collect_disk_io ar probes c4).1 in
      let c6 = (collect_net ar probes c5).1 in
      let io =
        four_sections-other ar probes (codes "diskio") c (λ m. refl) refl refl refl refl refl
          refl in
      let net =
        four_sections-other ar probes (codes "net") c (λ m. refl) refl refl refl refl refl refl in
      let host =
        four_sections-other ar probes (codes "host") c (λ m. refl) refl refl refl refl refl refl in
      (
        refl,
        ap value_of (load-same c1 c (collect_cpu-other ar probes (codes "load") c refl refl)),
        ap value_of (
            mem-same c2 c (two_first (codes "mem") c refl refl refl)
              (two_first (codes "mem.swap") c refl refl refl)),
        ap items_of (disk_io-same c4 c io),
        ap items_of (
            net-same c5 c (
              deadline-other c4.inflight (codes "diskio") (codes "net") (codes "5s")
                probes.io_counters refl
              ∙ net)),
        ap value_of (host-same c6 c (two_sections-other c4 (codes "host") refl refl ∙ host)),
      )
