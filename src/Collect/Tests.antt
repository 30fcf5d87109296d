-- ===== src/Collect/Tests.antt =====
-- Runs of the filters and of the snapshot's encoder.
use observant_agent.Base.{
  List, ◌≤◌, ◌+◌, ◌==◌, ℕ, true, false, [], ◌∷◌, ◌++◌, none, some, ◌≡◌, refl, ◌⊎◌, ◌↔◌, arith,
}
use observant_agent.Base.Text.{Bytes, codes, bytes_eq, has_prefix, to_lower}
use observant_agent.Base.Trim.{trim_space}
use observant_agent.Collect.Filters.{
  skip_fstype, skip_mount, skip_mount_prefixes, skip_interface, skip_iface_prefixes,
  skip_iface_any_prefixes,
}
use observant_agent.Base.Dict.{lookup}
use observant_agent.Collect.Inflight
use observant_agent.Collect.Inflight.{Event, called, returned, no_calls, count, begin, run-one_call}
use observant_agent.Collect.Deadline.{timeout}
use observant_agent.Collect.Note.{Notes, note, note_timeouts, timeout_text, note_timeouts_lem}
use observant_agent.Collect.Documented.{snapshot_lines}
use observant_agent.Collect.Lines.{encode-reads}
use observant_agent.Collect.Metrics.{Snapshot}
use observant_agent.Collect.Skips.{
  Some, Numbered, StartsWith, Within, skip_interface_iff, skip_mount_iff,
}
use observant_agent.Collect.Snapshot.{encode}
use observant_agent.Lineproto.Encoder.{new}
use observant_agent.Lineproto.Reader.{ReadsAs, run}
use observant_agent.Lineproto.Tests.{whole, whole-FormatsNumbers, base_tags, epoch_second}

abbrev snapshot : Snapshot ℕ
snapshot = record {
  time = epoch_second;
  cpu = none;
  load = some (record { load1 = 1; load5 = 0; load15 = 3 });
  mem = none;
  disks =
      record {
        mount = codes "/srv data";
        device = codes "sda1";
        fstype = codes "ext4";
        total = 10;
        used = 4;
        free = 6;
        used_percent = 40;
        inodes_total = 8;
        inodes_used = 2;
        inodes_free = 6;
        inodes_used_percent = 25;
      }
      ∷ [];
  disk_io = [];
  nets =
      record {
        interface = codes "eth0";
        rx_bytes = 1;
        tx_bytes = 2;
        rx_packets = 3;
        tx_packets = 4;
        rx_errs = 0;
        tx_errs = 0;
        rx_drops = 0;
        tx_drops = 0;
      }
      ∷ [];
  host = some (record {
    uptime = 5;
    boot_time = 6;
    procs = 7;
    os = codes "linux";
    platform = codes "debian";
    platform_version = codes "12";
    kernel = codes "6.1";
    arch = codes "x86_64";
    virtualization = [];
  });
  errs = codes "cpu: timeout" ∷ [];
}

encode-reads_example :
    ReadsAs
      (encode whole (new base_tags) snapshot).buf
      ([] ++ snapshot_lines whole base_tags snapshot)
unfolding new run
encode-reads_example =
    encode-reads whole (new base_tags) snapshot [] whole-FormatsNumbers refl (ground arith)
      (ground arith)

skip_fstype_runs : skip_fstype (codes " TmpFS\n") ≡ true
unfolding skip_fstype to_lower trim_space bytes_eq
skip_fstype_runs = refl

lo0_runs : skip_interface (codes "lo0") ≡ true
unfolding skip_interface bytes_eq has_prefix
lo0_runs = refl

lora_runs : skip_interface (codes "lora") ≡ false
unfolding skip_interface bytes_eq has_prefix
lora_runs = refl

skip_interface_iff_example : (skip_interface (codes "utun3") ≡ true) ↔ (
    (codes "utun3" ≡ [])
    ⊎ (Some (Numbered (codes "utun3")) skip_iface_prefixes
        ⊎ Some (StartsWith (codes "utun3")) skip_iface_any_prefixes))
skip_interface_iff_example = skip_interface_iff (codes "utun3")

skip_mount_iff_example :
    (skip_mount (λ s. s) (codes "/run/user") ≡ true)
    ↔ ((codes "/run/user" ≡ []) ⊎ Some (Within (codes "/run/user")) skip_mount_prefixes)
skip_mount_iff_example = skip_mount_iff (λ s. s) (codes "/run/user")

abbrev busy : List Event
busy =
    called (codes "cpu") ∷ called (codes "cpu") ∷ called (codes "net") ∷ returned (codes "cpu") ∷ []

run-one_call_example :
    let s = Inflight.run no_calls busy in
    (count (codes "cpu") s.running ≤ 1)
    × ((begin s.inflight (codes "cpu")).0 ≡ (count (codes "cpu") s.running == 0))
run-one_call_example = run-one_call busy (codes "cpu")

abbrev noted : Notes
noted = record { timeout_at = (codes "cpu", 5) ∷ []; errs = [] }

note_timeouts_lem_example :
    let after =
      note_timeouts noted
        (codes "disk")
        ((epoch_second, codes "timed out") ∷ (epoch_second + 60, codes "late") ∷ []) in
    (after.errs ≡ [] ++ timeout_text (codes "disk") (codes "timed out") ∷ [])
    × ((later : ℕ) (again : Bytes)
        → (note
            (note after later (codes "disk") none)
            later
            (codes "disk")
            (some (timeout again))).errs
          ≡ after.errs ++ timeout_text (codes "disk") again ∷ [])
unfolding lookup bytes_eq
note_timeouts_lem_example =
    note_timeouts_lem noted (codes "disk") (codes "timed out") epoch_second
      ((epoch_second + 60, codes "late") ∷ []) refl (ground arith)
