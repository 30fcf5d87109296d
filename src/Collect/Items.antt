-- ===== src/Collect/Items.antt =====
-- The lines of a snapshot.
use observant_agent.Base.{List, [], ◌∷◌, ◌++◌, map, Option, none, some, ◌≡◌, refl, All}
use observant_agent.Base.Clock.{Time}
use observant_agent.Base.Text.{Bytes, codes}
use observant_agent.Collect.Metrics.{Cpu, Load, Mem, Disk, DiskIo, Net, Host, Snapshot}
use observant_agent.Collect.Snapshot.{
  cpu_tags, disk_tags, disk_io_tags, net_tags, host_tags, cpu_fields, load_fields, mem_fields,
  disk_fields, disk_io_fields, net_fields, host_fields, encode_cpu, encode_load, encode_mem,
  encode_disks, encode_disk_io, encode_nets, encode_host, encode,
}
use observant_agent.Lineproto.Encoder.{Encoder, point}
use observant_agent.Lineproto.Point.{Floats, Tag, Field}
use observant_agent.Lineproto.Reader.{Line}
use observant_agent.Lineproto.Reading.{NoBreaks}
use observant_agent.Lineproto.RoundTrip.{FieldUnbroken, written}

-- A measurement with its own tags and its fields.
pub record Item (F : Type 0) : Type 0 where
  pub name : Bytes
  pub tags : List Tag
  pub fields : List (Field F)

abbrev pub each : {A B : Type 0} → (A → B) → Option A → List B
each f none = []
each f (some a) = f a ∷ []

-- The name and the fields of an item hold no line break.
pub record ItemUnbroken {F : Type 0} (i : Item F) : Type 0 where
  pub name_unbroken : NoBreaks i.name
  pub fields_unbroken : All FieldUnbroken i.fields

module _ (fl : Floats) where
  open fl use {Float}

  abbrev pub add_all : Encoder → Time → List (Item Float) → Encoder
  add_all e ts [] = e
  add_all e ts (i ∷ is) = add_all (point fl e i.name i.tags i.fields ts) ts is

  add_all-append :
      (e : Encoder) (ts : Time) (is js : List (Item Float))
      → add_all e ts (is ++ js) ≡ add_all (add_all e ts is) ts js
  add_all-append e ts [] js = refl
  add_all-append e ts (i ∷ is) js = add_all-append (point fl e i.name i.tags i.fields ts) ts is js

  abbrev pub cpu_item : Cpu Float → Item Float
  cpu_item v = record { name = codes "obs_cpu"; tags = cpu_tags v.cores; fields = cpu_fields fl v }

  abbrev pub load_item : Load Float → Item Float
  load_item v = record { name = codes "obs_load"; tags = []; fields = load_fields fl v }

  abbrev pub mem_item : Mem Float → Item Float
  mem_item v = record { name = codes "obs_mem"; tags = []; fields = mem_fields fl v }

  abbrev pub disk_item : Disk Float → Item Float
  disk_item d = record { name = codes "obs_disk"; tags = disk_tags fl d; fields = disk_fields fl d }

  abbrev pub disk_io_item : DiskIo → Item Float
  disk_io_item d = record {
    name = codes "obs_diskio";
    tags = disk_io_tags fl d;
    fields = disk_io_fields fl d;
  }

  abbrev pub net_item : Net → Item Float
  net_item n = record { name = codes "obs_net"; tags = net_tags fl n; fields = net_fields fl n }

  abbrev pub host_item : Host → Item Float
  host_item v = record { name = codes "obs_host"; tags = host_tags fl v; fields = host_fields fl v }

  -- The points of a snapshot, in the order of its lines.
  abbrev pub items : Snapshot Float → List (Item Float)
  items s =
      each cpu_item s.cpu
      ++ (each load_item s.load
          ++ (each mem_item s.mem
              ++ (map disk_item s.disks
                  ++ (map disk_io_item s.disk_io
                      ++ (map net_item s.nets ++ each host_item s.host)))))

  encode_cpu-items :
      (e : Encoder) (ts : Time) (v : Option (Cpu Float))
      → encode_cpu fl e ts v ≡ add_all e ts (each cpu_item v)
  unfolding encode_cpu
  encode_cpu-items e ts none = refl
  encode_cpu-items e ts (some v) = refl

  encode_load-items :
      (e : Encoder) (ts : Time) (v : Option (Load Float))
      → encode_load fl e ts v ≡ add_all e ts (each load_item v)
  unfolding encode_load
  encode_load-items e ts none = refl
  encode_load-items e ts (some v) = refl

  encode_mem-items :
      (e : Encoder) (ts : Time) (v : Option (Mem Float))
      → encode_mem fl e ts v ≡ add_all e ts (each mem_item v)
  unfolding encode_mem
  encode_mem-items e ts none = refl
  encode_mem-items e ts (some v) = refl

  encode_host-items :
      (e : Encoder) (ts : Time) (v : Option Host)
      → encode_host fl e ts v ≡ add_all e ts (each host_item v)
  unfolding encode_host
  encode_host-items e ts none = refl
  encode_host-items e ts (some v) = refl

  encode_disks-items :
      (e : Encoder) (ts : Time) (vs : List (Disk Float))
      → encode_disks fl e ts vs ≡ add_all e ts (map disk_item vs)
  unfolding encode_disks
  encode_disks-items e ts [] = refl
  encode_disks-items e ts (v ∷ vs) =
      encode_disks-items (point fl e (codes "obs_disk") (disk_tags fl v) (disk_fields fl v) ts) ts
        vs

  encode_disk_io-items :
      (e : Encoder) (ts : Time) (vs : List DiskIo)
      → encode_disk_io fl e ts vs ≡ add_all e ts (map disk_io_item vs)
  unfolding encode_disk_io
  encode_disk_io-items e ts [] = refl
  encode_disk_io-items e ts (v ∷ vs) =
      encode_disk_io-items
        (point fl e (codes "obs_diskio") (disk_io_tags fl v) (disk_io_fields fl v) ts) ts vs

  encode_nets-items :
      (e : Encoder) (ts : Time) (vs : List Net)
      → encode_nets fl e ts vs ≡ add_all e ts (map net_item vs)
  unfolding encode_nets
  encode_nets-items e ts [] = refl
  encode_nets-items e ts (v ∷ vs) =
      encode_nets-items (point fl e (codes "obs_net") (net_tags fl v) (net_fields fl v) ts) ts vs

  pub encode-items : (e : Encoder) (s : Snapshot Float) → encode fl e s ≡ add_all e s.time (items s)
  unfolding encode
  encode-items e s = simp (
    add_all-append, encode_cpu-items, encode_load-items, encode_mem-items, encode_disks-items,
    encode_disk_io-items, encode_nets-items, encode_host-items,
  )

  abbrev pub lines_of : List Tag → Time → List (Item Float) → List Line
  lines_of base ts [] = []
  lines_of base ts (i ∷ is) = written fl base i.name i.tags i.fields ts ++ lines_of base ts is
