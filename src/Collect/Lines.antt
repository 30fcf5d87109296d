-- ===== src/Collect/Lines.antt =====
-- What the reader makes of a snapshot.
use mathlib.Core.List.{append_assoc, append-nil}
use observant_agent.Base.{
  List, [], ◌∷◌, ◌++◌, map, Option, none, some, ◌≡◌, refl, ◌∙◌, ap, subst, sym, arith, All,
  All-append,
}
use observant_agent.Base.Clock.{Time}
use observant_agent.Collect.Metrics.{Snapshot}
use observant_agent.Collect.Snapshot.{encode}
use observant_agent.Collect.Documented.{snapshot_lines, items-snapshot_lines}
use observant_agent.Collect.Items.{
  Item, ItemUnbroken, each, add_all, cpu_item, load_item, mem_item, disk_item, disk_io_item,
  net_item, host_item, items, encode-items, lines_of,
}
use observant_agent.Lineproto.Encoder.{Encoder, point}
use observant_agent.Lineproto.Point.{Floats}
use observant_agent.Lineproto.Reader.{Line, ReadsAs}
use observant_agent.Lineproto.Render.{point-base}
use observant_agent.Lineproto.RoundTrip.{FormatsNumbers, TagUnbroken, written, ReadsAs-point}

All-each :
    {A B : Type 0} (P : B → Type 0) (f : A → B) (o : Option A)
    → ((a : A) → P (f a))
    → All P (each f o)
All-each P f none h = tt
All-each P f (some a) h = (h a, tt)

All-map_each :
    {A B : Type 0} (P : B → Type 0) (f : A → B) (xs : List A)
    → ((a : A) → P (f a))
    → All P (map f xs)
All-map_each P f [] h = tt
All-map_each P f (x ∷ xs) h = (h x, All-map_each P f xs h)

module _ (fl : Floats) where
  items-Unbroken : (s : Snapshot fl.Float) → All ItemUnbroken (items fl s)
  items-Unbroken s =
      All-append ItemUnbroken (each (cpu_item fl) s.cpu) _
        (All-each ItemUnbroken (cpu_item fl) s.cpu (λ v. ground arith))
        (All-append ItemUnbroken (each (load_item fl) s.load) _
          (All-each ItemUnbroken (load_item fl) s.load (λ v. ground arith))
          (All-append ItemUnbroken (each (mem_item fl) s.mem) _
            (All-each ItemUnbroken (mem_item fl) s.mem (λ v. ground arith))
            (All-append ItemUnbroken (map (disk_item fl) s.disks) _
              (All-map_each ItemUnbroken (disk_item fl) s.disks (λ v. ground arith))
              (All-append ItemUnbroken (map (disk_io_item fl) s.disk_io) _
                (All-map_each ItemUnbroken (disk_io_item fl) s.disk_io (λ v. ground arith))
                (All-append ItemUnbroken (map (net_item fl) s.nets) _
                  (All-map_each ItemUnbroken (net_item fl) s.nets (λ v. ground arith))
                  (All-each ItemUnbroken (host_item fl) s.host (λ v. ground arith)))))))

  add_all-lines :
      (e : Encoder) (ts : Time) (is : List (Item fl.Float)) (lines : List Line)
      → FormatsNumbers fl
      → ReadsAs e.buf lines
      → All TagUnbroken e.base
      → All ItemUnbroken is
      → All (λ i. All TagUnbroken i.tags) is
      → ReadsAs (add_all fl e ts is).buf (lines ++ lines_of fl e.base ts is)
  add_all-lines e ts [] lines laws r b u t = rw append-nil r
  add_all-lines e ts (i ∷ is) lines laws r b (named, u) (tagged, t) =
      let e1 : Encoder = point fl e i.name i.tags i.fields ts in
      let line : List Line = written fl e.base i.name i.tags i.fields ts in
      let same = point-base fl e i.name i.tags i.fields ts in
      let first : ReadsAs e1.buf (lines ++ line) =
        ReadsAs-point fl laws e lines i.name i.tags i.fields ts r named.name_unbroken b tagged
          named.fields_unbroken in
      let reads = add_all-lines e1 ts is (lines ++ line) laws first (rw same b) u t in
      rw⁻¹ (append_assoc lines line (lines_of fl e.base ts is)) (
        subst
          (λ base. ReadsAs (add_all fl e1 ts is).buf ((lines ++ line) ++ lines_of fl base ts is))
          same reads)

  -- The reader accepts a batch after `Snapshot.Encode` and reads, behind the lines that were there,
  -- those that METRICS.md describes, with the measurement, the tags and the fields of its tables: of
  -- the processor, the load, the memory, each disk, each block device, each interface and the host,
  -- where they are there, in this order and with the time of the snapshot. A float that is no number
  -- is left out, a tag without a value too, and so is a line without a field. Conditions: FormatFloat
  -- prints a finite float without delimiters, the reader accepts what the buffer holds, and no tag
  -- holds a line break.
  pub encode-reads :
      (e : Encoder) (s : Snapshot fl.Float) (lines : List Line)
      → FormatsNumbers fl
      → ReadsAs e.buf lines
      → All TagUnbroken e.base
      → All (λ i. All TagUnbroken i.tags) (items fl s)
      → ReadsAs (encode fl e s).buf (lines ++ snapshot_lines fl e.base s)
  encode-reads e s lines laws r b t =
      subst (λ ls. ReadsAs (encode fl e s).buf (lines ++ ls)) (items-snapshot_lines fl e.base s)
        (subst (λ e1. ReadsAs e1.buf (lines ++ lines_of fl e.base s.time (items fl s)))
          (sym (encode-items fl e s))
          (add_all-lines e s.time (items fl s) lines laws r b (items-Unbroken s) t))

  add_all-base :
      (e : Encoder) (ts : Time) (is : List (Item fl.Float)) → (add_all fl e ts is).base ≡ e.base
  add_all-base e ts [] = refl
  add_all-base e ts (i ∷ is) =
      add_all-base (point fl e i.name i.tags i.fields ts) ts is
      ∙ point-base fl e i.name i.tags i.fields ts

  -- The base tags stay.
  pub encode-base : (e : Encoder) (s : Snapshot fl.Float) → (encode fl e s).base ≡ e.base
  encode-base e s =
      ap (λ (e1 : Encoder). e1.base) (encode-items fl e s) ∙ add_all-base e s.time (items fl s)
