-- ===== src/Tunnel/Reassembly.antt =====
-- slp_tunnel.cpp: the reassembly of fragments, FindFragEntry and OnFrag. A tick is the system tick's count.
use sys_slp_client.Base.{
  ℕ, zero, suc, ◌+◌, ◌-◌, ◌*◌, ◌^◌, Bool, true, false, not, ◌&&◌, ◌||◌, ◌==◌, ltb, leb,
  if◌then◌else◌, Option, none, some, List, [], ◌∷◌, ◌++◌, map, length, get_or, take, drop,
  replicate, u8, bit_and, bit_or,
}
use sys_slp_client.Ring.{modify}
use sys_slp_client.Tunnel.Codec.{byte, rd16be, rd32be, slp_mtu}

abbrev pub max_frag_entries : ℕ
max_frag_entries = 4

abbrev pub max_total_parts : ℕ
max_total_parts = 4

-- `sizeof(e->data)`.
abbrev pub frag_data_size : ℕ
frag_data_size = 5600

pub record FragEntry : Type 0 where
  pub active : Bool
  pub src : ℕ
  pub id : ℕ
  pub seen : ℕ
  pub lens : List ℕ
  pub pmtu : ℕ
  pub total_parts : ℕ
  pub last_tick : ℕ
  pub buffer : List ℕ

-- What `memset` leaves.
abbrev pub zero_entry : FragEntry
zero_entry = record {
  active = false;
  src = 0;
  id = 0;
  seen = 0;
  lens = replicate max_total_parts 0;
  pmtu = 0;
  total_parts = 0;
  last_tick = 0;
  buffer = replicate frag_data_size 0;
}

abbrev pub frag_timeout_ticks : ℕ
frag_timeout_ticks = 19200000

unfoldable pub expire : ℕ → FragEntry → FragEntry
expire now e =
    if e.active && ltb frag_timeout_ticks (now - e.last_tick)
    then record e { active = false }
    else e

unfoldable pub holds : ℕ → ℕ → FragEntry → Bool
holds src id e = e.active && e.src == src && e.id == id

-- The first entry for a datagram; `i` is its place.
unfoldable pub find_held : ℕ → ℕ → ℕ → List FragEntry → Option ℕ
unfolding holds
find_held src id i [] = none
find_held src id i (e ∷ es) =
    let later = find_held src id (i + 1) es in if holds src id e then some i else later

-- A free entry, or the one that was updated longest ago.
unfoldable pub find_reuse : ℕ → ℕ → Option ℕ → List FragEntry → Option ℕ
find_reuse i oldest reuse [] = reuse
find_reuse i oldest reuse (e ∷ es) =
    let older = find_reuse (i + 1) e.last_tick (some i) es in
    let same = find_reuse (i + 1) oldest reuse es in
    if not e.active then some i else if ltb e.last_tick oldest then older else same

abbrev pub int64_max : ℕ
int64_max = 9223372036854775807

-- An entry for a new datagram.
unfoldable pub fresh_entry : ℕ → ℕ → ℕ → FragEntry
fresh_entry now src id = record zero_entry { active = true; src = src; id = id; last_tick = now }

-- What `FindFragEntry` does once it has looked for the datagram's entry.
unfoldable pub reuse_entry : ℕ → ℕ → ℕ → Option ℕ → List FragEntry → List FragEntry
unfolding fresh_entry
reuse_entry now src id none es = es
reuse_entry now src id (some i) es = modify es i (λ _. fresh_entry now src id)

unfoldable pub place_of : ℕ → ℕ → List FragEntry → Option ℕ
unfolding find_held find_reuse
place_of src id es = elim (find_held src id 0 es) [
  | some i ↦ some i
  | none ↦ find_reuse 0 int64_max none es
]

unfoldable pub prepared : ℕ → ℕ → ℕ → List FragEntry → List FragEntry
unfolding find_held find_reuse reuse_entry
prepared now src id es = elim (find_held src id 0 es) [
  | some i ↦ es
  | none ↦ reuse_entry now src id (find_reuse 0 int64_max none es) es
]

-- The entry's place, and the table that it stands in.
unfoldable pub find_frag_entry : ℕ → ℕ → ℕ → List FragEntry → Option ℕ × List FragEntry
unfolding expire place_of prepared
find_frag_entry now src id es =
    let live = map (expire now) es in (place_of src id live, prepared now src id live)

-- A fragment's fields, with `total` parts and a stride of `pmtu`.
pub record Fragment : Type 0 where
  pub src : ℕ
  pub id : ℕ
  pub part : ℕ
  pub total : ℕ
  pub pmtu : ℕ
  pub chunk : List ℕ

-- The guards of `OnFrag` before it touches the table.
unfoldable pub parse_frag : List ℕ → Option Fragment
unfolding rd16be rd32be
parse_frag payload =
    let part = byte payload 10 in
    let total = byte payload 11 in
    let clen = rd16be payload 12 in
    let pmtu = rd16be payload 14 in
    if ltb (length payload) 16
    then none
    else if total == 0 || leb total part || ltb max_total_parts total
    then none
    else if pmtu == 0 || ltb slp_mtu pmtu
    then none
    else if ltb pmtu clen || ltb (length payload) (16 + clen)
    then none
    else some (record {
      src = rd32be payload 0;
      id = rd16be payload 8;
      part = part;
      total = total;
      pmtu = pmtu;
      chunk = take clen (drop 16 payload);
    })

-- `memcpy(data + off, src, n)`; past the end of the buffer it would grow.
unfoldable pub copy_at : List ℕ → ℕ → List ℕ → List ℕ
copy_at buffer off bytes = take off buffer ++ bytes ++ drop (off + length bytes) buffer

-- `lens[i] = v`; past the end the list would grow, as the buffer would.
unfoldable pub write_len : List ℕ → ℕ → ℕ → List ℕ
write_len [] zero v = v ∷ []
write_len [] (suc i) v = 0 ∷ write_len [] i v
write_len (_ ∷ ls) zero v = v ∷ ls
write_len (l ∷ ls) (suc i) v = l ∷ write_len ls i v

-- The first part of a datagram fixes the geometry.
unfoldable pub fix_geometry : Fragment → FragEntry → FragEntry
fix_geometry f e = if e.seen == 0 then record e { pmtu = f.pmtu; total_parts = f.total } else e

-- The part written into its place.
unfoldable pub write_part : ℕ → Fragment → FragEntry → FragEntry
unfolding copy_at write_len
write_part later f e = record e {
  buffer = copy_at e.buffer (f.part * f.pmtu) f.chunk;
  lens = write_len e.lens f.part (length f.chunk);
  seen = u8 (bit_or e.seen (2 ^ f.part));
  last_tick = later;
}

unfoldable pub rebuilt_size : Fragment → FragEntry → ℕ
rebuilt_size f e = (f.total - 1) * f.pmtu + get_or e.lens (f.total - 1) 0

-- The packet, if this was the last part that was missing.
unfoldable pub complete : Fragment → FragEntry → FragEntry × Option (List ℕ)
unfolding rebuilt_size
complete f e =
    let rebuilt = rebuilt_size f e in
    if e.seen == u8 (2 ^ f.total - 1)
    then (
      record e { active = false },
      if leb rebuilt frag_data_size then some (take rebuilt e.buffer) else none,
    )
    else (e, none)

unfoldable pub store_part : ℕ → Fragment → FragEntry → FragEntry × Option (List ℕ)
unfolding fix_geometry write_part complete
store_part later f e =
    let e' = fix_geometry f e in
    if not (e.seen == 0) && (not (e.pmtu == f.pmtu) || not (e.total_parts == f.total))
    then (e, none)
    else if not (bit_and e'.seen (2 ^ f.part) == 0)
    then (e', none)
    else complete f (write_part later f e')

-- The part stored in the entry at a place.
unfoldable pub store_at :
    ℕ → Fragment → Option ℕ × List FragEntry → List FragEntry × Option (List ℕ)
unfolding store_part
store_at later f (none, es) = (es, none)
store_at later f (some i, es) =
    let out = store_part later f (get_or es i zero_entry) in (modify es i (λ _. out.0), out.1)

-- `now` and `later` are the two ticks that are read; the packet that is handed to `ProcessIpv4`, if any.
unfoldable pub on_parsed :
    ℕ → ℕ → Option Fragment → List FragEntry → List FragEntry × Option (List ℕ)
unfolding find_frag_entry store_at
on_parsed now later none es = (es, none)
on_parsed now later (some f) es = store_at later f (find_frag_entry now f.src f.id es)

unfoldable pub on_frag : ℕ → ℕ → List ℕ → List FragEntry → List FragEntry × Option (List ℕ)
unfolding parse_frag on_parsed
on_frag now later payload es = on_parsed now later (parse_frag payload) es
